-- ===== src/Replica/Subscribe.antt =====
-- A browser that subscribes to keys: the objects that `Load` of MongoSynk returns, and then the
-- messages since it subscribed, leave it with the copy that it should have.
use synk.Base.{
  Text, Bool, none, some, Option, List, [], ◌++◌, text_eq, ◌≡◌, refl, sym, subst, ◌∙◌, map, ◌<◌,
  ◌^◌,
}
use mathlib.Core.Path.{ap₂}
use synk.Base.Dict
use synk.Base.Dict.{Dict}
use synk.Result.{ok_inj, ok, IsOk, returns}
use synk.Object.{Object, IsObject}
use synk.Service.{Service, IsService, is_in}
use synk.Mongo.{Bson, load, load_one}
use synk.Mongo.Load.{IsBson, load_lem}
use synk.Client.{object_bytes}
use synk.Replica.{Script, Copy, IsScript, Reads}
use synk.Replica.Delivered.{subscribed_by}
use synk.Replica.History.{History-subscriptions, Scene, History}
use synk.Replica.Copies.{copy_in, IsMirrored}
use synk.Replica.Mirrored.{History-IsMirrored}
use synk.Replica.Versions.{modified, Kept}
use synk.Replica.Snapshot.{loads-IsMirrored}
use synk.Replica.Mongo.{mongo_mutator, mongo_mutator-IsMutator}
use synk.Replica.Stored.{StoredIn, History-StoredIn}
use synk.Replica.Loads.{IsLoaded, Reads-append}
use synk.Replica.Found.{stored-Shows, stored-IsOf}

-- The client has written the objects to the web socket.
abbrev pub shows : {O D W : Type 0} → Object O D → List O → Scene O W → Scene O W
shows I os t = record t { sent = t.sent ++ map (object_bytes I) os }

module _ {O D W Doc : Type 0} (I : Object O D) (S : Service W Doc) (bson : Bson O Doc)
    (creator : Text → Option O) (Typed : O → Type 0) (id : Text)
    (doc : IsBson I S bson creator Typed)
    (named : (d : Doc) (o : O)
      → load_one S bson creator d ≡ some o
      → I.tag_get_id o ≡ S.id_of d) where
  module _ {V : Type 0} (script : Script D V) (marshals : (d : D) → IsOk (I.marshal d))
      (keys : List Text) (subs : Dict Text Bool)
      (asked : (k : Text) → is_in k keys ≡ Dict.contains k subs) where
    shows-IsMirrored :
        (os : List O) (t : Scene O W)
        → t.sent ≡ []
        → t.client.subscriptions ≡ subs
        → IsMirrored I script id (copy_in I script id t.client.subscriptions t.live t.object) t
        → IsLoaded S bson creator keys t.world os
        → StoredIn I S bson Typed id t
        → IsMirrored I script id none (shows I os t)
    shows-IsMirrored os t clear asks h loaded stored =
        let l = copy_in I script id t.client.subscriptions t.live t.object in
        let queue = t.client.to_web_socket in
        let s = subscribed_by t.client in
        let adds = map (object_bytes I) os in
        let first : Reads script s I.marshal id adds none l =
          subst
            (λ x.
              Reads script (λ k. Dict.contains k x) I.marshal id adds none
                (copy_in I script id x t.live t.object))
            (sym asks)
            (stored-Shows I S bson creator Typed id doc named script marshals keys subs asked
              t.world os t.live t.object stored loaded) in
        let rest : Reads script s I.marshal id queue l l =
          subst (λ x. Reads script s I.marshal id (x ++ queue) l l) clear h.read in
        record {
          same = h.same;
          read =
              subst (λ x. Reads script s I.marshal id ((x ++ adds) ++ queue) none l) (sym clear)
                (Reads-append script s I.marshal id adds queue none l l first rest);
        }

    -- A browser that has no copy of an object asks for keys, which are then all that its client
    -- has subscribed to, while nothing waits in the client's channel; then the object and others
    -- are created and changed, the object fewer than 2 ^ 64 times, and the object is not deleted
    -- and the client writes nothing; Load is called, and the client writes the objects; and
    -- anything goes on. Once the browser has read all that the client has written and has in its
    -- channel, it has the object as it was last resolved if the object is there and the client
    -- has subscribed to where it is, and else no copy. This holds where each call returns nil;
    -- states can be marshalled, no key from which an object is modified has a brace and none that
    -- it goes to is empty; MongoDB has the object at first if it is there, and what is stored can
    -- be read back; and the object, the services, the BSON and the browser's script keep their
    -- laws.
    pub subscribes-IsMirrored :
        IsObject I
        → IsService S
        → IsScript I script
        → let M = mongo_mutator I S bson Typed in
          (s t : Scene O W) (before : History I M id s t)
          → Kept I M id before
          → modified I M id before < 2 ^ 64
          → StoredIn I S bson Typed id s
          → s.client.subscriptions ≡ subs
          → s.client.to_web_socket ≡ []
          → s.sent ≡ []
          → t.sent ≡ []
          → (os : List O) → (load S bson creator keys t.world).0 ≡ returns (ok os)
          → (u : Scene O W) → History I M id (shows I os t) u
          → IsMirrored I script id none u
    subscribes-IsMirrored law ops scripted s t before kept few stored asks idle clear still os found
          u after =
        let M = mongo_mutator I S bson Typed in
        let told = mongo_mutator-IsMutator I S bson Typed law ops in
        let (found_os, e, all) = load_lem S bson creator ops keys t.world (ok os) found in
        let loaded : IsLoaded S bson creator keys t.world os =
          subst (IsLoaded S bson creator keys t.world) (sym (ok_inj os found_os e)) all in
        let there = History-StoredIn I S bson Typed id law ops doc.id_of-to_doc s t before stored in
        let asked_then = History-subscriptions I M id s t before ∙ asks in
        let s_reads : (m : Option (Copy V))
            → Reads script (subscribed_by s.client) I.marshal id (s.sent ++ s.client.to_web_socket)
                m m =
          λ m.
            subst (λ x. Reads script (subscribed_by s.client) I.marshal id x m m)
              (sym (ap₂ ◌++◌ clear idle)) refl in
        let copied =
          loads-IsMirrored I script M id law scripted told s t before kept few
            (stored-IsOf I S bson creator Typed id doc named script marshals keys subs asked s.live
              s.object s.world stored)
            s_reads in
        History-IsMirrored I script id law scripted M told none (shows I os t) u after
          (shows-IsMirrored os t still asked_then copied loaded there)
