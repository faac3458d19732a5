-- ===== src/Replica/Progress.antt =====
-- With reliable services, what may be done to an object succeeds, and a client with room takes what
-- is published.
use synk.Base.{
  ◌<◌, Text, Bool, true, false, none, some, List, [], ◌∷◌, length, ◌≡◌, ◌≢◌, ap, ◌∙◌, Bool-cases,
  inl, inr, arith, text_eq,
}
use synk.Base.Dict
use synk.Result.{IsOk, returns}
use synk.Object.{Object, IsObject}
use synk.Service.{Service, IsService, IsReliable}
use synk.Wire.Message.{IsObjectText, marshal_add-IsObjectText, marshal_rem-IsObjectText}
use synk.Mongo.{Bson, Session, prepare}
use synk.Mongo.Create.{create_total}
use synk.Mongo.Success.{modify_total}
use synk.Mongo.Delete.{delete_total}
use synk.Client.{SynkClient, buffer_length}
use synk.Client.Receive.{receive_plain}
use synk.Client.Delivery.{
  deliver, deliver-subscribed, deliver-skipped, enqueue_room, with_message, Notices-deliver,
}
use synk.Replica.Mutator.{Call, creates, modifies, deletes, Told, fresh, tells-fresh}
use synk.Replica.Delivered.{PlainFor}
use synk.Replica.Mongo.{Readable, mongo_mutator, mongo_mutator-IsMutator}
use synk.Replica.History.{Scene, Due, call}
use synk.Replica.Stored.{IsStored, StoredIn}

deliver-room :
    (channel b : Text) (client : SynkClient)
    → length client.to_web_socket < buffer_length
    → IsObjectText b
    → (next : SynkClient) × (deliver ((channel, b) ∷ []) client ≡ some next)
unfolding deliver
deliver-room channel b client room text =
    elim (Bool-cases (Dict.contains channel client.subscriptions)) [
      | inl t ↦ (
        with_message b client,
        deliver-subscribed channel b [] client _ t
            (receive_plain b client text ∙ enqueue_room b client room),
      )
      | inr f ↦ (client, deliver-skipped channel b [] client f)
    ]

module _ {O D : Type 0} (I : Object O D) where
  -- What a call publishes can be delivered to a client with room in its channel.
  Told-deliver :
      (c : Call) (o p : O) (out : List (Text × Text)) (client : SynkClient)
      → length client.to_web_socket < buffer_length
      → PlainFor I c o
      → Told I c o p out
      → (next : SynkClient) × (deliver out client ≡ some next)
  Told-deliver (creates draws) o p out client room plain told =
      let (next, e) =
        deliver-room (I.get_sub_key p) told.bytes client room
          (marshal_add-IsObjectText I.marshal _ _ told.marshalled) in
      (next, ap (λ x. deliver x client) told.publishes ∙ e)
  Told-deliver modifies o p out client room plain told =
      let (next, e, informed) = Notices-deliver I o p out client room plain.no_brace told.notices in
      (next, e)
  Told-deliver deletes o p out client room plain told =
      let (next, e) =
        deliver-room (I.get_prev_sub_key o) told.bytes client room
          (marshal_rem-IsObjectText _ _ told.marshalled) in
      (next, ap (λ x. deliver x client) told.publishes ∙ e)

module _ {O D W Doc : Type 0} (I : Object O D) (S : Service W Doc) (bson : Bson O Doc)
    (Typed : O → Type 0) (id : Text) where
  -- An object that is to be created has an `_id` that is not taken.
  abbrev pub IsFree : Call → O → W → Type 0
  IsFree (creates draws) o w = S.document (S.id_of (bson.to_doc (prepare I draws o).1)) w ≡ none
  IsFree _ o w = Unit

  module _ (law : IsObject I) (ops : IsService S) (reliable : IsReliable S)
      (marshals : (d : D) → IsOk (I.marshal d))
      (named : (o : O) → S.id_of (bson.to_doc o) ≡ I.tag_get_id o) where
    known :
        (live : Bool) (o : O) (w : W)
        → live ≡ true
        → IsStored I S bson Typed id live o w
        → S.document (I.tag_get_id o) w ≢ none
    known true o w e h = ground (arith, h.same, h.stored)
    known false o w e h = cc

    call_total :
        (c : Call) (live : Bool) (o : O) (w : W)
        → IsStored I S bson Typed id live o w
        → IsFree c o w
        → let M = mongo_mutator I S bson Typed in
          Due I id c live (call I M id c o w).1.object → (call I M id c o w).0 ≡ returns none
    call_total (creates draws) live o w stored free due =
        create_total I S bson law ops reliable marshals draws (record { object = o; world = w })
          free
    call_total modifies live o w stored free due =
        modify_total I S bson law ops reliable marshals named (record { object = o; world = w })
          (known live o w due stored)
    call_total deletes live o w stored free due =
        delete_total I S ops reliable (record { object = o; world = w }) (known live o w due stored)

    -- With reliable services, a call of MongoSynk on an object returns nil, publishes what clients
    -- are to be told of it (Told), and Receive of a client takes every message of it: Create for an
    -- object that is not there and whose `_id` is not taken, Modify and Delete for one that is
    -- there; where MongoDB holds the object as it was last resolved, the client has room in its
    -- channel, states can be marshalled, what is stored can be read back, and the key that a Modify
    -- comes from has no brace and the one that it goes to is not empty; for an object and services
    -- that keep their laws.
    pub call_delivered :
        (c : Call) (s : Scene O W)
        → length s.client.to_web_socket < buffer_length
        → StoredIn I S bson Typed id s
        → PlainFor I c s.object
        → IsFree c s.object s.world
        → Readable I S bson Typed c (record { object = s.object; world = s.world })
        → let M = mongo_mutator I S bson Typed in
          Due I id c s.live (call I M id c s.object s.world).1.object
          → let r = call I M id c s.object s.world in
            (r.0 ≡ returns none)
            × Told I c s.object r.1.object (fresh M s.world r.1.world)
            × ((next : SynkClient) × (deliver (fresh M s.world r.1.world) s.client ≡ some next))
    call_delivered c s room stored plain free typed due =
        let M = mongo_mutator I S bson Typed in
        let session : Session O W = record { object = s.object; world = s.world } in
        let ok = call_total c s.live s.object s.world stored free due in
        let told =
          tells-fresh I M (mongo_mutator-IsMutator I S bson Typed law ops) c session typed ok in
        (ok, told, Told-deliver I c s.object _ _ s.client room plain told)
