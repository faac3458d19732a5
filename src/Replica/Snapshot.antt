-- ===== src/Replica/Snapshot.antt =====
-- A browser that subscribes while an object changes: it loads the object at some moment, and then
-- reads all the messages since it subscribed, of which some are older than what it has loaded.
use synk.Base.{
  ℕ, ◌^◌, ◌<◌, Text, Bool, true, false, Option, none, some, ◌++◌, ◌≡◌, refl, sym, subst, text_eq,
  if◌then◌else◌, inl, inr,
}
use synk.Base.Dict
use synk.Base.Dict.{Dict}
use synk.Object.{Object, IsObject}
use synk.Mongo.{Session}
use synk.Replica.{Script, copy_of, Copy, IsScript, Reads}
use synk.Replica.Mutator.{Call, creates, modifies, deletes, Mutator, IsMutator, tells-fresh, fresh}
use synk.Replica.Delivered.{subscribed_by, PlainFor, Advances, Told-other}
use synk.Result.{returns}
use synk.Client.{SynkClient}
use synk.Client.Delivery.{deliver}
use synk.Replica.Versions.{modified, KeptBy, Kept, NotFor, NoneFor, NoneFor-version}
use synk.Replica.History.{
  Scene, Due, live_after, Step, edits, prepares, calls, calls_other, writes, History, now, later,
  call,
}
use synk.Replica.Copies.{
  copy_in, IsOf, IsMirrored, call-IsOf, same-copy_in, same-IsOf, prepared-copy_in, prepared-IsOf,
}
use synk.Replica.Mirrored.{call-Advances}
use synk.Replica.Lagging.{
  HasVersion, IsLagging, IsOlder, delivered, Lags-Next, same-IsLagging, written, call-Next,
}

copy-HasVersion :
    {V : Type 0} (live known : Bool) (c : Copy V)
    → HasVersion (if live then (if known then some c else none) else none) c.version
copy-HasVersion true true c = refl
copy-HasVersion true false c = tt
copy-HasVersion false known c = tt

module _ {O D V W : Type 0} (I : Object O D) (script : Script D V) (M : Mutator O W) (id : Text)
    (law : IsObject I) (scripted : IsScript I script) (ops : IsMutator I M) where
  NotFor-IsOlder :
      (v : ℕ) (s t : Scene O W) (c : Call) (next : SynkClient)
      (allowed : M.Allowed c (record { object = s.object; world = s.world }))
      (plain : PlainFor I c s.object)
      (due : Due I id c s.live (call I M id c s.object s.world).1.object)
      (ok : (call I M id c s.object s.world).0 ≡ returns none)
      (got : deliver (fresh M s.world (call I M id c s.object s.world).1.world) s.client
        ≡ some next)
      (e : t ≡ record s {
        object = (call I M id c s.object s.world).1.object;
        live = live_after I c;
        world = (call I M id c s.object s.world).1.world;
        client = next;
      })
      → KeptBy I M id {s = s} {t = t} (calls c next allowed plain due ok got e)
      → NotFor I M id ops v s t (calls c next allowed plain due ok got e)
      → IsOlder I script id c v (call I M id c s.object s.world).1.object
  NotFor-IsOlder v s t (creates draws) next allowed plain due ok got e kept older = tt
  NotFor-IsOlder v s t modifies next allowed plain due ok got e kept older = older
  NotFor-IsOlder v s t deletes next allowed plain due ok got e kept older = kept

  Step-IsLagging :
      (l : Option (Copy V)) (v : ℕ) (s t : Scene O W) (step : Step I M id s t)
      → HasVersion l v
      → KeptBy I M id step
      → NotFor I M id ops v s t step
      → IsLagging I script id l s
      → IsLagging I script id l t
  Step-IsLagging l v s t (edits p live edited e) loaded kept older h =
      let subs = s.client.subscriptions in
      subst (IsLagging I script id l) (sym e) (
        same-IsLagging I script id l s p (same-IsOf I script id s.live s.object p edited h.same)
          (same-copy_in I script id subs s.live s.object p live edited) h)
  Step-IsLagging l v s t (prepares p gone e) loaded kept older h =
      let subs = s.client.subscriptions in
      subst (IsLagging I script id l) (sym e) (
        same-IsLagging I script id l s p (prepared-IsOf I script id s.live p gone)
          (prepared-copy_in I script id subs s.live s.object p gone) h)
  Step-IsLagging l v s t (calls c next allowed plain due ok got e) loaded kept older h =
      let session : Session O W = record { object = s.object; world = s.world } in
      let told = tells-fresh I M ops c session allowed ok in
      let p = (call I M id c s.object s.world).1.object in
      let behind = NotFor-IsOlder v s t c next allowed plain due ok got e kept older in
      subst (IsLagging I script id l) (sym e) (
        delivered I script id l s p (live_after I c) _ next h
          (call-IsOf I script id c s.object p s.live _ due h.same told)
          (Lags-Next I script id l s p (live_after I c) next h.copy h.lags
            (call-Next I script id law scripted l v s c p _ next loaded plain due h.same told behind
              got)
            (call-Advances I script id law scripted c s.object p s.live _ s.client next plain due
              h.same told got)))
  Step-IsLagging l v s t (calls_other c q next allowed plain other ok got e) loaded kept older h =
      let session : Session O W = record { object = q; world = s.world } in
      let told = tells-fresh I M ops c session allowed ok in
      let still : (m : Option (Copy V)) → Advances I script id s.client next m m =
        λ m. Told-other I script c q _ _ id s.client next m plain told other got in
      subst (IsLagging I script id l) (sym e) (
        delivered I script id l s s.object s.live _ next h h.same (
          Lags-Next I script id l s s.object s.live next h.copy h.lags (l, still l, inl refl)
            (still _)))
  Step-IsLagging l v s t (writes b bs first e) loaded kept older h =
      subst (IsLagging I script id l) (sym e) (written I script id l s b bs first h)

  History-IsLagging :
      (l : Option (Copy V)) (v : ℕ) (s t : Scene O W) (history : History I M id s t)
      → HasVersion l v
      → Kept I M id history
      → NoneFor I M id ops v s t history
      → IsLagging I script id l s
      → IsLagging I script id l t
  History-IsLagging l v s _ (now _) loaded kept older h = h
  History-IsLagging l v s t (later _ m _ step rest) loaded kept older h =
      History-IsLagging l v m t rest loaded kept.1 older.1
        (Step-IsLagging l v s m step loaded kept.0 older.0 h)

  copy_in-HasVersion :
      (subs : Dict Text Bool) (live : Bool) (o : O)
      → HasVersion (copy_in I script id subs live o) (I.version o)
  copy_in-HasVersion subs live o =
      copy-HasVersion live (Dict.contains (I.get_prev_sub_key o) subs) (copy_of I script o)

  -- The object is changed fewer than 2 ^ 64 times, and is not deleted, after a browser has
  -- subscribed and before it is loaded: all the messages since, for a browser that has the copy
  -- that is loaded, leave it with that copy, if what waited in its client's channel when it
  -- subscribed is not about the object.
  pub loads-IsMirrored :
      (s t : Scene O W) (before : History I M id s t)
      → Kept I M id before
      → modified I M id before < 2 ^ 64
      → IsOf I script id s.live s.object
      → ((m : Option (Copy V))
          → Reads script
              (subscribed_by s.client)
              I.marshal
              id
              (s.sent ++ s.client.to_web_socket)
              m
              m)
      → IsMirrored I script id (copy_in I script id t.client.subscriptions t.live t.object) t
  loads-IsMirrored s t before kept few same quiet =
      let l = copy_in I script id t.client.subscriptions t.live t.object in
      let start : IsLagging I script id l s = record {
        same = same;
        copy = l;
        read = quiet l;
        lags = inl refl;
      } in
      let h =
        History-IsLagging l (I.version t.object) s t before
          (copy_in-HasVersion t.client.subscriptions t.live t.object) kept
          (NoneFor-version I M id ops s t before kept few) start in
      record {
        same = h.same;
        read =
            subst
              (Reads script (subscribed_by t.client) I.marshal id (t.sent ++ t.client.to_web_socket)
                l)
              (elim h.lags [ inl e ↦ e | inr e ↦ e ]) h.read;
      }
