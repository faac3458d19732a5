-- ===== src/Replica/Mirrored.antt =====
-- A browser keeps the copy that it should have, whatever happens in the life of the object.
use synk.Base.{
  Text, Bool, true, false, Option, none, some, List, [], ◌∷◌, ◌++◌, ◌≡◌, sym, subst, text_eq,
  append_assoc,
}
use synk.Object.{Object, IsObject}
use synk.Mongo.{Session}
use synk.Client.{SynkClient}
use synk.Client.Delivery.{deliver}
use synk.Replica.{Script, Copy, IsScript, Reads}
use synk.Replica.Accept.{shown}
use synk.Replica.Mutator.{Call, creates, modifies, deletes, Mutator, Told, IsMutator, tells-fresh}
use synk.Replica.Delivered.{
  subscribed_by, PlainFor, Advances, Announced-Advances, Removed-Advances, Changed-Advances,
  Told-other,
}
use synk.Replica.History.{
  Scene, Due, live_after, Step, edits, prepares, calls, calls_other, writes, History, now, later,
}
use synk.Replica.Copies.{
  copy_in, IsOf, IsMirrored, Advances-IsMirrored, call-IsOf, same-copy_in, same-IsOf,
  prepared-copy_in, prepared-IsOf,
}

module _ {O D V : Type 0} (I : Object O D) (script : Script D V) (id : Text) where
  module _ (law : IsObject I) (scripted : IsScript I script) where
    -- A call on the object advances its copy.
    pub call-Advances :
        (c : Call) (o p : O) (live : Bool) (out : List (Text × Text)) (client next : SynkClient)
        → PlainFor I c o
        → Due I id c live p
        → IsOf I script id live o
        → Told I c o p out
        → deliver out client ≡ some next
        → Advances I script id client next
            (copy_in I script id client.subscriptions live o)
            (copy_in I script id client.subscriptions (live_after I c) p)
    call-Advances (creates draws) o p live out client next plain due same told h =
        rw (due.0, sym due.1) (Announced-Advances I script law o p out client next told h)
    call-Advances modifies o p false out client next plain due same told h = cc
    call-Advances modifies o p true out client next plain due same told h =
        subst
          (λ k.
            Advances I script k client next (shown I script (subscribed_by client) o)
              (shown I script (subscribed_by client) p))
          same (Changed-Advances I script scripted o p out client next plain told h)
    call-Advances deletes o p false out client next plain due same told h = cc
    call-Advances deletes o p true out client next plain due same told h =
        subst (λ k. Advances I script k client next (shown I script (subscribed_by client) o) none)
          same (Removed-Advances I script o p out client next told h)

    -- The object is another one, of which the browser should have the same copy.
    same-IsMirrored :
        {W : Type 0} (l : Option (Copy V)) (s : Scene O W) (p : O)
        → IsOf I script id s.live p
        → copy_in I script id s.client.subscriptions s.live p
          ≡ copy_in I script id s.client.subscriptions s.live s.object
        → IsMirrored I script id l s
        → IsMirrored I script id l (record s { object = p })
    same-IsMirrored l s p same e h = record {
      same = same;
      read =
          subst
            (Reads script (subscribed_by s.client) I.marshal id (s.sent ++ s.client.to_web_socket)
              l)
            (sym e) h.read;
    }

    written :
        {W : Type 0} (l : Option (Copy V)) (s : Scene O W) (b : Text) (bs : List Text)
        → s.client.to_web_socket ≡ b ∷ bs
        → IsMirrored I script id l s
        → IsMirrored I script id l
            (record s { client = record s.client { to_web_socket = bs }; sent = s.sent ++ b ∷ [] })
    written l s b bs first h = record {
      same = h.same;
      read = rw (append_assoc s.sent (b ∷ []) bs, sym first) h.read;
    }

    Step-IsMirrored :
        {W : Type 0} (M : Mutator O W)
        → IsMutator I M
        → (l : Option (Copy V)) (s t : Scene O W) → Step I M id s t
        → IsMirrored I script id l s
        → IsMirrored I script id l t
    Step-IsMirrored M ops l s t (edits p live edited e) h =
        subst (IsMirrored I script id l) (sym e) (
          same-IsMirrored l s p (same-IsOf I script id s.live s.object p edited h.same)
            (same-copy_in I script id s.client.subscriptions s.live s.object p live edited) h)
    Step-IsMirrored M ops l s t (prepares p gone e) h = subst (IsMirrored I script id l) (sym e) (
        same-IsMirrored l s p (prepared-IsOf I script id s.live p gone)
          (prepared-copy_in I script id s.client.subscriptions s.live s.object p gone) h)
    Step-IsMirrored {W = W} M ops l s t (calls c next allowed plain due ok got e) h =
        let session : Session O W = record { object = s.object; world = s.world } in
        let told = tells-fresh I M ops c session allowed ok in
        subst (IsMirrored I script id l) (sym e) (
          Advances-IsMirrored I script id l s _ _ _ next h
            (call-IsOf I script id c s.object _ s.live _ due h.same told)
            (call-Advances c s.object _ s.live _ s.client next plain due h.same told got))
    Step-IsMirrored {W = W} M ops l s t (calls_other c q next allowed plain other ok got e) h =
        let session : Session O W = record { object = q; world = s.world } in
        let told = tells-fresh I M ops c session allowed ok in
        subst (IsMirrored I script id l) (sym e) (
          Advances-IsMirrored I script id l s s.object s.live _ next h h.same
            (Told-other I script c q _ _ id s.client next _ plain told other got))
    Step-IsMirrored M ops l s t (writes b bs first e) h =
        subst (IsMirrored I script id l) (sym e) (written l s b bs first h)

    -- Whatever is done to an object and to others, by calls of a Mutator that return nil, while
    -- the client writes messages to its web socket now and then: if the browser at first has the
    -- copy of the object that it should have, once it has read all that the client has written
    -- and has in its channel, then it does so at the end. It should have the object as it was
    -- last resolved if the object is there and the client has subscribed to where it is, and else
    -- no copy; no key from which an object is modified has a brace, and none that it goes to is
    -- empty; and the object, the Mutator and the browser's script keep their laws.
    pub History-IsMirrored :
        {W : Type 0} (M : Mutator O W)
        → IsMutator I M
        → (first : Option (Copy V)) (s t : Scene O W) → History I M id s t
        → IsMirrored I script id first s
        → IsMirrored I script id first t
    History-IsMirrored M ops first s _ (now _) h = h
    History-IsMirrored M ops first s t (later _ m _ step rest) h =
        History-IsMirrored M ops first m t rest (Step-IsMirrored M ops first s m step h)
