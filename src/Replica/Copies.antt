-- ===== src/Replica/Copies.antt =====
-- The copy that a browser should have, and what a delivery and an edit make of it.
use synk.Base.{
  Text, Bool, true, false, Option, none, some, List, [], ◌∷◌, ◌++◌, ◌≡◌, refl, sym, ap, subst, ◌∙◌,
  text_eq, if◌then◌else◌, append_assoc,
}
use synk.Base.Dict
use synk.Base.Dict.{Dict}
use synk.Object.{Object}
use synk.Client.{SynkClient}
use synk.Replica.{Script, Copy, Reads}
use synk.Replica.Accept.{Reads-snoc, shown}
use synk.Replica.Mutator.{Call, creates, modifies, deletes, Told}
use synk.Replica.Delivered.{subscribed_by, Advances, silent, message}
use synk.Replica.History.{Scene, Edited, Due, live_after}

module _ {O D V : Type 0} (I : Object O D) (script : Script D V) (id : Text) where
  -- The copy that a browser with these subscriptions should have
  abbrev pub copy_in : Dict Text Bool → Bool → O → Option (Copy V)
  copy_in subs live o = if live then shown I script (λ k. Dict.contains k subs) o else none

  abbrev pub IsOf : Bool → O → Type 0
  IsOf live o = if live then I.tag_get_id o ≡ id else Unit

  -- The browser, which had the copy `first`, has what it should have once it has read all that the
  -- client has written and will write.
  pub record IsMirrored {W : Type 0} (first : Option (Copy V)) (s : Scene O W) : Type 0 where
    pub same : IsOf s.live s.object
    pub read :
        Reads script
          (subscribed_by s.client)
          I.marshal
          id
          (s.sent ++ s.client.to_web_socket)
          first
          (copy_in s.client.subscriptions s.live s.object)

  pub Advances-subscriptions :
      (client next : SynkClient) (m n : Option (Copy V))
      → Advances I script id client next m n
      → next.subscriptions ≡ client.subscriptions
  Advances-subscriptions client next m n (silent e same) = ap (λ c. c.subscriptions) e
  Advances-subscriptions client next m n (message b notice e text accepted) =
      ap (λ c. c.subscriptions) e

  Advances-Reads :
      (client next : SynkClient) (sent : List Text) (l m n : Option (Copy V))
      → Advances I script id client next m n
      → Reads script (subscribed_by client) I.marshal id (sent ++ client.to_web_socket) l m
      → Reads script (subscribed_by client) I.marshal id (sent ++ next.to_web_socket) l n
  Advances-Reads client next sent l m n (silent e same) h = rw (e, sym same) h
  Advances-Reads client next sent l m n (message b notice e text accepted) h =
      rw (e, sym (append_assoc sent client.to_web_socket (b ∷ [])), sym accepted)
        (Reads-snoc script (subscribed_by client) I.marshal id _ b notice l m h text)

  -- What a delivery makes of what will have been read
  pub delivered-Reads :
      (client next : SynkClient) (sent : List Text) (l m n : Option (Copy V))
      → Advances I script id client next m n
      → Reads script (subscribed_by client) I.marshal id (sent ++ client.to_web_socket) l m
      → Reads script (subscribed_by next) I.marshal id (sent ++ next.to_web_socket) l n
  delivered-Reads client next sent l m n step h =
      subst
        (λ subs.
          Reads script (λ k. Dict.contains k subs) I.marshal id (sent ++ next.to_web_socket) l n)
        (sym (Advances-subscriptions client next m n step))
        (Advances-Reads client next sent l m n step h)

  -- A delivery that advances the copy to where it should be keeps it so.
  pub Advances-IsMirrored :
      {W : Type 0} (l : Option (Copy V)) (s : Scene O W) (p : O) (live : Bool) (w : W)
      (next : SynkClient)
      → IsMirrored l s
      → IsOf live p
      → Advances I script id s.client next
          (copy_in s.client.subscriptions s.live s.object)
          (copy_in s.client.subscriptions live p)
      → IsMirrored l (record s { object = p; live = live; world = w; client = next })
  Advances-IsMirrored l s p live w next h same step = record {
    same = same;
    read =
        subst
          (λ subs.
            Reads script (subscribed_by next) I.marshal id (s.sent ++ next.to_web_socket) l
              (copy_in subs live p))
          (sym (Advances-subscriptions s.client next _ _ step))
          (delivered-Reads s.client next s.sent l _ _ step h.read);
  }

  pub call-IsOf :
      (c : Call) (o p : O) (live : Bool) (out : List (Text × Text))
      → Due I id c live p
      → IsOf live o
      → Told I c o p out
      → IsOf (live_after I c) p
  call-IsOf (creates draws) o p live out due same told = due.1
  call-IsOf modifies o p false out due same told = cc
  call-IsOf modifies o p true out due same told = told.id ∙ same
  call-IsOf deletes o p live out due same told = tt

  -- The copy is of what an edit keeps.
  same-copy :
      (subs : Dict Text Bool) (o p : O) → Edited I o p → copy_in subs true p ≡ copy_in subs true o
  same-copy subs o p e = rw e.prev_sub_key (
      ap (λ c. if Dict.contains (I.get_prev_sub_key o) subs then some c else none)
        (λ i. record { content = script.construct (e.state i); version = e.version i }))

  pub same-copy_in :
      (subs : Dict Text Bool) (live : Bool) (o p : O)
      → live ≡ true
      → Edited I o p
      → copy_in subs live p ≡ copy_in subs live o
  same-copy_in subs true o p h e = same-copy subs o p e
  same-copy_in subs false o p h e = refl

  pub same-IsOf : (live : Bool) (o p : O) → Edited I o p → IsOf live o → IsOf live p
  same-IsOf true o p e h = e.id ∙ h
  same-IsOf false o p e h = tt

  -- Before its creation an object may be anything.
  pub prepared-copy_in :
      (subs : Dict Text Bool) (live : Bool) (o p : O)
      → live ≡ false
      → copy_in subs live p ≡ copy_in subs live o
  prepared-copy_in subs true o p h = cc
  prepared-copy_in subs false o p h = refl

  pub prepared-IsOf : (live : Bool) (p : O) → live ≡ false → IsOf live p
  prepared-IsOf true p h = cc
  prepared-IsOf false p h = tt
