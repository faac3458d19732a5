-- ===== src/Replica/Accept.antt =====
-- What one message does to the browser's copy of the object that it is about, and to the others.
use synk.Base.{
  Text, Bool, true, Option, none, some, List, [], ◌∷◌, ◌++◌, ◌≡◌, ◌≢◌, refl, sym, ap, ◌∙◌, nat_eq,
  text_eq, if◌then◌else◌, arith,
}
use synk.Result.{Result, ok}
use synk.Object.{Object, next_version}
use synk.Wire.Json.{Json}
use synk.Wire.Message.{ModMsg}
use synk.Mongo.Notices.{mod_notice, add_notice, moved_key}
use synk.Replica.{
  Notice, added, changed, removed, text_of, Script, Copy, copy_of, IsScript, accept, Reads,
}

-- The ID in a message
abbrev pub about : {D : Type 0} → Notice D → Text
about (added m) = m.id
about (changed m) = m.id
about (removed m) = m.id

module _ {D V : Type 0} (script : Script D V) (subscribed : Text → Bool) where
  -- A message about another object changes nothing.
  pub accept-other :
      (id : Text) (n : Notice D) (mirror : Option (Copy V))
      → about n ≢ id
      → accept script subscribed id n mirror ≡ mirror
  accept-other id (added m) mirror h = ground arith
  accept-other id (changed m) none h = refl
  accept-other id (changed m) (some c) h = ground arith
  accept-other id (removed m) mirror h = ground arith

  -- A diff that is not for the version of the copy leaves the copy.
  pub accept-stale :
      (id : Text) (m : ModMsg D) (c : Copy V)
      → m.version ≢ next_version c.version
      → accept script subscribed id (changed m) (some c) ≡ some c
  accept-stale id m c h = ground arith

  -- What is read after the rest
  pub Reads-snoc :
      (marshal : D → Result Json) (id : Text) (bs : List Text) (b : Text) (n : Notice D)
      (l m : Option (Copy V))
      → Reads script subscribed marshal id bs l m
      → text_of marshal n ≡ ok b
      → Reads script subscribed marshal id (bs ++ b ∷ []) l (accept script subscribed id n m)
  Reads-snoc marshal id [] b n l m h e = (n, e, ap (accept script subscribed id n) h)
  Reads-snoc marshal id (a ∷ bs) b n l m h e = (h.0, h.1, Reads-snoc marshal id bs b n _ m h.2 e)

module _ {O D V : Type 0} (I : Object O D) (script : Script D V) (subscribed : Text → Bool) where
  -- The copy that a browser should have: of the object as it was last resolved, if the browser has
  -- subscribed to where that is.
  abbrev pub shown : O → Option (Copy V)
  shown o = if subscribed (I.get_prev_sub_key o) then some (copy_of I script o) else none

  -- The diff takes the copy of an object to that of its next version.
  pub accept-diff :
      IsScript I script
      → (o p : O) → subscribed (I.get_prev_sub_key o) ≡ true
      → I.get_sub_key o ≢ []
      → I.get_prev_sub_key p ≡ I.get_sub_key o
      → I.version p ≡ next_version (I.version o)
      → I.state p ≡ I.state (I.resolve o).1
      → accept script subscribed
          (I.tag_get_id o)
          (changed (mod_notice I o p (moved_key I o)))
          (some (copy_of I script o))
        ≡ shown p
  accept-diff law o p known named prev version state =
      let built : script.update (I.resolve o).0 (script.construct (I.state o))
          ≡ script.construct (I.state p) =
        law.update-resolve o ∙ ap script.construct (sym state) in
      let copies : copy_of I script p ≡ record {
        content = script.update (I.resolve o).0 (script.construct (I.state o));
        version = I.version p;
      } =
        λ i. record { content = sym built i; version = I.version p } in
      ground arith

  -- The whole object
  pub accept-whole :
      (o p : O)
      → subscribed (I.get_sub_key o) ≡ true
      → I.get_prev_sub_key p ≡ I.get_sub_key o
      → (id : Text) → I.tag_get_id p ≡ id
      → (mirror : Option (Copy V))
      → accept script subscribed id (added (add_notice I o p)) mirror ≡ shown p
  accept-whole o p known prev id e mirror = rw (prev, known, e) (ground arith)
