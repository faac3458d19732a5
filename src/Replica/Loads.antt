-- ===== src/Replica/Loads.antt =====
-- From `Load` of MongoSynk to the browser's copy: a browser that subscribes has every object that
-- it should have, and no other.
use synk.Base.{
  true, ◌↔◌, Text, Bool, some, Option, List, [], ◌∷◌, ◌++◌, text_eq, ◌≡◌, ◌≢◌, refl, sym, ap, subst,
  ◌∙◌, arith, ◌⊎◌, inl, inr, map,
}
use synk.Result.{Result, ok, err, or_nil, IsOk}
use synk.Wire.Json.{Json}
use synk.Wire.Message.{marshal_add, marshal_add-IsOk}
use synk.Service.{Service, In, is_in}
use synk.Mongo.{Bson, load_one}
use synk.Object.{Object}
use synk.Mongo.Create.{announce}
use synk.Client.{object_bytes}
use synk.Replica.{added, Script, Copy, copy_of, Reads}
use synk.Replica.Accept.{accept-other}

module _ {D V : Type 0} (script : Script D V) (subscribed : Text → Bool) (marshal : D → Result Json)
    (id : Text) where
  pub Reads-append :
      (as' bs : List Text) (l m n : Option (Copy V))
      → Reads script subscribed marshal id as' l m
      → Reads script subscribed marshal id bs m n
      → Reads script subscribed marshal id (as' ++ bs) l n
  Reads-append [] bs l m n h rest =
      subst (λ c. Reads script subscribed marshal id bs c n) (sym h) rest
  Reads-append (a ∷ as') bs l m n h rest = (h.0, h.1, Reads-append as' bs _ m n h.2 rest)

module _ {O D V : Type 0} (I : Object O D) (script : Script D V) (subscribed : Text → Bool)
    (id : Text) (marshals : (d : D) → IsOk (I.marshal d)) where
  -- The message that shows a loaded object
  object_bytes-announce : (o : O) → marshal_add I.marshal (announce I o) ≡ ok (object_bytes I o)
  unfolding object_bytes
  object_bytes-announce o =
      is_ok (marshal_add I.marshal (announce I o))
        (marshal_add-IsOk I.marshal (announce I o) (marshals (I.state o)))
    where
      is_ok : (r : Result Text) → IsOk r → r ≡ ok (or_nil r)
      is_ok (ok a) h = refl
      is_ok (err e) h = absurd h

  -- Objects of other IDs
  pub Reads-others :
      (os : List O) (m : Option (Copy V))
      → ((o : O) → In o os → I.tag_get_id o ≢ id)
      → Reads script subscribed I.marshal id (map (object_bytes I) os) m m
  Reads-others [] m h = refl
  Reads-others (o ∷ os) m h = (
    added (announce I o),
    object_bytes-announce o,
    subst (λ c. Reads script subscribed I.marshal id (map (object_bytes I) os) c m)
        (sym (accept-other script subscribed id (added (announce I o)) m (h o (inl refl))))
        (Reads-others os m (λ p at. h p (inr at))),
  )

  -- The object of the ID, however often it comes
  Reads-again :
      (os : List O) (c : Copy V)
      → ((o : O) → In o os → (I.tag_get_id o ≢ id) ⊎ (copy_of I script o ≡ c))
      → Reads script subscribed I.marshal id (map (object_bytes I) os) (some c) (some c)
  Reads-again [] c h = refl
  Reads-again (o ∷ os) c h = (
    added (announce I o),
    object_bytes-announce o,
    subst (λ x. Reads script subscribed I.marshal id (map (object_bytes I) os) x (some c))
        (elim (h o (inl refl)) [
          | inl n ↦ sym (accept-other script subscribed id (added (announce I o)) (some c) n)
          | inr e ↦ ground (arith, e)
        ])
        (Reads-again os c (λ p at. h p (inr at))),
  )

  pub Reads-found :
      (os : List O) (m : Option (Copy V)) (c : Copy V) (o : O)
      → In o os
      → I.tag_get_id o ≡ id
      → ((p : O) → In p os → (I.tag_get_id p ≢ id) ⊎ (copy_of I script p ≡ c))
      → Reads script subscribed I.marshal id (map (object_bytes I) os) m (some c)
  Reads-found [] m c o at same h = absurd at
  Reads-found (x ∷ os) m c o at same h = elim (text_eq.dec (I.tag_get_id x) id) [
    | yes e ↦ (
      added (announce I x),
      object_bytes-announce x,
      subst (λ y. Reads script subscribed I.marshal id (map (object_bytes I) os) y (some c))
          (elim (h x (inl refl)) [ inl n ↦ absurd (n e) | inr copied ↦ ground (arith, copied, e) ])
          (Reads-again os c (λ p there. h p (inr there))),
    )
    | no n ↦ (
      added (announce I x),
      object_bytes-announce x,
      subst (λ y. Reads script subscribed I.marshal id (map (object_bytes I) os) y (some c))
          (sym (accept-other script subscribed id (added (announce I x)) m n))
          (Reads-found os m c o
            (elim at [ inl e ↦ absurd (n (ap I.tag_get_id e ∙ same)) | inr there ↦ there ]) same
            (λ p there. h p (inr there))),
    )
  ]

module _ {O W Doc : Type 0} (S : Service W Doc) (bson : Bson O Doc)
    (creator : Text → Option O) where
  -- What Load returns
  abbrev pub IsLoaded : List Text → W → List O → Type 0
  IsLoaded keys w os =
      (o : O)
      → In o os ↔ (
          (d : Doc) × (S.document (S.id_of d) w ≡ some d)
          × (is_in (S.sub_of d) keys ≡ true)
          × (load_one S bson creator d ≡ some o))
