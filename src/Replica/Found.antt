-- ===== src/Replica/Found.antt =====
-- What `Load` of MongoSynk returns of an object in its life, as a browser reads it.
use synk.Base.{
  Text, Bool, true, false, none, some, Option, List, text_eq, ◌≡◌, ◌≢◌, sym, ap, subst, ◌∙◌, arith,
  if◌then◌else◌, inl, inr, map, Bool-cases,
}
use mathlib.Core.Option.{some-injective}
use synk.Base.Dict
use synk.Base.Dict.{Dict}
use synk.Result.{IsOk}
use synk.Object.{Object}
use synk.Service.{Service, In, is_in}
use synk.Mongo.{Bson, load_one}
use synk.Mongo.Load.{IsBson, IsSaved}
use synk.Client.{object_bytes}
use synk.Replica.{Script, Copy, copy_of, Reads}
use synk.Replica.Copies.{copy_in, IsOf}
use synk.Replica.Stored.{IsKept, IsStored}
use synk.Replica.Loads.{IsLoaded, Reads-others, Reads-found}

false-true : (b : Bool) → b ≡ true → b ≡ false → ⊥
false-true b h e = cc

module _ {O D W Doc : Type 0} (I : Object O D) (S : Service W Doc) (bson : Bson O Doc)
    (creator : Text → Option O) (Typed : O → Type 0) (id : Text)
    (doc : IsBson I S bson creator Typed)
    (named : (d : Doc) (o : O)
      → load_one S bson creator d ≡ some o
      → I.tag_get_id o ≡ S.id_of d) where
  -- An object of the ID comes from the document of the ID.
  document-loaded :
      (keys : List Text) (w : W) (os : List O) (o : O)
      → IsLoaded S bson creator keys w os
      → In o os
      → I.tag_get_id o ≡ id
      → (d : Doc) × (S.document id w ≡ some d)
        × (is_in (S.sub_of d) keys ≡ true)
        × (load_one S bson creator d ≡ some o)
  document-loaded keys w os o loaded at same =
      let (d, stored, key, made) = (loaded o).0 at in
      (d, subst (λ k. S.document k w ≡ some d) (sym (named d o made) ∙ same) stored, key, made)

  -- Nothing is loaded of an object that has no document.
  absent-loaded :
      (keys : List Text) (w : W) (os : List O)
      → IsLoaded S bson creator keys w os
      → S.document id w ≡ none
      → (o : O) → In o os
      → I.tag_get_id o ≢ id
  absent-loaded keys w os loaded gone o at same =
      let (d, stored, key, made) = document-loaded keys w os o loaded at same in
      ground (arith, gone, stored)

  -- What is loaded under the ID of a stored object
  kept-loaded :
      (keys : List Text) (w : W) (os : List O) (o p x : O) (h : IsKept I S bson Typed id o w)
      → load_one S bson creator (bson.to_doc h.saved) ≡ some p
      → IsLoaded S bson creator keys w os
      → In x os
      → I.tag_get_id x ≡ id
      → (x ≡ p) × (is_in (I.get_prev_sub_key o) keys ≡ true)
  kept-loaded keys w os o p x h read loaded at same =
      let (d, stored, key, made) = document-loaded keys w os x loaded at same in
      let e : d ≡ bson.to_doc h.saved = some-injective _ _ (sym stored ∙ h.stored) in
      (
        some-injective _ _ (sym made ∙ ap (load_one S bson creator) e ∙ read),
        subst (λ k. is_in k keys ≡ true)
            (ap S.sub_of e ∙ doc.sub_of-to_doc h.saved ∙ h.saved_sub ∙ h.tag_sub) key,
      )

  module _ {V : Type 0} (script : Script D V) (marshals : (d : D) → IsOk (I.marshal d))
      (keys : List Text) (subs : Dict Text Bool)
      (asked : (k : Text) → is_in k keys ≡ Dict.contains k subs) where
    abbrev pub Shows : List O → Option (Copy V) → Type 0
    Shows os c =
        Reads script (λ k. Dict.contains k subs) I.marshal id (map (object_bytes I) os) none c

    same_copy :
        (o p q : O)
        → IsSaved I q p
        → I.state q ≡ I.state o
        → I.version q ≡ I.version o
        → copy_of I script p ≡ copy_of I script o
    same_copy o p q saved state version = λ i. record {
      content = script.construct ((saved.state ∙ state) i);
      version = (saved.version ∙ version) i;
    }

    kept-Shows :
        (w : W) (os : List O) (o : O)
        → IsKept I S bson Typed id o w
        → IsLoaded S bson creator keys w os
        → Shows os (copy_in I script id subs true o)
    kept-Shows w os o h loaded =
        let (p, read, saved) = doc.load_one-to_doc h.saved h.typed in
        let copied = same_copy o p h.saved saved h.state h.version in
        let only : (x : O)
            → In x os
            → I.tag_get_id x ≡ id
            → (x ≡ p) × (is_in (I.get_prev_sub_key o) keys ≡ true) =
          λ x at same. kept-loaded keys w os o p x h read loaded at same in
        let s : Text → Bool = λ k. Dict.contains k subs in
        elim (Bool-cases (Dict.contains (I.get_prev_sub_key o) subs)) [
          | inl t ↦
              let at : In p os = (loaded p).1 (
                bson.to_doc h.saved,
                subst (λ k. S.document k w ≡ some (bson.to_doc h.saved))
                    (sym (doc.id_of-to_doc h.saved ∙ h.saved_id)) h.stored,
                ap (λ k. is_in k keys) (doc.sub_of-to_doc h.saved ∙ h.saved_sub ∙ h.tag_sub)
                    ∙ asked (I.get_prev_sub_key o)
                    ∙ t,
                read,
              ) in
              subst (Shows os) (sym (ap (λ b. if b then some (copy_of I script o) else none) t)) (
                Reads-found I script s id marshals os none (copy_of I script o) p at
                  (saved.id ∙ h.saved_id)
                  (λ x there. elim (text_eq.dec (I.tag_get_id x) id) [
                    | yes e ↦ inr (ap (copy_of I script) ((only x there e).0) ∙ copied)
                    | no n ↦ inl n
                  ]))
          | inr f ↦
              subst (Shows os) (sym (ap (λ b. if b then some (copy_of I script o) else none) f)) (
                Reads-others I script s id marshals os none (λ x there e.
                  false-true _ (sym (asked (I.get_prev_sub_key o)) ∙ (only x there e).1) f))
        ]

    pub stored-Shows :
        (w : W) (os : List O) (live : Bool) (o : O)
        → IsStored I S bson Typed id live o w
        → IsLoaded S bson creator keys w os
        → Shows os (copy_in I script id subs live o)
    stored-Shows w os true o h loaded = kept-Shows w os o h loaded
    stored-Shows w os false o h loaded =
        Reads-others I script (λ k. Dict.contains k subs) id marshals os none
          (absent-loaded keys w os loaded h)

    pub stored-IsOf :
        (live : Bool) (o : O) (w : W)
        → IsStored I S bson Typed id live o w
        → IsOf I script id live o
    stored-IsOf true o w h = h.same
    stored-IsOf false o w h = tt
