-- ===== src/Mongo/Load.antt =====
-- What `Load` finds, and that it finds what `Create` and `Modify` have stored.
use synk.Base.{
  ℕ, false, Option-cases, Text, Option, none, some, List, [], ◌∷◌, ◌++◌, ◌≡◌, true, refl, sym, ap,
  subst, ◌∙◌, ◌↔◌, ◌⊎◌, inl, inr, ◌==◌, text_eq, arith, if◌then◌else◌,
}
use synk.Result.{IsOk, or_nil, Result-cases, Result, ok, err, returns}
use synk.Object.{Object, IsObject}
use synk.Service.{Service, IsService, In, is_in}
use synk.Mongo.{Session, Bson, create, load, load_one, load_loop}
use synk.Mongo.Create.{create-Created}

pub in-append : {A : Type 0} (a : A) (xs ys : List A) → In a (xs ++ ys) ↔ (In a xs ⊎ In a ys)
in-append a [] ys = ground arith
in-append a (x ∷ xs) ys = ground (arith, in-append a xs ys)

module _ {O W Doc : Type 0} (S : Service W Doc) (bson : Bson O Doc)
    (creator : Text → Option O) where
  -- The loop makes the object from one of the documents.
  abbrev pub Yields : O → List Doc → Type 0
  Yields o raws = (d : Doc) × In d raws × (load_one S bson creator d ≡ some o)

  Yields-cons : (o : O) (raw : Doc) (raws : List Doc) → Yields o raws → Yields o (raw ∷ raws)
  Yields-cons o raw raws (d, at, made) = (d, inr at, made)

  -- What a round adds
  round_iff :
      (results : List O) (raw : Doc) (o : O)
      → In o (elim (load_one S bson creator raw) [ none ↦ results | some p ↦ results ++ p ∷ [] ])
        ↔ (In o results ⊎ (load_one S bson creator raw ≡ some o))
  round_iff results raw o = elim (Option-cases (load_one S bson creator raw)) [
    | inl e ↦ ground arith
    | inr (p, e) ↦ ground (arith, in-append o results (p ∷ []))
  ]

  load_loop-in :
      (raws : List Doc) (results : List O) (o : O)
      → In o (load_loop S bson creator results raws)
      → In o results ⊎ Yields o raws
  unfolding load_loop
  load_loop-in [] results o h = inl h
  load_loop-in (raw ∷ raws) results o h = elim (load_loop-in raws _ o h) [
    | inr y ↦ inr (Yields-cons o raw raws y)
    | inl old ↦ elim ((round_iff results raw o).0 old) [
      | inl there ↦ inl there
      | inr made ↦ inr (raw, inl refl, made)
    ]
  ]

  in-load_loop_old :
      (raws : List Doc) (results : List O) (o : O)
      → In o results
      → In o (load_loop S bson creator results raws)
  unfolding load_loop
  in-load_loop_old [] results o h = h
  in-load_loop_old (raw ∷ raws) results o h =
      in-load_loop_old raws _ o ((round_iff results raw o).1 (inl h))

  in-load_loop_new :
      (raws : List Doc) (results : List O) (o : O) (d : Doc)
      → In d raws
      → load_one S bson creator d ≡ some o
      → In o (load_loop S bson creator results raws)
  unfolding load_loop
  in-load_loop_new [] results o d at made = absurd at
  in-load_loop_new (raw ∷ raws) results o d (inl e) made =
      in-load_loop_old raws _ o
        ((round_iff results raw o).1 (inr (ap (load_one S bson creator) e ∙ made)))
  in-load_loop_new (raw ∷ raws) results o d (inr at) made = in-load_loop_new raws _ o d at made

  in-load_loop : (raws : List Doc) (o : O) → In o (load_loop S bson creator [] raws) ↔ Yields o raws
  in-load_loop raws o = (
    λ h. elim (load_loop-in raws [] o h) [ inl none_there ↦ absurd none_there | inr y ↦ y ],
    λ (d, at, made). in-load_loop_new raws [] o d at made,
  )

  -- A Load that returns has no error, and its objects are those that are made from the documents
  -- whose `sub` is one of the keys; a document of unknown type, or that cannot be read, is skipped.
  pub load_lem :
      IsService S
      → (keys : List Text) (w : W) (r : Result (List O))
      → (load S bson creator keys w).0 ≡ returns r
      → (os : List O) × (r ≡ ok os)
        × ((o : O)
            → In o os ↔ (
                (d : Doc) × (S.document (S.id_of d) w ≡ some d)
                × (is_in (S.sub_of d) keys ≡ true)
                × (load_one S bson creator d ≡ some o)))
  unfolding load
  load_lem ops keys w r h = elim (Result-cases (S.find keys w).0) [
    | inl (raws, found) ↦ (
      load_loop S bson creator [] raws,
      returned raws found,
      λ o. (
        λ there.
            let (d, at, made) = (in-load_loop raws o).0 there in
            let (stored, key) = (ops.in-find keys w raws d found).0 at in (d, stored, key, made),
        λ (d, stored, key, made).
            (in-load_loop raws o).1 (d, (ops.in-find keys w raws d found).1 (stored, key), made),
      ),
    )
    | inr (e, failed) ↦ absurd (unreturned e failed)
  ]
    where
      returned :
          (raws : List Doc)
          → (S.find keys w).0 ≡ ok raws
          → r ≡ ok (load_loop S bson creator [] raws)
      returned raws found = ground arith

      unreturned : (e : Text) → (S.find keys w).0 ≡ err e → ⊥
      unreturned e failed = ground arith

  -- Load returns if the query has no error.
  pub load_total :
      (keys : List Text) (w : W)
      → IsOk (S.find keys w).0
      → (r : Result (List O)) × ((load S bson creator keys w).0 ≡ returns r)
  unfolding load
  load_total keys w h = (
    ok (load_loop S bson creator [] (or_nil (S.find keys w).0)),
    elim (Result-cases (S.find keys w).0) [
      | inl (raws, found) ↦ ground arith
      | inr (e, failed) ↦ absurd (subst IsOk failed h)
    ],
  )

-- `p` is what a document keeps of `o`: all but the pending diff.
pub record IsSaved {O D : Type 0} (I : Object O D) (o p : O) : Type 0 where
  pub id : I.tag_get_id p ≡ I.tag_get_id o
  pub state : I.state p ≡ I.state o
  pub version : I.version p ≡ I.version o
  pub sub_key : I.get_sub_key p ≡ I.get_prev_sub_key o
  pub resolved : I.changed p ≡ false

-- What the BSON of the objects promises: a document has the object's `_id` and `sub`; and if the
-- object's tag holds its type, the document can be read into a container of that type.
pub record IsBson {O D W Doc : Type 0} (I : Object O D) (S : Service W Doc) (bson : Bson O Doc)
    (creator : Text → Option O) (Typed : O → Type 0) : Type 0 where
  pub id_of-to_doc : (o : O) → S.id_of (bson.to_doc o) ≡ I.tag_get_id o
  pub sub_of-to_doc : (o : O) → S.sub_of (bson.to_doc o) ≡ I.tag_sub o
  pub load_one-to_doc :
      (o : O)
      → Typed o
      → (p : O) × (load_one S bson creator (bson.to_doc o) ≡ some p) × IsSaved I o p

module _ {O D W Doc : Type 0} (I : Object O D) (S : Service W Doc) (bson : Bson O Doc)
    (creator : Text → Option O) (Typed : O → Type 0) (ops : IsService S)
    (doc : IsBson I S bson creator Typed) where
  -- A stored object is among those that Load returns for the key in its tag.
  pub load-stored :
      (o : O) (key : Text) (w : W) (r : Result (List O))
      → Typed o
      → S.document (I.tag_get_id o) w ≡ some (bson.to_doc o)
      → I.tag_sub o ≡ key
      → (load S bson creator (key ∷ []) w).0 ≡ returns r
      → (os : List O) × (p : O) × (r ≡ ok os) × In p os × IsSaved I o p
  load-stored o key w r typed stored tag h =
      let (os, e, all) = load_lem S bson creator ops (key ∷ []) w r h in
      let (p, made, saved) = doc.load_one-to_doc o typed in
      (
        os,
        p,
        e,
        (all p).1 (
          bson.to_doc o,
          subst (λ k. S.document k w ≡ some (bson.to_doc o)) (sym (doc.id_of-to_doc o)) stored,
          in_tag (doc.sub_of-to_doc o ∙ tag),
          made,
        ),
        saved,
      )
    where
      in_tag : S.sub_of (bson.to_doc o) ≡ key → is_in (S.sub_of (bson.to_doc o)) (key ∷ []) ≡ true
      in_tag same = ground arith

  -- After a Create that returns nil, of an object whose tag then holds its type, a Load of the
  -- object's key that returns has no error and has the object, with its id, state and version.
  pub load-create :
      IsObject I
      → (draws : ℕ → ℕ) (s : Session O W) (r : Result (List O))
      → (create I S bson draws s).0 ≡ returns none
      → let t = (create I S bson draws s).1 in
        Typed t.object
        → (load S bson creator (I.get_sub_key t.object ∷ []) t.world).0 ≡ returns r
        → (os : List O) × (p : O) × (r ≡ ok os) × In p os × IsSaved I t.object p
  load-create law draws s r created typed loaded =
      let t = (create I S bson draws s).1 in
      let done = (create-Created I S bson law ops draws s none created).1 in
      load-stored t.object (I.get_sub_key t.object) t.world r typed (stored t.object done.documents)
        done.tagged loaded
    where
      stored :
          (o : O)
          → ((k : Text)
              → S.document k (create I S bson draws s).1.world ≡ (
                  if k == S.id_of (bson.to_doc o)
                  then some (bson.to_doc o)
                  else S.document k s.world))
          → S.document (I.tag_get_id o) (create I S bson draws s).1.world ≡ some (bson.to_doc o)
      stored o documents = ground (arith, documents (I.tag_get_id o), doc.id_of-to_doc o)
