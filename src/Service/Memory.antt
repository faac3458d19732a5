-- ===== src/Service/Memory.antt =====
-- A service in memory that never fails but where MongoDB must, on a taken or an unknown `_id`.
use synk.Base.{
  Text, codes, Bool, true, false, Option, none, some, List, [], ◌∷◌, ◌++◌, ◌≡◌, refl, subst, ◌↔◌,
  ◌==◌, ◌&&◌, text_eq, if◌then◌else◌, arith,
}
use synk.Result.{ok}
use synk.Service.{Service, IsService, IsReliable, In, is_in}

module _ {Doc : Type 0} (id_of sub_of : Doc → Text) where
  pub record Memory : Type 0 where
    pub docs : List Doc
    pub log : List (Text × Text)

  unfoldable pub lookup : Text → List Doc → Option Doc
  lookup k [] = none
  lookup k (d ∷ ds) = if k == id_of d then some d else lookup k ds

  unfoldable pub erase : Text → List Doc → List Doc
  erase k [] = []
  erase k (d ∷ ds) = let rest = erase k ds in if k == id_of d then rest else d ∷ rest

  -- The documents in a subscription, the first of each `_id` that is not seen.
  unfoldable pub matching : List Text → List Text → List Doc → List Doc
  matching ks seen [] = []
  matching ks seen (d ∷ ds) =
      let skip = matching ks seen ds in
      let rest = matching ks (id_of d ∷ seen) ds in
      if is_in (id_of d) seen then skip else if is_in (sub_of d) ks then d ∷ rest else rest

  abbrev is_known : Option Doc → Bool
  is_known none = false
  is_known (some d) = true

  unfoldable pub memory : Service Memory Doc
  unfolding lookup erase matching
  memory = record {
    insert = λ d m.
        if is_known (lookup (id_of d) m.docs)
        then (some (codes "E11000 duplicate key"), m)
        else (none, record m { docs = d ∷ m.docs });
    update_id = λ k d m.
        if is_known (lookup k m.docs) && k == id_of d
        then (none, record m { docs = d ∷ erase k m.docs })
        else (some (codes "not found"), m);
    remove_id = λ k m.
        if is_known (lookup k m.docs)
        then (none, record m { docs = erase k m.docs })
        else (some (codes "not found"), m);
    find = λ ks m. (ok (matching ks [] m.docs), m);
    publish = λ c t m. (none, record m { log = m.log ++ (c, t) ∷ [] });
    document = λ k m. lookup k m.docs;
    published = λ m. m.log;
    id_of = id_of;
    sub_of = sub_of;
  }

  lookup-erase :
      (j k : Text) (ds : List Doc) → lookup j (erase k ds) ≡ (if j == k then none else lookup j ds)
  unfolding lookup erase
  lookup-erase j k [] = ground arith
  lookup-erase j k (d ∷ ds) = ground (arith, lookup-erase j k ds)

  in-matching :
      (ks seen : List Text) (ds : List Doc) (d : Doc)
      → In d (matching ks seen ds) ↔ (
          (is_in (id_of d) seen ≡ false)
          × (lookup (id_of d) ds ≡ some d)
          × (is_in (sub_of d) ks ≡ true))
  unfolding lookup matching
  in-matching ks seen [] d = ground arith
  in-matching ks seen (e ∷ ds) d =
      ground (arith, in-matching ks seen ds d, in-matching ks (id_of e ∷ seen) ds d)

  found :
      (ks : List Text) (docs ds : List Doc) (d : Doc)
      → matching ks [] docs ≡ ds
      → In d ds ↔ ((lookup (id_of d) docs ≡ some d) × (is_in (sub_of d) ks ≡ true))
  found ks docs ds d e =
      subst (λ l. In d l ↔ ((lookup (id_of d) docs ≡ some d) × (is_in (sub_of d) ks ≡ true))) e
        (ground (arith, in-matching ks [] docs d))

  -- The service in memory keeps what `IsService` promises.
  pub memory-IsService : IsService memory
  unfolding memory
  memory-IsService = record {
    insert_fresh = λ d w h. ground arith;
    document-insert = λ d w k h. ground arith;
    update_id_known = λ k d w h. ground arith;
    document-update_id = λ k d w j h. ground (arith, lookup-erase j k w.docs);
    remove_id_known = λ k w h. ground arith;
    document-remove_id = λ k w j h. ground (arith, lookup-erase j k w.docs);
    in-find = λ ks w ds d h. found ks w.docs ds d (cc);
    published-publish = λ c m w h. refl;
    document-publish = λ c m w k. refl;
    published-insert = λ d w. ground arith;
    published-update_id = λ k d w. ground arith;
    published-remove_id = λ k w. ground arith;
  }

  -- It is reliable.
  pub memory-IsReliable : IsReliable memory
  unfolding memory
  memory-IsReliable = record {
    inserts = λ d w h. ground arith;
    updates = λ k d w h e. ground arith;
    removes = λ k w h. ground arith;
    finds = λ ks w. tt;
    publishes = λ c m w. refl;
  }
