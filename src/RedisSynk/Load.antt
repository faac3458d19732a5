-- ===== src/RedisSynk/Load.antt =====
-- RedisRequestByteSlices and RedisRequestObjects of RedisSynk.go, with the script that gets keys and
-- objects in RedisScripts.go: what is loaded from Redis.
use synk.Base.{
  append-nil, append_assoc, Text, codes, Option, Option-cases, none, some, List, [], ◌∷◌, ◌++◌,
  take, length, ◌==◌, nat_eq, if◌then◌else◌, All, ◌≡◌, ◌≢◌, refl, sym, ap, subst, ◌∙◌, ◌↔◌, ◌⊎◌,
  inl, inr, arith,
}
use mathlib.Core.List.{filter_map}
use synk.Base.Index.{last_index}
use synk.Result.{value, ok_inj, Result, Result-cases, ok, err, Error, error_of}
use synk.Service.{In}
use synk.Mongo.Load.{in-append}

-- What a loader is given: SUNION and MGET of the server, where `none` is a key that is not there,
-- the container for a type, and `json.Unmarshal` of a value into a container.
pub record Source (O : Type 0) : Type 0 where
  pub sunion : List Text → Result (List Text)
  pub mget : List Text → Result (List (Option Text))
  pub container : Text → Option O
  pub unmarshal : Option Text → O → Result O

module _ {O : Type 0} (S : Source O) where
  -- `getKeysObjectsScript`
  unfoldable pub get_keys_objects : List Text → Result (List Text × List (Option Text))
  get_keys_objects sub_keys = elim (S.sunion sub_keys) [
    | err e ↦ err e
    | ok ids ↦
        if length ids == 0
        then ok ([], [])
        else elim (S.mget ids) [ err e ↦ err e | ok objs ↦ ok (ids, objs) ]
  ]

  -- The text of its own error goes on with both slices.
  unfoldable pub request_byte_slices : List Text → Result (List Text × List (Option Text))
  unfolding get_keys_objects
  request_byte_slices sub_keys = elim (get_keys_objects sub_keys) [
    | err e ↦ err e
    | ok (keys, vals) ↦
        if length keys == length vals
        then ok (keys, vals)
        else err (codes "RequestByteSlices got mismatched or invalid response from redis")
  ]

  -- The type in a key, and the key itself if it has no colon
  unfoldable pub type_of_key : Text → Text
  type_of_key key = elim (last_index key b':') [ none ↦ key | some i ↦ take i key ]

  -- The loop: the results and the last error, over the keys beside their values
  unfoldable pub request_loop : List O → Error → List (Text × Option Text) → List O × Error
  request_loop results e [] = (results, e)
  request_loop results e ((key, val) ∷ items) =
      let read = λ (o : O). S.unmarshal val o in
      elim (S.container (type_of_key key)) [
        | none ↦ ([], some (codes "No container for type: " ++ type_of_key key))
        | some o ↦ elim (read o) [
          | ok p ↦ request_loop (results ++ p ∷ []) none items
          | err f ↦ request_loop results (some f) items
        ]
      ]

  -- `keys[i]` beside `vals[i]`
  unfoldable pub beside : List Text → List (Option Text) → List (Text × Option Text)
  beside (k ∷ ks) (v ∷ vs) = (k, v) ∷ beside ks vs
  beside ks vs = []

  unfoldable pub request_objects : List Text → List O × Error
  unfolding request_byte_slices request_loop beside
  request_objects sub_keys = elim (request_byte_slices sub_keys) [
    | err e ↦ ([], some e)
    | ok (keys, vals) ↦ request_loop [] none (beside keys vals)
  ]

  -- What becomes of one key and its value.
  unfoldable pub read_item : Text × Option Text → Result O
  read_item (key, val) = elim (S.container (type_of_key key)) [
    | none ↦ err (codes "No container for type: " ++ type_of_key key)
    | some o ↦ S.unmarshal val o
  ]

  -- There is a container for every type.
  abbrev pub AllKnown : List (Text × Option Text) → Type 0
  AllKnown = All (λ item. S.container (type_of_key item.0) ≢ none)

  -- One round, where there is a container
  abbrev Round : List O → Error → Text × Option Text → List (Text × Option Text) → Type 0
  Round results e item items =
      ((p : O) × (read_item item ≡ ok p)
        × (request_loop results e (item ∷ items) ≡ request_loop (results ++ p ∷ []) none items))
      ⊎ ((f : Text) × (read_item item ≡ err f)
          × (request_loop results e (item ∷ items) ≡ request_loop results (some f) items))

  Round-cases :
      (results : List O) (e : Error) (item : Text × Option Text) (items : List (Text × Option Text))
      → S.container (type_of_key item.0) ≢ none
      → Round results e item items
  unfolding read_item request_loop
  Round-cases results e (key, val) items known =
      elim (Option-cases (S.container (type_of_key key))) [
        | inl missing ↦ absurd (known missing)
        | inr (o, there) ↦ elim (Result-cases (S.unmarshal val o)) [
          | inl (p, parsed) ↦
              inl (p, rw (there, read_item) parsed, rw (there, request_loop) (rw parsed refl))
          | inr (f, failed) ↦
              inr (f, rw (there, read_item) failed, rw (there, request_loop) (rw failed refl))
        ]
      ]

  request_loop-one :
      (results : List O) (e : Error) (item : Text × Option Text)
      → (request_loop results e (item ∷ [])).1 ≡ error_of (read_item item)
  unfolding request_loop read_item
  request_loop-one results e (key, val) = elim (Option-cases (S.container (type_of_key key))) [
    | inl missing ↦ rw (missing, request_loop, read_item) refl
    | inr (o, there) ↦ elim (Result-cases (S.unmarshal val o)) [
      | inl (p, parsed) ↦ rw (there, request_loop, read_item) (rw parsed refl)
      | inr (f, failed) ↦ rw (there, request_loop, read_item) (rw failed refl)
    ]
  ]

  -- If there is a container for every type but perhaps the last, the error of the loop is that of
  -- the last item alone: an item that cannot be read before it is no error.
  pub request_loop-last :
      (results : List O) (e : Error) (items : List (Text × Option Text)) (last : Text × Option Text)
      → AllKnown items
      → (request_loop results e (items ++ last ∷ [])).1 ≡ error_of (read_item last)
  request_loop-last results e [] last known = request_loop-one results e last
  request_loop-last results e (item ∷ items) last known =
      elim (Round-cases results e item (items ++ last ∷ []) known.0) [
        | inl (p, parsed, rest) ↦
            ap (λ r. r.1) rest ∙ request_loop-last (results ++ p ∷ []) none items last known.1
        | inr (f, failed, rest) ↦
            ap (λ r. r.1) rest ∙ request_loop-last results (some f) items last known.1
      ]

  request_loop-nil : (results : List O) (e : Error) → request_loop results e [] ≡ (results, e)
  unfolding request_loop
  request_loop-nil results e = refl

  ok-ne-err : (o : O) (f : Text) → ◌≡◌ {A = Result O} (ok o) (err f) → ⊥
  ok-ne-err o f h = ground arith

  -- If there is a container for every type, the loop appends to the results the objects of the items
  -- that can be read, each once and in the order of the items, and nothing else.
  pub request_loop-filter_map :
      (results : List O) (e : Error) (items : List (Text × Option Text))
      → AllKnown items
      → (request_loop results e items).0
        ≡ results ++ filter_map (λ item. value (read_item item)) items
  unfolding filter_map
  request_loop-filter_map results e [] known =
      ap (λ r. r.0) (request_loop-nil results e) ∙ sym (append-nil results)
  request_loop-filter_map results e (item ∷ items) known =
      elim (Round-cases results e item items known.0) [
        | inl (p, read, rest) ↦
            rw (read, filter_map)
              (ap (λ r. r.0) rest
                ∙ request_loop-filter_map (results ++ p ∷ []) none items known.1
                ∙ append_assoc results (p ∷ []) _)
        | inr (f, failed, rest) ↦
            rw (failed, filter_map)
              (ap (λ r. r.0) rest ∙ request_loop-filter_map results (some f) items known.1)
      ]

  -- The same, by membership
  pub in-request_loop :
      (results : List O) (e : Error) (items : List (Text × Option Text)) (o : O)
      → AllKnown items
      → In o (request_loop results e items).0
        ↔ (In o results ⊎ ((item : Text × Option Text) × In item items × (read_item item ≡ ok o)))
  in-request_loop results e [] o known =
      subst (λ l. In o l ↔ (In o results ⊎ ((x : Text × Option Text) × ⊥ × (read_item x ≡ ok o))))
        (sym (ap (λ r. r.0) (request_loop-nil results e)))
        (λ h. inl h, λ h. elim h [ inl r ↦ r | inr (x, at, q) ↦ absurd at ])
  in-request_loop results e (item ∷ items) o known =
      elim (Round-cases results e item items known.0) [
        | inl (p, read, rest) ↦
            let ih = in-request_loop (results ++ p ∷ []) none items o known.1 in
            let joined = in-append o results (p ∷ []) in
            rw rest (
              λ h. elim (ih.0 h) [
                | inr (x, at, q) ↦ inr (x, inr at, q)
                | inl old ↦ elim (joined.0 old) [
                  | inl r ↦ inl r
                  | inr (inl same) ↦ inr (item, inl refl, read ∙ ap ok same)
                  | inr (inr nowhere) ↦ absurd nowhere
                ]
              ],
              λ h. elim h [
                | inl r ↦ ih.1 (inl (joined.1 (inl r)))
                | inr (x, inl same, q) ↦
                    ih.1
                      (inl (joined.1 (inr (inl (ok_inj p o (sym read ∙ ap read_item same ∙ q))))))
                | inr (x, inr at, q) ↦ ih.1 (inr (x, at, q))
              ],
            )
        | inr (f, failed, rest) ↦
            let ih = in-request_loop results (some f) items o known.1 in
            rw rest (
              λ h. elim (ih.0 h) [ inl r ↦ inl r | inr (x, at, q) ↦ inr (x, inr at, q) ],
              λ h. elim h [
                | inl r ↦ ih.1 (inl r)
                | inr (x, inl same, q) ↦
                    absurd (ok-ne-err o f (sym q ∙ ap read_item (sym same) ∙ failed))
                | inr (x, inr at, q) ↦ ih.1 (inr (x, at, q))
              ],
            )
      ]
