-- ===== src/Wire/Message/Content.antt =====
-- The fields of the messages' texts: what is in them, and that they determine the message.
use synk.Base.{
  Bool, true, ◌&&◌, List, [], ◌∷◌, ℕ, Text, codes, pos, text_eq, ◌≡◌, ◌≢◌, refl, sym, arith,
}
use synk.Result.{ok_inj, Result, ok, err}
use synk.Wire.Json.{valid_text, Json, num, str, obj, Fields, end, field, encode}
use synk.Wire.Json.Unique.{valid, valid_fields, encode-injective}
use synk.Wire.Message.{AddMsg, ModMsg, RemMsg, omit_empty, encoded, add_fields, mod_fields}

-- Whether all texts hold characters only
abbrev pub all_valid : List Text → Bool
all_valid [] = true
all_valid (s ∷ ss) = valid_text s && all_valid ss

-- The texts of a message, and its JSON, hold characters only.
pub record IsUnicode (r : Result Json) (ss : List Text) : Type 0 where
  pub texts : all_valid ss ≡ true
  pub json : (j : Json) → r ≡ ok j → valid j ≡ true

abbrev pub add_texts : {D : Type 0} → AddMsg D → List Text
add_texts m = m.id ∷ m.s_key ∷ m.ps_key ∷ m.type ∷ []

abbrev pub mod_texts : {D : Type 0} → ModMsg D → List Text
mod_texts m = m.id ∷ m.s_key ∷ m.ns_key ∷ []

abbrev pub rem_texts : RemMsg → List Text
rem_texts m = m.s_key ∷ m.type ∷ m.id ∷ []

pub obj-injective :
    (fs gs : Fields)
    → valid_fields fs ≡ true
    → valid_fields gs ≡ true
    → encode (obj fs) ≡ encode (obj gs)
    → fs ≡ gs
unfolding valid
obj-injective fs gs vf vg e = fields (encode-injective (obj fs) (obj gs) vf vg e)
  where
    fields : obj fs ≡ obj gs → fs ≡ gs
    fields e = cc

-- The fields of a text
abbrev Encodes : Result Json → (Json → Fields) → Text → Type 0
Encodes r f t = (j : Json) × (r ≡ ok j) × (t ≡ encode (obj (f j)))

pub encoded-Encodes :
    (r : Result Json) (f : Json → Fields) (t : Text) → encoded r f ≡ ok t → Encodes r f t
encoded-Encodes (ok j) f t e = (j, refl, sym (ok_inj _ _ e))
encoded-Encodes (err c) f t e = cc

omit_empty-injective :
    (name k s t : Text) (v w : Json) (fs gs : Fields)
    → name ≢ k
    → omit_empty name s (field k v fs) ≡ omit_empty name t (field k w gs)
    → (s ≡ t) × (v ≡ w) × (fs ≡ gs)
omit_empty-injective name k s t v w fs gs n e = ground (arith, e)

omit_empty-end : (name s t : Text) → omit_empty name s end ≡ omit_empty name t end → s ≡ t
omit_empty-end name s t e = ground (arith, e)

-- The first field and the rest
pub field_eq :
    (k l : Text) (v w : Json) (fs gs : Fields) → field k v fs ≡ field l w gs → (v ≡ w) × (fs ≡ gs)
field_eq k l v w fs gs e = (cc, cc)

pub str_eq : (s t : Text) → str s ≡ str t → s ≡ t
str_eq s t e = cc

num_eq : (m n : ℕ) → num (pos m) ≡ num (pos n) → m ≡ n
num_eq m n e = cc

pub add_fields-injective :
    {D : Type 0} (m n : AddMsg D) (j k : Json)
    → add_fields m j ≡ add_fields n k
    → (j ≡ k)
      × (m.id ≡ n.id)
      × (m.s_key ≡ n.s_key)
      × (m.ps_key ≡ n.ps_key)
      × (m.version ≡ n.version)
      × (m.type ≡ n.type)
unfolding add_fields
add_fields-injective m n j k e =
    let (method, after_method) = field_eq _ _ _ _ _ _ e in
    let (state, after_state) = field_eq _ _ _ _ _ _ after_method in
    let (id, after_id) = field_eq _ _ _ _ _ _ after_state in
    let (s_key, after_key) = field_eq _ _ _ _ _ _ after_id in
    let (ps_key, version, rest) =
      omit_empty-injective (codes "psKey") (codes "v") m.ps_key n.ps_key (num (pos m.version))
        (num (pos n.version)) (field (codes "t") (str m.type) end)
        (field (codes "t") (str n.type) end) (λ h. absurd (first_apart h)) after_key in
    let (type, after_type) = field_eq _ _ _ _ _ _ rest in
    (state, str_eq _ _ id, str_eq _ _ s_key, ps_key, num_eq _ _ version, str_eq _ _ type)
  where
    first_apart : codes "psKey" ≢ codes "v"
    first_apart h = ground arith

pub mod_fields-injective :
    {D : Type 0} (m n : ModMsg D) (j k : Json)
    → mod_fields m j ≡ mod_fields n k
    → (j ≡ k)
      × (m.id ≡ n.id)
      × (m.version ≡ n.version)
      × (m.s_key ≡ n.s_key)
      × (m.ns_key ≡ n.ns_key)
unfolding mod_fields
mod_fields-injective m n j k e =
    let (method, after_method) = field_eq _ _ _ _ _ _ e in
    let (diff, after_diff) = field_eq _ _ _ _ _ _ after_method in
    let (id, after_id) = field_eq _ _ _ _ _ _ after_diff in
    let (version, after_version) = field_eq _ _ _ _ _ _ after_id in
    let (s_key, after_key) = field_eq _ _ _ _ _ _ after_version in
    (
      diff,
      str_eq _ _ id,
      num_eq _ _ version,
      str_eq _ _ s_key,
      omit_empty-end (codes "nsKey") m.ns_key n.ns_key after_key,
    )

-- The fields of a remMsg
abbrev pub rem_fields : RemMsg → Fields
rem_fields m = field (codes "method") (str (codes "rem")) (
    field (codes "sKey") (str m.s_key)
      (field (codes "t") (str m.type) (field (codes "id") (str m.id) end)))

valid-omit_empty :
    (name s : Text) (rest : Fields)
    → valid_text name ≡ true
    → valid_text s ≡ true
    → valid_fields rest ≡ true
    → valid_fields (omit_empty name s rest) ≡ true
unfolding valid
valid-omit_empty name s rest hn hs hr = ground arith

pub valid-add_fields :
    {D : Type 0} (m : AddMsg D) (j : Json)
    → valid j ≡ true
    → all_valid (add_texts m) ≡ true
    → valid_fields (add_fields m j) ≡ true
unfolding add_fields valid
valid-add_fields m j hj h = ground (
  arith,
  valid-omit_empty (codes "psKey") m.ps_key
      (field (codes "v") (num (pos m.version)) (field (codes "t") (str m.type) end)) refl,
)

pub valid-mod_fields :
    {D : Type 0} (m : ModMsg D) (j : Json)
    → valid j ≡ true
    → all_valid (mod_texts m) ≡ true
    → valid_fields (mod_fields m j) ≡ true
unfolding mod_fields valid
valid-mod_fields m j hj h = ground (arith, valid-omit_empty (codes "nsKey") m.ns_key end refl)

pub valid-rem_fields :
    (m : RemMsg) → all_valid (rem_texts m) ≡ true → valid_fields (rem_fields m) ≡ true
unfolding valid
valid-rem_fields m h = ground arith
