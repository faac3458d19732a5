-- ===== src/Wire/Message/Unique.antt =====
-- The text of a message to clients determines the message, if its texts hold characters only.
use synk.Base.{true, Text, codes, text_eq, ◌≡◌, ◌≢◌, refl, sym, ap, ◌∙◌, arith}
use synk.Result.{ok_inj, Result, ok}
use synk.Wire.Json.{Json, str, obj, Fields, field, encode}
use synk.Wire.Json.Unique.{valid_fields}
use synk.Wire.Message.{
  AddMsg, ModMsg, RemMsg, add_fields, mod_fields, marshal_add, marshal_mod, marshal_rem,
}
use synk.Wire.Message.Content.{
  IsUnicode, valid-rem_fields, mod_fields-injective, rem_fields, rem_texts, str_eq,
  valid-add_fields, obj-injective, valid-mod_fields, mod_texts, encoded-Encodes, add_texts,
  field_eq, all_valid, add_fields-injective,
}

-- The first field is the method.
abbrev HasMethod : Text → Fields → Type 0
HasMethod a fs = (rest : Fields) × (fs ≡ field (codes "method") (str a) rest)

add_fields-HasMethod :
    {D : Type 0} (m : AddMsg D) (j : Json) → HasMethod (codes "add") (add_fields m j)
unfolding add_fields
add_fields-HasMethod m j = (_, refl)

mod_fields-HasMethod :
    {D : Type 0} (m : ModMsg D) (j : Json) → HasMethod (codes "mod") (mod_fields m j)
unfolding mod_fields
mod_fields-HasMethod m j = (_, refl)

rem_fields-HasMethod : (m : RemMsg) → HasMethod (codes "rem") (rem_fields m)
rem_fields-HasMethod m = (_, refl)

-- Texts with different methods differ.
method-ne :
    (a b : Text) (fs gs : Fields) (t : Text)
    → a ≢ b
    → HasMethod a fs
    → HasMethod b gs
    → valid_fields fs ≡ true
    → valid_fields gs ≡ true
    → t ≡ encode (obj fs)
    → t ≢ encode (obj gs)
method-ne a b fs gs t n (f, ef) (g, eg) vf vg x y =
    let (method, rest) =
      field_eq _ _ (str a) (str b) f g (sym ef ∙ obj-injective fs gs vf vg (sym x ∙ y) ∙ eg) in
    n (str_eq a b method)

-- What the marshalling of a state or a diff must be: values with the same JSON are the same.
abbrev pub IsFaithful : {D : Type 0} → (D → Result Json) → Type 0
IsFaithful {D} marshal = (a b : D) (j : Json) → marshal a ≡ ok j → marshal b ≡ ok j → a ≡ b

module _ {D : Type 0} (marshal : D → Result Json) (faithful : IsFaithful marshal) where
  pub marshal_add-injective :
      (m n : AddMsg D) (t : Text)
      → IsUnicode (marshal m.state) (add_texts m)
      → IsUnicode (marshal n.state) (add_texts n)
      → marshal_add marshal m ≡ ok t
      → marshal_add marshal n ≡ ok t
      → m ≡ n
  unfolding marshal_add
  marshal_add-injective m n t um un a b =
      let (j, mj, mt) = encoded-Encodes (marshal m.state) (add_fields m) t a in
      let (k, nk, nt) = encoded-Encodes (marshal n.state) (add_fields n) t b in
      let (same, id, s_key, ps_key, version, type) = add_fields-injective m n j k (
        obj-injective _ _ (valid-add_fields m j (um.json j mj) um.texts)
          (valid-add_fields n k (un.json k nk) un.texts) (sym mt ∙ nt)) in
      let state = faithful m.state n.state k (mj ∙ ap ok same) nk in
      λ i. record {
        state = state i;
        id = id i;
        s_key = s_key i;
        ps_key = ps_key i;
        version = version i;
        type = type i;
      }

  pub marshal_mod-injective :
      (m n : ModMsg D) (t : Text)
      → IsUnicode (marshal m.diff) (mod_texts m)
      → IsUnicode (marshal n.diff) (mod_texts n)
      → marshal_mod marshal m ≡ ok t
      → marshal_mod marshal n ≡ ok t
      → m ≡ n
  unfolding marshal_mod
  marshal_mod-injective m n t um un a b =
      let (j, mj, mt) = encoded-Encodes (marshal m.diff) (mod_fields m) t a in
      let (k, nk, nt) = encoded-Encodes (marshal n.diff) (mod_fields n) t b in
      let (same, id, version, s_key, ns_key) = mod_fields-injective m n j k (
        obj-injective _ _ (valid-mod_fields m j (um.json j mj) um.texts)
          (valid-mod_fields n k (un.json k nk) un.texts) (sym mt ∙ nt)) in
      let diff = faithful m.diff n.diff k (mj ∙ ap ok same) nk in
      λ i. record {
        diff = diff i;
        id = id i;
        version = version i;
        s_key = s_key i;
        ns_key = ns_key i;
      }

  -- The three messages have different methods.
  pub add-ne-mod :
      (m : AddMsg D) (n : ModMsg D) (t : Text)
      → IsUnicode (marshal m.state) (add_texts m)
      → IsUnicode (marshal n.diff) (mod_texts n)
      → marshal_add marshal m ≡ ok t
      → marshal_mod marshal n ≢ ok t
  unfolding marshal_add marshal_mod
  add-ne-mod m n t um un a b =
      let (j, mj, mt) = encoded-Encodes (marshal m.state) (add_fields m) t a in
      let (k, nk, nt) = encoded-Encodes (marshal n.diff) (mod_fields n) t b in
      method-ne (codes "add") (codes "mod") (add_fields m j) (mod_fields n k) t (λ h. ground arith)
        (add_fields-HasMethod m j) (mod_fields-HasMethod n k)
        (valid-add_fields m j (um.json j mj) um.texts)
        (valid-mod_fields n k (un.json k nk) un.texts) mt nt

  pub add-ne-rem :
      (m : AddMsg D) (n : RemMsg) (t : Text)
      → IsUnicode (marshal m.state) (add_texts m)
      → all_valid (rem_texts n) ≡ true
      → marshal_add marshal m ≡ ok t
      → marshal_rem n ≢ ok t
  unfolding marshal_add marshal_rem
  add-ne-rem m n t um un a b =
      let (j, mj, mt) = encoded-Encodes (marshal m.state) (add_fields m) t a in
      method-ne (codes "add") (codes "rem") (add_fields m j) (rem_fields n) t (λ h. ground arith)
        (add_fields-HasMethod m j) (rem_fields-HasMethod n)
        (valid-add_fields m j (um.json j mj) um.texts) (valid-rem_fields n un) mt
        (sym (ok_inj _ _ b))

  pub mod-ne-rem :
      (m : ModMsg D) (n : RemMsg) (t : Text)
      → IsUnicode (marshal m.diff) (mod_texts m)
      → all_valid (rem_texts n) ≡ true
      → marshal_mod marshal m ≡ ok t
      → marshal_rem n ≢ ok t
  unfolding marshal_mod marshal_rem
  mod-ne-rem m n t um un a b =
      let (j, mj, mt) = encoded-Encodes (marshal m.diff) (mod_fields m) t a in
      method-ne (codes "mod") (codes "rem") (mod_fields m j) (rem_fields n) t (λ h. ground arith)
        (mod_fields-HasMethod m j) (rem_fields-HasMethod n)
        (valid-mod_fields m j (um.json j mj) um.texts) (valid-rem_fields n un) mt
        (sym (ok_inj _ _ b))

pub marshal_rem-injective :
    (m n : RemMsg) (t : Text)
    → all_valid (rem_texts m) ≡ true
    → all_valid (rem_texts n) ≡ true
    → marshal_rem m ≡ ok t
    → marshal_rem n ≡ ok t
    → m ≡ n
unfolding marshal_rem
marshal_rem-injective m n t um un a b =
    let e =
      obj-injective (rem_fields m) (rem_fields n) (valid-rem_fields m um) (valid-rem_fields n un)
        (ok_inj _ _ (a ∙ sym b)) in
    let (method, after_method) = field_eq _ _ _ _ _ _ e in
    let (s_key, after_key) = field_eq _ _ _ _ _ _ after_method in
    let (type, after_type) = field_eq _ _ _ _ _ _ after_key in
    let (id, after_id) = field_eq _ _ _ _ _ _ after_type in
    let keys = str_eq _ _ s_key in
    let types = str_eq _ _ type in
    let ids = str_eq _ _ id in λ i. record { s_key = keys i; type = types i; id = ids i }
