-- ===== src/Wire/Message.antt =====
-- The messages to clients at the end of MongoSynk.go, and their JSON. `D` is the type of a state or
-- a diff, and `marshal` is its `json.Marshal`.
pub mod Content
pub mod Unique
use synk.Base.{ℕ, Text, codes, pos, [], ◌∷◌, ◌==◌, text_eq, ◌≡◌, refl, subst, if◌then◌else◌}
use synk.Result.{ok_inj, Result, IsOk, ok, err}
use synk.Wire.Json.{Json, num, str, obj, Fields, end, field, encode}

pub record AddMsg (D : Type 0) : Type 0 where
  pub state : D
  pub id : Text
  pub s_key : Text
  pub ps_key : Text
  pub version : ℕ
  pub type : Text

pub record ModMsg (D : Type 0) : Type 0 where
  pub diff : D
  pub id : Text
  pub version : ℕ
  pub s_key : Text
  pub ns_key : Text

pub record RemMsg : Type 0 where
  pub s_key : Text
  pub type : Text
  pub id : Text

-- A text field with `omitempty`.
abbrev omit_empty : Text → Text → Fields → Fields
omit_empty name s rest = if s == [] then rest else field name (str s) rest

-- The text of a struct around a value, if the value could be marshalled.
abbrev encoded : Result Json → (Json → Fields) → Result Text
encoded (ok j) f = ok (encode (obj (f j)))
encoded (err e) f = err e

pub add_fields : {D : Type 0} → AddMsg D → Json → Fields
unfolding text_eq
add_fields m state =
    (field (codes "method") (str (codes "add")) (
      field (codes "state") state (
        field (codes "id") (str m.id) (
          field (codes "sKey") (str m.s_key) (
            omit_empty (codes "psKey") m.ps_key
              (field (codes "v") (num (pos m.version)) (field (codes "t") (str m.type) end)))))))

pub mod_fields : {D : Type 0} → ModMsg D → Json → Fields
unfolding text_eq
mod_fields m diff =
    (field (codes "method") (str (codes "mod")) (
      field (codes "diff") diff (
        field (codes "id") (str m.id) (
          field (codes "v") (num (pos m.version))
            (field (codes "sKey") (str m.s_key) (omit_empty (codes "nsKey") m.ns_key end))))))

module _ {D : Type 0} (marshal : D → Result Json) where
  -- `json.Marshal` of an addMsg
  unfoldable pub marshal_add : AddMsg D → Result Text
  unfolding add_fields encode
  marshal_add m = encoded (marshal m.state) (add_fields m)

  -- `json.Marshal` of a modMsg
  unfoldable pub marshal_mod : ModMsg D → Result Text
  unfolding mod_fields encode
  marshal_mod m = encoded (marshal m.diff) (mod_fields m)

-- `json.Marshal` of a remMsg
unfoldable pub marshal_rem : RemMsg → Result Text
unfolding encode
marshal_rem m = ok (
    encode (
      obj (
        field (codes "method") (str (codes "rem")) (
          field (codes "sKey") (str m.s_key)
            (field (codes "t") (str m.type) (field (codes "id") (str m.id) end))))))

-- A text that begins with an opening brace.
pub record IsObjectText (s : Text) : Type 0 where
  pub rest : Text
  pub begins : s ≡ b'{' ∷ rest

encode_obj : (fs : Fields) → IsObjectText (encode (obj fs))
unfolding encode
encode_obj fs = record { rest = _; begins = refl }

encoded-IsObjectText :
    (r : Result Json) (f : Json → Fields) (t : Text) → encoded r f ≡ ok t → IsObjectText t
encoded-IsObjectText (ok j) f t e = subst IsObjectText (ok_inj _ _ e) (encode_obj (f j))
encoded-IsObjectText (err c) f t e = cc

-- The messages that carry a state or a diff are JSON objects: they begin with a brace.
pub marshal_add-IsObjectText :
    {D : Type 0} (marshal : D → Result Json) (m : AddMsg D) (t : Text)
    → marshal_add marshal m ≡ ok t
    → IsObjectText t
unfolding marshal_add
marshal_add-IsObjectText marshal m t e = encoded-IsObjectText _ _ t e

pub marshal_mod-IsObjectText :
    {D : Type 0} (marshal : D → Result Json) (m : ModMsg D) (t : Text)
    → marshal_mod marshal m ≡ ok t
    → IsObjectText t
unfolding marshal_mod
marshal_mod-IsObjectText marshal m t e = encoded-IsObjectText _ _ t e

encoded-IsOk : (r : Result Json) (f : Json → Fields) → IsOk r → IsOk (encoded r f)
encoded-IsOk (ok j) f h = tt
encoded-IsOk (err e) f h = h

-- A message can be marshalled if the state or the diff in it can.
pub marshal_add-IsOk :
    {D : Type 0} (marshal : D → Result Json) (m : AddMsg D)
    → IsOk (marshal m.state)
    → IsOk (marshal_add marshal m)
unfolding marshal_add
marshal_add-IsOk marshal m h = encoded-IsOk _ _ h

pub marshal_mod-IsOk :
    {D : Type 0} (marshal : D → Result Json) (m : ModMsg D)
    → IsOk (marshal m.diff)
    → IsOk (marshal_mod marshal m)
unfolding marshal_mod
marshal_mod-IsOk marshal m h = encoded-IsOk _ _ h

pub marshal_rem-IsOk : (m : RemMsg) → IsOk (marshal_rem m)
unfolding marshal_rem
marshal_rem-IsOk m = tt

pub marshal_rem-IsObjectText : (m : RemMsg) (t : Text) → marshal_rem m ≡ ok t → IsObjectText t
unfolding marshal_rem encode
marshal_rem-IsObjectText m t e =
    subst IsObjectText (ok_inj _ _ e) (record { rest = _; begins = refl })
