-- ===== src/Wire/Json.antt =====
-- What `encoding/json` writes for the values that the program marshals: texts, ints, and structs,
-- whose fields come in the order of their declaration.
pub mod Escape
pub mod Unique
use synk.Base.{
  ℕ, ◌/◌, ◌%◌, Text, codes, ℤ, Bool, true, ◌&&◌, leb, ◌||◌, [], ◌∷◌, ◌++◌, ◌==◌, nat_eq, ltb,
  if◌then◌else◌,
}
use synk.Base.Number.{digit, itoa}

mutual
  pub data Json : Type 0 where
    null : Json
    num : ℤ → Json
    str : Text → Json
    obj : Fields → Json

  pub data Fields : Type 0 where
    end : Fields
    field : Text → Json → Fields → Fields

-- `\u00` and two hexadecimal digits
hex_escape : ℕ → Text
hex_escape c = codes "\\u00" ++ (digit (c / 16) ∷ digit (c % 16) ∷ [])

-- The numbers of characters: no surrogate, and no byte that is not UTF-8
abbrev pub is_unicode : ℕ → Bool
is_unicode c = ltb c 0xd800 || (leb 0xe000 c && ltb c 0x110000)

-- One character inside a JSON string. `<`, `>`, `&`, U+2028 and U+2029 are escaped too, and what is
-- no character becomes U+FFFD.
escape : ℕ → Text
unfolding hex_escape nat_eq
escape c =
    if c == b'"' || c == b'\\'
    then b'\\' ∷ c ∷ []
    else if c == 10
    then codes "\\n"
    else if c == 13
    then codes "\\r"
    else if c == 9
    then codes "\\t"
    else if ltb c 32 || c == b'<' || c == b'>' || c == b'&'
    then hex_escape c
    else if c == 0x2028
    then codes "\\u2028"
    else if c == 0x2029
    then codes "\\u2029"
    else if is_unicode c
    then c ∷ []
    else codes "\\ufffd"

-- Whether all are characters
abbrev pub valid_text : Text → Bool
valid_text [] = true
valid_text (c ∷ s) = is_unicode c && valid_text s

escape_all : Text → Text
unfolding escape
escape_all [] = []
escape_all (c ∷ s) = escape c ++ escape_all s

unfoldable pub quote : Text → Text
unfolding escape_all
quote s = b'"' ∷ escape_all s ++ b'"' ∷ []

unfoldable mutual
  unfolding quote itoa

  pub encode : Json → Text
  encode null = codes "null"
  encode (num z) = itoa z
  encode (str s) = quote s
  encode (obj fs) = b'{' ∷ encode_fields fs ++ b'}' ∷ []

  encode_fields : Fields → Text
  encode_fields end = []
  encode_fields (field k v fs) = quote k ++ (b':' ∷ (encode v ++ encode_more fs))

  encode_more : Fields → Text
  encode_more end = []
  encode_more (field k v fs) = b',' ∷ (quote k ++ (b':' ∷ (encode v ++ encode_more fs)))
