-- ===== src/Wire/Json/Escape.antt =====
-- A reader of the characters of JSON strings, and that it reads what `encoding/json` writes.
use synk.Base.{
  true, ℕ, ◌+◌, ◌*◌, ◌/◌, ◌%◌, ◌<◌, Text, [], ◌∷◌, ◌++◌, ◌==◌, nat_eq, if◌then◌else◌, ◌≡◌, ◌≢◌,
  refl, sym, ap, ◌∙◌, arith, append_assoc,
}
use synk.Base.Number.{digit, digit_value, digit_value-digit}
use synk.Wire.Json.{is_unicode, valid_text, escape, hex_escape, escape_all, quote}

-- What stands behind a backslash, for one character
abbrev short : ℕ → ℕ
short x = if x == b'n' then 10 else if x == b'r' then 13 else if x == b't' then 9 else x

abbrev long : Text → ℕ × Text
long (a ∷ b ∷ c ∷ d ∷ s) =
    (digit_value a * 4096 + digit_value b * 256 + digit_value c * 16 + digit_value d, s)
long s = (0, s)

abbrev behind : Text → ℕ × Text
behind [] = (0, [])
behind (x ∷ s) = if x == b'u' then long s else (short x, s)

-- The first character, and what follows it
unescape : Text → ℕ × Text
unescape [] = (0, [])
unescape (x ∷ s) = if x == b'\\' then behind s else (x, s)

hex_value :
    (c : ℕ)
    → c < 256
    → digit_value b'0' * 4096
        + digit_value b'0' * 256
        + digit_value (digit (c / 16)) * 16
        + digit_value (digit (c % 16))
      ≡ c
hex_value c h = rw (digit_value-digit (c / 16), digit_value-digit (c % 16)) (omega arith)

unescape-hex : (c : ℕ) (s : Text) → c < 256 → unescape (hex_escape c ++ s) ≡ (c, s)
unfolding unescape hex_escape nat_eq
unescape-hex c s h = ap (λ x. (x, s)) (hex_value c h)

unescape-escape : (c : ℕ) (s : Text) → is_unicode c ≡ true → unescape (escape c ++ s) ≡ (c, s)
unfolding escape unescape nat_eq
unescape-escape c s valid = ground (arith, unescape-hex c s)

-- An escaped character is not the quote that ends a string.
escape-ne-quote : (c : ℕ) (s r : Text) → escape c ++ s ≢ b'"' ∷ r
unfolding escape hex_escape nat_eq
escape-ne-quote c s r e = ground arith

-- The first character and the rest
escape-append :
    (c d : ℕ) (s t : Text)
    → is_unicode c ≡ true
    → is_unicode d ≡ true
    → escape c ++ s ≡ escape d ++ t
    → (c ≡ d) × (s ≡ t)
escape-append c d s t h k e =
    let same = sym (unescape-escape c s h) ∙ ap unescape e ∙ unescape-escape d t k in
    (ap (λ r. r.0) same, ap (λ r. r.1) same)

valid-cons :
    (c : ℕ) (s : Text) → valid_text (c ∷ s) ≡ true → (is_unicode c ≡ true) × (valid_text s ≡ true)
valid-cons c s h = (ground arith, ground arith)

-- A string of characters ends at its quote.
escape_all-append :
    (s t u v : Text)
    → valid_text s ≡ true
    → valid_text t ≡ true
    → escape_all s ++ b'"' ∷ u ≡ escape_all t ++ b'"' ∷ v
    → (s ≡ t) × (u ≡ v)
unfolding escape_all
escape_all-append [] [] u v h k e = (refl, cc)
escape_all-append [] (d ∷ t) u v h k e =
    absurd (escape-ne-quote d _ u (sym (append_assoc (escape d) (escape_all t) _) ∙ sym e))
escape_all-append (c ∷ s) [] u v h k e =
    absurd (escape-ne-quote c _ v (sym (append_assoc (escape c) (escape_all s) _) ∙ e))
escape_all-append (c ∷ s) (d ∷ t) u v h k e =
    let (hc, hs) = valid-cons c s h in
    let (kd, kt) = valid-cons d t k in
    let (head, tail) = escape-append c d _ _ hc kd (
      sym (append_assoc (escape c) (escape_all s) _)
      ∙ e
      ∙ append_assoc (escape d) (escape_all t) _) in
    let (rest, after) = escape_all-append s t u v hs kt tail in (cc (head, rest), after)

-- So does a quoted one.
pub quote-append :
    (s t u v : Text)
    → valid_text s ≡ true
    → valid_text t ≡ true
    → quote s ++ u ≡ quote t ++ v
    → (s ≡ t) × (u ≡ v)
unfolding quote
quote-append s t u v h k e = escape_all-append s t u v h k (
    sym (append_assoc (escape_all s) (b'"' ∷ []) u)
    ∙ tail_eq e
    ∙ append_assoc (escape_all t) (b'"' ∷ []) v)
  where
    tail_eq : {a b : Text} → ◌≡◌ {A = Text} (b'"' ∷ a) (b'"' ∷ b) → a ≡ b
    tail_eq e = cc
