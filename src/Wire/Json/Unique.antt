-- ===== src/Wire/Json/Unique.antt =====
-- The text of a JSON value determines the value, if all its texts hold characters only.
use synk.Base.{
  Bool, true, ◌&&◌, ℕ, Text, ℤ, [], ◌∷◌, ◌++◌, ◌≡◌, ◌≢◌, refl, sym, ap, ◌∙◌, ◌⊎◌, inl, inr, All-imp,
  arith, append_assoc, append-nil,
}
use synk.Base.Index.{Lacks}
use synk.Base.Number.{itoa, itoa-Lacks, itoa-injective, itoa-IsDecimal, IsDecimal, IsMark}
use synk.Wire.Json.{
  valid_text, Json, null, num, str, obj, Fields, end, field, quote, encode, encode_fields,
  encode_more,
}
use synk.Wire.Json.Escape.{quote-append}

unfoldable mutual
  -- Whether all texts in a value hold characters only
  pub valid : Json → Bool
  valid null = true
  valid (num z) = true
  valid (str s) = valid_text s
  valid (obj fs) = valid_fields fs

  pub valid_fields : Fields → Bool
  valid_fields end = true
  valid_fields (field k v fs) = valid_text k && (valid v && valid_fields fs)

valid-field :
    (k : Text) (v : Json) (fs : Fields)
    → valid_fields (field k v fs) ≡ true
    → (valid_text k ≡ true) × (valid v ≡ true) × (valid_fields fs ≡ true)
unfolding valid
valid-field k v fs h = (ground arith, ground arith, ground arith)

-- What may follow a value: the end, a comma or a closing brace
abbrev Stops : Text → Type 0
Stops [] = Unit
Stops (x ∷ s) = (x ≡ b',') ⊎ (x ≡ b'}')

-- A text without stops ends at the first one.
stop-append :
    (a b s t : Text)
    → Lacks b',' a
    → Lacks b'}' a
    → Lacks b',' b
    → Lacks b'}' b
    → Stops s
    → Stops t
    → a ++ s ≡ b ++ t
    → (a ≡ b) × (s ≡ t)
stop-append [] [] s t ac ab bc bb hs ht e = (refl, e)
stop-append [] (y ∷ b) (x ∷ s) t ac ab bc bb hs ht e = absurd (ground (arith, bc.0, bb.0))
stop-append [] (y ∷ b) [] t ac ab bc bb hs ht e = cc
stop-append (x ∷ a) [] s (y ∷ t) ac ab bc bb hs ht e = absurd (ground (arith, ac.0, ab.0))
stop-append (x ∷ a) [] s [] ac ab bc bb hs ht e = cc
stop-append (x ∷ a) (y ∷ b) s t ac ab bc bb hs ht e =
    let rest : (a ≡ b) × (s ≡ t) = stop-append a b s t ac.1 ab.1 bc.1 bb.1 hs ht (cc) in
    (cc (rest.0), rest.1)

-- It does not begin with another character.
stop-ne : (c : ℕ) (a s r : Text) → Lacks c a → Stops s → c ≢ b',' → c ≢ b'}' → a ++ s ≢ c ∷ r
stop-ne c [] [] r h hs n m e = cc
stop-ne c [] (x ∷ s) r h hs n m e = ground arith
stop-ne c (x ∷ a) s r h hs n m e = ground (arith, h.0)

is_mark : (c : ℕ) → (c ≡ b',') ⊎ (c ≡ b'}') ⊎ (c ≡ b'"') ⊎ (c ≡ b'{') → IsMark c
is_mark c h = ground arith

itoa-ne : (c : ℕ) (z : ℤ) (s r : Text) → (c ≡ b'"') ⊎ (c ≡ b'{') → Stops s → itoa z ++ s ≢ c ∷ r
itoa-ne c z s r h hs =
    stop-ne c (itoa z) s r (itoa-Lacks c z (is_mark c (inr (inr h)))) hs (ground arith)
      (ground arith)

itoa-ne-letter : (z : ℤ) (s r : Text) → Stops s → itoa z ++ s ≢ b'n' ∷ r
itoa-ne-letter z s r hs =
    stop-ne b'n' (itoa z) s r
      (All-imp IsDecimal (λ x. x ≢ b'n') (λ x h e. omega (arith, h, e)) (itoa z) (itoa-IsDecimal z))
      hs (omega arith) (omega arith)

more-Stops : (fs : Fields) (s : Text) → Stops (encode_more fs ++ b'}' ∷ s)
unfolding encode
more-Stops end s = inr refl
more-Stops (field k v fs) s = inl refl

first_eq : (c d : ℕ) (a b : Text) → ◌≡◌ {A = Text} (c ∷ a) (d ∷ b) → c ≡ d
first_eq c d a b e = cc

rest_eq : (c : ℕ) (a b : Text) → ◌≡◌ {A = Text} (c ∷ a) (c ∷ b) → a ≡ b
rest_eq c a b e = cc

-- A name, a colon and a text
member-append :
    (k l a b m n s t : Text)
    → valid_text k ≡ true
    → valid_text l ≡ true
    → (quote k ++ (b':' ∷ (a ++ m))) ++ s ≡ (quote l ++ (b':' ∷ (b ++ n))) ++ t
    → (k ≡ l) × (a ++ (m ++ s) ≡ b ++ (n ++ t))
member-append k l a b m n s t hk hl e =
    let (same, rest) = quote-append k l (b':' ∷ ((a ++ m) ++ s)) (b':' ∷ ((b ++ n) ++ t)) hk hl (
      sym (append_assoc (quote k) (b':' ∷ (a ++ m)) s)
      ∙ e
      ∙ append_assoc (quote l) (b':' ∷ (b ++ n)) t) in
    (same, sym (append_assoc a m s) ∙ rest_eq b':' _ _ rest ∙ append_assoc b n t)

mutual
  unfolding encode quote valid

  encode-append :
      (a b : Json) (s t : Text)
      → Stops s
      → Stops t
      → valid a ≡ true
      → valid b ≡ true
      → encode a ++ s ≡ encode b ++ t
      → (a ≡ b) × (s ≡ t)
  encode-append null null s t hs ht va vb e = (refl, cc)
  encode-append null (num z) s t hs ht va vb e = absurd (itoa-ne-letter z t _ ht (sym e))
  encode-append null (str y) s t hs ht va vb e = absurd (omega (arith, first_eq b'n' b'"' _ _ e))
  encode-append null (obj y) s t hs ht va vb e = absurd (omega (arith, first_eq b'n' b'{' _ _ e))
  encode-append (num x) null s t hs ht va vb e = absurd (itoa-ne-letter x s _ hs e)
  encode-append (num x) (num y) s t hs ht va vb e =
      let (same, rest) =
        stop-append (itoa x) (itoa y) s t (itoa-Lacks b',' x (is_mark b',' (inl refl)))
          (itoa-Lacks b'}' x (is_mark b'}' (inr (inl refl))))
          (itoa-Lacks b',' y (is_mark b',' (inl refl)))
          (itoa-Lacks b'}' y (is_mark b'}' (inr (inl refl)))) hs ht e in
      (ap num (itoa-injective x y same), rest)
  encode-append (num x) (str y) s t hs ht va vb e = absurd (itoa-ne b'"' x s _ (inl refl) hs e)
  encode-append (num x) (obj y) s t hs ht va vb e = absurd (itoa-ne b'{' x s _ (inr refl) hs e)
  encode-append (str x) null s t hs ht va vb e = absurd (omega (arith, first_eq b'"' b'n' _ _ e))
  encode-append (str x) (num y) s t hs ht va vb e =
      absurd (itoa-ne b'"' y t _ (inl refl) ht (sym e))
  encode-append (str x) (str y) s t hs ht va vb e =
      let (same, rest) = quote-append x y s t va vb e in (ap str same, rest)
  encode-append (str x) (obj y) s t hs ht va vb e = absurd (omega (arith, first_eq b'"' b'{' _ _ e))
  encode-append (obj x) null s t hs ht va vb e = absurd (omega (arith, first_eq b'{' b'n' _ _ e))
  encode-append (obj x) (num y) s t hs ht va vb e =
      absurd (itoa-ne b'{' y t _ (inr refl) ht (sym e))
  encode-append (obj x) (str y) s t hs ht va vb e = absurd (omega (arith, first_eq b'{' b'"' _ _ e))
  encode-append (obj x) (obj y) s t hs ht va vb e =
      let (same, rest) = fields-append x y s t va vb (
        sym (append_assoc (encode_fields x) (b'}' ∷ []) s)
        ∙ rest_eq b'{' _ _ e
        ∙ append_assoc (encode_fields y) (b'}' ∷ []) t) in
      (ap obj same, rest)

  fields-append :
      (fs gs : Fields) (s t : Text)
      → valid_fields fs ≡ true
      → valid_fields gs ≡ true
      → encode_fields fs ++ b'}' ∷ s ≡ encode_fields gs ++ b'}' ∷ t
      → (fs ≡ gs) × (s ≡ t)
  fields-append end end s t vf vg e = (refl, cc)
  fields-append end (field l w gs) s t vf vg e = absurd (omega (arith, first_eq b'}' b'"' _ _ e))
  fields-append (field k v fs) end s t vf vg e = absurd (omega (arith, first_eq b'"' b'}' _ _ e))
  fields-append (field k v fs) (field l w gs) s t vf vg e =
      let (hk, hv, hf) = valid-field k v fs vf in
      let (hl, hw, hg) = valid-field l w gs vg in
      let (name, rest) =
        member-append k l (encode v) (encode w) (encode_more fs) (encode_more gs) _ _ hk hl e in
      let (value, more) = encode-append v w _ _ (more-Stops fs s) (more-Stops gs t) hv hw rest in
      let (fields, after) = more-append fs gs s t hf hg more in
      (λ i. field (name i) (value i) (fields i), after)

  more-append :
      (fs gs : Fields) (s t : Text)
      → valid_fields fs ≡ true
      → valid_fields gs ≡ true
      → encode_more fs ++ b'}' ∷ s ≡ encode_more gs ++ b'}' ∷ t
      → (fs ≡ gs) × (s ≡ t)
  more-append end end s t vf vg e = (refl, cc)
  more-append end (field l w gs) s t vf vg e = absurd (omega (arith, first_eq b'}' b',' _ _ e))
  more-append (field k v fs) end s t vf vg e = absurd (omega (arith, first_eq b',' b'}' _ _ e))
  more-append (field k v fs) (field l w gs) s t vf vg e =
      let (hk, hv, hf) = valid-field k v fs vf in
      let (hl, hw, hg) = valid-field l w gs vg in
      let (name, rest) =
        member-append k l (encode v) (encode w) (encode_more fs) (encode_more gs) _ _ hk hl
          (rest_eq b',' _ _ e) in
      let (value, more) = encode-append v w _ _ (more-Stops fs s) (more-Stops gs t) hv hw rest in
      let (fields, after) = more-append fs gs s t hf hg more in
      (λ i. field (name i) (value i) (fields i), after)

-- JSON values of characters with the same text are the same.
pub encode-injective : (a b : Json) → valid a ≡ true → valid b ≡ true → encode a ≡ encode b → a ≡ b
encode-injective a b va vb e =
    (encode-append a b [] [] tt tt va vb
      (append-nil (encode a) ∙ e ∙ sym (append-nil (encode b)))).0
