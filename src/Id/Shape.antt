-- ===== src/Id/Shape.antt =====
-- What an ID looks like, and that IDs from a counter differ.
use synk.Base.{
  ℕ, ◌+◌, zero, suc, ◌<◌, Text, codes, ℤ, [], ◌∷◌, ◌++◌, length, All, All-append, ◌≡◌, ◌≢◌, refl,
  sym, ◌∙◌, arith,
}
use synk.Base.Index.{Lacks}
use synk.Base.Number.{format_int, format_int-injective}
use synk.Result.{ok_inj, Result, ok}
use synk.Id.{id_chars2, id_len, char_at, fill, new_id, get_id}

All-char_at : (P : ℕ → Type 0) (s : Text) (i : ℕ) → All P s → i < length s → P (char_at s i)
unfolding char_at
All-char_at P [] i h lt = absurd (omega arith)
All-char_at P (c ∷ s) zero h lt = h.0
All-char_at P (c ∷ s) (suc i) h lt = All-char_at P s i h.1 (omega arith)

All-fill :
    (P : ℕ → Type 0) (draws : ℕ → ℕ)
    → All P id_chars2
    → ((i : ℕ) → draws i < length id_chars2)
    → (i n : ℕ) → All P (fill draws i n)
unfolding fill
All-fill P draws h drawn i zero = tt
All-fill P draws h drawn i (suc n) =
    (All-char_at P id_chars2 (draws i) h (drawn i), All-fill P draws h drawn (i + 1) n)

-- A character that is neither in the alphabet nor the mark at the end
abbrev pub IsForeign : ℕ → Type 0
IsForeign c = Lacks c id_chars2 × (b'!' ≢ c)

-- If the draws are places of the alphabet, a new ID has 16 characters, the last is `!`, and those
-- before it are from the alphabet: no other character is in it, such as the colon of a Redis key.
pub new_id_lem :
    (draws : ℕ → ℕ)
    → ((i : ℕ) → draws i < length id_chars2)
    → (length (new_id draws) ≡ id_len)
      × (new_id draws ≡ fill draws 0 15 ++ b'!' ∷ [])
      × ((c : ℕ) → IsForeign c → Lacks c (new_id draws))
unfolding new_id fill
new_id_lem draws drawn = (
  refl,
  refl,
  λ c h.
      All-append (λ x. x ≢ c) (fill draws 0 15) (b'!' ∷ [])
        (All-fill (λ x. x ≢ c) draws h.0 drawn 0 15) (h.1, tt),
)

get_id_ok :
    (incr : Text → Result ℤ) (key : Text) (r : ℤ)
    → incr (codes "count:" ++ key) ≡ ok r
    → get_id incr key ≡ ok (format_int 34 r)
unfolding get_id
get_id_ok incr key r h = rw (h, get_id) refl

-- IDs that come from two values of a counter, which INCR returns for one key without an error, are
-- the same only if the values are.
pub get_id-injective :
    (incr next : Text → Result ℤ) (key : Text) (r q : ℤ)
    → incr (codes "count:" ++ key) ≡ ok r
    → next (codes "count:" ++ key) ≡ ok q
    → get_id incr key ≡ get_id next key
    → r ≡ q
get_id-injective incr next key r q first second e =
    format_int-injective 34 r q (omega arith)
      (ok_inj _ _ (sym (get_id_ok incr key r first) ∙ e ∙ get_id_ok next key q second))
