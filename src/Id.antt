-- ===== src/Id.antt =====
-- ID.go
pub mod Shape
use synk.Base.{ℕ, zero, suc, ◌+◌, Text, codes, ℤ, [], ◌∷◌, ◌++◌}
use synk.Base.Number.{format_int}
use synk.Result.{Result, ok, err}

abbrev pub id_chars2 : Text
id_chars2 = codes "1234567890abcdefghijklmnopqrstuvwxyzABCDEFGHIJKLMNOPQRSTUVWXYZ"

abbrev pub id_len : ℕ
id_len = 16

-- `s[i]`. `rand.Intn(len(s))` is below the length of `s`, so 0 is never the result in the program.
unfoldable pub char_at : Text → ℕ → ℕ
char_at [] i = 0
char_at (c ∷ s) zero = c
char_at (c ∷ s) (suc i) = char_at s i

-- `a[i] = c` on an array; a write out of range does not occur.
unfoldable pub set_at : Text → ℕ → ℕ → Text
set_at [] i c = []
set_at (x ∷ s) zero c = c ∷ s
set_at (x ∷ s) (suc i) c = x ∷ set_at s i c

-- The loop over the places from `i` on, `n` of them; `draws i` is the i-th result of `rand.Intn`.
unfoldable pub fill : (ℕ → ℕ) → ℕ → ℕ → Text
unfolding char_at
fill draws i zero = []
fill draws i (suc n) = char_at id_chars2 (draws i) ∷ fill draws (i + 1) n

unfoldable pub new_id : (ℕ → ℕ) → Text
unfolding fill set_at
new_id draws = set_at (fill draws 0 id_len) 15 b'!'

-- `getID`; `incr` is the service's INCR on a key.
unfoldable pub get_id : (Text → Result ℤ) → Text → Result Text
unfolding format_int
get_id incr counter_key = elim (incr (codes "count:" ++ counter_key)) [
  | ok r ↦ ok (format_int 34 r)
  | err e ↦ err e
]
