-- ===== src/Stest/Human/Key.antt =====
-- The subscription keys of Human.
use synk.Base.{Text, ℤ, false, ◌∷◌, ◌++◌, ◌≡◌, ◌↔◌, arith, All-append}
use synk.Base.Index.{Lacks, split_last, split_first}
use synk.Base.Number.{itoa, itoa-Lacks, itoa-injective}
use synk.Stest.Human.{
  Human, changed, format_key, get_cy, get_cx, get_map_id, get_sub_key, get_prev_sub_key,
}

place-Lacks : (a b : ℤ) → Lacks b':' (itoa a ++ b'|' ∷ itoa b)
place-Lacks a b =
    All-append _ (itoa a) (b'|' ∷ itoa b) (itoa-Lacks b':' a (omega arith))
      (λ e. absurd (omega arith), itoa-Lacks b':' b (omega arith))

-- The character after the map's name is the last colon of a key.
format_key-injective :
    (m n : Text) (a b c d : ℤ) → format_key m a b ≡ format_key n c d → (m ≡ n) × (a ≡ c) × (b ≡ d)
unfolding format_key
format_key-injective m n a b c d e =
    let outer =
      split_last b':' m (itoa a ++ b'|' ∷ itoa b) n (itoa c ++ b'|' ∷ itoa d) (place-Lacks a b)
        (place-Lacks c d) e in
    let inner =
      split_first b'|' (itoa a) (itoa b) (itoa c) (itoa d) (itoa-Lacks b'|' a (omega arith))
        (itoa-Lacks b'|' c (omega arith)) (outer.1) in
    (outer.0, itoa-injective a c (inner.0), itoa-injective b d (inner.1))

-- Two humans are in the same chunk by their keys exactly when they are on the same map and at the
-- same chunk coordinates, whatever characters the names of maps hold.
pub get_sub_key_iff :
    (a b : Human)
    → (get_sub_key a ≡ get_sub_key b)
      ↔ ((get_map_id a ≡ get_map_id b) × (get_cx a ≡ get_cx b) × (get_cy a ≡ get_cy b))
unfolding get_sub_key
get_sub_key_iff a b = (λ e. format_key-injective _ _ _ _ _ _ e, λ (m, x, y). cc)

-- An object with no pending change has not moved.
pub get_sub_key_unchanged : (o : Human) → changed o ≡ false → get_sub_key o ≡ get_prev_sub_key o
unfolding changed get_sub_key get_prev_sub_key
get_sub_key_unchanged o h = ground arith
