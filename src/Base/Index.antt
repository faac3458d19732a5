-- ===== src/Base/Index.antt =====
-- Positions in a text: `strings.Index` and `strings.LastIndex` of one character, `HasPrefix`.
use mathlib.Core.Path.{◌≡◌, refl, sym, ap, subst, ◌∙◌}
use mathlib.Core.Logic.{◌≢◌, ◌⊎◌, inl, inr}
use mathlib.Core.Bool.{Bool, true, false, ◌&&◌}
use mathlib.Core.Option.{Option, none, some, some-injective}
use mathlib.Core.Option
use mathlib.Core.List.{[], ◌∷◌, ◌++◌}
use native.Mathlib.Omega.{arith}
use Prim.Native.Nat.{ℕ, suc}
use synk.Base.Tests.{if◌then◌else◌}
use synk.Base.Lists.{Text, length, All}
use synk.Base.Equality.{◌==◌, nat_eq}

-- `strings.Index(s, string(c))`; `none` is -1.
unfoldable pub index : Text → ℕ → Option ℕ
index [] c = none
index (x ∷ s) c = if x == c then some 0 else Option.map suc (index s c)

-- `strings.LastIndex(s, string(c))`; `none` is -1.
unfoldable pub last_index : Text → ℕ → Option ℕ
last_index [] c = none
last_index (x ∷ s) c = elim (last_index s c) [
  | some i ↦ some (suc i)
  | none ↦ if x == c then some 0 else none
]

-- `strings.HasPrefix(s, p)`
unfoldable pub has_prefix : Text → Text → Bool
has_prefix s [] = true
has_prefix [] (y ∷ p) = false
has_prefix (x ∷ s) (y ∷ p) = (x == y) && has_prefix s p

-- The character is not in the text.
abbrev pub Lacks : ℕ → Text → Type 0
Lacks c = All (λ x. x ≢ c)

-- The character's first place splits the text.
pub index-append : (c : ℕ) (s t : Text) → Lacks c s → index (s ++ c ∷ t) c ≡ some (length s)
unfolding index
index-append c [] t h = ground arith
index-append c (x ∷ s) t h = ground (arith, index-append c s t h.1)

pub index-eq-none : (c : ℕ) (s : Text) → Lacks c s → index s c ≡ none
unfolding index
index-eq-none c [] h = refl
index-eq-none c (x ∷ s) h = ground (arith, index-eq-none c s h.1)

-- What `index` finds in a text.
abbrev Finds : ℕ → Text → Option ℕ → Type 0
Finds c s r =
    (Lacks c s × (r ≡ none))
    ⊎ ((a : Text) × (b : Text) × (s ≡ a ++ c ∷ b) × Lacks c a × (r ≡ some (length a)))

Finds-cons :
    (c x : ℕ) (s : Text) (r : Option ℕ) → x ≢ c → Finds c s r → Finds c (x ∷ s) (Option.map suc r)
Finds-cons c x s r n (inl (l, e)) = inl ((n, l), rw e)
Finds-cons c x s r n (inr (a, b, e, l, i)) = inr (x ∷ a, b, ap (◌∷◌ x) e, (n, l), rw i)

-- A text either lacks the character or is split at its first place.
pub index_cases : (c : ℕ) (s : Text) → Finds c s (index s c)
unfolding index
index_cases c [] = inl (tt, refl)
index_cases c (x ∷ s) = elim (nat_eq.dec x c) [
  | yes p ↦ inr ([], s, ap (λ y. y ∷ s) p, tt, ground arith)
  | no n ↦ subst (Finds c (x ∷ s)) (ground arith) (Finds-cons c x s (index s c) n (index_cases c s))
]

pub last_index-eq-none : (c : ℕ) (s : Text) → Lacks c s → last_index s c ≡ none
unfolding last_index
last_index-eq-none c [] h = refl
last_index-eq-none c (x ∷ s) h = ground (arith, last_index-eq-none c s h.1)

pub last_index-append :
    (c : ℕ) (s t : Text) → Lacks c t → last_index (s ++ c ∷ t) c ≡ some (length s)
unfolding last_index
last_index-append c [] t h = ground (arith, last_index-eq-none c t h)
last_index-append c (x ∷ s) t h = ground (arith, last_index-append c s t h)

split_at :
    (c : ℕ) (s t u v : Text) → length s ≡ length u → s ++ c ∷ t ≡ u ++ c ∷ v → (s ≡ u) × (t ≡ v)
split_at c [] t [] v same e = (refl, cc)
split_at c [] t (y ∷ u) v same e = absurd (omega arith)
split_at c (x ∷ s) t [] v same e = absurd (omega arith)
split_at c (x ∷ s) t (y ∷ u) v same e =
    let rest : (s ≡ u) × (t ≡ v) = split_at c s t u v (omega arith) (cc) in (cc (rest.0), rest.1)

pub has_prefix-append : (p s : Text) → has_prefix (p ++ s) p ≡ true
unfolding has_prefix
has_prefix-append [] s = refl
has_prefix-append (x ∷ p) s = ground (arith, has_prefix-append p s)

-- Where the character is in neither rest, its last place splits a text in one way.
pub split_last :
    (c : ℕ) (s t u v : Text) → Lacks c t → Lacks c v → s ++ c ∷ t ≡ u ++ c ∷ v → (s ≡ u) × (t ≡ v)
split_last c s t u v ht hv e =
    let same : length s ≡ length u = some-injective _ _ (
      sym (last_index-append c s t ht) ∙ ap (λ w. last_index w c) e ∙ last_index-append c u v hv) in
    split_at c s t u v same e

-- Where the character is in neither beginning, its first place splits a text in one way.
pub split_first :
    (c : ℕ) (s t u v : Text) → Lacks c s → Lacks c u → s ++ c ∷ t ≡ u ++ c ∷ v → (s ≡ u) × (t ≡ v)
split_first c s t u v hs hu e =
    let same : length s ≡ length u =
      some-injective _ _
        (sym (index-append c s t hs) ∙ ap (λ w. index w c) e ∙ index-append c u v hu) in
    split_at c s t u v same e
