-- ===== src/Base/Equality.antt =====
-- Go's `==` on the types that the program compares.
use Prim.Native.Nat.{ℕ}
use mathlib.Core.Path.{refl, ap, ap₂}
use mathlib.Core.Logic.{ite, dite}
use mathlib.Core.Bool.{Bool, true, false}
use mathlib.Core.List.{[], ◌∷◌}
use native.Mathlib.Decide.{ℕ_discrete}
use synk.Base.Lists.{Text}

-- An `int` of Go, 64 bits wide; `negsuc n` is -(n + 1). The program stores, compares and prints them.
pub data ℤ : Type 0 where
  pos : ℕ → ℤ
  negsuc : ℕ → ℤ

pub record Eq {ℓ} (A : Type ℓ) : Type ℓ where
  pub dec : Discrete A

infix 50 ◌==◌
abbrev pub ◌==◌ {ℓ} : {A : Type ℓ} ⦃e : Eq A⦄ → A → A → Bool
◌==◌ ⦃e⦄ a b = ite (e.dec a b) true false

text_dec : Discrete Text
unfolding ℕ_discrete
text_dec [] [] = yes refl
text_dec [] (b ∷ bs) = no (λ p. cc)
text_dec (a ∷ as') [] = no (λ p. cc)
text_dec (a ∷ as') (b ∷ bs) =
    dite (ℕ_discrete a b)
      (λ p. dite (text_dec as' bs) (λ q. yes (ap₂ ◌∷◌ p q)) (λ n. no (λ e. n (cc))))
      (λ n. no (λ e. n (cc)))

int_dec : Discrete ℤ
unfolding ℕ_discrete
int_dec (pos a) (pos b) = dite (ℕ_discrete a b) (λ p. yes (ap pos p)) (λ n. no (λ e. n (cc)))
int_dec (pos a) (negsuc b) = no (λ p. cc)
int_dec (negsuc a) (pos b) = no (λ p. cc)
int_dec (negsuc a) (negsuc b) =
    dite (ℕ_discrete a b) (λ p. yes (ap negsuc p)) (λ n. no (λ e. n (cc)))

-- Shut in proofs, where a split on `s == t` yields the equation or its negation.
instance unfoldable pub nat_eq : Eq ℕ
unfolding ℕ_discrete
nat_eq = record { dec = ℕ_discrete }

instance unfoldable pub text_eq : Eq Text
unfolding text_dec
text_eq = record { dec = text_dec }

instance unfoldable pub int_eq : Eq ℤ
unfolding int_dec
int_eq = record { dec = int_dec }
