-- ===== src/Result.antt =====
-- What a Go call returns and what it can end in.
use synk.Base.{arith, ◌⊎◌, inl, inr, ◌≡◌, refl, List, Text, [], Option, none, some}

-- A value and an `error`, of which the program reads one.
pub data Result {ℓ} (A : Type ℓ) : Type ℓ where
  ok : A → Result A
  err : Text → Result A

-- An `error`; `none` is nil.
abbrev pub Error : Type 0
Error = Option Text

pub Result-cases {ℓ} :
    {A : Type ℓ} (r : Result A) → ((a : A) × (r ≡ ok a)) ⊎ ((e : Text) × (r ≡ err e))
Result-cases (ok a) = inl (a, refl)
Result-cases (err e) = inr (e, refl)

-- The call has no error.
abbrev pub IsOk : {A : Type 0} → Result A → Type 0
IsOk (ok a) = Unit
IsOk (err e) = ⊥

abbrev pub map_ok : {A B : Type 0} → (A → B) → Result A → Result B
map_ok f (ok a) = ok (f a)
map_ok f (err e) = err e

pub map_ok-eq-ok :
    {A B : Type 0} (f : A → B) (r : Result A) (b : B)
    → map_ok f r ≡ ok b
    → (a : A) × (r ≡ ok a) × (b ≡ f a)
map_ok-eq-ok f (ok a) b h = (a, refl, cc)
map_ok-eq-ok f (err e) b h = cc

pub ok_inj {ℓ} : {A : Type ℓ} (a b : A) → ◌≡◌ {A = Result A} (ok a) (ok b) → a ≡ b
ok_inj a b e = cc

pub map_ok-IsOk : {A B : Type 0} (f : A → B) (r : Result A) → IsOk r → IsOk (map_ok f r)
map_ok-IsOk f (ok a) h = tt
map_ok-IsOk f (err e) h = h

abbrev pub error_of {ℓ} : {A : Type ℓ} → Result A → Error
error_of (ok a) = none
error_of (err e) = some e

-- The value, if there is one
abbrev pub value {ℓ} : {A : Type ℓ} → Result A → Option A
value (ok a) = some a
value (err e) = none

-- A slice that a failed call leaves nil.
abbrev pub or_nil {ℓ} : {A : Type ℓ} → Result (List A) → List A
or_nil (ok l) = l
or_nil (err e) = []

-- A call returns, or panics.
pub data Outcome {ℓ} (A : Type ℓ) : Type ℓ where
  returns : A → Outcome A
  panics : Text → Outcome A

-- Methods that change what their pointers reach. What was written before a panic stays written, so
-- the state comes back beside the outcome.
abbrev pub Exec {ℓ} : Type ℓ → Type ℓ → Type ℓ
Exec S A = S → Outcome A × S

module _ {ℓ} {S A : Type ℓ} where
  abbrev pub pure : A → Exec S A
  pure a s = (returns a, s)

  abbrev pub gets : (S → A) → Exec S A
  gets f s = (returns (f s), s)

module _ {ℓ} {S A B : Type ℓ} where
  abbrev pub continue : Outcome A → (A → Exec S B) → Exec S B
  continue (returns a) f s = f a s
  continue (panics e) f s = (panics e, s)

  infixl 10 ◌>>=◌ ◌>>◌
  abbrev pub ◌>>=◌ : Exec S A → (A → Exec S B) → Exec S B
  ◌>>=◌ m f s = let (r, s') = m s in continue r f s'

  abbrev pub ◌>>◌ : Exec S A → Exec S B → Exec S B
  m >> n = m >>= λ _. n

module _ {S A B : Type 0} where
  -- A chain that returns has returned at each step.
  pub continue-returns :
      (r : Outcome A) (f : A → Exec S B) (s : S) (b : B)
      → (continue r f s).0 ≡ returns b
      → (a : A) × (r ≡ returns a) × ((f a s).0 ≡ returns b)
  continue-returns (returns a) f s b h = (a, refl, h)
  continue-returns (panics e) f s b h = absurd (ground (arith))
