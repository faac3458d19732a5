-- ===== src/Base/Number.antt =====
-- Numbers as text: `strconv.FormatInt(n, base)` and `%v` of an int, and the number that such a
-- text stands for.
use Prim.Native.Nat.{ℕ, zero, suc, ◌+◌, ◌-◌, ◌*◌, ◌/◌, ◌%◌, ◌≤◌, ◌<◌}
use mathlib.Core.Path.{◌≡◌, sym, ap, subst, ◌∙◌}
use mathlib.Core.Logic.{dite, dif_pos, dif_neg, ◌≢◌, ◌⊎◌}
use mathlib.Core.List.{[], ◌∷◌, ◌++◌, foldl, foldl-append}
use mathlib.Core.WellFounded.{Acc, WellFounded}
use native.Mathlib.Omega.{arith}
use native.Mathlib.Decide.{dec_lt}
use native.Mathlib.Bridge.{le_prop}
use synk.Base.Tests.{ltb, if◌then◌else◌}
use synk.Base.Lists.{Text, All, All-append, All-imp}
use synk.Base.Index.{Lacks}
use synk.Base.Equality.{ℤ, pos, negsuc}

Acc-below : (k n : ℕ) → n < k → Acc ◌<◌ n
Acc-below zero n h = absurd (omega arith)
Acc-below (suc k) n h = Acc.intro n (λ m hm. Acc-below k m (omega arith))

lt_wf : WellFounded ◌<◌
unfolding Acc-below
lt_wf = record { apply = λ n. Acc-below (suc n) n (omega arith) }

-- A digit below 36.
abbrev pub digit : ℕ → ℕ
digit d = if ltb d 10 then b'0' + d else b'a' + (d - 10)

abbrev pub digit_value : ℕ → ℕ
digit_value c = if ltb c b'a' then c - b'0' else c - b'a' + 10

pub digit_value-digit : (d : ℕ) → digit_value (digit d) ≡ d
digit_value-digit d = ground arith

-- The base is b + 2, so that there is no base to refuse.
shrinks : (b n : ℕ) → ¬ (n < b + 2) → n / (b + 2) < n
shrinks b n h = grind arith

div-add : (b n : ℕ) → n / (b + 2) * (b + 2) + n % (b + 2) ≡ n
div-add b n = grind arith

format_acc : (b n : ℕ) → Acc ◌<◌ n → Text
format_acc b n (Acc.intro _ smaller) =
    dite (dec_lt n (b + 2)) (λ h. digit n ∷ [])
      (λ h. format_acc b (n / (b + 2)) (smaller _ (shrinks b n h)) ++ digit (n % (b + 2)) ∷ [])

-- The digits of n in base b + 2, at most 36.
unfoldable pub format_base : ℕ → ℕ → Text
unfolding format_acc lt_wf dec_lt shrinks
format_base b n = format_acc b n (lt_wf.apply n)

-- `strconv.FormatInt` in base b + 2
unfoldable pub format_int : ℕ → ℤ → Text
unfolding format_base
format_int b (pos n) = format_base b n
format_int b (negsuc n) = b'-' ∷ format_base b (n + 1)

-- `%v` of an int
unfoldable pub itoa : ℤ → Text
unfolding format_int
itoa z = format_int 8 z

-- The number that digits in base b + 2 stand for.
abbrev value : ℕ → Text → ℕ
value b = foldl (λ n c. n * (b + 2) + digit_value c) 0

value-format_acc : (b n : ℕ) (w : Acc ◌<◌ n) → value b (format_acc b n w) ≡ n
unfolding format_acc
value-format_acc b n (Acc.intro _ smaller) = elim (dec_lt n (b + 2)) [
  | yes p ↦ rw (dif_pos (dec_lt n (b + 2)) le_prop p) (omega (arith, digit_value-digit n))
  | no q ↦
      let m = n / (b + 2) in
      rw
        (
          dif_neg _ q,
          foldl-append,
          value-format_acc b m (smaller m (shrinks b n q)),
          digit_value-digit (n % (b + 2)),
        )
        (div-add b n)
]

-- A number is read back from its digits.
pub value-format_base : (b n : ℕ) → value b (format_base b n) ≡ n
unfolding format_base
value-format_base b n = value-format_acc b n (lt_wf.apply n)

-- Different numbers have different digits.
pub format_base-injective : (b m n : ℕ) → format_base b m ≡ format_base b n → m ≡ n
format_base-injective b m n e = sym (value-format_base b m) ∙ ap (value b) e ∙ value-format_base b n

-- A decimal digit or a lower case letter.
abbrev pub IsAlnum : ℕ → Type 0
IsAlnum c = ((b'0' ≤ c) × (c ≤ b'9')) ⊎ ((b'a' ≤ c) × (c ≤ b'z'))

digit-IsAlnum : (d : ℕ) → d < 36 → IsAlnum (digit d)
digit-IsAlnum d h = ground arith

-- What holds of the digits of a base holds of all characters of a number.
format_acc-All :
    (P : ℕ → Type 0) (b n : ℕ) (w : Acc ◌<◌ n)
    → ((d : ℕ) → d < b + 2 → P (digit d))
    → All P (format_acc b n w)
unfolding format_acc
format_acc-All P b n (Acc.intro _ smaller) h = elim (dec_lt n (b + 2)) [
  | yes p ↦ rw (dif_pos (dec_lt n (b + 2)) le_prop p) (h n p, tt)
  | no q ↦
      let m = n / (b + 2) in
      rw (dif_neg _ q) (
        All-append P _ _ (format_acc-All P b m (smaller m (shrinks b n q)) h)
          (h (n % (b + 2)) (grind arith), tt))
]

pub format_base-IsAlnum : (b n : ℕ) → b + 2 ≤ 36 → All IsAlnum (format_base b n)
unfolding format_base
format_base-IsAlnum b n le =
    format_acc-All IsAlnum b n (lt_wf.apply n) (λ d h. digit-IsAlnum d (omega arith))

-- A mark is none of the characters of a printed int.
abbrev pub IsMark : ℕ → Type 0
IsMark c = (c ≢ b'-') × ¬ IsAlnum c

pub format_int-Lacks : (b c : ℕ) (z : ℤ) → b + 2 ≤ 36 → IsMark c → Lacks c (format_int b z)
unfolding format_int
format_int-Lacks b c (pos n) le h =
    All-imp IsAlnum (λ x. x ≢ c) (λ x a e. h.1 (subst IsAlnum e a)) _ (format_base-IsAlnum b n le)
format_int-Lacks b c (negsuc n) le h = (
  λ e. h.0 (sym e),
  All-imp IsAlnum (λ x. x ≢ c) (λ x a e. h.1 (subst IsAlnum e a)) _
      (format_base-IsAlnum b (n + 1) le),
)

pub itoa-Lacks : (c : ℕ) (z : ℤ) → IsMark c → Lacks c (itoa z)
unfolding itoa
itoa-Lacks c z h = format_int-Lacks 8 c z (omega arith) h

not-IsAlnum_minus : ¬ IsAlnum b'-'
not-IsAlnum_minus h = omega arith

-- No digits begin with a minus sign.
minus-ne-format : (b n : ℕ) (t : Text) → b + 2 ≤ 36 → format_base b n ≢ b'-' ∷ t
minus-ne-format b n t le e =
    not-IsAlnum_minus (subst (All IsAlnum) e (format_base-IsAlnum b n le)).0

-- Different ints are printed differently.
pub format_int-injective : (b : ℕ) (y z : ℤ) → b + 2 ≤ 36 → format_int b y ≡ format_int b z → y ≡ z
unfolding format_int
format_int-injective b (pos m) (pos n) le e = ap pos (format_base-injective b m n e)
format_int-injective b (pos m) (negsuc n) le e = absurd (minus-ne-format b m _ le e)
format_int-injective b (negsuc m) (pos n) le e = absurd (minus-ne-format b n _ le (sym e))
format_int-injective b (negsuc m) (negsuc n) le e =
    let same = format_base-injective b (m + 1) (n + 1) (cc) in ap negsuc (omega arith)

pub itoa-injective : (y z : ℤ) → itoa y ≡ itoa z → y ≡ z
unfolding itoa
itoa-injective y z e = format_int-injective 8 y z (omega arith) e

-- A decimal digit or a minus sign
abbrev pub IsDecimal : ℕ → Type 0
IsDecimal c = c ≤ b'9'

digit-IsDecimal : (d : ℕ) → d < 10 → IsDecimal (digit d)
digit-IsDecimal d h = ground arith

pub itoa-IsDecimal : (z : ℤ) → All IsDecimal (itoa z)
unfolding itoa format_int format_base
itoa-IsDecimal (pos n) = format_acc-All IsDecimal 8 n (lt_wf.apply n) digit-IsDecimal
itoa-IsDecimal (negsuc n) =
    (omega arith, format_acc-All IsDecimal 8 (n + 1) (lt_wf.apply (n + 1)) digit-IsDecimal)
