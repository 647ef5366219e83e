-- ===== src/Prelude/Counting.antt =====
-- How many numbers of an interval pass a test.
use Prim.Native.Nat.{ℕ, zero, suc, ◌+◌, ◌≤◌, ◌<◌}
use mathlib.Core.Path.{◌≡◌, refl, subst}
use mathlib.Core.Bool.{Bool, true, false}
use native.Mathlib.Omega.{arith}
use native.Mathlib.Decide.{dec_lt}

-- How many `x` with `from ≤ x < from + n` pass `p`.
unfoldable pub count_from : (ℕ → Bool) → ℕ → ℕ → ℕ
count_from p from zero = 0
count_from p from (suc n) = elim (p from) [ true ↦ 1 | false ↦ 0 ] + count_from p (from + 1) n

pub count_from-zero : (p : ℕ → Bool) (from : ℕ) → count_from p from 0 ≡ 0
unfolding count_from
count_from-zero p from = refl

pub count_from-suc :
    (p : ℕ → Bool) (from n : ℕ)
    → count_from p from (suc n)
      ≡ elim (p from) as (λ _. ℕ) [ true ↦ 1 | false ↦ 0 ] + count_from p (from + 1) n
unfolding count_from
count_from-suc p from n = refl

-- The middle is a variable with an equation, since `from + 0` is stuck.
pub count_from-append :
    (p : ℕ → Bool) (m n from mid total : ℕ)
    → mid ≡ from + m
    → total ≡ m + n
    → count_from p from total ≡ count_from p from m + count_from p mid n
unfolding count_from
count_from-append p zero n from mid total e f = ground arith
count_from-append p (suc m) n from mid zero e f = absurd (omega arith)
count_from-append p (suc m) n from mid (suc total) e f =
    omega (arith, count_from-append p m n (from + 1) mid total (omega arith) (omega arith))

pub count_from-ext :
    (p q : ℕ → Bool) (from n : ℕ)
    → ((x : ℕ) → from ≤ x → x < from + n → p x ≡ q x)
    → count_from p from n ≡ count_from q from n
unfolding count_from
count_from-ext p q from zero h = refl
count_from-ext p q from (suc n) h =
    ground
      (arith, h from, count_from-ext p q (from + 1) n (λ x a b. h x (omega arith) (omega arith)))

pub count_from-le : (p : ℕ → Bool) (from n : ℕ) → count_from p from n ≤ n
unfolding count_from
count_from-le p from zero = omega arith
count_from-le p from (suc n) = ground (arith, count_from-le p (from + 1) n)

pub count_from_none :
    (p : ℕ → Bool) (from n : ℕ)
    → ((x : ℕ) → from ≤ x → x < from + n → p x ≡ false)
    → count_from p from n ≡ 0
unfolding count_from
count_from_none p from zero h = refl
count_from_none p from (suc n) h =
    ground
      (arith, h from, count_from_none p (from + 1) n (λ x a b. h x (omega arith) (omega arith)))

pub count_from-eq_zero :
    (p : ℕ → Bool) (from n x : ℕ) → count_from p from n ≡ 0 → from ≤ x → x < from + n → p x ≡ false
unfolding count_from
count_from-eq_zero p from zero x e a b = absurd (omega arith)
count_from-eq_zero p from (suc n) x e a b = elim (dec_lt from x) [
  | yes later ↦ count_from-eq_zero p (from + 1) n x (ground arith) (omega arith) (omega arith)
  | no here ↦ let same : x ≡ from = omega arith in rw same (ground arith)
]

-- Whether every number up to `n` passes.
unfoldable pub all_upto : ℕ → (ℕ → Bool) → Bool
all_upto zero p = p 0
all_upto (suc n) p = elim (p (suc n)) [ true ↦ all_upto n p | false ↦ false ]

pub all_upto_sound : (n : ℕ) (p : ℕ → Bool) (x : ℕ) → all_upto n p ≡ true → x ≤ n → p x ≡ true
unfolding all_upto
all_upto_sound zero p x t h = let e : 0 ≡ x = omega arith in subst (λ k. p k ≡ true) e t
all_upto_sound (suc n) p x t h = elim (dec_lt x (suc n)) [
  | yes below ↦ all_upto_sound n p x (ground arith) (omega arith)
  | no top ↦ let e : suc n ≡ x = omega arith in subst (λ k. p k ≡ true) e (ground arith)
]
