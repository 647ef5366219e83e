-- ===== src/Common/Bits.antt =====
-- `&` and `<<` on words of any width: what masking with a run of high ones does.
use Prim.Native.Nat.{bit_and, digits, bit_and-bitwise}
use native.Mathlib.Nat.{pow-suc, pow-succ', zero-add, div-div-eq-div-mul}
use mathlib.Core.Path.{subst}
use cyber_sentinel_ids_ips.Prelude.{
  ℕ, zero, suc, ◌+◌, ◌-◌, ◌*◌, ◌/◌, ◌%◌, ◌^◌, ◌≤◌, ◌<◌, ◌≡◌, refl, ap, ◌∙◌, sym, min, arith,
}

-- `value << shift` on words of `width` bits, for a shift below the width.
abbrev pub shl : ℕ → ℕ → ℕ → ℕ
shl width value shift = (value * 2 ^ shift) % 2 ^ width

-- The definition that the native operation stands for, with `rounds` halvings.
abbrev meet : ℕ → ℕ → ℕ → ℕ
meet rounds x y = digits (λ _. zero) min rounds x y

meet-zero : (rounds y : ℕ) → meet rounds 0 y ≡ 0
meet-zero zero y = refl
meet-zero (suc rounds) y = refl

-- Rounds past the value change nothing.
meet_more : (rounds more x y : ℕ) → x ≤ rounds → meet (rounds + more) x y ≡ meet rounds x y
meet_more rounds more zero y h = meet-zero (rounds + more) y ∙ sym (meet-zero rounds y)
meet_more zero more (suc x) y h = absurd (omega arith)
meet_more (suc rounds) more (suc x) y h =
    let half : suc x / 2 ≤ rounds = omega arith in
    let e : suc rounds + more ≡ suc (rounds + more) = omega arith in
    ap (λ r. meet r (suc x) y) e ∙ omega (arith, meet_more rounds more (suc x / 2) (y / 2) half)

meet_settled : (rounds x y : ℕ) → x ≤ rounds → meet rounds x y ≡ bit_and x y
meet_settled rounds x y h =
    let split : rounds ≡ x + (rounds - x) = omega arith in
    ap (λ r. meet r x y) split
    ∙ meet_more x (rounds - x) x y (omega arith)
    ∙ sym (bit_and-bitwise x y)

-- The lowest digit of `&`, and the others.
pub bit_and_halves : (x y : ℕ) → bit_and x y ≡ bit_and (x / 2) (y / 2) * 2 + min (x % 2) (y % 2)
bit_and_halves zero y = omega (arith, bit_and-bitwise 0 y, bit_and-bitwise 0 (y / 2))
bit_and_halves (suc x) y =
    let rest : meet x (suc x / 2) (y / 2) ≡ bit_and (suc x / 2) (y / 2) =
      meet_settled x (suc x / 2) (y / 2) (omega arith) in
    omega (arith, rest, bit_and-bitwise (suc x) y)

nothing_below : (bound x : ℕ) → x < bound → bit_and x 0 ≡ 0
nothing_below zero x h = absurd (omega arith)
nothing_below (suc bound) zero h = refl
nothing_below (suc bound) (suc x) h =
    let half : suc x / 2 < bound = omega arith in
    omega (arith, nothing_below bound (suc x / 2) half, bit_and_halves (suc x) 0)

bit_and-zero : (x : ℕ) → bit_and x 0 ≡ 0
bit_and-zero x = nothing_below (suc x) x (omega arith)

-- A word of `n` ones, and `k` zeros below a word.
unfoldable pub ones : ℕ → ℕ
ones zero = 0
ones (suc n) = 2 * ones n + 1

unfoldable pub raised : ℕ → ℕ → ℕ
raised zero m = m
raised (suc k) m = 2 * raised k m

pub halved : ℕ → ℕ → ℕ
halved zero a = a
halved (suc k) a = halved k (a / 2)

-- Masking with `n` ones keeps a value of `n` bits.
bit_and-ones : (n a : ℕ) → a < 2 ^ n → bit_and a (ones n) ≡ a
unfolding ones
bit_and-ones zero a h = omega (arith, bit_and-zero a)
bit_and-ones (suc n) a h =
    let e : (2 * ones n + 1) / 2 ≡ ones n = omega arith in
    bit_and_halves a (2 * ones n + 1)
    ∙ rw e (omega (arith, bit_and-ones n (a / 2) (omega (arith, pow-suc 2 n))))

halved-lt : (k n a : ℕ) → a < 2 ^ (k + n) → halved k a < 2 ^ n
unfolding halved
halved-lt zero n a h = subst (λ m. a < 2 ^ m) (zero-add n) h
halved-lt (suc k) n a h = halved-lt k n (a / 2) (
    omega (
      arith,
      pow-suc 2 (k + n),
      subst (λ m. a < 2 ^ m) (let e : suc k + n ≡ suc (k + n) = omega arith in e) h,
    ))

-- Masking with `n` ones over `k` zeros clears the low `k` bits.
pub bit_and-raised :
    (k n a : ℕ) → a < 2 ^ (k + n) → bit_and a (raised k (ones n)) ≡ raised k (halved k a)
unfolding raised halved
bit_and-raised zero n a h = bit_and-ones n a (subst (λ m. a < 2 ^ m) (zero-add n) h)
bit_and-raised (suc k) n a h =
    let e : (2 * raised k (ones n)) / 2 ≡ raised k (ones n) = omega arith in
    bit_and_halves a (2 * raised k (ones n))
    ∙ rw e (
        omega (
          arith,
          bit_and-raised k n (a / 2) (
              omega (
                arith,
                pow-suc 2 (k + n),
                subst (λ m. a < 2 ^ m) (let e : suc k + n ≡ suc (k + n) = omega arith in e) h,
              )),
        ))

pub halved-eq_div : (k a : ℕ) → halved k a ≡ a / 2 ^ k
unfolding halved
halved-eq_div zero a = omega arith
halved-eq_div (suc k) a =
    halved-eq_div k (a / 2) ∙ div-div-eq-div-mul a 2 (2 ^ k) ∙ ap (λ m. a / m) (sym (pow-succ' 2 k))

pub raised_injective : (k a b : ℕ) → raised k a ≡ raised k b → a ≡ b
unfolding raised
raised_injective zero a b h = h
raised_injective (suc k) a b h = raised_injective k a b (omega (arith, h))
