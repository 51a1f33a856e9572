-- ===== src/Base/Bits/Bitwise.antt =====
-- The digits of `&`, `|`, `^`, `~` and of a power of two.
use Prim.Native.Nat.{
  ℕ, zero, suc, ◌+◌, ◌-◌, ◌*◌, ◌/◌, ◌%◌, ◌^◌, ◌≤◌, ◌<◌, min, max, bit_and, bit_or, bit_xor, digits,
  bitwise, bit_and-bitwise, bit_or-bitwise, bit_xor-bitwise, differ,
}
use mathlib.Core.Path.{◌≡◌, refl, sym, ap, ◌∙◌}
use mathlib.Core.Bool.{false, not, xor, ◌&&◌, ◌||◌}
use native.Mathlib.Omega.{arith}
use native.Mathlib.Nat.{pow-succ', le_refl, zero-add, suc-add}
use rtlzz.Base.Tests.{◌==◌}
use rtlzz.Base.Bits.Digits.{
  test_bit, test_bit-zero, test_bit-suc, test_bit-of_zero, pow_pos, mod_pow-suc,
}

-- A recursion on digits with more rounds than the first number needs.
module _ (rest : ℕ → ℕ) (on_digits : ℕ → ℕ → ℕ) where
  spare_round :
      (rounds x y : ℕ)
      → x ≤ rounds
      → digits rest on_digits (suc rounds) x y ≡ digits rest on_digits rounds x y
  spare_round zero zero y h = refl
  spare_round zero (suc x) y h = absurd (omega arith)
  spare_round (suc rounds) zero y h = refl
  spare_round (suc rounds) (suc x) y h = rw (spare_round rounds (suc x / 2) (y / 2) (omega arith))

  spare_rounds : (k x y : ℕ) → digits rest on_digits (k + x) x y ≡ bitwise rest on_digits x y
  spare_rounds zero x y = rw (zero-add x) refl
  spare_rounds (suc k) x y =
      rw (suc-add k x) (spare_round (k + x) x y (omega arith) ∙ spare_rounds k x y)

  -- `at_zero` is the equation where the first number has run out.
  lowest_digit :
      (x y : ℕ) (at_zero : rest y ≡ rest (y / 2) * 2 + on_digits 0 (y % 2))
      → bitwise rest on_digits x y
        ≡ bitwise rest on_digits (x / 2) (y / 2) * 2 + on_digits (x % 2) (y % 2)
  lowest_digit zero y at_zero = at_zero
  lowest_digit (suc x) y at_zero =
      let e : x ≡ (x - suc x / 2) + suc x / 2 = omega arith in
      ap (λ (t : ℕ). t * 2 + on_digits (suc x % 2) (y % 2))
        (ap (λ (t : ℕ). digits rest on_digits t (suc x / 2) (y / 2)) e
          ∙ spare_rounds (x - suc x / 2) (suc x / 2) (y / 2))

bit_and_step : (a b : ℕ) → bit_and a b ≡ bit_and (a / 2) (b / 2) * 2 + min (a % 2) (b % 2)
bit_and_step a b = simp bit_and-bitwise (lowest_digit (λ _. 0) min a b (omega arith))

bit_or_step : (a b : ℕ) → bit_or a b ≡ bit_or (a / 2) (b / 2) * 2 + max (a % 2) (b % 2)
bit_or_step a b = simp bit_or-bitwise (lowest_digit (λ y. y) max a b (omega arith))

half-bit_and : (a b : ℕ) → bit_and a b / 2 ≡ bit_and (a / 2) (b / 2)
half-bit_and a b = omega (arith, bit_and_step a b)

half-bit_or : (a b : ℕ) → bit_or a b / 2 ≡ bit_or (a / 2) (b / 2)
half-bit_or a b = omega (arith, bit_or_step a b)

half-pow : (k : ℕ) → 2 ^ suc k / 2 ≡ 2 ^ k
half-pow k = omega (arith, pow-succ' 2 k)

half-complement : (w n : ℕ) → n < 2 ^ suc w → (2 ^ suc w - 1 - n) / 2 ≡ 2 ^ w - 1 - n / 2
half-complement w n h = omega (arith, pow-succ' 2 w, pow_pos w)

bit_and_of_zero : (b : ℕ) → bit_and 0 b ≡ 0
bit_and_of_zero b = bit_and-bitwise 0 b

-- One digit of each operation.
pub test_bit-bit_and : (a b i : ℕ) → test_bit (bit_and a b) i ≡ (test_bit a i && test_bit b i)
test_bit-bit_and a b zero =
    ground (arith, bit_and_step a b, test_bit-zero (bit_and a b), test_bit-zero a, test_bit-zero b)
test_bit-bit_and a b (suc i) =
    test_bit-suc (bit_and a b) i
    ∙ rw (half-bit_and a b)
        (rw (test_bit-suc a i, test_bit-suc b i) (test_bit-bit_and (a / 2) (b / 2) i))

pub test_bit-bit_or : (a b i : ℕ) → test_bit (bit_or a b) i ≡ (test_bit a i || test_bit b i)
test_bit-bit_or a b zero =
    ground (arith, bit_or_step a b, test_bit-zero (bit_or a b), test_bit-zero a, test_bit-zero b)
test_bit-bit_or a b (suc i) =
    test_bit-suc (bit_or a b) i
    ∙ rw (half-bit_or a b)
        (rw (test_bit-suc a i, test_bit-suc b i) (test_bit-bit_or (a / 2) (b / 2) i))

differ_of_bits : (x y : ℕ) → x < 2 → y < 2 → differ x y ≡ (x + y) % 2
differ_of_bits zero y p q = omega arith
differ_of_bits (suc zero) zero p q = refl
differ_of_bits (suc zero) (suc zero) p q = refl
differ_of_bits (suc zero) (suc (suc y)) p q = absurd (omega arith)
differ_of_bits (suc (suc x)) y p q = absurd (omega arith)

bit_xor_step : (a b : ℕ) → bit_xor a b ≡ bit_xor (a / 2) (b / 2) * 2 + (a % 2 + b % 2) % 2
bit_xor_step a b = simp bit_xor-bitwise (
    lowest_digit (λ y. y) differ a b
      (at_zero (differ_of_bits 0 (b % 2) (omega arith) (omega arith)))
    ∙ rw (differ_of_bits (a % 2) (b % 2) (omega arith) (omega arith)))
  where
    at_zero : differ 0 (b % 2) ≡ (0 + b % 2) % 2 → b ≡ b / 2 * 2 + differ 0 (b % 2)
    at_zero e = omega (arith, e)

half-bit_xor : (a b : ℕ) → bit_xor a b / 2 ≡ bit_xor (a / 2) (b / 2)
half-bit_xor a b = omega (arith, bit_xor_step a b)

pub test_bit-bit_xor : (a b i : ℕ) → test_bit (bit_xor a b) i ≡ xor (test_bit a i) (test_bit b i)
unfolding xor
test_bit-bit_xor a b zero =
    ground (arith, bit_xor_step a b, test_bit-zero (bit_xor a b), test_bit-zero a, test_bit-zero b)
test_bit-bit_xor a b (suc i) =
    test_bit-suc (bit_xor a b) i
    ∙ rw (half-bit_xor a b)
        (rw (test_bit-suc a i, test_bit-suc b i) (test_bit-bit_xor (a / 2) (b / 2) i))

-- `1 << k` has the digit `k` alone.
pub test_bit-pow : (k i : ℕ) → test_bit (2 ^ k) i ≡ (k == i)
test_bit-pow zero zero = test_bit-zero 1
test_bit-pow zero (suc i) = test_bit-suc 1 i ∙ ground (arith, test_bit-of_zero i)
test_bit-pow (suc k) zero = test_bit-zero (2 ^ suc k) ∙ ground (arith, pow-succ' 2 k)
test_bit-pow (suc k) (suc i) =
    test_bit-suc (2 ^ suc k) i ∙ rw (half-pow k) (test_bit-pow k i ∙ ground arith)

-- `~` on `w` bits flips each of them.
pub test_bit-complement :
    (w n i : ℕ) → n < 2 ^ w → i < w → test_bit (2 ^ w - 1 - n) i ≡ not (test_bit n i)
test_bit-complement zero n i h p = absurd (omega arith)
test_bit-complement (suc w) n zero h p =
    ground (arith, test_bit-zero (2 ^ suc w - 1 - n), test_bit-zero n, pow-succ' 2 w, pow_pos w)
test_bit-complement (suc w) n (suc i) h p =
    test_bit-suc (2 ^ suc w - 1 - n) i
    ∙ rw (half-complement w n h) (
        test_bit-complement w (n / 2) i (omega (arith, pow-succ' 2 w)) (omega arith)
        ∙ ap not (sym (test_bit-suc n i)))

-- The operations stay within the width of their operands.
pub bit_or-lt : (w a b : ℕ) → a < 2 ^ w → b < 2 ^ w → bit_or a b < 2 ^ w
bit_or-lt zero a b p q =
    let e : a ≡ 0 = omega arith in let f : b ≡ 0 = omega arith in rw (e, f) (omega arith)
bit_or-lt (suc w) a b p q = omega (
  arith,
  bit_or_step a b,
  pow-succ' 2 w,
  bit_or-lt w (a / 2) (b / 2) (omega (arith, pow-succ' 2 w)) (omega (arith, pow-succ' 2 w)),
)

pub bit_xor-lt : (w a b : ℕ) → a < 2 ^ w → b < 2 ^ w → bit_xor a b < 2 ^ w
bit_xor-lt zero a b p q =
    let e : a ≡ 0 = omega arith in let f : b ≡ 0 = omega arith in rw (e, f) (omega arith)
bit_xor-lt (suc w) a b p q = omega (
  arith,
  bit_xor_step a b,
  pow-succ' 2 w,
  bit_xor-lt w (a / 2) (b / 2) (omega (arith, pow-succ' 2 w)) (omega (arith, pow-succ' 2 w)),
)

pub bit_and-lt : (w a b : ℕ) → a < 2 ^ w → bit_and a b < 2 ^ w
bit_and-lt zero a b p = let e : a ≡ 0 = omega arith in rw e (omega (arith, bit_and_of_zero b))
bit_and-lt (suc w) a b p = omega (
  arith,
  bit_and_step a b,
  pow-succ' 2 w,
  bit_and-lt w (a / 2) (b / 2) (omega (arith, pow-succ' 2 w)),
)

bit_and_zero_fuel : (n a : ℕ) → a ≤ n → bit_and a 0 ≡ 0
bit_and_zero_fuel zero a h = let e : a ≡ 0 = omega arith in rw e (bit_and_of_zero 0)
bit_and_zero_fuel (suc n) zero h = bit_and_of_zero 0
bit_and_zero_fuel (suc n) (suc a) h =
    omega (arith, bit_and_step (suc a) 0, bit_and_zero_fuel n (suc a / 2) (omega arith))

-- A mask of the low digits takes the remainder.
pub bit_and_mask : (k a : ℕ) → bit_and a (2 ^ k - 1) ≡ a % 2 ^ k
bit_and_mask zero a = omega (arith, bit_and_zero_fuel a a (le_refl a))
bit_and_mask (suc k) a =
    let e : (2 ^ suc k - 1) / 2 ≡ 2 ^ k - 1 = omega (arith, pow-succ' 2 k, pow_pos k) in
    bit_and_step a (2 ^ suc k - 1)
    ∙ rw e (omega (arith, bit_and_mask k (a / 2), mod_pow-suc a k, pow-succ' 2 k, pow_pos k))

bit_or_zero_fuel : (n a : ℕ) → a ≤ n → bit_or a 0 ≡ a
bit_or_zero_fuel zero a h = let e : a ≡ 0 = omega arith in rw e refl
bit_or_zero_fuel (suc n) zero h = refl
bit_or_zero_fuel (suc n) (suc a) h =
    omega (arith, bit_or_step (suc a) 0, bit_or_zero_fuel n (suc a / 2) (omega arith))

even_of_test : (a : ℕ) → test_bit a 0 ≡ false → a % 2 ≡ 0
even_of_test a h = ground (arith, test_bit-zero a)

-- Setting a digit that is clear adds its weight.
pub bit_or_pow : (i a : ℕ) → test_bit a i ≡ false → bit_or a (2 ^ i) ≡ a + 2 ^ i
bit_or_pow zero a h =
    omega
      (arith, bit_or_step a 1, bit_or_zero_fuel (a / 2) (a / 2) (le_refl (a / 2)), even_of_test a h)
bit_or_pow (suc i) a h =
    let half : 2 ^ suc i / 2 ≡ 2 ^ i = half-pow i in
    bit_or_step a (2 ^ suc i)
    ∙ rw half (omega (arith, bit_or_pow i (a / 2) (sym (test_bit-suc a i) ∙ h), pow-succ' 2 i))
