-- ===== src/Limbs/Shift/Right.antt =====
-- `factsShrBits` divides by a power of two, or shifts a two's complement number, as long as the
-- position does not wrap; an amount just below 2 ^ 64 shifts to the left instead.
use rtlzz.Base.{
  refl, ℕ, ◌+◌, ◌-◌, ◌*◌, ◌/◌, ◌%◌, ◌^◌, ◌≤◌, ◌<◌, ◌≡◌, ap, ◌∙◌, List, Bool, true, false, ◌&&◌, ltb,
  leb, if◌then◌else◌, length, arith, Bool-cases, inl, inr,
}
use rtlzz.Base.Bits.{
  test_bit, test_bit-mod, test_bit-mul, test_bit-div, test_bit-complement, pow_pos, test_bit-above,
}
use native.Mathlib.Nat.{div-le_self, add_comm}
use rtlzz.Limbs.{limb_count, zeros, get_bit, sign_bit}
use rtlzz.Limbs.Value.{IsLimbs, value, IsWord, get_bit-value}
use rtlzz.Limbs.Loops.{
  set_where-zeros-IsWord, set_where-IsLimbs, length-set_where, zeros-IsLimbs, length-zeros,
  get_bit-set_where-zeros, value_of_bits,
}
use rtlzz.Limbs.Shift.{moved, shr_test, shr_bits}

module _ (v : List ℕ) (w a : ℕ) (signed : Bool) where
  pub shr_bits-IsLimbs : IsLimbs (shr_bits v w a signed)
  unfolding shr_bits
  shr_bits-IsLimbs =
      set_where-IsLimbs (shr_test v w a (signed && sign_bit v w)) w 0 (zeros w) (zeros-IsLimbs w)

  pub length-shr_bits : length (shr_bits v w a signed) ≡ limb_count w
  unfolding shr_bits
  length-shr_bits =
      length-set_where (shr_test v w a (signed && sign_bit v w)) w 0 (zeros w) ∙ length-zeros w

  -- The bits of the result at a width and an amount for which no position wraps.
  get_bit-shr_bits :
      (j : ℕ)
      → a + w ≤ 2 ^ 64
      → get_bit (shr_bits v w a signed) j
        ≡ (ltb j w && (if ltb (j + a) w then get_bit v (j + a) else signed && sign_bit v w))
  unfolding shr_bits shr_test
  get_bit-shr_bits j h =
      get_bit-set_where-zeros (shr_test v w a (signed && sign_bit v w)) w j
      ∙ elim (Bool-cases (ltb j w)) [
        | inl inside ↦ (let e : moved j a ≡ j + a = ground arith in rw e)
        | inr outside ↦ rw outside
      ]

pub shr_bits-IsWord : (v : List ℕ) (w a : ℕ) (signed : Bool) → IsWord w (shr_bits v w a signed)
unfolding shr_bits
shr_bits-IsWord v w a signed = set_where-zeros-IsWord (shr_test v w a (signed && sign_bit v w)) w

-- A signed shift of a word that is not negative is an unsigned one.
pub shr_bits_positive :
    (v : List ℕ) (w a : ℕ) → sign_bit v w ≡ false → shr_bits v w a true ≡ shr_bits v w a false
unfolding shr_bits
shr_bits_positive v w a positive = rw positive refl

-- An unsigned right shift divides the low bits by two to the amount.
pub value-shr_bits :
    (v : List ℕ) (w a : ℕ)
    → a + w ≤ 2 ^ 64
    → IsLimbs v
    → value (shr_bits v w a false) ≡ value v % 2 ^ w / 2 ^ a
value-shr_bits v w a h hv =
    value_of_bits (shr_bits v w a false) (value v % 2 ^ w / 2 ^ a) (shr_bits-IsLimbs v w a false)
      λ j. ground (
        arith,
        get_bit-shr_bits v w a false j h,
        test_bit-div a (value v % 2 ^ w) j,
        test_bit-mod w (value v) (a + j),
        get_bit-value v (j + a) hv,
        ap (λ (t : ℕ). test_bit (value v) t) (add_comm a j),
      )

complement-lt : (w n : ℕ) → 2 ^ w - 1 - n < 2 ^ w
complement-lt w n = omega (arith, pow_pos w)

-- A signed right shift of a negative number fills with ones: it is the complement of the shifted
-- complement, which rounds the quotient down.
pub value-shr_bits_negative :
    (v : List ℕ) (w a : ℕ)
    → a + w ≤ 2 ^ 64
    → IsWord w v
    → sign_bit v w ≡ true
    → value (shr_bits v w a true) ≡ 2 ^ w - 1 - (2 ^ w - 1 - value v) / 2 ^ a
value-shr_bits_negative v w a h hv negative =
    let c = 2 ^ w - 1 - value v in
    let small : c / 2 ^ a < 2 ^ w =
      omega (arith, div-le_self c (2 ^ a), complement-lt w (value v)) in
    value_of_bits (shr_bits v w a true) (2 ^ w - 1 - c / 2 ^ a) (shr_bits-IsLimbs v w a true) λ j.
      ground (
        arith,
        get_bit-shr_bits v w a true j h,
        test_bit-complement w (c / 2 ^ a) j small,
        test_bit-div a c j,
        test_bit-complement w (value v) (a + j) hv.fits,
        test_bit-above w c (a + j) (complement-lt w (value v)),
        test_bit-above w (2 ^ w - 1 - c / 2 ^ a) j (complement-lt w (c / 2 ^ a)),
        get_bit-value v (j + a) hv.limbs,
        ap (λ (t : ℕ). test_bit (value v) t) (add_comm a j),
      )

get_bit-shr_bits_wrapped :
    (v : List ℕ) (w k j : ℕ)
    → 0 < k
    → k + w ≤ 2 ^ 64
    → get_bit (shr_bits v w (2 ^ 64 - k) false) j ≡ (ltb j w && (leb k j && get_bit v (j - k)))
unfolding shr_bits shr_test
get_bit-shr_bits_wrapped v w k j pos_k h =
    get_bit-set_where-zeros (shr_test v w (2 ^ 64 - k) false) w j
    ∙ elim (Bool-cases (ltb j w && leb k j)) [
      | inl back ↦ (let e : moved j (2 ^ 64 - k) ≡ j - k = ground arith in rw e (ground arith))
      | inr front ↦ elim (Bool-cases (ltb j w)) [
        | inl inside ↦
            (let e : moved j (2 ^ 64 - k) ≡ j + 2 ^ 64 - k = ground arith in rw e (ground arith))
        | inr outside ↦ rw outside
      ]
    ]

-- An amount of 2 ^ 64 - k makes the position wrap: the unsigned right shift is a left shift by k.
pub shr_bits_wraps :
    (v : List ℕ) (w k : ℕ)
    → 0 < k
    → k + w ≤ 2 ^ 64
    → IsLimbs v
    → value (shr_bits v w (2 ^ 64 - k) false) ≡ 2 ^ k * value v % 2 ^ w
shr_bits_wraps v w k pos_k h hv =
    value_of_bits (shr_bits v w (2 ^ 64 - k) false) (2 ^ k * value v % 2 ^ w)
      (shr_bits-IsLimbs v w (2 ^ 64 - k) false)
      λ j. ground (
        arith,
        get_bit-shr_bits_wrapped v w k j pos_k h,
        test_bit-mod w (2 ^ k * value v) j,
        test_bit-mul k (value v) j,
        get_bit-value v (j - k) hv,
      )
