-- ===== src/Limbs/Divide/Step.antt =====
-- One step of restoring division: a bit shifted into the remainder, a bit set in the quotient.
use rtlzz.Base.{
  ℕ, ◌+◌, ◌-◌, ◌*◌, ◌/◌, ◌%◌, ◌^◌, ◌≤◌, ◌<◌, ◌≡◌, ◌∙◌, List, false, ◌==◌, length, arith, Bool-cases,
  inl, inr,
}
use rtlzz.Base.Bits.{test_bit, mod_unique, div_unique}
use rtlzz.Limbs.{get_bit, set_bit}
use rtlzz.Limbs.Value.{IsLimbs, value, IsWord, get_bit-value}
use rtlzz.Limbs.Loops.{within, value-set_bit, set_bit-IsLimbs, length-set_bit}
use rtlzz.Limbs.Shift.{shl_bits}
use rtlzz.Limbs.Shift.Left.{value-shl_bits, shl_bits-IsWord}
use rtlzz.Limbs.Divide.{shift_in}
use native.Mathlib.Nat.{mod-eq_of_lt}

-- Setting the clear bit `i` of a word keeps it a word and adds the weight of the bit.
pub set_bit-IsWord :
    (xs : List ℕ) (w i : ℕ)
    → IsWord w xs
    → i < w
    → value xs + 2 ^ i < 2 ^ w
    → test_bit (value xs) i ≡ false
    → IsWord w (set_bit xs i) × (value (set_bit xs i) ≡ value xs + 2 ^ i)
set_bit-IsWord xs w i h p fits clear =
    let inside : i / 64 < length xs = rw h.sized (within w i p) in
    let e = value-set_bit xs i h.limbs inside (get_bit-value xs i h.limbs ∙ clear) in
    (
      record {
        limbs = set_bit-IsLimbs xs i h.limbs;
        sized = length-set_bit xs i ∙ h.sized;
        fits = rw e fits;
      },
      e,
    )

-- Shifting the next bit in doubles the remainder and adds the bit.
pub value-shift_in :
    (num : List ℕ) (w bit : ℕ) (r : List ℕ)
    → w ≤ 128
    → 0 < w
    → IsLimbs num
    → IsWord w r
    → 2 * value r + 1 < 2 ^ w
    → IsWord w (shift_in num w bit r)
      × (value (shift_in num w bit r) ≡ 2 * value r + value num / 2 ^ bit % 2)
unfolding shift_in
value-shift_in num w bit r short pos_w hn hr small =
    let shifted = shl_bits-IsWord r w 1 (omega arith) hr.limbs in
    let e : value (shl_bits r w 1) ≡ 2 * value r =
      value-shl_bits r w 1 (omega arith) hr.limbs ∙ mod-eq_of_lt (omega arith) in
    let digit : get_bit num bit ≡ (value num / 2 ^ bit % 2 == 1) =
      unfold test_bit in get_bit-value num bit hn in
    elim (Bool-cases (get_bit num bit)) [
      | inl one_bit ↦ rw one_bit (
          let s =
            set_bit-IsWord (shl_bits r w 1) w 0 shifted pos_w (rw e (omega arith))
              (rw e (unfold test_bit in ground arith)) in
          (s.0, s.1 ∙ ground (arith, e, digit)))
      | inr zero_bit ↦ rw zero_bit (shifted, ground (arith, e, digit))
    ]

-- One digit more of a division.
pub next_quotient :
    (m p d q r n : ℕ)
    → m ≡ 2 * p + n
    → n ≤ 1
    → p ≡ d * q + r
    → r < d
    → (d ≤ 2 * r + n → (m / d ≡ 2 * q + 1) × (m % d ≡ 2 * r + n - d))
      × (2 * r + n < d → (m / d ≡ 2 * q) × (m % d ≡ 2 * r + n))
next_quotient m p d q r n e bit split h = (
  λ reaches.
      let f : m ≡ d * (2 * q + 1) + (2 * r + n - d) = omega arith in
      (
        div_unique m d (2 * q + 1) (2 * r + n - d) (omega arith) f,
        mod_unique m d (2 * q + 1) (2 * r + n - d) (omega arith) f,
      ),
  λ below.
      let f : m ≡ d * (2 * q) + (2 * r + n) = omega arith in
      (div_unique m d (2 * q) (2 * r + n) below f, mod_unique m d (2 * q) (2 * r + n) below f),
)
