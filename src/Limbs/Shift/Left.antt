-- ===== src/Limbs/Shift/Left.antt =====
-- `factsShlBits` multiplies by a power of two, modulo two to the width.
use rtlzz.Base.{
  ℕ, zero, suc, ◌+◌, ◌-◌, ◌*◌, ◌/◌, ◌%◌, ◌^◌, ◌≤◌, ◌≡◌, refl, ◌∙◌, List, ◌&&◌, ◌||◌, ltb, leb,
  if◌then◌else◌, length, arith, Bool-cases, inl, inr,
}
use rtlzz.Base.Bits.{test_bit-mod, test_bit-mul, pow_pos}
use native.Mathlib.Nat.{mod-lt}
use rtlzz.Limbs.{limb_count, zeros, get_bit, set_bit}
use rtlzz.Limbs.Value.{IsLimbs, value, IsWord, get_bit-value}
use rtlzz.Limbs.Loops.{
  length-set_bit, set_bit-IsLimbs, get_bit-set_bit, zeros-IsLimbs, length-zeros, get_bit-zeros,
  within, value_of_bits,
}
use rtlzz.Limbs.Shift.{moved, shl_loop, shl_bits}

module _ (v : List ℕ) (w a : ℕ) where
  shl_loop-IsLimbs : (n b : ℕ) (out : List ℕ) → IsLimbs out → IsLimbs (shl_loop v w a n b out)
  unfolding shl_loop
  shl_loop-IsLimbs zero b out h = h
  shl_loop-IsLimbs (suc n) b out h =
      shl_loop-IsLimbs n (b + 1) _ (elim (Bool-cases (ltb (moved b a) w && get_bit v b)) [
        | inl yes_bit ↦ rw yes_bit (set_bit-IsLimbs out (moved b a) h)
        | inr no_bit ↦ rw no_bit h
      ])

  length-shl_loop : (n b : ℕ) (out : List ℕ) → length (shl_loop v w a n b out) ≡ length out
  unfolding shl_loop
  length-shl_loop zero b out = refl
  length-shl_loop (suc n) b out =
      length-shl_loop n (b + 1) _ ∙ ground (arith, length-set_bit out (moved b a))

  get_bit-shl_loop :
      (n b : ℕ) (out : List ℕ) (j : ℕ)
      → b + n + a ≤ 2 ^ 64
      → get_bit (shl_loop v w a n b out) j ≡ (
          get_bit out j
          || (leb (b + a) j
              && ltb j (b + n + a)
              && ltb j w
              && get_bit v (j - a)
              && ltb (j / 64) (length out)))
  unfolding shl_loop
  get_bit-shl_loop zero b out j h = ground arith
  get_bit-shl_loop (suc n) b out j h =
      let e : moved b a ≡ b + a = omega arith in
      rw e (
        ground (
          arith,
          get_bit-shl_loop n (b + 1)
              (if ltb (b + a) w && get_bit v b then set_bit out (b + a) else out) j,
          get_bit-set_bit out (b + a) j,
          length-set_bit out (b + a),
        ))

  get_bit-shl_bits :
      (j : ℕ)
      → w ≤ 2 ^ 63
      → get_bit (shl_bits v w a) j ≡ (ltb j w && (leb a j && get_bit v (j - a)))
  unfolding shl_bits
  get_bit-shl_bits j h =
      ground
        (arith, get_bit-zeros w j, get_bit-shl_loop w 0 (zeros w) j, length-zeros w, within w j)

  shl_bits-IsLimbs : IsLimbs (shl_bits v w a)
  unfolding shl_bits
  shl_bits-IsLimbs = elim (Bool-cases (leb w a)) [
    | inl far ↦ rw far (zeros-IsLimbs w)
    | inr near ↦ rw near (shl_loop-IsLimbs w 0 (zeros w) (zeros-IsLimbs w))
  ]

  length-shl_bits : length (shl_bits v w a) ≡ limb_count w
  unfolding shl_bits
  length-shl_bits = ground (arith, length-zeros w, length-shl_loop w 0 (zeros w))

-- A left shift at a width of at most 2 ^ 63 multiplies by two to the amount, modulo two to the width.
pub value-shl_bits :
    (v : List ℕ) (w a : ℕ)
    → w ≤ 2 ^ 63
    → IsLimbs v
    → value (shl_bits v w a) ≡ 2 ^ a * value v % 2 ^ w
value-shl_bits v w a h hv =
    value_of_bits (shl_bits v w a) (2 ^ a * value v % 2 ^ w) (shl_bits-IsLimbs v w a) λ j. ground (
      arith,
      get_bit-shl_bits v w a j h,
      test_bit-mod w (2 ^ a * value v) j,
      test_bit-mul a (value v) j,
      get_bit-value v (j - a) hv,
    )

pub shl_bits-IsWord : (v : List ℕ) (w a : ℕ) → w ≤ 2 ^ 63 → IsLimbs v → IsWord w (shl_bits v w a)
shl_bits-IsWord v w a h hv = record {
  limbs = shl_bits-IsLimbs v w a;
  sized = length-shl_bits v w a;
  fits = rw (value-shl_bits v w a h hv) (mod-lt (2 ^ a * value v) (pow_pos w));
}
