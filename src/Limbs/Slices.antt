-- ===== src/Limbs/Slices.antt =====
-- `factsSliceBits` and `factsBitNot`: a slice is a quotient and a remainder, and flipping the bits is
-- the complement.
use rtlzz.Base.{
  ℕ, suc, ◌+◌, ◌-◌, ◌*◌, ◌/◌, ◌%◌, ◌^◌, ◌≤◌, ◌≡◌, refl, sym, ◌∙◌, List, [], ◌∷◌, not, ◌&&◌, ltb,
  length, map, arith, Bool-cases, inl, inr,
}
use rtlzz.Base.Int.{ℤ, pos, ◌+ℤ◌}
use rtlzz.Base.Bits.{
  test_bit-mod, test_bit-div, test_bit-complement, test_bit-above, pow_pos, pow_add,
}
use rtlzz.Limbs.{limb_count, zeros, get_bit, get_bit_int, slice_bits, bit_not, limb_max}
use rtlzz.Limbs.Value.{IsLimbs, value, IsWord, get_bit-value}
use rtlzz.Limbs.Trim.{value-trim, trim-IsWord}
use rtlzz.Limbs.Loops.{
  set_where-IsLimbs, length-set_where, zeros-IsLimbs, length-zeros, get_bit-set_where-zeros,
  value_of_bits, value-lt,
}
use rtlzz.Limbs.Sum.{limb_count_covers}
use native.Mathlib.Nat.{mod-lt}

pub get_bit-slice_bits :
    (v : List ℕ) (lo : ℤ) (w j : ℕ)
    → get_bit (slice_bits v lo w) j ≡ (ltb j w && get_bit_int v (lo +ℤ pos j))
unfolding slice_bits
get_bit-slice_bits v lo w j = get_bit-set_where-zeros (λ bit. get_bit_int v (lo +ℤ pos bit)) w j

-- At a position that is not negative.
pub get_bit-slice_pos :
    (v : List ℕ) (k w j : ℕ) → get_bit (slice_bits v (pos k) w) j ≡ (ltb j w && get_bit v (k + j))
get_bit-slice_pos v k w j =
    let e : get_bit_int v (pos k +ℤ pos j) ≡ get_bit v (k + j) =
      unfold ◌+ℤ◌ get_bit_int in ground arith in
    rw (← e) (get_bit-slice_bits v (pos k) w j)

pub slice_bits-IsLimbs : (v : List ℕ) (lo : ℤ) (w : ℕ) → IsLimbs (slice_bits v lo w)
unfolding slice_bits
slice_bits-IsLimbs v lo w =
    set_where-IsLimbs (λ bit. get_bit_int v (lo +ℤ pos bit)) w 0 (zeros w) (zeros-IsLimbs w)

-- A slice from position `k` drops `k` bits and keeps the next `w`.
pub value-slice_bits :
    (v : List ℕ) (k w : ℕ) → IsLimbs v → value (slice_bits v (pos k) w) ≡ value v / 2 ^ k % 2 ^ w
value-slice_bits v k w h =
    value_of_bits (slice_bits v (pos k) w) (value v / 2 ^ k % 2 ^ w)
      (slice_bits-IsLimbs v (pos k) w)
      λ j. ground (
        arith,
        get_bit-slice_pos v k w j,
        test_bit-mod w (value v / 2 ^ k) j,
        test_bit-div k (value v) j,
        get_bit-value v (k + j) h,
      )

pub slice_bits-IsWord : (v : List ℕ) (k w : ℕ) → IsLimbs v → IsWord w (slice_bits v (pos k) w)
slice_bits-IsWord v k w h = record {
  limbs = slice_bits-IsLimbs v (pos k) w;
  sized = sized_lem;
  fits = rw (value-slice_bits v k w h) (mod-lt (value v / 2 ^ k) (pow_pos w));
}
  where
    sized_lem : length (slice_bits v (pos k) w) ≡ limb_count w
    sized_lem =
        unfold slice_bits in
        length-set_where (λ bit. get_bit_int v (pos k +ℤ pos bit)) w 0 (zeros w) ∙ length-zeros w

abbrev flip_limbs : List ℕ → List ℕ
flip_limbs v = map (λ limb. limb_max - limb) v

flip_limbs-IsLimbs : (v : List ℕ) → IsLimbs (flip_limbs v)
flip_limbs-IsLimbs [] = tt
flip_limbs-IsLimbs (x ∷ xs) = (omega arith, flip_limbs-IsLimbs xs)

value-flip_limbs :
    (v : List ℕ) → IsLimbs v → value (flip_limbs v) + value v + 1 ≡ 2 ^ (64 * length v)
unfolding value
value-flip_limbs [] h = refl
value-flip_limbs (x ∷ xs) h =
    let e : 64 * suc (length xs) ≡ 64 + 64 * length xs = omega arith in
    rw (e, pow_add 64 (64 * length xs)) (omega (arith, h.0, value-flip_limbs xs h.1))

pub bit_not-IsWord : (v : List ℕ) (w : ℕ) → IsWord w (bit_not v w)
unfolding bit_not
bit_not-IsWord v w = trim-IsWord (flip_limbs v) w (flip_limbs-IsLimbs v)

-- Flipping a word flips each bit below the width and leaves none above it.
pub get_bit-bit_not :
    (v : List ℕ) (w j : ℕ) → IsWord w v → get_bit (bit_not v w) j ≡ (ltb j w && not (get_bit v j))
get_bit-bit_not v w j h =
    let wide = 64 * length v in
    let flipped : value (flip_limbs v) ≡ 2 ^ wide - 1 - value v =
      omega (arith, value-flip_limbs v h.limbs) in
    let e : value (bit_not v w) ≡ (2 ^ wide - 1 - value v) % 2 ^ w =
      unfold bit_not in value-trim (flip_limbs v) w (flip_limbs-IsLimbs v) ∙ rw flipped in
    let covers : w ≤ wide = omega (arith, limb_count_covers w, h.sized) in
    get_bit-value (bit_not v w) j (bit_not-IsWord v w).limbs
    ∙ rw e (
        ground (
          arith,
          test_bit-mod w (2 ^ wide - 1 - value v) j,
          test_bit-complement wide (value v) j (value-lt v h.limbs),
          get_bit-value v j h.limbs,
        ))

-- Flipping the bits of a word is the complement of its number.
pub value-bit_not : (v : List ℕ) (w : ℕ) → IsWord w v → value (bit_not v w) ≡ 2 ^ w - 1 - value v
value-bit_not v w h =
    value_of_bits (bit_not v w) (2 ^ w - 1 - value v) (bit_not-IsWord v w).limbs λ j.
      get_bit-bit_not v w j h ∙ elim (Bool-cases (ltb j w)) [
        | inl inside ↦
            ground (arith, test_bit-complement w (value v) j h.fits, get_bit-value v j h.limbs)
        | inr outside ↦ rw outside (
            sym
              (test_bit-above w (2 ^ w - 1 - value v) j (omega (arith, pow_pos w)) (ground arith)))
      ]
