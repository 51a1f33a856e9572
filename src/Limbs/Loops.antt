-- ===== src/Limbs/Loops.antt =====
-- Setting bits one by one: the bits of the vector that such a loop leaves, and its number.
use rtlzz.Base.{
  ℕ, zero, suc, ◌+◌, ◌*◌, ◌/◌, ◌%◌, ◌^◌, ◌<◌, ◌≡◌, refl, sym, ◌∙◌, List, [], ◌∷◌, Bool, false, ◌&&◌,
  ◌||◌, ltb, leb, ◌==◌, if◌then◌else◌, length, arith, Bool-cases, inl, inr, replicate, get_or, set,
  get_or-set, length-set, length-replicate, bit_or,
}
use rtlzz.Base.Bits.{
  pow_mono, test_bit, bits_ext, test_bit-bit_or, test_bit-pow, bit_or-lt, pow_add, test_bit-of_zero,
  lt_pow, bit_or_pow, test_bit-mod, pow_pos,
}
use rtlzz.Limbs.{limb_count, zeros, get_bit, set_bit, set_where}
use rtlzz.Limbs.Value.{IsLimbs, value, IsWord, get_bit-value}
use native.Mathlib.Nat.{mod-lt}

get_or-IsLimbs : (xs : List ℕ) (i : ℕ) → IsLimbs xs → get_or xs i 0 < 2 ^ 64
get_or-IsLimbs [] i h = omega arith
get_or-IsLimbs (x ∷ xs) zero h = h.0
get_or-IsLimbs (x ∷ xs) (suc i) h = get_or-IsLimbs xs i h.1

set-IsLimbs : (xs : List ℕ) (i v : ℕ) → v < 2 ^ 64 → IsLimbs xs → IsLimbs (set xs i v)
set-IsLimbs [] i v p h = tt
set-IsLimbs (x ∷ xs) zero v p h = (p, h.1)
set-IsLimbs (x ∷ xs) (suc i) v p h = (h.0, set-IsLimbs xs i v p h.1)

pub length-set_bit : (xs : List ℕ) (i : ℕ) → length (set_bit xs i) ≡ length xs
unfolding set_bit
length-set_bit xs i = elim (Bool-cases (ltb (i / 64) (length xs))) [
  | inl inside ↦ rw inside (length-set xs (i / 64) (bit_or (get_or xs (i / 64) 0) (2 ^ (i % 64))))
  | inr outside ↦ rw outside
]

pub pow_lt_limb : (k : ℕ) → k < 64 → 2 ^ k < 2 ^ 64
pow_lt_limb k h = omega (arith, pow_mono k 63 (omega arith))

pub set_bit-IsLimbs : (xs : List ℕ) (i : ℕ) → IsLimbs xs → IsLimbs (set_bit xs i)
unfolding set_bit
set_bit-IsLimbs xs i h = elim (Bool-cases (ltb (i / 64) (length xs))) [
  | inl inside ↦ rw inside (
      set-IsLimbs xs (i / 64) (bit_or (get_or xs (i / 64) 0) (2 ^ (i % 64)))
        (bit_or-lt 64 (get_or xs (i / 64) 0) (2 ^ (i % 64)) (get_or-IsLimbs xs (i / 64) h)
          (pow_lt_limb (i % 64) (omega arith)))
        h)
  | inr outside ↦ rw outside h
]

pub get_bit-set_bit :
    (xs : List ℕ) (i j : ℕ)
    → get_bit (set_bit xs i) j ≡ (get_bit xs j || (i == j && ltb (i / 64) (length xs)))
unfolding get_bit set_bit
get_bit-set_bit xs i j =
    let v = bit_or (get_or xs (i / 64) 0) (2 ^ (i % 64)) in
    ground (
      arith,
      length-set xs (i / 64) v,
      get_or-set xs (i / 64) (j / 64) v 0,
      test_bit-bit_or (get_or xs (i / 64) 0) (2 ^ (i % 64)) (j % 64),
      test_bit-pow (i % 64) (j % 64),
    )

pub length-set_where :
    (test : ℕ → Bool) (n b : ℕ) (out : List ℕ) → length (set_where test n b out) ≡ length out
unfolding set_where
length-set_where test zero b out = refl
length-set_where test (suc n) b out =
    length-set_where test n (b + 1) (if test b then set_bit out b else out)
    ∙ ground (arith, length-set_bit out b)

pub set_where-IsLimbs :
    (test : ℕ → Bool) (n b : ℕ) (out : List ℕ) → IsLimbs out → IsLimbs (set_where test n b out)
unfolding set_where
set_where-IsLimbs test zero b out h = h
set_where-IsLimbs test (suc n) b out h =
    set_where-IsLimbs test n (b + 1) (if test b then set_bit out b else out)
      (elim (Bool-cases (test b)) [
        | inl yes_bit ↦ rw yes_bit (set_bit-IsLimbs out b h)
        | inr no_bit ↦ rw no_bit h
      ])

-- The loop over the bits from `b` sets those that pass the test and are within the vector.
pub get_bit-set_where :
    (test : ℕ → Bool) (n b : ℕ) (out : List ℕ) (j : ℕ)
    → get_bit (set_where test n b out) j
      ≡ (get_bit out j || (leb b j && ltb j (b + n) && test j && ltb (j / 64) (length out)))
unfolding set_where
get_bit-set_where test zero b out j = ground arith
get_bit-set_where test (suc n) b out j = ground (
  arith,
  get_bit-set_where test n (b + 1) (if test b then set_bit out b else out) j,
  get_bit-set_bit out b j,
  length-set_bit out b,
)

replicate-IsLimbs : (n : ℕ) → IsLimbs (replicate n 0)
replicate-IsLimbs zero = tt
replicate-IsLimbs (suc n) = (omega arith, replicate-IsLimbs n)

value-replicate : (n : ℕ) → value (replicate n 0) ≡ 0
unfolding value
value-replicate zero = refl
value-replicate (suc n) = omega (arith, value-replicate n)

pub zeros-IsLimbs : (w : ℕ) → IsLimbs (zeros w)
unfolding zeros
zeros-IsLimbs w = replicate-IsLimbs (limb_count w)

pub length-zeros : (w : ℕ) → length (zeros w) ≡ limb_count w
unfolding zeros
length-zeros w = length-replicate (limb_count w) 0

pub value-zeros : (w : ℕ) → value (zeros w) ≡ 0
unfolding zeros
value-zeros w = value-replicate (limb_count w)

pub get_bit-zeros : (w j : ℕ) → get_bit (zeros w) j ≡ false
get_bit-zeros w j =
    get_bit-value (zeros w) j (zeros-IsLimbs w) ∙ rw (value-zeros w) (test_bit-of_zero j)

pub value-lt : (xs : List ℕ) → IsLimbs xs → value xs < 2 ^ (64 * length xs)
unfolding value
value-lt [] h = omega arith
value-lt (x ∷ xs) h =
    let e : 64 * suc (length xs) ≡ 64 + 64 * length xs = omega arith in
    rw (e, pow_add 64 (64 * length xs)) (omega (arith, h.0, value-lt xs h.1))

-- A vector has the number whose digits are its bits.
pub value_of_bits :
    (xs : List ℕ) (n : ℕ) → IsLimbs xs → ((j : ℕ) → get_bit xs j ≡ test_bit n j) → value xs ≡ n
value_of_bits xs n h e =
    let w = 64 * length xs + n in
    bits_ext w (value xs) n
      (omega (arith, value-lt xs h, pow_mono (64 * length xs) w (omega arith)))
      (omega (arith, lt_pow n, pow_mono n w (omega arith)))
      (λ j p. sym (get_bit-value xs j h) ∙ e j)

pub within : (w j : ℕ) → j < w → j / 64 < limb_count w
unfolding limb_count
within w j h = ground arith

-- The loop over all bits of a word, from a word of zeros.
pub get_bit-set_where-zeros :
    (test : ℕ → Bool) (w j : ℕ) → get_bit (set_where test w 0 (zeros w)) j ≡ (ltb j w && test j)
get_bit-set_where-zeros test w j =
    ground
      (arith, get_bit-set_where test w 0 (zeros w) j, get_bit-zeros w j, length-zeros w, within w j)

-- A loop that sets bits below the width makes a word.
pub set_where-zeros-IsWord : (test : ℕ → Bool) (w : ℕ) → IsWord w (set_where test w 0 (zeros w))
set_where-zeros-IsWord test w =
    let xs = set_where test w 0 (zeros w) in
    let limbs = set_where-IsLimbs test w 0 (zeros w) (zeros-IsLimbs w) in
    let low : value xs ≡ value xs % 2 ^ w = value_of_bits xs (value xs % 2 ^ w) limbs (λ j. ground (
      arith,
      get_bit-set_where-zeros test w j,
      get_bit-value xs j limbs,
      test_bit-mod w (value xs) j,
    )) in
    record {
      limbs = limbs;
      sized = length-set_where test w 0 (zeros w) ∙ length-zeros w;
      fits = omega (arith, low, mod-lt (value xs) (pow_pos w));
    }

-- Setting a bit that is clear and within the vector adds its weight.
pub value-set_bit :
    (xs : List ℕ) (i : ℕ)
    → IsLimbs xs
    → i / 64 < length xs
    → get_bit xs i ≡ false
    → value (set_bit xs i) ≡ value xs + 2 ^ i
value-set_bit xs i h inside clear =
    let digit : test_bit (value xs) i ≡ false = sym (get_bit-value xs i h) ∙ clear in
    value_of_bits (set_bit xs i) (value xs + 2 ^ i) (set_bit-IsLimbs xs i h) λ j.
      rw (← bit_or_pow i (value xs) digit) (
        ground (
          arith,
          get_bit-set_bit xs i j,
          get_bit-value xs j h,
          test_bit-bit_or (value xs) (2 ^ i) j,
          test_bit-pow i j,
        ))
