-- ===== src/Facts/Sound.antt =====
-- When the facts about a signal are true of its value, and the facts that constants and unknown
-- values start with.
use rtlzz.Base.{
  ℕ, zero, suc, ◌+◌, ◌%◌, ◌^◌, ◌≤◌, ◌<◌, ◌≡◌, ◌∙◌, List, true, false, not, ◌||◌, ltb, ◌==◌, arith,
  Bool-cases, inl, inr,
}
use rtlzz.Base.Bits.{test_bit, test_bit-above, pow_pos}
use rtlzz.Limbs.{get_bit, trim}
use rtlzz.Limbs.Value.{IsLimbs, value, get_bit-value}
use rtlzz.Limbs.Trim.{value-trim, trim-IsWord}
use rtlzz.Limbs.Loops.{zeros-IsLimbs, get_bit-zeros, value_of_bits}
use rtlzz.Limbs.Resize.{get_bit-trim}
use rtlzz.Limbs.Slices.{get_bit-bit_not, bit_not-IsWord}
use rtlzz.Ir.{Constant, ValueFacts}
use rtlzz.Facts.{
  facts_unknown, from_constant, make_constant, all_bits_known, all_known_from,
  promote_known_constant,
}
use native.Mathlib.Nat.{mod-lt}

-- The facts hold of the number `x`: every bit marked as 0 or 1 is so, a constant is the number, and
-- the number fits the width.
pub record Describes (f : ValueFacts) (x : ℕ) : Type 0 where
  pub zero_limbs : IsLimbs f.known_zero
  pub one_limbs : IsLimbs f.known_one
  pub value_limbs : IsLimbs f.value.limbs
  pub clear : (i : ℕ) → get_bit f.known_zero i ≡ true → test_bit x i ≡ false
  pub filled : (i : ℕ) → get_bit f.known_one i ≡ true → test_bit x i ≡ true
  pub exact : f.constant ≡ true → value f.value.limbs ≡ x
  pub complete : f.constant ≡ true → (i : ℕ) → i < f.width → get_bit f.known_one i ≡ test_bit x i
  pub fits : x < 2 ^ f.width

-- Nothing claimed is true of every number of the width.
pub facts_unknown-Describes : (w x : ℕ) → x < 2 ^ w → Describes (facts_unknown w) x
unfolding facts_unknown
facts_unknown-Describes w x h = record {
  zero_limbs = zeros-IsLimbs w;
  one_limbs = zeros-IsLimbs w;
  value_limbs = tt;
  clear = λ i p. ground (arith, get_bit-zeros w i);
  filled = λ i p. ground (arith, get_bit-zeros w i);
  exact = λ p. cc;
  complete = λ p i q. cc;
  fits = h;
}

-- The facts of a constant are true of the low bits of its number.
pub from_constant-Describes :
    (c : Constant) (w : ℕ) → IsLimbs c.limbs → Describes (from_constant c w) (value c.limbs % 2 ^ w)
unfolding from_constant make_constant
from_constant-Describes c w h =
    let t = trim-IsWord c.limbs w h in
    let digit : (i : ℕ) → get_bit (trim c.limbs w) i ≡ test_bit (value c.limbs % 2 ^ w) i =
      λ i. get_bit-value (trim c.limbs w) i t.limbs ∙ rw (value-trim c.limbs w h) in
    record {
      zero_limbs = (bit_not-IsWord (trim c.limbs w) w).limbs;
      one_limbs = t.limbs;
      value_limbs = t.limbs;
      clear = λ i p. ground (arith, get_bit-bit_not (trim c.limbs w) w i t, digit i);
      filled = λ i p. ground (arith, digit i);
      exact = λ p. value-trim c.limbs w h;
      complete = λ p i q. digit i;
      fits = mod-lt (value c.limbs) (pow_pos w);
    }

all_known_from-lem :
    (kz ko : List ℕ) (n b j : ℕ)
    → all_known_from kz ko n b ≡ true
    → b ≤ j
    → j < b + n
    → (get_bit kz j || get_bit ko j) ≡ true
unfolding all_known_from
all_known_from-lem kz ko zero b j h p q = absurd (omega arith)
all_known_from-lem kz ko (suc n) b j h p q = elim (Bool-cases (b == j)) [
  | inl here ↦ (let e : b ≡ j = ground arith in rw (← e) (ground arith))
  | inr later ↦ all_known_from-lem kz ko n (b + 1) j (ground arith) (ground arith) (omega arith)
]

-- Where every bit is known, the marks of the ones are the digits.
known_one-digit :
    (f : ValueFacts) (x : ℕ)
    → Describes f x
    → all_bits_known f ≡ true
    → (j : ℕ) → j < f.width
    → get_bit f.known_one j ≡ test_bit x j
unfolding all_bits_known
known_one-digit f x h all j p =
    let every : all_known_from f.known_zero f.known_one f.width 0 ≡ true = ground arith in
    ground
      (arith, all_known_from-lem f.known_zero f.known_one f.width 0 j every, h.clear j, h.filled j)

-- Where every bit is known, the ones are the number.
known_one-value :
    (f : ValueFacts) (x : ℕ)
    → Describes f x
    → all_bits_known f ≡ true
    → value (trim f.known_one f.width) ≡ x
known_one-value f x h all =
    value_of_bits (trim f.known_one f.width) x (trim-IsWord f.known_one f.width h.one_limbs).limbs
      (λ j. get_bit-trim f.known_one f.width j h.one_limbs ∙ elim (Bool-cases (ltb j f.width)) [
        | inl inside ↦ ground (arith, known_one-digit f x h all j)
        | inr outside ↦ ground (arith, test_bit-above f.width x j h.fits)
      ])

-- Making a constant of a value whose bits are all known keeps the facts true.
pub promote_known_constant-Describes :
    (f : ValueFacts) (x : ℕ) → Describes f x → Describes (promote_known_constant f) x
unfolding promote_known_constant make_constant
promote_known_constant-Describes f x h = elim (Bool-cases (f.constant || not (all_bits_known f))) [
  | inl same ↦ rw same h
  | inr known ↦ rw known (record {
    zero_limbs = h.zero_limbs;
    one_limbs = h.one_limbs;
    value_limbs = (trim-IsWord f.known_one f.width h.one_limbs).limbs;
    clear = h.clear;
    filled = h.filled;
    exact = λ p. known_one-value f x h (ground arith);
    complete = λ p. known_one-digit f x h (ground arith);
    fits = h.fits;
  })
]

-- Facts with no constant, from the marks of the bits.
pub known_bits-Describes :
    (w x : ℕ) (kz ko : List ℕ)
    → x < 2 ^ w
    → IsLimbs kz
    → IsLimbs ko
    → ((i : ℕ) → get_bit kz i ≡ true → test_bit x i ≡ false)
    → ((i : ℕ) → get_bit ko i ≡ true → test_bit x i ≡ true)
    → Describes (record (facts_unknown w) { known_zero = kz; known_one = ko }) x
unfolding facts_unknown
known_bits-Describes w x kz ko h z o c f = record {
  zero_limbs = z;
  one_limbs = o;
  value_limbs = tt;
  clear = c;
  filled = f;
  exact = λ p. cc;
  complete = λ p i q. cc;
  fits = h;
}
