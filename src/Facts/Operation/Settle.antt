-- ===== src/Facts/Operation/Settle.antt =====
-- Facts that are kept at a signal's width.
use rtlzz.Base.{
  ℕ, ◌^◌, ◌<◌, ◌≤◌, ◌≡◌, sym, ◌∙◌, true, false, ◌&&◌, ltb, arith, Bool-cases, inl, inr, subst,
}
use rtlzz.Base.Bits.{test_bit, test_bit-above, pow_mono}
use rtlzz.Limbs.{get_bit, trim, zeros}
use rtlzz.Limbs.Loops.{zeros-IsLimbs, get_bit-zeros}
use rtlzz.Limbs.Value.{IsLimbs}
use rtlzz.Limbs.Trim.{trim-IsWord}
use rtlzz.Limbs.Resize.{get_bit-trim}
use rtlzz.Ir.{ValueFacts, ValueType, width_of}
use rtlzz.Facts.{set_width, facts_unknown}
use rtlzz.Facts.Sound.{Describes, known_bits-Describes}
use rtlzz.Facts.Within.{IsWithin, known_one-within}

-- The facts are true of `v` once they are brought to the width of the signal.
pub record Settles (f : ValueFacts) (width v : ℕ) : Type 0 where
  pub marks : IsLimbs f.known_zero
  pub settled : Describes (set_width f width) v

-- Facts that are true of a number stay true of it at any width that it fits.
pub Describes-Settles : (f : ValueFacts) (w v : ℕ) → Describes f v → v < 2 ^ w → Settles f w v
unfolding set_width
Describes-Settles f w v h fits = record {
  marks = h.zero_limbs;
  settled = record {
    zero_limbs = (trim-IsWord f.known_zero w h.zero_limbs).limbs;
    one_limbs = (trim-IsWord f.known_one w h.one_limbs).limbs;
    value_limbs = h.value_limbs;
    clear = λ i p. ground (arith, get_bit-trim f.known_zero w i h.zero_limbs, h.clear i);
    filled = λ i p. ground (arith, get_bit-trim f.known_one w i h.one_limbs, h.filled i);
    exact = h.exact;
    complete = λ p i inside. get_bit-trim f.known_one w i h.one_limbs ∙ known_digit p i inside;
    fits = fits;
  };
}
  where
    known_digit :
        f.constant ≡ true → (i : ℕ) → i < w → (ltb i w && get_bit f.known_one i) ≡ test_bit v i
    known_digit p i inside = elim (Bool-cases (ltb i f.width)) [
      | inl below ↦ ground (arith, h.complete p i)
      | inr above ↦ ground (arith, test_bit-above f.width v i h.fits, known_one-within f v i h)
    ]

pub settled_as : (f : ValueFacts) (w v z : ℕ) → Describes f z → z < 2 ^ w → v ≡ z → Settles f w v
settled_as f w v z h fits e = subst (λ t. Settles f w t) (sym e) (Describes-Settles f w z h fits)

-- Nothing claimed at one width settles every number of another.
pub unknown_any-Settles : (m w v : ℕ) → v < 2 ^ w → Settles (facts_unknown m) w v
unfolding set_width facts_unknown
unknown_any-Settles m w v h =
    let z = zeros-IsLimbs m in
    let empty : (i : ℕ) → get_bit (trim (zeros m) w) i ≡ false =
      λ i. get_bit-trim (zeros m) w i z ∙ ground (arith, get_bit-zeros m i) in
    record {
      marks = z;
      settled =
          known_bits-Describes w v (trim (zeros m) w) (trim (zeros m) w) h
            (trim-IsWord (zeros m) w z).limbs (trim-IsWord (zeros m) w z).limbs
            (λ i p. ground (arith, empty i)) (λ i p. ground (arith, empty i));
    }

pub facts_unknown-Settles : (w v : ℕ) → v < 2 ^ w → Settles (facts_unknown w) w v
facts_unknown-Settles w v h = unknown_any-Settles w w v h

pub one_bit : (w : ℕ) → 0 < w → 2 ≤ 2 ^ w
one_bit w p = pow_mono 1 w (omega arith)

-- The facts of a single bit, at any width.
pub single_bit-Settles :
    (f : ValueFacts) (w v z : ℕ) → 0 < w → Describes f z → z < 2 → v ≡ z → Settles f w v
single_bit-Settles f w v z pos_w h small e = settled_as f w v z h (omega (arith, one_bit w pos_w)) e

-- At the width of the signal nothing is marked above it.
pub Settles-IsWithin : (f : ValueFacts) (w v : ℕ) → Settles f w v → IsWithin (set_width f w)
unfolding set_width
Settles-IsWithin f w v h i p = ground (arith, get_bit-trim f.known_zero w i h.marks)

pub width_of-pos : (type : ValueType) → 0 < width_of type
unfolding width_of
width_of-pos type = ground arith
