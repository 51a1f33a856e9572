-- ===== src/Examples/Marks.antt =====
-- Runs and instances of the facts about bits.
use rtlzz.Base.{sym, ◌∙◌, ◌≡◌, refl, false, ◌%◌, ◌^◌, [], ◌∷◌, true, arith}
use rtlzz.Limbs.Value.{value}
use rtlzz.Ir.{Constant, ValueFacts}
use rtlzz.Base.Bits.{test_bit, test_bit-of_zero}
use rtlzz.Limbs.{get_bit}
use rtlzz.Limbs.Value.{get_bit-value}
use rtlzz.Facts.{
  facts_unknown, all_bits_known, all_known_from, no_constant, from_constant, promote_known_constant,
  facts_sext,
}
use rtlzz.Facts.Sound.{Describes, known_bits-Describes}
use rtlzz.Facts.Sound
use rtlzz.Facts.Extend

-- -3 at 8 bits.
abbrev minus_three : Constant
minus_three = record { limbs = 0xfd ∷ []; width = 8; signed_view = true }

abbrev known : ValueFacts
known = from_constant minus_three 8

from_constant-Describes_example : Describes known (value (0xfd ∷ []) % 2 ^ 8)
from_constant-Describes_example = Sound.from_constant-Describes minus_three 8 (omega arith)

known-Describes : Describes known 0xfd
unfolding value
known-Describes = Sound.from_constant-Describes minus_three 8 (omega arith)

-- Four bits that are all known to be set, but not yet a constant.
abbrev all_known : ValueFacts
all_known = record {
  valid = true;
  width = 4;
  constant = false;
  value = no_constant;
  known_zero = 0 ∷ [];
  known_one = 15 ∷ [];
}

all_known-Describes : Describes all_known 15
unfolding value facts_unknown
all_known-Describes =
    known_bits-Describes 4 15 (0 ∷ []) (15 ∷ []) (omega arith) (omega arith, tt) (omega arith, tt)
      (λ i h. absurd (
        let never : false ≡ true =
          sym (get_bit-value (0 ∷ []) i (omega arith, tt) ∙ test_bit-of_zero i) ∙ h in
        cc))
      (λ i h. sym (get_bit-value (15 ∷ []) i (omega arith, tt)) ∙ h)

promoted : (promote_known_constant all_known).constant ≡ true
unfolding promote_known_constant all_bits_known all_known_from get_bit test_bit
promoted = refl

promote_known_constant-Describes_example : Describes (promote_known_constant all_known) 15
promote_known_constant-Describes_example =
    Sound.promote_known_constant-Describes all_known 15 all_known-Describes

facts_sext-Describes_example :
    Describes (facts_sext known 70) (Extend.sext_value known.width 70 0xfd)
unfolding from_constant
facts_sext-Describes_example =
    Extend.facts_sext-Describes known 70 0xfd (omega arith) known-Describes
