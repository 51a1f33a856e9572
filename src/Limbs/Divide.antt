-- ===== src/Limbs/Divide.antt =====
-- `factsDivModUnsigned` and `factsDivModSigned` of src/backend/beir.cpp: restoring division, one bit
-- of the quotient at a time from the top.
pub mod Step
pub mod Unsigned
pub mod Signed
use rtlzz.Base.{
  ℕ, zero, suc, ◌^◌, List, Bool, true, false, ◌≡◌, if◌then◌else◌, Ordering, Option, none, some,
}
use rtlzz.Limbs.{zeros, get_bit, set_bit, sub_bits, compare_unsigned, any_bit_set, sign_bit}
use rtlzz.Limbs.Shift.{shl_bits}

-- A quotient and a remainder.
pub record DivMod : Type 0 where
  pub quotient : List ℕ
  pub remainder : List ℕ

-- `factsCompareUnsigned(lhs, rhs, width) >= 0`.
abbrev pub not_less : Ordering → Bool
not_less Ordering.lt = false
not_less _ = true

-- The remainder with the next bit of the numerator shifted in.
unfoldable pub shift_in : List ℕ → ℕ → ℕ → List ℕ → List ℕ
shift_in numerator width bit remainder =
    let shifted = shl_bits remainder width 1 in
    if get_bit numerator bit then set_bit shifted 0 else shifted

unfoldable pub div_step : List ℕ → List ℕ → ℕ → ℕ → DivMod → DivMod
div_step numerator denominator width bit s =
    let remainder = shift_in numerator width bit s.remainder in
    if not_less (compare_unsigned remainder denominator width)
    then record {
      quotient = set_bit s.quotient bit;
      remainder = sub_bits remainder denominator width;
    }
    else record { quotient = s.quotient; remainder = remainder }

-- `for (int bit = width - 1; bit >= 0; --bit)`, with the number of bits still to come.
unfoldable pub div_loop : List ℕ → List ℕ → ℕ → ℕ → DivMod → DivMod
div_loop numerator denominator width zero s = s
div_loop numerator denominator width (suc bit) s =
    div_loop numerator denominator width bit (div_step numerator denominator width bit s)

unfoldable pub div_mod_unsigned : List ℕ → List ℕ → ℕ → Option DivMod
div_mod_unsigned numerator denominator width =
    if any_bit_set denominator width
    then some (
        div_loop numerator denominator width width
          (record { quotient = zeros width; remainder = zeros width }))
    else none

-- Two's complement negation, as the code writes it: `factsSubBits(zero, value, width)`.
unfoldable pub negate : List ℕ → ℕ → List ℕ
negate value width = sub_bits (zeros width) value width

abbrev pub negate_if : Bool → List ℕ → ℕ → List ℕ
negate_if true value width = negate value width
negate_if false value width = value

-- The signs of the results, from those of the operands.
abbrev pub signs_differ : Bool → Bool → Bool
signs_differ true true = false
signs_differ true false = true
signs_differ false true = true
signs_differ false false = false

unfoldable pub div_mod_signed : List ℕ → List ℕ → ℕ → Option DivMod
div_mod_signed numerator denominator width =
    let numerator_negative = sign_bit numerator width in
    let denominator_negative = sign_bit denominator width in
    let numerator_abs = negate_if numerator_negative numerator width in
    let denominator_abs = negate_if denominator_negative denominator width in
    if any_bit_set denominator width
    then elim (div_mod_unsigned numerator_abs denominator_abs width) [
      | none ↦ none
      | some d ↦ some (record {
        quotient =
            negate_if (signs_differ numerator_negative denominator_negative) d.quotient width;
        remainder = negate_if numerator_negative d.remainder width;
      })
    ]
    else none
