-- ===== src/Facts.antt =====
-- What is known of a signal's bits: `ValueFacts` and the transfer functions `facts...` of
-- src/backend/beir.cpp, one for each kind of operation that selects or moves bits.
pub mod Sound
pub mod Within
pub mod Widths
pub mod Extend
pub mod Narrow
pub mod Constants
pub mod Joins
pub mod Parts
pub mod Operation
pub mod Analysis
pub mod Order
pub mod Whole
use rtlzz.Base.{
  ℕ, zero, suc, ◌+◌, ◌-◌, ◌≤◌, List, [], ◌∷◌, Bool, true, false, not, ◌&&◌, ◌||◌, ltb, leb, ◌==◌,
  if◌then◌else◌, min, resize,
}
use rtlzz.Base.Int.{ℤ, pos}
use rtlzz.Limbs.{
  limb_count, trim, zeros, get_bit, get_bit_int, set_bit, set_where, sign_bit, slice_bits, bit_not,
}
use rtlzz.Ir.{Constant, ValueFacts}

-- `Operand::Constant{}`.
abbrev pub no_constant : Constant
no_constant = record { limbs = []; width = 0; signed_view = false }

unfoldable pub make_constant : List ℕ → ℕ → Bool → Constant
make_constant limbs width signed_view = record {
  limbs = trim limbs width;
  width = width;
  signed_view = signed_view;
}

unfoldable pub facts_unknown : ℕ → ValueFacts
facts_unknown width = record {
  valid = true;
  width = width;
  constant = false;
  value = no_constant;
  known_zero = zeros width;
  known_one = zeros width;
}

unfoldable pub from_constant : Constant → ℕ → ValueFacts
from_constant c width =
    let value = make_constant c.limbs width c.signed_view in
    record {
      valid = true;
      width = width;
      constant = true;
      value = value;
      known_zero = bit_not value.limbs width;
      known_one = value.limbs;
    }

unfoldable pub bool_constant : Bool → ValueFacts
bool_constant b = from_constant (make_constant ((if b then 1 else 0) ∷ []) 1 false) 1

unfoldable pub constant_bits : List ℕ → ℕ → Bool → ValueFacts
constant_bits limbs width signed_view = from_constant (make_constant limbs width signed_view) width

-- Whether each bit from `bit` on is known to be 0 or known to be 1.
unfoldable pub all_known_from : List ℕ → List ℕ → ℕ → ℕ → Bool
all_known_from known_zero known_one zero bit = true
all_known_from known_zero known_one (suc rounds) bit =
    (get_bit known_zero bit || get_bit known_one bit)
    && all_known_from known_zero known_one rounds (bit + 1)

unfoldable pub all_bits_known : ValueFacts → Bool
all_bits_known f = f.valid && ltb 0 f.width && all_known_from f.known_zero f.known_one f.width 0

unfoldable pub promote_known_constant : ValueFacts → ValueFacts
promote_known_constant f =
    if f.constant || not (all_bits_known f)
    then f
    else record f { constant = true; value = make_constant f.known_one f.width false }

abbrev pub always : ℕ → Bool
always bit = true

unfoldable pub facts_zext : ValueFacts → ℕ → ValueFacts
facts_zext src out_width =
    let copy_width = min src.width out_width in
    let size = limb_count out_width in
    if src.width == 0
    then facts_unknown out_width
    else if src.constant
    then from_constant (make_constant src.value.limbs copy_width src.value.signed_view) out_width
    else record (facts_unknown out_width) {
      known_zero =
          trim
            (set_where always (out_width - src.width) src.width
              (resize size 0 (slice_bits src.known_zero (pos 0) copy_width)))
            out_width;
      known_one = trim (resize size 0 (slice_bits src.known_one (pos 0) copy_width)) out_width;
    }

unfoldable pub facts_trunc : ValueFacts → ℕ → ValueFacts
facts_trunc src out_width =
    if src.width == 0
    then facts_unknown out_width
    else if src.constant
    then from_constant (make_constant src.value.limbs out_width src.value.signed_view) out_width
    else record (facts_unknown out_width) {
      known_zero = slice_bits src.known_zero (pos 0) out_width;
      known_one = slice_bits src.known_one (pos 0) out_width;
    }

-- The known bits of one polarity under sign extension, where the sign bit is known or not.
unfoldable pub sext_known : List ℕ → ℕ → ℕ → List ℕ
sext_known known width out_width =
    trim
      (set_where (λ bit. sign_bit known width) (out_width - width) width
        (resize (limb_count out_width) 0 (slice_bits known (pos 0) width)))
      out_width

unfoldable pub facts_sext : ValueFacts → ℕ → ValueFacts
facts_sext src out_width =
    let longer = trim src.value.limbs out_width in
    if src.width == 0
    then facts_unknown out_width
    else if leb out_width src.width
    then facts_trunc src out_width
    else if src.constant
    then from_constant
        (make_constant
          (if sign_bit src.value.limbs src.width
            then set_where always (out_width - src.width) src.width longer
            else longer)
          out_width src.value.signed_view)
        out_width
    else record (facts_unknown out_width) {
      known_zero = sext_known src.known_zero src.width out_width;
      known_one = sext_known src.known_one src.width out_width;
    }

unfoldable pub facts_slice : ValueFacts → ℤ → ℕ → ValueFacts
facts_slice src lo out_width =
    if src.width == 0
    then facts_unknown out_width
    else if src.constant
    then from_constant
        (make_constant (slice_bits src.value.limbs lo out_width) out_width src.value.signed_view)
        out_width
    else record (facts_unknown out_width) {
      known_zero = slice_bits src.known_zero lo out_width;
      known_one = slice_bits src.known_one lo out_width;
    }

-- Signed narrowing keeps the source's sign bit, not the low destination sign bit.
abbrev pub source_bit : ℕ → ℕ → ℕ → ℕ
source_bit src_width width bit = if bit == width - 1 then src_width - 1 else bit

unfoldable pub narrow_known : List ℕ → ℕ → ℕ → List ℕ
narrow_known known src_width width =
    set_where (λ bit. get_bit known (source_bit src_width width bit)) width 0 (zeros width)

unfoldable pub facts_signed_trunc : ValueFacts → ℕ → ValueFacts
facts_signed_trunc src width =
    let ones = narrow_known src.known_one src.width width in
    if width == 0 || leb src.width width
    then facts_unknown width
    else if src.constant
    then from_constant (make_constant ones width src.value.signed_view) width
    else record (facts_unknown width) {
      known_zero = narrow_known src.known_zero src.width width;
      known_one = ones;
    }

unfoldable pub facts_bit_select : ValueFacts → ℤ → ValueFacts
facts_bit_select src bit =
    let flag = λ (known : List ℕ). if get_bit_int known bit then set_bit (zeros 1) 0 else zeros 1 in
    if src.width == 0
    then facts_unknown 1
    else if src.constant
    then from_constant
        (make_constant ((if get_bit_int src.value.limbs bit then 1 else 0) ∷ []) 1
          src.value.signed_view)
        1
    else record (facts_unknown 1) {
      known_zero = flag src.known_zero;
      known_one = flag src.known_one;
    }

-- What a signal keeps of the facts about its driver: those at its own width.
unfoldable pub set_width : ValueFacts → ℕ → ValueFacts
set_width f width = record f {
  width = width;
  known_zero = trim f.known_zero width;
  known_one = trim f.known_one width;
}
