-- ===== src/Facts/Parts.antt =====
-- The facts of a concatenation, a sum with carry and a complement: branches of `factsInferOperation`
-- of src/backend/beir.cpp.
pub mod Concat
pub mod Carry
pub mod Complement
use rtlzz.Base.{
  ℕ, zero, suc, ◌+◌, ◌-◌, List, [], ◌∷◌, Bool, true, false, ◌&&◌, ◌||◌, ltb, ◌==◌, if◌then◌else◌,
  min, max,
}
use mathlib.Core.List.{reverse}
use rtlzz.Limbs.{zeros, get_bit, set_where, add_bits, resize_bits, bit_not}
use rtlzz.Ir.{ValueFacts}
use rtlzz.Facts.{always, facts_unknown, from_constant, make_constant, constant_bits}

-- `for (bit = 0; bit < width; ++bit) if (get(source, bit)) set(out, offset + bit);`
unfoldable pub copy_marks : List ℕ → ℕ → ℕ → List ℕ → List ℕ
copy_marks source width offset out =
    set_where (λ bit. get_bit source (bit - offset)) width offset out

-- The operands from the last, which holds the lowest bits. A width that is not positive or does not
-- fit gives up, and so does a sum of widths below the result's.
unfoldable pub concat_from : ℕ → List ValueFacts → ℕ → ValueFacts → ValueFacts
concat_from width [] offset out = if offset == width then out else facts_unknown width
concat_from width (f ∷ rest) offset out =
    if f.width == 0 || ltb (width - offset) f.width
    then facts_unknown width
    else concat_from width rest (offset + f.width) (record out {
      known_zero = copy_marks f.known_zero f.width offset out.known_zero;
      known_one = copy_marks f.known_one f.width offset out.known_one;
    })

unfoldable pub facts_concat : ℕ → List ValueFacts → ValueFacts
facts_concat width operands = concat_from width (reverse operands) 0 (facts_unknown width)

-- `while (bits > 0 && get(known_zero, bits - 1)) --bits;`
unfoldable pub drop_known_zeros : List ℕ → ℕ → ℕ
drop_known_zeros known_zero zero = 0
drop_known_zeros known_zero (suc bits) =
    if get_bit known_zero bits then drop_known_zeros known_zero bits else suc bits

-- The lambda `possible_bits`.
unfoldable pub possible_bits : ℕ → ValueFacts → ℕ
possible_bits width value = drop_known_zeros value.known_zero (min width value.width)

unfoldable pub carry_constant : ℕ → ValueFacts → ValueFacts → ValueFacts → ValueFacts
carry_constant width l r c =
    let lhs = resize_bits l.value.limbs l.width width false in
    let rhs = resize_bits r.value.limbs r.width width false in
    let carry = resize_bits c.value.limbs c.width width false in
    constant_bits (add_bits (add_bits lhs rhs width) carry width) width false

unfoldable pub facts_add_carry : ℕ → ValueFacts → ValueFacts → ValueFacts → ValueFacts
facts_add_carry width l r c =
    let highest_possible = max (possible_bits width l) (possible_bits width r) + 1 in
    if l.constant && r.constant && c.constant
    then carry_constant width l r c
    else record (facts_unknown width) {
      known_zero = set_where always (width - highest_possible) highest_possible (zeros width);
    }

-- The facts have the operand's width, not the result's.
unfoldable pub facts_bit_not : ValueFacts → ValueFacts
facts_bit_not f =
    if f.constant
    then from_constant (make_constant (bit_not f.value.limbs f.width) f.width f.value.signed_view)
        f.width
    else record (facts_unknown f.width) { known_zero = f.known_one; known_one = f.known_zero }
