-- ===== src/Facts/Joins.antt =====
-- The facts of a choice and of bitwise operations on values that are not both constant, and those of
-- reductions: branches of `factsInferOperation` of src/backend/beir.cpp.
pub mod Choice
pub mod Possible
pub mod Merge
pub mod Cases
pub mod Bitwise
pub mod Reduce
use rtlzz.Base.{
  ℕ, zero, suc, ◌+◌, List, [], ◌∷◌, Bool, true, false, ◌&&◌, ltb, if◌then◌else◌, bit_and, bit_or,
  length,
}
use rtlzz.Limbs.{limb_count, trim, get_bit, any_from}
use rtlzz.Ir.{OpCode, ValueFacts, is_zero}
use rtlzz.Facts.{no_constant, facts_unknown, facts_zext, facts_trunc, from_constant, make_constant}
use rtlzz.Facts.Constants.{map_limbs}

-- The lambda `resize` of the branches for Ite and Case.
unfoldable pub facts_resize : ValueFacts → ℕ → ValueFacts
facts_resize value width =
    if ltb value.width width then facts_zext value width else facts_trunc value width

-- What both alternatives know.
unfoldable pub facts_ite : ℕ → ValueFacts → ValueFacts → ValueFacts → ValueFacts
facts_ite width condition on_true on_false =
    let picked = facts_resize on_true width in
    let passed = facts_resize on_false width in
    let size = limb_count width in
    if condition.constant
    then (if is_zero condition.value then passed else picked)
    else record (facts_unknown width) {
      known_zero = map_limbs bit_and size picked.known_zero passed.known_zero;
      known_one = map_limbs bit_and size picked.known_one passed.known_one;
    }

-- The values that a case may take, from its conditions and values and the default at the end: none
-- whose condition is known to be 0, and none after one whose condition is known to hold.
unfoldable pub possible_values : List ValueFacts → List ValueFacts
possible_values [] = []
possible_values (default ∷ []) = default ∷ []
possible_values (condition ∷ value ∷ rest) =
    let later = possible_values rest in
    if condition.constant
    then (if is_zero condition.value then later else value ∷ [])
    else value ∷ later

-- The lambda `merge`.
unfoldable pub merge_facts : ℕ → ValueFacts → ValueFacts → ValueFacts
merge_facts width out value =
    let resized = facts_resize value width in
    let size = length out.known_zero in
    record out {
      known_zero = map_limbs bit_and size out.known_zero resized.known_zero;
      known_one = map_limbs bit_and size out.known_one resized.known_one;
    }

unfoldable pub merge_all : ℕ → ValueFacts → List ValueFacts → ValueFacts
merge_all width out [] = out
merge_all width out (value ∷ rest) = merge_all width (merge_facts width out value) rest

unfoldable pub merge_possible : ℕ → List ValueFacts → ValueFacts
merge_possible width [] = facts_unknown width
merge_possible width (value ∷ []) = facts_resize value width
merge_possible width (value ∷ next ∷ rest) =
    merge_all width (record (facts_resize value width) { constant = false; value = no_constant })
      (next ∷ rest)

unfoldable pub facts_case : ℕ → List ValueFacts → ValueFacts
facts_case width operands = merge_possible width (possible_values operands)

unfoldable pub bitwise_zero : OpCode → ℕ → ValueFacts → ValueFacts → List ℕ
bitwise_zero OpCode.bit_and_op size l r = map_limbs bit_or size l.known_zero r.known_zero
bitwise_zero OpCode.bit_or_op size l r = map_limbs bit_and size l.known_zero r.known_zero
bitwise_zero _ size l r =
    map_limbs bit_or size (map_limbs bit_and size l.known_zero r.known_zero)
      (map_limbs bit_and size l.known_one r.known_one)

unfoldable pub bitwise_one : OpCode → ℕ → ValueFacts → ValueFacts → List ℕ
bitwise_one OpCode.bit_and_op size l r = map_limbs bit_and size l.known_one r.known_one
bitwise_one OpCode.bit_or_op size l r = map_limbs bit_or size l.known_one r.known_one
bitwise_one _ size l r =
    map_limbs bit_or size (map_limbs bit_and size l.known_zero r.known_one)
      (map_limbs bit_and size l.known_one r.known_zero)

unfoldable pub facts_bitwise : OpCode → ValueFacts → ValueFacts → ℕ → ValueFacts
facts_bitwise code l r width = record (facts_unknown width) {
  known_zero = trim (bitwise_zero code (limb_count width) l r) width;
  known_one = trim (bitwise_one code (limb_count width) l r) width;
}

-- `all_known` of the loop over the bits.
unfoldable pub all_from : List ℕ → ℕ → ℕ → Bool
all_from limbs zero bit = true
all_from limbs (suc rounds) bit = get_bit limbs bit && all_from limbs rounds (bit + 1)

-- A single known bit of the deciding polarity, or all bits of the other, decide a reduction.
unfoldable pub reduce : List ℕ → List ℕ → ℕ → ℕ → ℕ → ValueFacts
reduce deciding other width decided otherwise =
    if any_from deciding width 0
    then from_constant (make_constant (decided ∷ []) 1 false) 1
    else if all_from other width 0
    then from_constant (make_constant (otherwise ∷ []) 1 false) 1
    else facts_unknown 1

unfoldable pub facts_reduce_or : ValueFacts → ValueFacts
facts_reduce_or f = reduce f.known_one f.known_zero f.width 1 0

unfoldable pub facts_reduce_and : ValueFacts → ValueFacts
facts_reduce_and f = reduce f.known_zero f.known_one f.width 0 1
