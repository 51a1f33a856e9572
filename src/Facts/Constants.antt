-- ===== src/Facts/Constants.antt =====
-- Folding of unary and binary operations on constants: `factsOperandSigned`, `factsConstantToU64`,
-- `factsInferUnaryConstant` and `factsInferBinaryConstant` of src/backend/beir.cpp.
pub mod Meaning
pub mod Result
pub mod Agreement
pub mod Words
pub mod Unary
pub mod Binary
use rtlzz.Base.{
  ℕ, zero, suc, List, [], ◌∷◌, Bool, true, false, not, ◌&&◌, ◌||◌, Option, none, some, leb, max,
  if◌then◌else◌, Ordering, bit_and, bit_or, bit_xor,
}
use rtlzz.Limbs.{
  limb_count, trim, zeros, bit_not, any_bit_set, resize_bits, compare_unsigned, compare_signed,
  head_limb, tail_limbs, add_bits, sub_bits,
}
use rtlzz.Limbs.Shift.{shl_bits, shr_bits}
use rtlzz.Limbs.Multiply.{mul_bits}
use rtlzz.Limbs.Divide.{DivMod, div_mod_unsigned, div_mod_signed}
use rtlzz.Ir.{OpCode, Operand, Operation, ValueFacts, rest_zero}
use rtlzz.Facts.{bool_constant, constant_bits}

unfoldable pub operand_signed : Operand → ValueFacts → Bool
operand_signed operand facts =
    operand.signed_view
    || operand.constant.signed_view
    || (facts.constant && facts.value.signed_view)

unfoldable pub constant_to_u64 : ValueFacts → Option ℕ
constant_to_u64 facts =
    if facts.constant && leb facts.value.width 64 && rest_zero facts.value.limbs
    then some (head_limb facts.value.limbs)
    else none

-- The switch on the operation, once the operand is resized to the result's width.
unfoldable pub fold_unary : OpCode → List ℕ → ℕ → Bool → Option ValueFacts
fold_unary OpCode.logic_not value width signed_view =
    some (bool_constant (not (any_bit_set value width)))
fold_unary OpCode.bit_not_op value width signed_view =
    some (constant_bits (bit_not value width) width signed_view)
fold_unary OpCode.neg value width signed_view =
    some (constant_bits (sub_bits (zeros width) value width) width signed_view)
fold_unary _ value width signed_view = none

-- `factsInferUnaryConstant` on its first operand.
unfoldable pub unary_constant : OpCode → ValueFacts → Bool → ℕ → Option ValueFacts
unary_constant code f signed_view width =
    if f.constant
    then fold_unary code (resize_bits f.value.limbs f.width width signed_view) width signed_view
    else none

unfoldable pub infer_unary_constant : Operation → List ValueFacts → ℕ → Option ValueFacts
infer_unary_constant op operands width = elim op.operands [
  | [] ↦ none
  | operand ∷ _ ↦ elim operands [
    | [] ↦ none
    | f ∷ _ ↦ unary_constant op.op f (operand_signed operand f) width
  ]
]

abbrev pub is_logic : OpCode → Bool
is_logic OpCode.logic_and = true
is_logic OpCode.logic_or = true
is_logic _ = false

abbrev pub is_comparison : OpCode → Bool
is_comparison OpCode.eq = true
is_comparison OpCode.ne = true
is_comparison OpCode.lt = true
is_comparison OpCode.le = true
is_comparison OpCode.gt = true
is_comparison OpCode.ge = true
is_comparison _ = false

-- The switch that turns a comparison into a test.
unfoldable pub comparison_result : OpCode → Ordering → Bool
comparison_result OpCode.eq Ordering.eq = true
comparison_result OpCode.ne Ordering.lt = true
comparison_result OpCode.ne Ordering.gt = true
comparison_result OpCode.lt Ordering.lt = true
comparison_result OpCode.le Ordering.lt = true
comparison_result OpCode.le Ordering.eq = true
comparison_result OpCode.gt Ordering.gt = true
comparison_result OpCode.ge Ordering.gt = true
comparison_result OpCode.ge Ordering.eq = true
comparison_result _ _ = false

-- `out[i] = lhs[i] & rhs[i]` and the like, where a limb past the end counts as 0.
unfoldable pub map_limbs : (ℕ → ℕ → ℕ) → ℕ → List ℕ → List ℕ → List ℕ
map_limbs f zero lhs rhs = []
map_limbs f (suc n) lhs rhs =
    f (head_limb lhs) (head_limb rhs) ∷ map_limbs f n (tail_limbs lhs) (tail_limbs rhs)

unfoldable pub bitwise_bits : (ℕ → ℕ → ℕ) → List ℕ → List ℕ → ℕ → List ℕ
bitwise_bits f lhs rhs width = trim (map_limbs f (limb_count width) lhs rhs) width

unfoldable pub div_mod : List ℕ → List ℕ → ℕ → Bool → Option DivMod
div_mod lhs rhs width signed =
    if signed then div_mod_signed lhs rhs width else div_mod_unsigned lhs rhs width

-- The switch on the operation, once both operands are resized to the result's width. `amount` is the
-- right operand as a `std::uint64_t`, which only the shifts use.
unfoldable pub fold_binary :
    OpCode → List ℕ → List ℕ → ℕ → Bool → Bool → Option ℕ → Option ValueFacts
fold_binary OpCode.add lhs rhs width lhs_signed signed amount =
    some (constant_bits (add_bits lhs rhs width) width signed)
fold_binary OpCode.sub lhs rhs width lhs_signed signed amount =
    some (constant_bits (sub_bits lhs rhs width) width signed)
fold_binary OpCode.mul lhs rhs width lhs_signed signed amount =
    some (constant_bits (mul_bits lhs rhs width) width signed)
fold_binary OpCode.div lhs rhs width lhs_signed signed amount =
    elim (div_mod lhs rhs width signed) [
      | none ↦ none
      | some d ↦ some (constant_bits d.quotient width signed)
    ]
fold_binary OpCode.mod_op lhs rhs width lhs_signed signed amount =
    elim (div_mod lhs rhs width signed) [
      | none ↦ none
      | some d ↦ some (constant_bits d.remainder width signed)
    ]
fold_binary OpCode.bit_and_op lhs rhs width lhs_signed signed amount =
    some (constant_bits (bitwise_bits bit_and lhs rhs width) width signed)
fold_binary OpCode.bit_or_op lhs rhs width lhs_signed signed amount =
    some (constant_bits (bitwise_bits bit_or lhs rhs width) width signed)
fold_binary OpCode.bit_xor_op lhs rhs width lhs_signed signed amount =
    some (constant_bits (bitwise_bits bit_xor lhs rhs width) width signed)
fold_binary OpCode.shl lhs rhs width lhs_signed signed amount = elim amount [
  | none ↦ none
  | some a ↦ some (constant_bits (shl_bits lhs width a) width lhs_signed)
]
fold_binary OpCode.shr lhs rhs width lhs_signed signed amount = elim amount [
  | none ↦ none
  | some a ↦ some (constant_bits (shr_bits lhs width a lhs_signed) width lhs_signed)
]
fold_binary _ lhs rhs width lhs_signed signed amount = none

unfoldable pub fold_logic : OpCode → Bool → Bool → Bool
fold_logic OpCode.logic_and lhs_true rhs_true = lhs_true && rhs_true
fold_logic _ lhs_true rhs_true = lhs_true || rhs_true

unfoldable pub fold_comparison : OpCode → ValueFacts → ValueFacts → Bool → Bool → Bool
fold_comparison code l r lhs_signed rhs_signed =
    let width = max 1 (max l.width r.width) in
    let lhs = resize_bits l.value.limbs l.width width lhs_signed in
    let rhs = resize_bits r.value.limbs r.width width rhs_signed in
    comparison_result code (
      if lhs_signed || rhs_signed
      then compare_signed lhs rhs width
      else compare_unsigned lhs rhs width)

-- `factsInferBinaryConstant` on its first two operands.
unfoldable pub binary_constant :
    OpCode → ValueFacts → ValueFacts → Bool → Bool → ℕ → Option ValueFacts
binary_constant code l r lhs_signed rhs_signed width =
    if not l.constant || not r.constant
    then none
    else if is_logic code
    then some (
        bool_constant
          (fold_logic code (any_bit_set l.value.limbs l.width) (any_bit_set r.value.limbs r.width)))
    else if is_comparison code
    then some (bool_constant (fold_comparison code l r lhs_signed rhs_signed))
    else fold_binary code (resize_bits l.value.limbs l.width width lhs_signed)
        (resize_bits r.value.limbs r.width width rhs_signed) width lhs_signed
        (lhs_signed || rhs_signed) (constant_to_u64 r)

unfoldable pub infer_binary_constant : Operation → List ValueFacts → ℕ → Option ValueFacts
infer_binary_constant op operands width = elim op.operands [
  | lhs ∷ rhs ∷ _ ↦ elim operands [
    | l ∷ r ∷ _ ↦ binary_constant op.op l r (operand_signed lhs l) (operand_signed rhs r) width
    | _ ↦ none
  ]
  | _ ↦ none
]
