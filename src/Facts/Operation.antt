-- ===== src/Facts/Operation.antt =====
-- `factsInferOperation` of src/backend/beir.cpp: the facts of an operation's result, from the facts of
-- its operands in their order.
pub mod Meaning
pub mod Settle
pub mod Moves
pub mod Fits
pub mod Folds
pub mod Sound
use rtlzz.Base.{
  ℕ, ◌%◌, List, [], ◌∷◌, Bool, true, false, ◌&&◌, leb, ◌==◌, if◌then◌else◌, Option, none, some,
  length,
}
use rtlzz.Ir.{OpCode, Operation, OperationKind, ValueFacts, width_of}
use rtlzz.Facts.{
  facts_unknown, facts_zext, facts_sext, facts_trunc, facts_signed_trunc, facts_slice,
  facts_bit_select,
}
use rtlzz.Facts.Constants.{infer_unary_constant, infer_binary_constant}
use rtlzz.Facts.Joins.{facts_ite, facts_case, facts_bitwise, facts_reduce_or, facts_reduce_and}
use rtlzz.Facts.Parts.{facts_concat, facts_add_carry, facts_bit_not}

abbrev pub first_or : (ValueFacts → ValueFacts) → ValueFacts → List ValueFacts → ValueFacts
first_or f default [] = default
first_or f default (x ∷ xs) = f x

abbrev pub two_or :
    (ValueFacts → ValueFacts → ValueFacts) → ValueFacts → List ValueFacts → ValueFacts
two_or f default [] = default
two_or f default (x ∷ []) = default
two_or f default (x ∷ y ∷ xs) = f x y

-- Exactly three operands.
abbrev pub three_or :
    (ValueFacts → ValueFacts → ValueFacts → ValueFacts) → ValueFacts → List ValueFacts → ValueFacts
three_or f default (x ∷ y ∷ z ∷ []) = f x y z
three_or f default _ = default

-- `hasValidCaseShape`, for an operation that is a case.
abbrev pub valid_case_shape : ℕ → Bool
valid_case_shape size = leb 3 size && size % 2 == 1

abbrev pub is_bitwise : OpCode → Bool
is_bitwise OpCode.bit_and_op = true
is_bitwise OpCode.bit_or_op = true
is_bitwise OpCode.bit_xor_op = true
is_bitwise _ = false

abbrev pub is_bit_not : OpCode → Bool
is_bit_not OpCode.bit_not_op = true
is_bit_not _ = false

-- A unary operation whose operand is not constant.
unfoldable pub partial_unary : Operation → List ValueFacts → ℕ → ValueFacts
partial_unary op fs width =
    if is_bit_not op.op
    then first_or facts_bit_not (facts_unknown width) fs
    else facts_unknown width

unfoldable pub partial_binary : Operation → List ValueFacts → ℕ → ValueFacts
partial_binary op fs width =
    if is_bitwise op.op
    then two_or (λ l r. facts_bitwise op.op l r width) (facts_unknown width) fs
    else facts_unknown width

abbrev pub folded_or : Option ValueFacts → ValueFacts → ValueFacts
folded_or none f = f
folded_or (some g) f = g

unfoldable pub infer_kind : OperationKind → Operation → List ValueFacts → ℕ → ValueFacts
infer_kind OperationKind.assign op fs width =
    first_or (λ f. if leb f.width width then facts_zext f width else facts_trunc f width)
      (facts_unknown width) fs
infer_kind OperationKind.cast op fs width =
    first_or (λ f. if leb f.width width then facts_zext f width else facts_trunc f width)
      (facts_unknown width) fs
infer_kind OperationKind.zext op fs width =
    first_or (λ f. facts_zext f width) (facts_unknown width) fs
infer_kind OperationKind.sext op fs width =
    first_or (λ f. facts_sext f width) (facts_unknown width) fs
infer_kind OperationKind.trunc op fs width =
    if op.signed_truncation
    then first_or (λ f. facts_signed_trunc f width) (facts_unknown width) fs
    else first_or (λ f. facts_trunc f width) (facts_unknown width) fs
infer_kind OperationKind.slice op fs width =
    first_or (λ f. facts_slice f op.lo width) (facts_unknown width) fs
infer_kind OperationKind.bit_select op fs width =
    first_or (λ f. facts_bit_select f op.bit) (facts_unknown 1) fs
infer_kind OperationKind.concat op fs width = facts_concat width fs
infer_kind OperationKind.ite op fs width = three_or (facts_ite width) (facts_unknown width) fs
infer_kind OperationKind.case op fs width =
    if valid_case_shape (length fs) then facts_case width fs else facts_unknown width
infer_kind OperationKind.unary op fs width =
    folded_or (infer_unary_constant op fs width) (partial_unary op fs width)
infer_kind OperationKind.add_carry op fs width =
    three_or (facts_add_carry width) (facts_unknown width) fs
infer_kind OperationKind.binary op fs width =
    folded_or (infer_binary_constant op fs width) (partial_binary op fs width)
infer_kind OperationKind.reduce_or op fs width = first_or facts_reduce_or (facts_unknown width) fs
infer_kind OperationKind.reduce_and op fs width = first_or facts_reduce_and (facts_unknown width) fs
infer_kind _ op fs width = facts_unknown width

unfoldable pub infer_operation : Operation → List ValueFacts → ValueFacts
infer_operation op fs = infer_kind op.kind op fs (width_of op.type)
