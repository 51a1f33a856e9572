-- ===== src/Examples/Folds.antt =====
-- Runs and instances of the folds of constant operations.
use rtlzz.Base.{◌≡◌, some, not, ◌==◌, ◌%◌, ◌^◌, if◌then◌else◌, refl, [], ◌∷◌, true, false, arith}
use rtlzz.Base.Int.{negsuc}
use rtlzz.Limbs.Value.{value}
use rtlzz.Ir.{Constant, ValueFacts, Operand, OperandKind, Operation, OperationKind, OpCode}
use rtlzz.Facts.{from_constant, make_constant}
use rtlzz.Facts.Sound.{Describes, from_constant-Describes}
use rtlzz.Facts.Constants.{infer_unary_constant, infer_binary_constant}
use rtlzz.Facts.Constants.Meaning.{Agrees, flag}
use rtlzz.Facts.Constants.Result.{IsViewed, IsSignedAs, unary_result, binary_result}
use rtlzz.Limbs.Resize.{extend}
use rtlzz.Base.Bits.{test_bit}
use rtlzz.Facts.Joins.{facts_case, facts_ite, facts_bitwise, facts_reduce_or}
use rtlzz.Facts.Joins.Choice
use rtlzz.Facts.Joins.Possible
use rtlzz.Facts.Joins.Cases
use rtlzz.Facts.Joins.Bitwise
use rtlzz.Facts.Joins.Reduce
use rtlzz.Facts.Constants.Unary
use rtlzz.Facts.Constants.Binary

-- -3 at 8 bits, and 2 at 4 bits.
abbrev minus_three : Constant
minus_three = record { limbs = 0xfd ∷ []; width = 8; signed_view = true }

abbrev two : Constant
two = record { limbs = 2 ∷ []; width = 4; signed_view = false }

abbrev left_facts : ValueFacts
left_facts = from_constant minus_three 8

abbrev right_facts : ValueFacts
right_facts = from_constant two 4

abbrev left_operand : Operand
left_operand = record {
  kind = OperandKind.literal;
  node = 0;
  text = "-3";
  constant = minus_three;
  type = record { width = 8; array_dims = [] };
  signed_view = false;
}

abbrev right_operand : Operand
right_operand = record {
  kind = OperandKind.literal;
  node = 0;
  text = "2";
  constant = two;
  type = record { width = 4; array_dims = [] };
  signed_view = false;
}

abbrev operation : OperationKind → OpCode → Operation
operation kind code = record {
  kind = kind;
  op = code;
  operands = left_operand ∷ right_operand ∷ [];
  type = record { width = 8; array_dims = [] };
  signed_truncation = false;
  to_width = 0;
  hi = negsuc 0;
  lo = negsuc 0;
  bit = negsuc 0;
  times = 0;
}

left-Describes : Describes left_facts 0xfd
unfolding value
left-Describes = from_constant-Describes minus_three 8 (omega arith, tt)

right-Describes : Describes right_facts 2
unfolding value
right-Describes = from_constant-Describes two 4 (omega arith, tt)

left-IsViewed : IsViewed left_operand left_facts
left-IsViewed _ _ = refl

right-IsViewed : IsViewed right_operand right_facts
unfolding from_constant make_constant
right-IsViewed _ signed = absurd (let never : false ≡ true = signed in cc)

infer_unary_constant-Agrees_example :
    Agrees
      (infer_unary_constant (operation OperationKind.unary OpCode.neg) (left_facts ∷ []) 6)
      (unary_result OpCode.neg 6 0xfd)
    × IsSignedAs
        (infer_unary_constant (operation OperationKind.unary OpCode.neg) (left_facts ∷ []) 6)
        true
unfolding from_constant
infer_unary_constant-Agrees_example =
    Unary.infer_unary_constant-Agrees (operation OperationKind.unary OpCode.neg) left_operand
      (right_operand ∷ []) left_facts [] 6 0xfd refl (omega arith) left-IsViewed (λ _. omega arith)
      refl left-Describes

infer_binary_constant-Agrees_example :
    Agrees
      (infer_binary_constant
        (operation OperationKind.binary OpCode.mod_op)
        (left_facts ∷ right_facts ∷ [])
        12)
      (binary_result OpCode.mod_op true false 8 4 12 0xfd 2)
    × IsSignedAs
        (infer_binary_constant
          (operation OperationKind.binary OpCode.mod_op)
          (left_facts ∷ right_facts ∷ [])
          12)
        true
unfolding from_constant
infer_binary_constant-Agrees_example =
    Binary.infer_binary_constant-Agrees (operation OperationKind.binary OpCode.mod_op) left_operand
      right_operand [] left_facts right_facts [] 12 0xfd 2 refl (omega arith) left-IsViewed
      right-IsViewed (omega arith, omega arith) refl refl left-Describes right-Describes

-- A shift by the operand's width gives zero, a shift comes before narrowing, and `!` tests all bits.
oversized_shift : binary_result OpCode.shr true false 8 8 8 0x80 8 ≡ some 0
oversized_shift = refl

shift_then_narrow : binary_result OpCode.shr false false 16 8 8 0x1200 8 ≡ some 0x12
shift_then_narrow = refl

not_of_two : unary_result OpCode.logic_not 1 2 ≡ some 0
not_of_two = refl

negative_remainder : binary_result OpCode.mod_op true false 8 4 12 0xfd 2 ≡ some 0xfff
unfolding extend test_bit
negative_remainder = refl

facts_ite-Describes_example :
    Describes
      (facts_ite 8 right_facts left_facts right_facts)
      ((if 2 == 0 then 2 else 0xfd) % 2 ^ 8)
facts_ite-Describes_example =
    Choice.facts_ite-Describes 8 right_facts left_facts right_facts 2 0xfd 2 right-Describes
      left-Describes right-Describes

facts_bitwise-Describes_example :
    Describes
      (facts_bitwise OpCode.bit_and_op left_facts right_facts 8)
      (Bitwise.bitwise_value OpCode.bit_and_op 0xfd 2 % 2 ^ 8)
facts_bitwise-Describes_example =
    Bitwise.facts_bitwise-Describes OpCode.bit_and_op left_facts right_facts 8 0xfd 2 left-Describes
      right-Describes

facts_reduce_or-Describes_example : Describes (facts_reduce_or left_facts) (flag (not (0xfd == 0)))
facts_reduce_or-Describes_example = Reduce.facts_reduce_or-Describes left_facts 0xfd left-Describes

facts_case-Describes_example :
    Describes
      (facts_case 8 (right_facts ∷ left_facts ∷ right_facts ∷ []))
      (Possible.case_value (2 ∷ 0xfd ∷ 2 ∷ []) % 2 ^ 8)
facts_case-Describes_example =
    Cases.facts_case-Describes 8 (right_facts ∷ left_facts ∷ right_facts ∷ []) (2 ∷ 0xfd ∷ 2 ∷ [])
      (omega arith) (right-Describes, (left-Describes, (right-Describes, tt)))
