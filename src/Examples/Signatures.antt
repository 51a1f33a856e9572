-- ===== src/Examples/Signatures.antt =====
-- Runs and instances of the signatures of operations.
use rtlzz.Base.{◌≡◌, refl, [], ◌∷◌, true, false}
use rtlzz.Ir.{OpCode, Operand, OperandKind, Operation, OperationKind}
use rtlzz.Examples.Analysis.{literal_of, node_of, operation}
use rtlzz.Ir.Text
use rtlzz.Ir.Signature.{
  OperandSignature, no_constant_signature, in_order, less_operand_signature, same_operand_signature,
  Texts, operation_signature,
}
use rtlzz.Ir.Signature.Ordered
use rtlzz.Ir.Signature.Swapped

abbrev symbol_signature : OperandSignature
symbol_signature = record {
  kind = OperandKind.symbol;
  node = 3;
  text_id = 1;
  type = record { width = 8; array_dims = [] };
  signed_view = false;
  constant = no_constant_signature;
}

abbrev literal_signature : OperandSignature
literal_signature = record {
  kind = OperandKind.literal;
  node = 0;
  text_id = 0;
  type = record { width = 8; array_dims = [] };
  signed_view = true;
  constant = record { width = 8; signed_view = true; limbs = 5 ∷ [] };
}

symbol_first :
    in_order true (literal_signature ∷ symbol_signature ∷ [])
    ≡ symbol_signature ∷ literal_signature ∷ []
unfolding in_order less_operand_signature
symbol_first = refl

operand_signatures-IsCompared_example :
    Ordered.IsCompared
      (less_operand_signature symbol_signature literal_signature)
      (same_operand_signature symbol_signature literal_signature)
      (less_operand_signature literal_signature symbol_signature)
      (same_operand_signature literal_signature symbol_signature)
operand_signatures-IsCompared_example =
    Ordered.operand_signatures-IsCompared symbol_signature literal_signature

-- A literal with a text and a signal with another, in a sum.
abbrev five_operand : Operand
five_operand = record (literal_of 5 8) { text = "five" }

abbrev named_operand : Operand
named_operand = record (node_of 3 8) { text = "x" }

abbrev sum : Operation
sum = record (operation OperationKind.binary (five_operand ∷ named_operand ∷ []) 8) {
  op = OpCode.add;
}

abbrev no_texts : Texts
no_texts = record { ids = []; next = 1 }

operation_signature-swap_example :
    operation_signature
      (operation_signature no_texts sum).0
      (record sum { operands = named_operand ∷ five_operand ∷ [] })
    ≡ operation_signature no_texts sum
operation_signature-swap_example =
    Swapped.operation_signature-swap no_texts sum five_operand named_operand refl tt refl

operation_kind_text-inj_example : OperationKind.look_up ≡ OperationKind.look_up
operation_kind_text-inj_example =
    Text.operation_kind_text-inj OperationKind.look_up OperationKind.look_up refl
