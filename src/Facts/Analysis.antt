-- ===== src/Facts/Analysis.antt =====
-- `MutableProgram::analyzeValueFacts` of src/backend/beir.cpp: the facts of every signal, in an order
-- that visits the operands of a driver before the signal. `none` is an exception.
pub mod Stores
pub mod Steps
pub mod Operands
pub mod Sound
pub mod Total
use rtlzz.Base.{
  ℕ, List, [], ◌∷◌, map, Bool, true, false, ◌&&◌, Option, none, some, if◌then◌else◌, ◌==◌, get_or,
  get_elem?, set, replicate, length,
}
use rtlzz.Ir.{Operand, OperandKind, Operation, Signal, ValueFacts, width_of, find_signal}
use rtlzz.Facts.{no_constant, facts_unknown, from_constant, set_width, promote_known_constant}
use rtlzz.Facts.Operation.{infer_operation}

-- `ValueFacts{}`.
abbrev pub no_facts : ValueFacts
no_facts = record {
  valid = false;
  width = 0;
  constant = false;
  value = no_constant;
  known_zero = [];
  known_one = [];
}

abbrev pub signal_facts : Option Signal → ℕ → ValueFacts
signal_facts none width = facts_unknown width
signal_facts (some signal) width = signal.value

-- The facts of an operand of an operation of some width.
abbrev pub facts_by_kind : OperandKind → List Signal → ℕ → Operand → ValueFacts
facts_by_kind OperandKind.literal signals width operand =
    from_constant operand.constant (width_of operand.type)
facts_by_kind OperandKind.symbol signals width operand =
    signal_facts (find_signal signals operand.node) width
facts_by_kind OperandKind.port signals width operand = facts_unknown width

unfoldable pub operand_facts : List Signal → ℕ → Operand → ValueFacts
operand_facts signals width operand = facts_by_kind operand.kind signals width operand

abbrev pub resolved_by_kind : OperandKind → List Bool → Operand → Bool
resolved_by_kind OperandKind.symbol resolved operand = get_or resolved operand.node false
resolved_by_kind _ resolved operand = true

unfoldable pub all_resolved : List Bool → List Operand → Bool
all_resolved resolved [] = true
all_resolved resolved (o ∷ os) = resolved_by_kind o.kind resolved o && all_resolved resolved os

unfoldable pub driver_resolved : List Bool → Option Operation → Bool
driver_resolved resolved none = true
driver_resolved resolved (some op) = all_resolved resolved op.operands

unfoldable pub driven_facts : List Signal → Option Operation → ℕ → ValueFacts
driven_facts signals none width = facts_unknown width
driven_facts signals (some op) width = promote_known_constant (
    set_width (infer_operation op (map (operand_facts signals (width_of op.type)) op.operands))
      width)

-- The signal with its facts.
unfoldable pub analyzed : List Signal → Signal → Signal
analyzed signals signal = record signal {
  value = driven_facts signals signal.driver (width_of signal.type);
}

unfoldable pub analyze_from : List ℕ → List Signal → List Bool → Option (List Signal)
analyze_from [] signals resolved = some signals
analyze_from (id ∷ order) signals resolved = elim (find_signal signals id) [
  | none ↦ none
  | some signal ↦
      if driver_resolved resolved signal.driver
      then analyze_from order (set signals id (analyzed signals signal)) (set resolved id true)
      else none
]

unfoldable pub analyze_in_order : List ℕ → List Signal → Option (List Signal)
analyze_in_order order signals = analyze_from order signals (replicate (length signals) false)
