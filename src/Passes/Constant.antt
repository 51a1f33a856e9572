-- ===== src/Passes/Constant.antt =====
-- `foldConstants` of src/backend/beopt_constant.hpp: constant operands are propagated and operations
-- with a constant result become assigns of a literal. The debug metadata that is refreshed is left out.
pub mod Trimmed
pub mod Literal
pub mod Keeps
pub mod Whole
use rtlzz.Base.{
  ℕ, ◌-◌, ◌%◌, ◌^◌, List, [], ◌∷◌, Bool, true, false, not, ◌&&◌, ◌||◌, Option, none, some,
  if◌then◌else◌, ◌==◌, set, resize,
}
use rtlzz.Base.Int.{negsuc}
use rtlzz.Limbs.{limb_count, mask_last}
use rtlzz.Ir.{
  OpCode, Operand, OperandKind, Operation, OperationKind, Signal, ValueFacts, ValueType, width_of,
  find_signal,
}
use rtlzz.Facts.Order.{topological_order}
use rtlzz.Facts.Whole.{analyze_value_facts}

-- `kInvalidNodeId`.
abbrev pub invalid_node_id : ℕ
invalid_node_id = 2 ^ 64 - 1

unfoldable pub high_mask : ℕ → ℕ
high_mask width = if width % 64 == 0 then 2 ^ 64 - 1 else 2 ^ (width % 64) - 1

unfoldable pub trim_limbs : List ℕ → ℕ → List ℕ
trim_limbs limbs width = mask_last (high_mask width) (resize (limb_count width) 0 limbs)

abbrev pub same_limbs : List ℕ → List ℕ → Bool
same_limbs [] [] = true
same_limbs (x ∷ xs) (y ∷ ys) = x == y && same_limbs xs ys
same_limbs _ _ = false

unfoldable pub same_constant : List ℕ → List ℕ → ℕ → Bool
same_constant lhs rhs width = same_limbs (trim_limbs lhs width) (trim_limbs rhs width)

unfoldable pub literal_from_facts : ValueFacts → ValueType → Bool → Operand
literal_from_facts facts type signed_view =
    let signed = signed_view || facts.value.signed_view in
    record {
      kind = OperandKind.literal;
      node = invalid_node_id;
      text = "const";
      constant = record {
        limbs = trim_limbs facts.value.limbs (width_of type);
        width = width_of type;
        signed_view = signed;
      };
      type = type;
      signed_view = signed;
    }

unfoldable pub set_assign : Operation → Operand → ValueType → Operation
set_assign op operand type = record op {
  kind = OperationKind.assign;
  op = OpCode.no_op;
  operands = operand ∷ [];
  signed_truncation = false;
  type = type;
  to_width = 0;
  hi = negsuc 0;
  lo = negsuc 0;
  bit = negsuc 0;
  times = 0;
}

unfoldable pub can_fold_result : OperationKind → Bool
can_fold_result OperationKind.port_read = false
can_fold_result OperationKind.look_up = false
can_fold_result OperationKind.array_access = false
can_fold_result OperationKind.aggregate = false
can_fold_result OperationKind.call = false
can_fold_result _ = true

abbrev pub constant_signal : Option Signal → Operand → Option Operand
constant_signal none operand = none
constant_signal (some source) operand =
    if source.value.valid && source.value.constant
    then some (literal_from_facts source.value operand.type operand.signed_view)
    else none

-- The literal that replaces an operand, where one does.
abbrev pub constant_by_kind : OperandKind → List Signal → Operand → Option Operand
constant_by_kind OperandKind.symbol signals operand =
    constant_signal (find_signal signals operand.node) operand
constant_by_kind _ signals operand = none

unfoldable pub constant_operand : List Signal → Operand → Option Operand
constant_operand signals operand = constant_by_kind operand.kind signals operand

pub record Propagated : Type 0 where
  pub operands : List Operand
  pub changed : Bool

abbrev pub with_operand : Operand → Option Operand → Propagated → Propagated
with_operand operand none rest = record rest { operands = operand ∷ rest.operands }
with_operand operand (some literal) rest = record {
  operands = literal ∷ rest.operands;
  changed = true;
}

unfoldable pub propagate_operands : List Signal → List Operand → Propagated
propagate_operands signals [] = record { operands = []; changed = false }
propagate_operands signals (o ∷ os) =
    with_operand o (constant_operand signals o) (propagate_operands signals os)

abbrev pub is_literal : OperandKind → Bool
is_literal OperandKind.literal = true
is_literal _ = false

abbrev pub is_assign : OperationKind → Bool
is_assign OperationKind.assign = true
is_assign _ = false

abbrev pub same_bool : Bool → Bool → Bool
same_bool true b = b
same_bool false b = not b

abbrev pub only_literal : List Operand → ValueFacts → ℕ → Bool
only_literal (o ∷ []) facts width =
    is_literal o.kind
    && same_bool o.constant.signed_view facts.value.signed_view
    && same_constant o.constant.limbs facts.value.limbs width
only_literal _ facts width = false

-- `none` where the operation stays.
unfoldable pub fold_constant_result : Operation → ValueFacts → Option Operation
fold_constant_result op facts =
    if not facts.valid || not facts.constant || not (can_fold_result op.kind)
    then none
    else if is_assign op.kind && only_literal op.operands facts (width_of op.type)
    then none
    else some (set_assign op (literal_from_facts facts op.type false) op.type)

pub record Folded : Type 0 where
  pub op : Operation
  pub changed : Bool

abbrev pub fold_after : Operation → Bool → Option Operation → Folded
fold_after op changed none = record { op = op; changed = changed }
fold_after op changed (some folded) = record { op = folded; changed = true }

unfoldable pub fold_driver : List Signal → Operation → ValueFacts → Folded
fold_driver signals op facts =
    let p = propagate_operands signals op.operands in
    let propagated = record op { operands = p.operands } in
    fold_after propagated p.changed (fold_constant_result propagated facts)

pub record Pass : Type 0 where
  pub signals : List Signal
  pub changed : Bool

abbrev pub fold_signal : ℕ → Signal → Option Operation → Pass → Pass
fold_signal id signal none pass = pass
fold_signal id signal (some op) pass =
    let f = fold_driver pass.signals op signal.value in
    record {
      signals = set pass.signals id (record signal { driver = some f.op });
      changed = f.changed || pass.changed;
    }

-- `none` where an id is unknown.
unfoldable pub fold_in_order : List ℕ → Pass → Option Pass
fold_in_order [] pass = some pass
fold_in_order (id ∷ order) pass = elim (find_signal pass.signals id) [
  | none ↦ none
  | some signal ↦ fold_in_order order (fold_signal id signal signal.driver pass)
]

-- `topologicalOrder` of the pass, which differs from `factsTopologicalOrder` in the texts of its
-- exceptions only.
abbrev pub constant_order : List Signal → Option (List ℕ)
constant_order signals = topological_order signals

-- The signals of a `MutableProgram`, and whether the facts are to be found again.
pub record MutableProgram : Type 0 where
  pub signals : List Signal
  pub value_facts_dirty : Bool

unfoldable pub ensure_value_facts : MutableProgram → Option MutableProgram
ensure_value_facts graph =
    if not graph.value_facts_dirty then some graph else elim (analyze_value_facts graph.signals) [
      | none ↦ none
      | some signals ↦ some (record { signals = signals; value_facts_dirty = false })
    ]

abbrev pub marked_dirty : Option Pass → Option (MutableProgram × Bool)
marked_dirty none = none
marked_dirty (some pass) =
    some (record { signals = pass.signals; value_facts_dirty = pass.changed }, pass.changed)

abbrev pub fold_by : Option (List ℕ) → List Signal → Option (MutableProgram × Bool)
fold_by none signals = none
fold_by (some order) signals =
    marked_dirty (fold_in_order order (record { signals = signals; changed = false }))

abbrev pub fold_ensured : Option MutableProgram → Option (MutableProgram × Bool)
fold_ensured none = none
fold_ensured (some graph) = fold_by (constant_order graph.signals) graph.signals

-- The program and whether it changed; `none` is an exception.
unfoldable pub fold_constants : MutableProgram → Option (MutableProgram × Bool)
fold_constants graph = fold_ensured (ensure_value_facts graph)
