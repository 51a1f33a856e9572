-- ===== src/Passes/Aliases.antt =====
-- `MutableProgram::resolveOperand` and `isCseCandidate` of src/backend/beir.cpp: chains of aliases are
-- followed to their end, or until an id comes again.
pub mod Resolved
pub mod Replaced
use rtlzz.Base.{
  ℕ, zero, suc, ◌+◌, List, [], ◌∷◌, Bool, true, false, ◌&&◌, ◌||◌, Option, none, some,
  if◌then◌else◌, ◌==◌, length,
}
use rtlzz.Ir.{Operand, OperandKind, Operation, OperationKind}
use rtlzz.Facts.Analysis.Steps.{contains}

abbrev pub is_cse_kind : OperationKind → Bool
is_cse_kind OperationKind.assign = false
is_cse_kind OperationKind.port_read = false
is_cse_kind OperationKind.dynamic_write_slice = false
is_cse_kind OperationKind.dynamic_write_bit = false
is_cse_kind OperationKind.write_slice = false
is_cse_kind OperationKind.write_bit = false
is_cse_kind _ = true

unfoldable pub is_cse_candidate : Operation → Bool
is_cse_candidate op = is_cse_kind op.kind

unfoldable pub find_alias : List (ℕ × Operand) → ℕ → Option Operand
find_alias [] id = none
find_alias ((key, operand) ∷ aliases) id =
    let rest = find_alias aliases id in if key == id then some operand else rest

pub record Chain : Type 0 where
  pub operand : Operand
  pub use_signed_view : Bool
  pub seen : List ℕ

-- The next link, or `none` where the loop stops.
abbrev pub follow_alias : Option Operand → Chain → Option Chain
follow_alias none c = none
follow_alias (some next) c =
    if contains c.operand.node c.seen
    then none
    else some (record {
      operand = next;
      use_signed_view = c.use_signed_view || c.operand.signed_view;
      seen = c.operand.node ∷ c.seen;
    })

abbrev pub follow_by_kind : OperandKind → List (ℕ × Operand) → Chain → Option Chain
follow_by_kind OperandKind.symbol aliases c = follow_alias (find_alias aliases c.operand.node) c
follow_by_kind _ aliases c = none

unfoldable pub follow : List (ℕ × Operand) → Chain → Option Chain
follow aliases c = follow_by_kind c.operand.kind aliases c

unfoldable pub follow_all : ℕ → List (ℕ × Operand) → Chain → Chain
follow_all zero aliases c = c
follow_all (suc fuel) aliases c = elim (follow aliases c) [
  | none ↦ c
  | some next ↦ follow_all fuel aliases next
]

abbrev pub signed_by_kind : OperandKind → Operand → Operand
signed_by_kind OperandKind.literal o = record o {
  signed_view = true;
  constant = record o.constant { signed_view = true };
}
signed_by_kind _ o = record o { signed_view = true }

unfoldable pub with_signed_view : Chain → Operand
with_signed_view c =
    if c.use_signed_view then signed_by_kind c.operand.kind c.operand else c.operand

-- No id is followed twice, so as many rounds as aliases are enough.
unfoldable pub resolve_operand : List (ℕ × Operand) → Operand → Operand
resolve_operand aliases operand = with_signed_view (
    follow_all (length aliases) aliases
      (record { operand = operand; use_signed_view = operand.signed_view; seen = [] }))
