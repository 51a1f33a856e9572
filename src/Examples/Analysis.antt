-- ===== src/Examples/Analysis.antt =====
-- Runs and instances of the analysis of a whole program.
use rtlzz.Base.{
  ℕ, ◌<◌, ◌^◌, zero, suc, ◌≡◌, refl, subst, ◌∙◌, List, [], ◌∷◌, true, false, Option, some, arith,
}
use rtlzz.Base.Int.{pos}
use rtlzz.Ir.{
  Constant, OpCode, Operand, OperandKind, Operation, OperationKind, Signal, ValueType, find_signal,
  width_of,
}
use rtlzz.Facts.{
  no_constant, facts_zext, from_constant, make_constant, promote_known_constant, set_width,
}
use rtlzz.Facts.Analysis.{
  no_facts, analyze_in_order, analyze_from, analyzed, driver_resolved, all_resolved, driven_facts,
  operand_facts,
}
use rtlzz.Facts.Order.{
  Graph, topological_order, build_graph, add_signals, add_signal, add_driver, add_operands,
  add_user, visit_all, visit_ready, first_ready, visit_signal, release_all, release,
}
use rtlzz.Facts.Operation.{infer_operation, infer_kind}
use rtlzz.Limbs.{trim, bit_not, mask_last, limb_count}
use rtlzz.Facts.Whole.{analyze_value_facts, reset_facts}
use rtlzz.Facts.Sound.{Describes, from_constant-Describes}
use rtlzz.Facts.Analysis.Operands.{SolvesDriver, Solves, IsKnown, from_constant-IsWithin}
use rtlzz.Limbs.Value.{value}
use rtlzz.Limbs.Resize.{extend}
use rtlzz.Facts.Within.{IsWithin}
use rtlzz.Facts.Operation.Settle.{Settles}
use rtlzz.Facts.Operation.Sound.{infer_operation-Settles}
use rtlzz.Facts.Order.Sound
use rtlzz.Facts.Analysis.Total
use rtlzz.Facts.Analysis.Total.{returns, operands_first}
use rtlzz.Facts.Whole

abbrev pub bits : ℕ → ValueType
bits width = record { width = width; array_dims = [] }

abbrev pub node_of : ℕ → ℕ → Operand
node_of node width = record {
  kind = OperandKind.symbol;
  node = node;
  text = "";
  constant = no_constant;
  type = bits width;
  signed_view = false;
}

abbrev pub literal_of : ℕ → ℕ → Operand
literal_of limb width = record {
  kind = OperandKind.literal;
  node = 0;
  text = "";
  constant = record { limbs = limb ∷ []; width = width; signed_view = false };
  type = bits width;
  signed_view = false;
}

abbrev pub operation : OperationKind → List Operand → ℕ → Operation
operation kind operands width = record {
  kind = kind;
  op = OpCode.no_op;
  operands = operands;
  type = bits width;
  signed_truncation = false;
  to_width = 0;
  hi = pos 0;
  lo = pos 0;
  bit = pos 0;
  times = 0;
}

abbrev pub signal : ℕ → ℕ → Option Operation → Signal
signal id width driver = record {
  id = id;
  name = "";
  type = bits width;
  port_name = "";
  port_element_index = pos 0;
  value = no_facts;
  driver = driver;
}

-- Signal 0 is signal 1 extended with zeros, and signal 1 is 5.
abbrev pub program : List Signal
program =
    signal 0 16 (some (operation OperationKind.zext (node_of 1 8 ∷ []) 16))
    ∷ signal 1 8 (some (operation OperationKind.assign (literal_of 5 8 ∷ []) 8))
    ∷ []

program_order : topological_order program ≡ some (1 ∷ 0 ∷ [])
unfolding topological_order build_graph add_signals add_signal add_driver add_operands add_user
    find_signal visit_all visit_ready first_ready visit_signal release_all release
program_order = refl

abbrev pub known_as : ℕ → ℕ → Signal → Signal
known_as limb zeros s = record s {
  value = record {
    valid = true;
    width = s.type.width;
    constant = true;
    value = record { limbs = limb ∷ []; width = s.type.width; signed_view = false };
    known_zero = zeros ∷ [];
    known_one = limb ∷ [];
  };
}

abbrev pub wide : Signal
wide = known_as 5 0xfffa (signal 0 16 (some (operation OperationKind.zext (node_of 1 8 ∷ []) 16)))

abbrev pub narrow : Signal
narrow =
    known_as 5 0xfa (signal 1 8 (some (operation OperationKind.assign (literal_of 5 8 ∷ []) 8)))

abbrev pub result : List Signal
result = wide ∷ narrow ∷ []

pub program_run : analyze_value_facts program ≡ some result
unfolding analyze_value_facts reset_facts topological_order build_graph add_signals add_signal
    add_driver add_operands add_user find_signal visit_all visit_ready first_ready visit_signal
    release_all release analyze_in_order analyze_from analyzed driver_resolved all_resolved
    driven_facts operand_facts infer_operation infer_kind facts_zext from_constant make_constant
    promote_known_constant set_width width_of trim bit_not mask_last limb_count
program_run = refl

abbrev pub fives : ℕ → ℕ
fives id = 5

abbrev pub no_ports : Operand → ℕ
no_ports o = 0

pub result-Solves : Solves result fives no_ports
unfolding find_signal operand_facts width_of value
result-Solves zero s h =
    let same : wide ≡ s = cc in
    subst (λ (r : Signal). SolvesDriver result fives no_ports r.driver (width_of r.type) 5) same
      (refl, ((tt, omega arith), tt), tt, refl)
result-Solves (suc zero) s h =
    let same : narrow ≡ s = cc in
    subst (λ (r : Signal). SolvesDriver result fives no_ports r.driver (width_of r.type) 5) same
      (refl, ((omega arith, omega arith), tt), tt, refl)
result-Solves (suc (suc id)) s h = cc

analyze_value_facts-IsKnown_example : IsKnown fives result 0
analyze_value_facts-IsKnown_example =
    Whole.analyze_value_facts-IsKnown fives no_ports program result 0 refl program_run result-Solves
      (omega arith)

program_order_cleared : topological_order (reset_facts program) ≡ some (1 ∷ 0 ∷ [])
unfolding reset_facts
program_order_cleared = program_order

analyze_value_facts_returns_example :
    (found : List Signal) × (analyze_value_facts program ≡ some found)
analyze_value_facts_returns_example =
    Whole.analyze_value_facts_returns program (1 ∷ 0 ∷ []) refl program_order_cleared

topological_order-IsTopological_example : Sound.IsTopological program (1 ∷ 0 ∷ [])
topological_order-IsTopological_example =
    Sound.topological_order-IsTopological program (1 ∷ 0 ∷ []) refl program_order

abbrev graph : Graph
graph = record { users = [] ∷ (0 ∷ []) ∷ []; indegree = 1 ∷ 0 ∷ [] }

program_graph : build_graph program ≡ some graph
unfolding build_graph add_signals add_signal add_driver add_operands add_user find_signal
program_graph = refl

visit_all-ends_example : (visit_all program graph).ready ≡ []
visit_all-ends_example = Sound.visit_all-ends program graph refl program_graph

-- The quotient of the literals 20 and 3.
abbrev divided : Operation
divided = record (operation OperationKind.binary (literal_of 20 8 ∷ literal_of 3 8 ∷ []) 8) {
  op = OpCode.div;
}

abbrev constant_of : ℕ → Constant
constant_of limb = record { limbs = limb ∷ []; width = 8; signed_view = false }

constant_of-Describes :
    (limb : ℕ) → limb < 2 ^ 8 → Describes (from_constant (constant_of limb) 8) limb
unfolding value
constant_of-Describes limb h = ground (arith, from_constant-Describes (constant_of limb) 8)

constant_of-IsWithin : (limb : ℕ) → limb < 2 ^ 8 → IsWithin (from_constant (constant_of limb) 8)
constant_of-IsWithin limb h = from_constant-IsWithin (constant_of limb) 8 (omega arith)

infer_operation-Settles_example :
    Settles
      (infer_operation divided
        (from_constant (constant_of 20) 8 ∷ from_constant (constant_of 3) 8 ∷ []))
      8
      6
unfolding width_of from_constant make_constant extend
infer_operation-Settles_example =
    infer_operation-Settles divided
      (from_constant (constant_of 20) 8 ∷ from_constant (constant_of 3) 8 ∷ []) (20 ∷ 3 ∷ []) 6 refl
      (constant_of-IsWithin 20 (omega arith), (constant_of-IsWithin 3 (omega arith), tt))
      (constant_of-Describes 20 (omega arith), (constant_of-Describes 3 (omega arith), tt))
      (
        omega arith,
        (
          (λ _ s. absurd (let never : false ≡ true = s in cc)),
          (λ _ s. absurd (let never : false ≡ true = s in cc)),
          (omega arith, omega arith),
        ),
      )
      refl

analyze_in_order-returns_example :
    returns (analyze_in_order (0 ∷ 1 ∷ []) program) ≡ operands_first program [] (0 ∷ 1 ∷ [])
analyze_in_order-returns_example = Total.analyze_in_order-returns (0 ∷ 1 ∷ []) program

too_early : returns (analyze_in_order (0 ∷ 1 ∷ []) program) ≡ false
unfolding find_signal
too_early = Total.analyze_in_order-returns (0 ∷ 1 ∷ []) program ∙ refl
