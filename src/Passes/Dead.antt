-- ===== src/Passes/Dead.antt =====
-- `eliminateDeadNodes` of src/backend/beopt_dce.hpp and `MutableProgram::compact` of
-- src/backend/beir.cpp: the signals that the observable ones need are kept and numbered anew. The debug
-- metadata and the cache of temporary names are left out.
pub mod Pushed
pub mod Marked
pub mod Kept
pub mod Renamed
use Prim.Native.String.{String}
use rtlzz.Base.{
  ℕ, zero, suc, ◌+◌, List, [], ◌∷◌, ◌++◌, map, Bool, true, false, not, ◌&&◌, ◌||◌, Option, none,
  some, if◌then◌else◌, ◌==◌, ltb, leb, get_or, set, replicate, length,
}
use rtlzz.Ir.{Operand, OperandKind, Operation, Signal, ValueType, find_signal}
use rtlzz.Ir.Signature.{equal_text}
use rtlzz.Facts.Analysis.Steps.{contains}
use rtlzz.Passes.Constant.{invalid_node_id}

pub data PortDirection : Type 0 where
  input output unknown : PortDirection

abbrev pub port_direction_text : PortDirection → String
port_direction_text PortDirection.input = "Input"
port_direction_text PortDirection.output = "Output"
port_direction_text PortDirection.unknown = "Unknown"

pub record Port : Type 0 where
  pub name : String
  pub direction : PortDirection
  pub type : ValueType
  pub element_nodes : List ℕ

pub record Program : Type 0 where
  pub function_name : String
  pub inputs : List String
  pub outputs : List String
  pub ports : List Port
  pub signals : List Signal

-- A `MutableProgram`, but for its texts.
pub record MutableGraph : Type 0 where
  pub program : Program
  pub observable_ids : List ℕ
  pub value_facts_dirty : Bool

-- The ids of the signals of ports, and of the first signal that has an output's name.
unfoldable pub port_ids : List Signal → List ℕ
port_ids [] = []
port_ids (s ∷ signals) =
    let rest = port_ids signals in if equal_text s.port_name "" then rest else s.id ∷ rest

unfoldable pub first_named : List Signal → String → List ℕ
first_named [] wanted = []
first_named (s ∷ signals) wanted =
    let rest = first_named signals wanted in if equal_text s.name wanted then s.id ∷ [] else rest

unfoldable pub output_ids : List Signal → List String → List ℕ
output_ids signals [] = []
output_ids signals (wanted ∷ outputs) = first_named signals wanted ++ output_ids signals outputs

unfoldable pub rebuild_observable_ids : Program → List ℕ
rebuild_observable_ids program =
    port_ids program.signals ++ output_ids program.signals program.outputs

-- The set of live signals, and those whose operands are still to be pushed.
pub record Marks : Type 0 where
  pub live : List ℕ
  pub stack : List ℕ

unfoldable pub push : ℕ → ℕ → Marks → Marks
push size id m =
    if id == invalid_node_id || leb size id || contains id m.live
    then m
    else record { live = id ∷ m.live; stack = id ∷ m.stack }

unfoldable pub push_all : ℕ → List ℕ → Marks → Marks
push_all size [] m = m
push_all size (id ∷ ids) m = push_all size ids (push size id m)

abbrev pub if_symbol : OperandKind → ℕ → List ℕ → List ℕ
if_symbol OperandKind.symbol node rest = node ∷ rest
if_symbol _ node rest = rest

abbrev pub symbol_nodes : List Operand → List ℕ
symbol_nodes [] = []
symbol_nodes (o ∷ os) = if_symbol o.kind o.node (symbol_nodes os)

abbrev pub driver_nodes : Option Operation → List ℕ
driver_nodes none = []
driver_nodes (some op) = symbol_nodes op.operands

-- The signals that a signal needs, if there is one with that id.
abbrev pub signal_nodes : Option Signal → List ℕ
signal_nodes none = []
signal_nodes (some s) = driver_nodes s.driver

abbrev pub observable_nodes : List ℕ → List Signal → List ℕ
observable_nodes observable [] = []
observable_nodes observable (s ∷ signals) =
    let rest = observable_nodes observable signals in
    if contains s.id observable then s.id ∷ rest else rest

-- One round of the `while` loop, with `id` on top of the stack.
unfoldable pub mark_signal : List Signal → ℕ → List ℕ → Marks → Marks
mark_signal signals id rest m =
    push_all (length signals) (signal_nodes (find_signal signals id)) (record m { stack = rest })

unfoldable pub mark_from : ℕ → List Signal → Marks → Marks
mark_from zero signals m = m
mark_from (suc fuel) signals m = elim m.stack [
  | [] ↦ m
  | id ∷ rest ↦ mark_from fuel signals (mark_signal signals id rest m)
]

abbrev pub first_marks : List ℕ → List Signal → Marks
first_marks observable signals =
    push_all (length signals) (observable_nodes observable signals)
      (record { live = []; stack = [] })

-- A signal is pushed once, so as many rounds as signals are enough.
unfoldable pub mark_live : List ℕ → List Signal → Marks
mark_live observable signals = mark_from (length signals) signals (first_marks observable signals)

-- `remap[old] != kInvalidNodeId`, within its size.
abbrev pub is_mapped : List ℕ → ℕ → Bool
is_mapped remap old =
    ltb old (length remap) && not (get_or remap old invalid_node_id == invalid_node_id)

unfoldable pub remap_nodes : List ℕ → List ℕ → List ℕ
remap_nodes remap [] = []
remap_nodes remap (old ∷ nodes) =
    let rest = remap_nodes remap nodes in
    if is_mapped remap old then get_or remap old invalid_node_id ∷ rest else rest

abbrev pub remap_by_kind : OperandKind → List ℕ → Operand → Operand
remap_by_kind OperandKind.symbol remap o =
    if is_mapped remap o.node then record o { node = get_or remap o.node invalid_node_id } else o
remap_by_kind _ remap o = o

unfoldable pub remap_operand : List ℕ → Operand → Operand
remap_operand remap o = remap_by_kind o.kind remap o

abbrev pub remap_driver : List ℕ → Option Operation → Option Operation
remap_driver remap none = none
remap_driver remap (some op) = some (record op { operands = map (remap_operand remap) op.operands })

unfoldable pub remap_signal : List ℕ → Signal → Signal
remap_signal remap s = record s { driver = remap_driver remap s.driver }

unfoldable pub remap_port : List ℕ → Port → Port
remap_port remap p = record p { element_nodes = remap_nodes remap p.element_nodes }

pub record Compacted : Type 0 where
  pub remap : List ℕ
  pub kept : List Signal

unfoldable pub keep_signal : List ℕ → Signal → Compacted → Compacted
keep_signal live s c =
    let new_id = length c.kept in
    if contains s.id live
    then record { remap = set c.remap s.id new_id; kept = c.kept ++ record s { id = new_id } ∷ [] }
    else c

-- The live signals in their order, each with its place as its id.
unfoldable pub compact_signals : List ℕ → List Signal → Compacted → Compacted
compact_signals live [] c = c
compact_signals live (s ∷ signals) c = compact_signals live signals (keep_signal live s c)

unfoldable pub compact : List ℕ → MutableGraph → MutableGraph
compact live graph =
    let signals = graph.program.signals in
    let c =
      compact_signals live signals
        (record { remap = replicate (length signals) invalid_node_id; kept = [] }) in
    let program = record graph.program {
      ports = map (remap_port c.remap) graph.program.ports;
      signals = map (remap_signal c.remap) c.kept;
    } in
    record {
      program = program;
      observable_ids = rebuild_observable_ids program;
      value_facts_dirty = true;
    }

-- The program, and whether it changed.
unfoldable pub eliminate_dead_nodes : MutableGraph → MutableGraph × Bool
eliminate_dead_nodes graph =
    let marks = mark_live graph.observable_ids graph.program.signals in
    if length marks.live == length graph.program.signals
    then (graph, false)
    else (compact marks.live graph, true)
