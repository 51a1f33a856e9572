-- ===== src/Examples/Dead.antt =====
-- Runs and instances of the elimination of dead signals.
use rtlzz.Base.{
  ℕ, zero, suc, ◌≡◌, refl, sym, subst, ◌↔◌, List, [], ◌∷◌, true, false, none, some, arith,
}
use rtlzz.Ir.{OperationKind, Signal, find_signal}
use rtlzz.Facts.Analysis.Steps.{contains}
use rtlzz.Passes.Dead.{
  MutableGraph, eliminate_dead_nodes, mark_live, mark_from, mark_signal, push, push_all,
  driver_nodes,
}
use rtlzz.Passes.Dead.Marked
use rtlzz.Passes.Dead.Renamed
use rtlzz.Examples.Analysis.{signal, operation, node_of, literal_of}

-- Signal 0 is not needed; signal 1 is observable and extends signal 2.
abbrev top : Signal
top = signal 1 16 (some (operation OperationKind.zext (node_of 2 8 ∷ []) 16))

abbrev signals : List Signal
signals =
    signal 0 4 none
    ∷ top
    ∷ signal 2 8 (some (operation OperationKind.assign (literal_of 5 8 ∷ []) 8))
    ∷ []

abbrev graph : MutableGraph
graph = record {
  program = record {
    function_name = "f";
    inputs = [];
    outputs = "out" ∷ [];
    ports = [];
    signals = signals;
  };
  observable_ids = 1 ∷ [];
  value_facts_dirty = false;
}

live_run : (mark_live (1 ∷ []) signals).live ≡ 2 ∷ 1 ∷ []
unfolding mark_live mark_from mark_signal push_all push find_signal
live_run = refl

mark_live-Needed_example :
    ((mark_live (1 ∷ []) signals).stack ≡ [])
    × ((v : ℕ)
        → (contains v (mark_live (1 ∷ []) signals).live ≡ true) ↔ Marked.Needed (1 ∷ []) signals v)
mark_live-Needed_example = Marked.mark_live-Needed (1 ∷ []) signals

graph_changed : (eliminate_dead_nodes graph).1 ≡ true
unfolding eliminate_dead_nodes mark_live mark_from mark_signal push_all push find_signal
graph_changed = refl

graph-IsClosed : Renamed.IsClosed signals
unfolding find_signal
graph-IsClosed zero v s found h =
    let same : signal 0 4 none ≡ s = cc in
    absurd (
      let k = subst (λ (r : Signal). contains v (driver_nodes r.driver) ≡ true) (sym same) h in
      cc k)
graph-IsClosed (suc zero) v s found h =
    let same : top ≡ s = cc in
    let k = subst (λ (r : Signal). contains v (driver_nodes r.driver) ≡ true) (sym same) h in
    ground arith
graph-IsClosed (suc (suc zero)) v s found h =
    let same : signal 2 8 (some (operation OperationKind.assign (literal_of 5 8 ∷ []) 8)) ≡ s =
      cc in
    absurd (
      let k = subst (λ (r : Signal). contains v (driver_nodes r.driver) ≡ true) (sym same) h in
      cc k)
graph-IsClosed (suc (suc (suc id))) v s found h = cc

top_found : find_signal signals 1 ≡ some top
unfolding find_signal
top_found = refl

eliminate_dead_nodes-Keeps_example :
    find_signal
      (eliminate_dead_nodes graph).0.program.signals
      (Renamed.place (Renamed.live_ids graph) 1)
    ≡ some (Renamed.renamed (Renamed.live_ids graph) 1 top)
eliminate_dead_nodes-Keeps_example =
    Renamed.eliminate_dead_nodes-Keeps graph 1 top refl (omega arith) graph-IsClosed graph_changed
      (Marked.root refl refl) top_found
