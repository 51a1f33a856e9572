-- ===== src/Passes/Dead/Renamed.antt =====
-- The program that is left names the same signals, each at its place among the live ones.
use rtlzz.Base.{
  ℕ, zero, suc, ◌^◌, ◌≤◌, ◌<◌, ◌≡◌, refl, ap, ap₂, ◌∙◌, List, [], ◌∷◌, map, true, Option, none,
  some, ◌==◌, get_elem?, replicate, length, length-replicate, arith, Bool-cases, inl, inr,
}
use rtlzz.Ir.{Operand, OperandKind, Operation, Signal, find_signal, with_id}
use rtlzz.Facts.Analysis.Steps.{contains}
use rtlzz.Facts.Analysis.Stores.{with_id-some}
use rtlzz.Facts.Order.Sound.{dense_from, dense-find_signal}
use rtlzz.Passes.Constant.{invalid_node_id}
use rtlzz.Passes.Dead.{
  Compacted, MutableGraph, compact_signals, compact, driver_nodes, eliminate_dead_nodes, if_symbol,
  is_mapped, mark_live, remap_by_kind, remap_driver, remap_operand, remap_signal, symbol_nodes,
  signal_nodes,
}
use rtlzz.Passes.Dead.Kept.{live_between, IsMoved, compact_signals-IsFrame, compact_signals-IsMoved}
use rtlzz.Passes.Dead.Marked.{Needed, named, mark_live-Needed}

-- The place of an id among the live ones.
abbrev pub place : List ℕ → ℕ → ℕ
place live id = live_between live 0 id

abbrev pub rename_by_kind : OperandKind → List ℕ → Operand → Operand
rename_by_kind OperandKind.symbol live o = record o { node = place live o.node }
rename_by_kind _ live o = o

abbrev pub rename_operand : List ℕ → Operand → Operand
rename_operand live o = rename_by_kind o.kind live o

abbrev pub rename_driver : List ℕ → Option Operation → Option Operation
rename_driver live none = none
rename_driver live (some op) = some (record op { operands = map (rename_operand live) op.operands })

-- The signal at its place, with its operands at theirs.
abbrev pub renamed : List ℕ → ℕ → Signal → Signal
renamed live id s = record s { id = place live id; driver = rename_driver live s.driver }

live_between-le : (live : List ℕ) (k n : ℕ) → live_between live k n ≤ n
live_between-le live k zero = omega arith
live_between-le live k (suc n) = ground (arith, live_between-le live (suc k) n)

get_elem?-map :
    (f : Signal → Signal) (xs : List Signal) (i : ℕ) (x : Signal)
    → get_elem? xs i ≡ some x
    → get_elem? (map f xs) i ≡ some (f x)
get_elem?-map f [] i x h = cc
get_elem?-map f (y ∷ xs) zero x h = (let e : y ≡ x = cc in ap (λ z. some (f z)) e)
get_elem?-map f (y ∷ xs) (suc i) x h = get_elem?-map f xs i x h

module _ (live : List ℕ) (signals : List Signal) (dense : dense_from 0 signals ≡ true)
    (bound : length signals < 2 ^ 64) where
  abbrev compacted : Compacted
  compacted =
      compact_signals live signals
        (record { remap = replicate (length signals) invalid_node_id; kept = [] })

  moved :
      (id : ℕ) (s : Signal)
      → find_signal signals id ≡ some s
      → contains id live ≡ true
      → IsMoved live id (place live id) s compacted
  unfolding find_signal
  moved id s found needed =
      compact_signals-IsMoved live signals 0 id id (place live id) s
        (record { remap = replicate (length signals) invalid_node_id; kept = [] }) dense
        (omega (arith, length-replicate (length signals) invalid_node_id))
        (with_id-some id (get_elem? signals id) s found).0 (omega arith) (omega arith) needed

  -- Every id is live and names a signal.
  abbrev AllLive : List ℕ → Type 0
  AllLive [] = Unit
  AllLive (v ∷ nodes) = ((contains v live ≡ true) × (v < length signals)) × AllLive nodes

  remap_length : length compacted.remap ≡ length signals
  remap_length =
      (compact_signals-IsFrame live signals 0
        (record { remap = replicate (length signals) invalid_node_id; kept = [] }) dense).remap_size
      ∙ length-replicate (length signals) invalid_node_id

  remap_by_kind-rename :
      (kind : OperandKind) (o : Operand) (rest : List ℕ)
      → AllLive (if_symbol kind o.node rest)
      → (remap_by_kind kind compacted.remap o ≡ rename_by_kind kind live o) × AllLive rest
  remap_by_kind-rename OperandKind.literal o rest h = (refl, h)
  remap_by_kind-rename OperandKind.port o rest h = (refl, h)
  remap_by_kind-rename OperandKind.symbol o rest h =
      let (s, found) = dense-find_signal signals o.node dense h.0.1 in
      let m = moved o.node s found h.0.0 in
      let mapped : is_mapped compacted.remap o.node ≡ true =
        ground (arith, m.mapped, remap_length, live_between-le live 0 o.node, h.0.1, bound) in
      (rw mapped (ap (λ k. record o { node = k }) m.mapped), h.1)

  remap_operands-rename :
      (os : List Operand)
      → AllLive (symbol_nodes os)
      → map (remap_operand compacted.remap) os ≡ map (rename_operand live) os
  unfolding remap_operand
  remap_operands-rename [] h = refl
  remap_operands-rename (o ∷ os) h =
      let (first, rest) = remap_by_kind-rename o.kind o (symbol_nodes os) h in
      ap₂ (λ x xs. x ∷ xs) first (remap_operands-rename os rest)

  remap_driver-rename :
      (d : Option Operation)
      → AllLive (driver_nodes d)
      → remap_driver compacted.remap d ≡ rename_driver live d
  remap_driver-rename none h = refl
  remap_driver-rename (some op) h =
      ap (λ os. some (record op { operands = os })) (remap_operands-rename op.operands h)

  compacted-find_signal :
      (id : ℕ) (s : Signal)
      → find_signal signals id ≡ some s
      → contains id live ≡ true
      → AllLive (driver_nodes s.driver)
      → find_signal (map (remap_signal compacted.remap) compacted.kept) (place live id)
        ≡ some (renamed live id s)
  unfolding find_signal remap_signal
  compacted-find_signal id s found needed nodes =
      let m = moved id s found needed in
      let at =
        get_elem?-map (remap_signal compacted.remap) compacted.kept (place live id)
          (record s { id = place live id }) m.moved in
      ap (with_id (place live id)) at
      ∙ ap (λ d. with_id (place live id) (some (record s { id = place live id; driver = d })))
          (remap_driver-rename s.driver nodes)
      ∙ ground arith

  pub AllLive-each :
      (nodes : List ℕ)
      → ((v : ℕ) → contains v nodes ≡ true → (contains v live ≡ true) × (v < length signals))
      → AllLive nodes
  AllLive-each [] each = tt
  AllLive-each (v ∷ nodes) each =
      (each v (ground arith), AllLive-each nodes (λ u h. each u (ground arith)))

-- Every operand that names a signal names one of the program.
abbrev pub IsClosed : List Signal → Type 0
IsClosed signals =
    (id v : ℕ) (s : Signal)
    → find_signal signals id ≡ some s
    → contains v (driver_nodes s.driver) ≡ true
    → v < length signals

abbrev pub live_ids : MutableGraph → List ℕ
live_ids graph = (mark_live graph.observable_ids graph.program.signals).live

-- Where the ids of the signals are their indices, there are fewer than 2 ^ 64 of them and every operand
-- that names a signal names one of the program, a pass that changes the program leaves every needed
-- signal at its place among the live ones, with that place as its id and its operands that name
-- signals brought to theirs, and all else as it was.
pub eliminate_dead_nodes-Keeps :
    (graph : MutableGraph) (id : ℕ) (s : Signal)
    → dense_from 0 graph.program.signals ≡ true
    → length graph.program.signals < 2 ^ 64
    → IsClosed graph.program.signals
    → (eliminate_dead_nodes graph).1 ≡ true
    → Needed graph.observable_ids graph.program.signals id
    → find_signal graph.program.signals id ≡ some s
    → find_signal (eliminate_dead_nodes graph).0.program.signals (place (live_ids graph) id)
      ≡ some (renamed (live_ids graph) id s)
unfolding eliminate_dead_nodes compact
eliminate_dead_nodes-Keeps graph id s dense bound closed changed needed found =
    let signals = graph.program.signals in
    let live = (mark_live graph.observable_ids signals).live in
    let marked = (mark_live-Needed graph.observable_ids signals).1 in
    let nodes = AllLive-each live signals dense bound (driver_nodes s.driver) (λ v h.
      (let inside = closed id v s found h in
        (
          (marked v).1 (
              named needed (ap (λ o. contains v (signal_nodes o)) found ∙ h)
                (ground (arith, inside, bound))),
          inside,
        ))) in
    elim (Bool-cases (length live == length signals)) [
      | inl all ↦ absurd (let k = rw all at changed in cc)
      | inr some_dead ↦
          rw some_dead
            (compacted-find_signal live signals dense bound id s found ((marked id).1 needed) nodes)
    ]
