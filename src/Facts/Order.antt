-- ===== src/Facts/Order.antt =====
-- `factsTopologicalOrder` of src/backend/beir.cpp: the users of each signal and the numbers of
-- operands, then a queue of the signals whose operands have all been visited. `none` is an exception.
-- The number of the operands of a driver is taken to be below 2 ^ 64.
pub mod Pending
pub mod Append
pub mod Edges
pub mod Build
pub mod Loop
pub mod Sound
use rtlzz.Base.{
  ℕ, zero, suc, ◌+◌, ◌-◌, ◌^◌, List, [], ◌∷◌, ◌++◌, Bool, true, false, ◌||◌, Option, none, some,
  if◌then◌else◌, ◌==◌, leb, get_or, set, replicate, length,
}
use rtlzz.Ir.{Operand, OperandKind, Operation, Signal, find_signal}

pub record Graph : Type 0 where
  pub users : List (List ℕ)
  pub indegree : List ℕ

abbrev pub is_missing : Option Signal → Bool
is_missing none = true
is_missing (some signal) = false

-- An operand that names a signal: `id` is one more user of it.
unfoldable pub add_user : List Signal → ℕ → ℕ → Graph → Option Graph
add_user signals id node g =
    if leb (length signals) node || is_missing (find_signal signals node)
    then none
    else some (record {
      users = set g.users node (get_or g.users node [] ++ id ∷ []);
      indegree = set g.indegree id (get_or g.indegree id 0 + 1);
    })

abbrev pub add_by_kind : OperandKind → List Signal → ℕ → ℕ → Graph → Option Graph
add_by_kind OperandKind.symbol signals id node g = add_user signals id node g
add_by_kind _ signals id node g = some g

abbrev pub bind : Option Graph → (Graph → Option Graph) → Option Graph
bind none f = none
bind (some g) f = f g

unfoldable pub add_operands : List Signal → ℕ → List Operand → Graph → Option Graph
add_operands signals id [] g = some g
add_operands signals id (o ∷ os) g =
    bind (add_by_kind o.kind signals id o.node g) (add_operands signals id os)

unfoldable pub add_driver : List Signal → ℕ → Option Operation → Graph → Option Graph
add_driver signals id none g = some g
add_driver signals id (some op) g = add_operands signals id op.operands g

unfoldable pub add_signal : List Signal → Signal → Graph → Option Graph
add_signal signals signal g =
    if leb (length signals) signal.id then none else add_driver signals signal.id signal.driver g

unfoldable pub add_signals : List Signal → List Signal → Graph → Option Graph
add_signals signals [] g = some g
add_signals signals (s ∷ rest) g = bind (add_signal signals s g) (add_signals signals rest)

abbrev pub empty_graph : ℕ → Graph
empty_graph size = record { users = replicate size []; indegree = replicate size 0 }

unfoldable pub build_graph : List Signal → Option Graph
build_graph signals = add_signals signals signals (empty_graph (length signals))

pub record Visit : Type 0 where
  pub indegree : List ℕ
  pub ready : List ℕ
  pub order : List ℕ

unfoldable pub first_ready : List ℕ → List Signal → List ℕ
first_ready indegree [] = []
first_ready indegree (s ∷ signals) =
    let rest = first_ready indegree signals in
    if get_or indegree s.id 0 == 0 then s.id ∷ rest else rest

-- `--` on `std::size_t`.
abbrev pub decrement : ℕ → ℕ
decrement zero = 2 ^ 64 - 1
decrement (suc n) = n

unfoldable pub release : ℕ → Visit → Visit
release user v =
    let left = decrement (get_or v.indegree user 0) in
    record v {
      indegree = set v.indegree user left;
      ready = if left == 0 then v.ready ++ user ∷ [] else v.ready;
    }

unfoldable pub release_all : List ℕ → Visit → Visit
release_all [] v = v
release_all (user ∷ users) v = release_all users (release user v)

-- One round of the `while` loop, with `id` at the front of the queue.
unfoldable pub visit_signal : List (List ℕ) → ℕ → List ℕ → Visit → Visit
visit_signal users id rest v =
    release_all (get_or users id []) (record v { ready = rest; order = v.order ++ id ∷ [] })

unfoldable pub visit_ready : ℕ → List (List ℕ) → Visit → Visit
visit_ready zero users v = v
visit_ready (suc fuel) users v = elim v.ready [
  | [] ↦ v
  | id ∷ rest ↦ visit_ready fuel users (visit_signal users id rest v)
]

abbrev pub first_visit : List Signal → Graph → Visit
first_visit signals g = record {
  indegree = g.indegree;
  ready = first_ready g.indegree signals;
  order = [];
}

-- Every round visits another signal, so as many rounds as signals are enough.
unfoldable pub visit_all : List Signal → Graph → Visit
visit_all signals g = visit_ready (length signals) g.users (first_visit signals g)

abbrev pub complete_order : ℕ → List ℕ → Option (List ℕ)
complete_order size order = if length order == size then some order else none

abbrev pub order_of : List Signal → Option Graph → Option (List ℕ)
order_of signals none = none
order_of signals (some g) = complete_order (length signals) (visit_all signals g).order

unfoldable pub topological_order : List Signal → Option (List ℕ)
topological_order signals = order_of signals (build_graph signals)
