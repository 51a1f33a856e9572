-- ===== src/Facts/Order/Sound.antt =====
-- The order that is returned visits every signal once, after its operands.
use rtlzz.Base.{
  ℕ, zero, suc, ◌+◌, ◌≤◌, ◌<◌, ◌≡◌, refl, sym, ap, subst, ◌∙◌, List, [], ◌∷◌, ◌++◌, Bool, true,
  false, ◌&&◌, ◌||◌, Option, none, some, ◌==◌, get_or, get_elem?, length, arith, Bool-cases, inl,
  inr,
}
use mathlib.Core.List.{append-nil}
use rtlzz.Ir.{Signal, find_signal, with_id}
use rtlzz.Facts.Analysis.Steps.{contains, distinct}
use rtlzz.Facts.Analysis.Total.{operands_first}
use rtlzz.Facts.Order.{
  Graph, Visit, first_ready, first_visit, visit_signal, visit_all, build_graph, complete_order,
  order_of, topological_order,
}
use rtlzz.Facts.Order.Append.{IsReadyAfter, operands_first-append}
use rtlzz.Facts.Order.Pending.{contains-append, uses, pending-none, length-distinct}
use rtlzz.Facts.Order.Loop.{
  Inv, visit_signal-Inv, visit_signal-order, visit_ready-ends, visit_ready_rule,
}
use rtlzz.Facts.Order.Edges.{IsGraph}
use rtlzz.Facts.Order.Build.{
  SignalsUsed, build_graph-IsBuilt, find_signal-DriverUsed, driver_before-lem,
}

-- Whether the ids are the indices, from one on.
abbrev pub dense_from : ℕ → List Signal → Bool
dense_from k [] = true
dense_from k (s ∷ signals) = s.id == k && dense_from (suc k) signals

dense-found :
    (k i : ℕ) (signals : List Signal)
    → dense_from k signals ≡ true
    → i < length signals
    → (s : Signal) × (with_id (k + i) (get_elem? signals i) ≡ some s)
dense-found k i [] dense h = absurd (omega arith)
dense-found k zero (s ∷ signals) dense h = (s, ground arith)
dense-found k (suc i) (s ∷ signals) dense h =
    let (t, e) = dense-found (suc k) i signals (ground arith) (omega arith) in
    let same : suc k + i ≡ k + suc i = omega arith in
    (t, subst (λ m. with_id m (get_elem? signals i) ≡ some t) same e)

pub dense-find_signal :
    (signals : List Signal) (id : ℕ)
    → dense_from 0 signals ≡ true
    → id < length signals
    → (s : Signal) × (find_signal signals id ≡ some s)
unfolding find_signal
dense-find_signal signals id dense h =
    let (t, e) = dense-found 0 id signals dense h in
    let same : 0 + id ≡ id = omega arith in
    (t, subst (λ m. with_id m (get_elem? signals id) ≡ some t) same e)

-- What is queued first: signals that wait for nothing, each once.
first_ready-range :
    (degree : List ℕ) (k j : ℕ) (signals : List Signal)
    → dense_from k signals ≡ true
    → contains j (first_ready degree signals) ≡ true
    → (k ≤ j) × (j < k + length signals) × (get_or degree j 0 ≡ 0)
unfolding first_ready
first_ready-range degree k j [] dense h = cc
first_ready-range degree k j (s ∷ signals) dense h =
    let further : contains j (first_ready degree signals) ≡ true
        → (k ≤ j) × (j < k + suc (length signals)) × (get_or degree j 0 ≡ 0) =
      λ m.
        let (low, high, free) = first_ready-range degree (suc k) j signals (ground arith) m in
        (omega arith, omega arith, free) in
    elim (Bool-cases (get_or degree s.id 0 == 0)) [
      | inl free ↦ elim (Bool-cases (s.id == j)) [
        | inl here ↦
            (let e : s.id ≡ j = ground arith in
              let none_left : get_or degree s.id 0 ≡ 0 = ground arith in
              (ground arith, ground arith, subst (λ t. get_or degree t 0 ≡ 0) e none_left))
        | inr there ↦ further (let m = rw (free, first_ready) at h in ground arith)
      ]
      | inr held ↦ further (let m = rw (held, first_ready) at h in m)
    ]

first_ready-distinct :
    (degree : List ℕ) (k : ℕ) (signals : List Signal)
    → dense_from k signals ≡ true
    → distinct (first_ready degree signals) ≡ true
unfolding first_ready
first_ready-distinct degree k [] dense = refl
first_ready-distinct degree k (s ∷ signals) dense =
    let rest = first_ready-distinct degree (suc k) signals (ground arith) in
    elim (Bool-cases (get_or degree s.id 0 == 0)) [
      | inl free ↦ rw free (elim (Bool-cases (contains s.id (first_ready degree signals))) [
        | inl again ↦ absurd (
            let (low, _, _) = first_ready-range degree (suc k) s.id signals (ground arith) again in
            ground arith)
        | inr once ↦ ground arith
      ])
      | inr held ↦ rw held rest
    ]

module _ (signals : List Signal) (dense : dense_from 0 signals ≡ true) (g : Graph)
    (graph : IsGraph (length signals) g) (used : SignalsUsed (length signals) g signals) where
  abbrev n : ℕ
  n = length signals

  -- The signals visited so far come after their operands.
  record IsOrdered (v : Visit) : Type 0 where
    inv : Inv n g.users [] v
    first : operands_first signals [] v.order ≡ true

  IsOrdered-first : IsOrdered (first_visit signals g)
  IsOrdered-first = record {
    inv = record {
      held = λ j. omega (arith, graph.held j);
      settled = λ j h. (first_ready-range g.indegree 0 j signals dense h).2;
      once = first_ready-distinct g.indegree 0 signals dense;
      inside = λ j h. omega (arith, (first_ready-range g.indegree 0 j signals dense h).1);
      size = graph.degree_size;
    };
    first = refl;
  }

  IsOrdered-visit :
      (id : ℕ) (rest : List ℕ) (v : Visit)
      → v.ready ≡ id ∷ rest
      → IsOrdered v
      → IsOrdered (visit_signal g.users id rest v)
  IsOrdered-visit id rest v e h =
      let queued : contains id (v.order ++ v.ready) ≡ true =
        ap (λ r. contains id (v.order ++ r)) e
        ∙ contains-append id v.order (id ∷ rest)
        ∙ ground arith in
      let waits = h.inv.settled id queued in
      let (s, found) = dense-find_signal signals id dense (h.inv.inside id queued) in
      let after : IsReadyAfter signals id (λ u. contains u [] || contains u v.order) =
        λ before holds. rw found (
          simp
            (driver_before-lem n g id before (unused before holds) s.driver
              (find_signal-DriverUsed n g signals id s used found))
            refl) in
      record {
        inv = visit_signal-Inv n g.users id rest v e h.inv;
        first =
            ap (operands_first signals []) (visit_signal-order n g.users id rest v)
            ∙ operands_first-append signals v.order [] id h.first after;
      }
    where
      unused :
          (before : List ℕ)
          → ((u : ℕ) → (contains u [] || contains u v.order) ≡ true → contains u before ≡ true)
          → (u : ℕ) → u < n
          → contains u before ≡ false
          → uses g.users id u ≡ 0
      unused before holds u inside out =
          let queued : contains id (v.order ++ v.ready) ≡ true =
            ap (λ r. contains id (v.order ++ r)) e
            ∙ contains-append id v.order (id ∷ rest)
            ∙ ground arith in
          pending-none n v.order (uses g.users id) u
            (omega (arith, h.inv.settled id queued, h.inv.held id)) inside
            (elim (Bool-cases (contains u v.order)) [
              | inl visited ↦ absurd (cc (holds u visited, out))
              | inr new ↦ new
            ])

  visit_all-IsOrdered : IsOrdered (visit_all signals g)
  unfolding visit_all
  visit_all-IsOrdered =
      visit_ready_rule n g.users IsOrdered (λ id rest v. IsOrdered-visit id rest v) n
        (first_visit signals g) IsOrdered-first

  pub visit_all-ready : (visit_all signals g).ready ≡ []
  unfolding visit_all
  visit_all-ready =
      visit_ready-ends n g.users n (first_visit signals g) IsOrdered-first.inv (omega arith)

-- Every signal once, after the signals that its driver names.
pub record IsTopological (signals : List Signal) (order : List ℕ) : Type 0 where
  pub once : distinct order ≡ true
  pub every : (id : ℕ) → id < length signals → contains id order ≡ true
  pub first : operands_first signals [] order ≡ true

complete_order-some :
    (size : ℕ) (xs order : List ℕ)
    → complete_order size xs ≡ some order
    → (length xs ≡ size) × (xs ≡ order)
complete_order-some size xs order e = elim (Bool-cases (length xs == size)) [
  | inl full ↦ (let k = rw full at e in (ground arith, cc))
  | inr short ↦ absurd (let k = rw short at e in cc)
]

distinct-full :
    (n : ℕ) (xs : List ℕ)
    → distinct xs ≡ true
    → ((j : ℕ) → contains j xs ≡ true → j < n)
    → length xs ≡ n
    → (id : ℕ) → id < n
    → contains id xs ≡ true
distinct-full n xs once inside full id h = elim (Bool-cases (contains id xs)) [
  | inl found ↦ found
  | inr out ↦ absurd (
      omega (
        arith,
        pending-none n xs (λ u. 1) id (omega (arith, length-distinct n xs once inside, full)) h out,
      ))
]

order_of-some :
    (signals : List Signal) (o : Option Graph) (order : List ℕ)
    → order_of signals o ≡ some order
    → (g : Graph) × (o ≡ some g)
      × (complete_order (length signals) (visit_all signals g).order ≡ some order)
order_of-some signals none order e = cc
order_of-some signals (some g) order e = (g, refl, e)

-- Where the ids of the signals are their indices and an order is returned, it visits every signal
-- once, after the signals that its driver names.
pub topological_order-IsTopological :
    (signals : List Signal) (order : List ℕ)
    → dense_from 0 signals ≡ true
    → topological_order signals ≡ some order
    → IsTopological signals order
unfolding topological_order
topological_order-IsTopological signals order dense e =
    let (g, built, complete) = order_of-some signals (build_graph signals) order e in
    let (graph, used) = build_graph-IsBuilt (length signals) signals refl g built in
    let v = visit_all signals g in
    let (full, same) = complete_order-some (length signals) v.order order complete in
    let ordered = visit_all-IsOrdered signals dense g graph used in
    let ended = visit_all-ready signals dense g graph used in
    let line : v.order ++ v.ready ≡ order =
      ap (λ r. v.order ++ r) ended ∙ append-nil v.order ∙ same in
    let once = ap distinct (sym line) ∙ ordered.inv.once in
    record {
      once = once;
      every =
          distinct-full (length signals) order once
            (λ j h. ordered.inv.inside j (ap (contains j) line ∙ h)) (ap length (sym same) ∙ full);
      first = ap (operands_first signals []) (sym same) ∙ ordered.first;
    }

-- Where the ids of the signals are their indices, the loop over the queue ends by itself: after as
-- many rounds as there are signals nothing is queued.
pub visit_all-ends :
    (signals : List Signal) (g : Graph)
    → dense_from 0 signals ≡ true
    → build_graph signals ≡ some g
    → (visit_all signals g).ready ≡ []
visit_all-ends signals g dense built =
    let (graph, used) = build_graph-IsBuilt (length signals) signals refl g built in
    visit_all-ready signals dense g graph used
