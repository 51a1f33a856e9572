-- ===== src/Facts/Order/Build.antt =====
-- Every operand that names a signal is among the users that the build collects.
use rtlzz.Base.{
  ℕ, zero, suc, ◌≤◌, ◌<◌, ◌≡◌, refl, sym, subst, ◌∙◌, List, [], ◌∷◌, true, false, Option, none,
  some, leb, get_or, get_elem?, replicate, length, length-replicate, arith, Bool-cases, inl, inr,
}
use rtlzz.Ir.{Operand, OperandKind, Operation, Signal, find_signal}
use rtlzz.Facts.Analysis.Steps.{contains}
use rtlzz.Facts.Analysis.Total.{kind_before, all_before, driver_before}
use rtlzz.Facts.Analysis.Stores.{with_id-some}
use rtlzz.Facts.Order.{
  Graph, add_by_kind, add_operands, add_driver, add_signal, add_signals, bind, empty_graph,
  build_graph,
}
use rtlzz.Facts.Order.Pending.{uses}
use rtlzz.Facts.Order.Edges.{IsGraph, add_user-IsAdded, uses-add, IsAdded-IsGraph, pending-empty}

no_zero : (size j : ℕ) → get_or (replicate size zero) j zero ≡ zero
no_zero zero j = refl
no_zero (suc size) zero = refl
no_zero (suc size) (suc j) = no_zero size j

no_users : (size j u : ℕ) → uses (replicate size []) j u ≡ 0
no_users zero j u = refl
no_users (suc size) j zero = refl
no_users (suc size) j (suc u) = no_users size j u

abbrev pub Grows : Graph → Graph → Type 0
Grows g h = (j u : ℕ) → uses g.users j u ≤ uses h.users j u

module _ (n : ℕ) where
  -- The operand that names a signal is used by `id`.
  abbrev pub UsedByKind : OperandKind → Graph → ℕ → Operand → Type 0
  UsedByKind OperandKind.symbol g id o = (o.node < n) × (1 ≤ uses g.users id o.node)
  UsedByKind _ g id o = Unit

  abbrev pub AllUsed : Graph → ℕ → List Operand → Type 0
  AllUsed g id [] = Unit
  AllUsed g id (o ∷ os) = UsedByKind o.kind g id o × AllUsed g id os

  abbrev pub DriverUsed : Graph → ℕ → Option Operation → Type 0
  DriverUsed g id none = Unit
  DriverUsed g id (some op) = AllUsed g id op.operands

  abbrev pub SignalsUsed : Graph → List Signal → Type 0
  SignalsUsed g [] = Unit
  SignalsUsed g (s ∷ rest) = (s.id < n) × DriverUsed g s.id s.driver × SignalsUsed g rest

  module _ (signals : List Signal) (size : length signals ≡ n) where
    empty-IsGraph : IsGraph n (empty_graph (length signals))
    empty-IsGraph = record {
      users_size = length-replicate (length signals) [] ∙ size;
      degree_size = length-replicate (length signals) 0 ∙ size;
      held = λ j.
          no_zero (length signals) j
          ∙ sym (
              pending-empty n (uses (replicate (length signals) []) j)
                (λ u. no_users (length signals) j u));
    }

    -- A step of the build keeps the graph right and forgets no user.
    pub record IsMore (g h : Graph) : Type 0 where
      pub graph : IsGraph n h
      pub grows : Grows g h

    IsMore-trans : (g h k : Graph) → IsMore g h → IsMore h k → IsMore g k
    IsMore-trans g h k a b = record {
      graph = b.graph;
      grows = λ j u. omega (arith, a.grows j u, b.grows j u);
    }

    UsedByKind-Grows :
        (kind : OperandKind) (g h : Graph) (id : ℕ) (o : Operand)
        → Grows g h
        → UsedByKind kind g id o
        → UsedByKind kind h id o
    UsedByKind-Grows OperandKind.symbol g h id o more u = (u.0, omega (arith, u.1, more id o.node))
    UsedByKind-Grows OperandKind.literal g h id o more u = tt
    UsedByKind-Grows OperandKind.port g h id o more u = tt

    AllUsed-Grows :
        (g h : Graph) (id : ℕ) (os : List Operand) → Grows g h → AllUsed g id os → AllUsed h id os
    AllUsed-Grows g h id [] more u = tt
    AllUsed-Grows g h id (o ∷ os) more u =
        (UsedByKind-Grows o.kind g h id o more u.0, AllUsed-Grows g h id os more u.1)

    DriverUsed-Grows :
        (g h : Graph) (id : ℕ) (d : Option Operation)
        → Grows g h
        → DriverUsed g id d
        → DriverUsed h id d
    DriverUsed-Grows g h id none more u = tt
    DriverUsed-Grows g h id (some op) more u = AllUsed-Grows g h id op.operands more u

    IsMore-refl : (g : Graph) → IsGraph n g → IsMore g g
    IsMore-refl g graph = record { graph = graph; grows = λ j u. omega arith }

    same-IsMore : (g h : Graph) → IsGraph n g → some g ≡ some h → IsMore g h
    same-IsMore g h graph e = let same : g ≡ h = cc in subst (IsMore g) same (IsMore-refl g graph)

    add_by_kind-IsMore :
        (kind : OperandKind) (id : ℕ) (o : Operand) (g h : Graph)
        → id < n
        → IsGraph n g
        → add_by_kind kind signals id o.node g ≡ some h
        → IsMore g h × UsedByKind kind h id o
    add_by_kind-IsMore OperandKind.literal id o g h inside graph e = (same-IsMore g h graph e, tt)
    add_by_kind-IsMore OperandKind.port id o g h inside graph e = (same-IsMore g h graph e, tt)
    add_by_kind-IsMore OperandKind.symbol id o g h inside graph e =
        let added = add_user-IsAdded n signals size id o.node g h e in
        let more = uses-add n signals size id o.node g h graph added in
        (
          record {
            graph = IsAdded-IsGraph n signals size id o.node g h inside graph added;
            grows = λ j u. ground (arith, more j u);
          },
          (added.inside, ground (arith, more id o.node)),
        )

    bind-some :
        (o : Option Graph) (f : Graph → Option Graph) (h : Graph)
        → bind o f ≡ some h
        → (g : Graph) × (o ≡ some g) × (f g ≡ some h)
    bind-some none f h e = cc
    bind-some (some g) f h e = (g, refl, e)

    add_operands-IsMore :
        (id : ℕ) (os : List Operand) (g h : Graph)
        → id < n
        → IsGraph n g
        → add_operands signals id os g ≡ some h
        → IsMore g h × AllUsed h id os
    unfolding add_operands
    add_operands-IsMore id [] g h inside graph e = (same-IsMore g h graph e, tt)
    add_operands-IsMore id (o ∷ os) g h inside graph e =
        let (k, first, rest) =
          bind-some (add_by_kind o.kind signals id o.node g) (add_operands signals id os) h e in
        let (more, used) = add_by_kind-IsMore o.kind id o g k inside graph first in
        let (later, all) = add_operands-IsMore id os k h inside more.graph rest in
        (IsMore-trans g k h more later, (UsedByKind-Grows o.kind k h id o later.grows used, all))

    add_driver-IsMore :
        (id : ℕ) (d : Option Operation) (g h : Graph)
        → id < n
        → IsGraph n g
        → add_driver signals id d g ≡ some h
        → IsMore g h × DriverUsed h id d
    unfolding add_driver
    add_driver-IsMore id none g h inside graph e = (same-IsMore g h graph e, tt)
    add_driver-IsMore id (some op) g h inside graph e =
        add_operands-IsMore id op.operands g h inside graph e

    add_signal-IsMore :
        (s : Signal) (g h : Graph)
        → IsGraph n g
        → add_signal signals s g ≡ some h
        → (s.id < n) × IsMore g h × DriverUsed h s.id s.driver
    unfolding add_signal
    add_signal-IsMore s g h graph e = elim (Bool-cases (leb (length signals) s.id)) [
      | inl bad ↦ absurd (let k = rw bad at e in cc)
      | inr good ↦
          (let inside : s.id < n = ground (arith, size) in
            let (more, used) = add_driver-IsMore s.id s.driver g h inside graph (rw good at e) in
            (inside, more, used))
    ]

    pub add_signals-IsMore :
        (rest : List Signal) (g h : Graph)
        → IsGraph n g
        → add_signals signals rest g ≡ some h
        → IsMore g h × SignalsUsed h rest
    unfolding add_signals
    add_signals-IsMore [] g h graph e = (same-IsMore g h graph e, tt)
    add_signals-IsMore (s ∷ rest) g h graph e =
        let (k, first, others) =
          bind-some (add_signal signals s g) (add_signals signals rest) h e in
        let (inside, more, used) = add_signal-IsMore s g k graph first in
        let (later, all) = add_signals-IsMore rest k h more.graph others in
        (
          IsMore-trans g k h more later,
          (inside, DriverUsed-Grows k h s.id s.driver later.grows used, all),
        )

    pub build_graph-IsBuilt :
        (g : Graph) → build_graph signals ≡ some g → IsGraph n g × SignalsUsed g signals
    unfolding build_graph
    build_graph-IsBuilt g e =
        let (more, used) =
          add_signals-IsMore signals (empty_graph (length signals)) g empty-IsGraph e in
        (more.graph, used)

  SignalsUsed-at :
      (g : Graph) (signals : List Signal) (i : ℕ) (s : Signal)
      → SignalsUsed g signals
      → get_elem? signals i ≡ some s
      → DriverUsed g s.id s.driver
  SignalsUsed-at g [] i s used e = cc
  SignalsUsed-at g (t ∷ signals) zero s used e =
      let same : t ≡ s = cc in subst (λ r. DriverUsed g r.id r.driver) same used.1
  SignalsUsed-at g (t ∷ signals) (suc i) s used e = SignalsUsed-at g signals i s used.2 e

  pub find_signal-DriverUsed :
      (g : Graph) (signals : List Signal) (id : ℕ) (s : Signal)
      → SignalsUsed g signals
      → find_signal signals id ≡ some s
      → DriverUsed g id s.driver
  unfolding find_signal
  find_signal-DriverUsed g signals id s used e =
      let (at, same) = with_id-some id (get_elem? signals id) s e in
      subst (λ k. DriverUsed g k s.driver) same (SignalsUsed-at g signals id s used at)

  -- Where a list holds every user of `id`, it holds all that the driver names.
  module _ (g : Graph) (id : ℕ) (before : List ℕ)
      (holds : (u : ℕ) → u < n → contains u before ≡ false → uses g.users id u ≡ 0) where
    kind_before-lem :
        (kind : OperandKind) (o : Operand)
        → UsedByKind kind g id o
        → kind_before kind before o ≡ true
    kind_before-lem OperandKind.literal o used = refl
    kind_before-lem OperandKind.port o used = refl
    kind_before-lem OperandKind.symbol o used = elim (Bool-cases (contains o.node before)) [
      | inl here ↦ here
      | inr out ↦ absurd (omega (arith, holds o.node used.0 out, used.1))
    ]

    all_before-lem : (os : List Operand) → AllUsed g id os → all_before before os ≡ true
    all_before-lem [] used = refl
    all_before-lem (o ∷ os) used =
        ground (arith, kind_before-lem o.kind o used.0, all_before-lem os used.1)

    pub driver_before-lem :
        (d : Option Operation) → DriverUsed g id d → driver_before before d ≡ true
    driver_before-lem none used = refl
    driver_before-lem (some op) used = all_before-lem op.operands used
