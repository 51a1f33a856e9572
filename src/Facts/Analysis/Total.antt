-- ===== src/Facts/Analysis/Total.antt =====
-- When the analysis returns: where every id of the order has a signal and the drivers read only
-- signals that come earlier.
use rtlzz.Base.{
  ℕ, zero, suc, ◌<◌, ◌≡◌, refl, ap, ap₂, ◌∙◌, List, [], ◌∷◌, Bool, true, false, ◌&&◌, Option, none,
  some, ◌==◌, length, get_elem?, get_or, set, replicate, length-set, length-replicate, arith,
  Bool-cases, Option-cases, inl, inr,
}
use rtlzz.Ir.{Operand, OperandKind, Operation, Signal, find_signal, with_id}
use rtlzz.Facts.Analysis.{
  resolved_by_kind, all_resolved, driver_resolved, analyzed, analyze_from, analyze_in_order,
}
use rtlzz.Facts.Analysis.Stores.{get_or-mark, get_or-mark_self, get_or-mark_other, get_or-all_false}
use rtlzz.Facts.Analysis.Steps.{contains, find_signal-analyzed}

abbrev pub returns : Option (List Signal) → Bool
returns none = false
returns (some signals) = true

-- The driver of a signal, if there is a signal.
abbrev pub driver_of : Option Signal → Option (Option Operation)
driver_of none = none
driver_of (some s) = some s.driver

abbrev pub kind_before : OperandKind → List ℕ → Operand → Bool
kind_before OperandKind.symbol before o = contains o.node before
kind_before _ before o = true

-- Every signal that the operands name comes before.
abbrev pub all_before : List ℕ → List Operand → Bool
all_before before [] = true
all_before before (o ∷ os) = kind_before o.kind before o && all_before before os

abbrev pub driver_before : List ℕ → Option Operation → Bool
driver_before before none = true
driver_before before (some op) = all_before before op.operands

abbrev pub next_before : List ℕ → Option (Option Operation) → Bool → Bool
next_before before none rest = false
next_before before (some driver) rest = driver_before before driver && rest

-- Whether every id has a signal, and its driver names only signals that come before it.
abbrev pub operands_first : List Signal → List ℕ → List ℕ → Bool
operands_first signals before [] = true
operands_first signals before (id ∷ order) =
    next_before before (driver_of (find_signal signals id))
      (operands_first signals (id ∷ before) order)

get_elem?-lt : {A : Type 0} (xs : List A) (i : ℕ) (x : A) → get_elem? xs i ≡ some x → i < length xs
get_elem?-lt [] i x h = cc
get_elem?-lt (y ∷ xs) zero x h = omega arith
get_elem?-lt (y ∷ xs) (suc i) x h = omega (arith, get_elem?-lt xs i x h)

with_id-get :
    (id : ℕ) (o : Option Signal) (s : Signal) → with_id id o ≡ some s → (t : Signal) × (o ≡ some t)
with_id-get id none s h = cc
with_id-get id (some t) s h = (t, refl)

find_signal-lt :
    (signals : List Signal) (id : ℕ) (s : Signal)
    → find_signal signals id ≡ some s
    → id < length signals
unfolding find_signal
find_signal-lt signals id s h =
    let (t, e) = with_id-get id (get_elem? signals id) s h in get_elem?-lt signals id t e

module _ (resolved : List Bool) (before : List ℕ)
    (agree : (j : ℕ) → get_or resolved j false ≡ contains j before) where
  kind-agree :
      (kind : OperandKind) (o : Operand)
      → resolved_by_kind kind resolved o ≡ kind_before kind before o
  kind-agree OperandKind.symbol o = agree o.node
  kind-agree OperandKind.literal o = refl
  kind-agree OperandKind.port o = refl

  all-agree : (os : List Operand) → all_resolved resolved os ≡ all_before before os
  unfolding all_resolved
  all-agree [] = refl
  all-agree (o ∷ os) = ap₂ (λ a b. a && b) (kind-agree o.kind o) (all-agree os)

  driver-agree : (d : Option Operation) → driver_resolved resolved d ≡ driver_before before d
  unfolding driver_resolved
  driver-agree none = refl
  driver-agree (some op) = all-agree op.operands

  agree-mark :
      (id j : ℕ)
      → id < length resolved
      → get_or (set resolved id true) j false ≡ contains j (id ∷ before)
  agree-mark id j inside = elim (Bool-cases (get_or (set resolved id true) j false)) [
    | inl marked ↦ elim (get_or-mark resolved id j marked) [
      | inl here ↦ ground arith
      | inr old ↦ ground (arith, agree j)
    ]
    | inr clear ↦ ground (
      arith,
      agree j,
      get_or-mark_other resolved id j,
      get_or-mark_self resolved id inside,
      id ≡ j,
    )
  ]

driver_of-analyzed :
    (signals : List Signal) (id j : ℕ) (s : Signal)
    → find_signal signals id ≡ some s
    → driver_of (find_signal (set signals id (analyzed signals s)) j)
      ≡ driver_of (find_signal signals j)
unfolding analyzed
driver_of-analyzed signals id j s found =
    ap driver_of (find_signal-analyzed signals id j s found) ∙ elim (Bool-cases (id == j)) [
      | inl here ↦ rw here (let e : id ≡ j = ground arith in rw (← e) (rw found refl))
      | inr there ↦ rw there refl
    ]

analyze_from-returns :
    (order before : List ℕ) (signals start : List Signal) (resolved : List Bool)
    → length resolved ≡ length signals
    → ((j : ℕ) → get_or resolved j false ≡ contains j before)
    → ((j : ℕ) → driver_of (find_signal signals j) ≡ driver_of (find_signal start j))
    → returns (analyze_from order signals resolved) ≡ operands_first start before order
unfolding analyze_from
analyze_from-returns [] before signals start resolved size agree same = refl
analyze_from-returns (id ∷ order) before signals start resolved size agree same =
    elim (Option-cases (find_signal signals id)) [
      | inl missing ↦ rw (← same id, missing, analyze_from) refl
      | inr (s, found) ↦
          let inside : id < length resolved =
            omega (arith, size, find_signal-lt signals id s found) in
          let rest =
            analyze_from-returns order (id ∷ before) (set signals id (analyzed signals s)) start
              (set resolved id true)
              (omega (
                arith,
                size,
                length-set resolved id true,
                length-set signals id (analyzed signals s),
              ))
              (λ j. agree-mark resolved before agree id j inside)
              (λ j. driver_of-analyzed signals id j s found ∙ same j) in
          elim (Bool-cases (driver_resolved resolved s.driver)) [
            | inl ready ↦
                rw
                  (
                    ← same id,
                    found,
                    ready,
                    ← driver-agree resolved before agree s.driver,
                    analyze_from,
                  )
                  (rw ready rest)
            | inr blocked ↦
                rw
                  (
                    ← same id,
                    found,
                    blocked,
                    ← driver-agree resolved before agree s.driver,
                    analyze_from,
                  )
                  (rw blocked refl)
          ]
    ]

-- The analysis returns exactly where every id of the order has a signal and the driver of each names
-- only signals that come earlier in the order; otherwise it throws.
pub analyze_in_order-returns :
    (order : List ℕ) (signals : List Signal)
    → returns (analyze_in_order order signals) ≡ operands_first signals [] order
unfolding analyze_in_order
analyze_in_order-returns order signals =
    analyze_from-returns order [] signals signals (replicate (length signals) false)
      (length-replicate (length signals) false) (get_or-all_false (length signals)) (λ j. refl)
