-- ===== src/Facts/Analysis/Sound.antt =====
-- The analysis is sound: where the numbers of the signals solve the program, the facts are true of
-- them.
use rtlzz.Base.{
  ℕ, ◌≡◌, refl, ap, ap₂, subst, ◌∙◌, List, [], ◌∷◌, map, Bool, true, false, Option, none, some,
  get_or, set, length, arith, Bool-cases, inl, inr,
}
use rtlzz.Ir.{Operand, OperandKind, Operation, Signal, width_of, find_signal}
use rtlzz.Base.{replicate}
use rtlzz.Facts.Operation.Meaning.{Means, IsCovered}
use rtlzz.Facts.Analysis.{
  operand_facts, facts_by_kind, signal_facts, resolved_by_kind, all_resolved, driver_resolved,
  analyzed, analyze_from, analyze_in_order,
}
use rtlzz.Facts.Analysis.Stores.{get_or-mark, get_or-all_false}
use rtlzz.Facts.Analysis.Steps.{
  contains, distinct, IsStep, analyze_from-IsStep, analyze_from-frame, find_signal-analyzed,
}
use rtlzz.Facts.Analysis.Operands.{
  operand_number, SolvesDriver, Solves, IsTrue, IsKnown, driven_facts-IsTrue,
}

module _ (result signals : List Signal) (resolved : List Bool)
    (same : (id : ℕ)
      → get_or resolved id false ≡ true
      → find_signal result id ≡ find_signal signals id) where
  facts_by_kind-stable :
      (kind : OperandKind) (w : ℕ) (o : Operand)
      → resolved_by_kind kind resolved o ≡ true
      → facts_by_kind kind result w o ≡ facts_by_kind kind signals w o
  facts_by_kind-stable OperandKind.literal w o r = refl
  facts_by_kind-stable OperandKind.port w o r = refl
  facts_by_kind-stable OperandKind.symbol w o r = ap (λ s. signal_facts s w) (same o.node r)

  operands-stable :
      (w : ℕ) (os : List Operand)
      → all_resolved resolved os ≡ true
      → map (operand_facts result w) os ≡ map (operand_facts signals w) os
  unfolding all_resolved operand_facts
  operands-stable w [] r = refl
  operands-stable w (o ∷ os) r =
      ap₂ (λ f fs. f ∷ fs) (facts_by_kind-stable o.kind w o (ground arith))
        (operands-stable w os (ground arith))

  -- The numbers that solve a driver at the end solve it when it is visited.
  SolvesDriver-stable :
      (numbers : ℕ → ℕ) (ports : Operand → ℕ) (driver : Option Operation) (w v : ℕ)
      → driver_resolved resolved driver ≡ true
      → SolvesDriver result numbers ports driver w v
      → SolvesDriver signals numbers ports driver w v
  unfolding driver_resolved
  SolvesDriver-stable numbers ports none w v r h = h
  SolvesDriver-stable numbers ports (some op) w v r (e, operands, covered, means) =
      let same_facts = operands-stable w op.operands r in
      let xs = map (operand_number numbers ports) op.operands in
      (
        e,
        operands,
        subst (λ fs. IsCovered op.kind op fs xs w) same_facts covered,
        subst (λ fs. Means op.kind op fs xs w v) same_facts means,
      )

module _ (numbers : ℕ → ℕ) (ports : Operand → ℕ) (result : List Signal)
    (solves : Solves result numbers ports) where
  -- What the visits so far have settled: no resolved signal is visited again.
  record Inv (order : List ℕ) (signals : List Signal) (resolved : List Bool) : Type 0 where
    fresh : (j : ℕ) → get_or resolved j false ≡ true → contains j order ≡ false
    known : (j : ℕ) → get_or resolved j false ≡ true → IsKnown numbers signals j

  analyzed-IsTrue :
      (id : ℕ) (order : List ℕ) (signals : List Signal) (resolved : List Bool)
      → contains id order ≡ false
      → Inv (id ∷ order) signals resolved
      → analyze_from (id ∷ order) signals resolved ≡ some result
      → (step : IsStep id order signals resolved result)
      → (find_signal result id ≡ some (analyzed signals step.s))
        × IsTrue (analyzed signals step.s).value (numbers id)
  unfolding analyzed
  analyzed-IsTrue id order signals resolved once inv h step =
      let placed =
        analyze_from-frame order (set signals id (analyzed signals step.s)) (set resolved id true)
          result id step.rest once
        ∙ find_signal-analyzed signals id id step.s step.found in
      let end : find_signal result id ≡ some (analyzed signals step.s) = placed ∙ ground arith in
      (
        end,
        driven_facts-IsTrue numbers ports signals resolved inv.known step.s.driver
            (width_of step.s.type) (numbers id) step.ready
            (SolvesDriver-stable result signals resolved
              (λ j r. analyze_from-frame (id ∷ order) signals resolved result j h (inv.fresh j r))
              numbers ports step.s.driver (width_of step.s.type) (numbers id) step.ready
              (solves id (analyzed signals step.s) end)),
      )

  Inv-step :
      (id : ℕ) (order : List ℕ) (signals : List Signal) (resolved : List Bool)
      → contains id order ≡ false
      → Inv (id ∷ order) signals resolved
      → (step : IsStep id order signals resolved result)
      → IsTrue (analyzed signals step.s).value (numbers id)
      → Inv order (set signals id (analyzed signals step.s)) (set resolved id true)
  Inv-step id order signals resolved once inv step good = record {
    fresh = λ j r. elim (get_or-mark resolved id j r) [
      | inl here ↦ subst (λ k. contains k order ≡ false) here once
      | inr old ↦ ground (arith, inv.fresh j old)
    ];
    known = λ j r. elim (get_or-mark resolved id j r) [
      | inl here ↦ subst (IsKnown numbers (set signals id (analyzed signals step.s))) here (
        analyzed signals step.s,
        find_signal-analyzed signals id id step.s step.found ∙ ground arith,
        good,
      )
      | inr old ↦
          let (s, found, true_of) = inv.known j old in
          (
            s,
            find_signal-analyzed signals id j step.s step.found
                ∙ ground (arith, inv.fresh j old, found),
            true_of,
          )
    ];
  }

  analyze_from-IsKnown :
      (order : List ℕ) (signals : List Signal) (resolved : List Bool) (j : ℕ)
      → distinct order ≡ true
      → Inv order signals resolved
      → analyze_from order signals resolved ≡ some result
      → contains j order ≡ true
      → IsKnown numbers result j
  analyze_from-IsKnown [] signals resolved j once inv h mem = cc
  analyze_from-IsKnown (id ∷ order) signals resolved j once inv h mem =
      let step = analyze_from-IsStep id order signals resolved result h in
      let (end, good) = analyzed-IsTrue id order signals resolved (ground arith) inv h step in
      elim (Bool-cases (contains j order)) [
        | inl later ↦
            analyze_from-IsKnown order (set signals id (analyzed signals step.s))
              (set resolved id true) j (ground arith)
              (Inv-step id order signals resolved (ground arith) inv step good) step.rest later
        | inr here ↦
            (let e : id ≡ j = ground arith in
              subst (IsKnown numbers result) e (analyzed signals step.s, end, good))
      ]

-- Where the analysis returns, in an order that visits no signal twice, and the numbers of the signals
-- solve the program, every signal of the order is there, and its facts are true of its number and mark
-- nothing above their width. To solve the program is that an undriven signal's number fits its width
-- and a driven one's is what its driver means on the numbers of its operands, where the driver has the
-- signal's width, its literals are 64-bit words, its ports fit the width, and the inference covers it.
pub analyze_in_order-IsKnown :
    (numbers : ℕ → ℕ) (ports : Operand → ℕ) (order : List ℕ) (signals result : List Signal) (j : ℕ)
    → distinct order ≡ true
    → analyze_in_order order signals ≡ some result
    → Solves result numbers ports
    → contains j order ≡ true
    → IsKnown numbers result j
unfolding analyze_in_order
analyze_in_order-IsKnown numbers ports order signals result j once h solves mem =
    analyze_from-IsKnown numbers ports result solves order signals
      (replicate (length signals) false) j once
      (record {
        fresh = λ k r. ground (arith, get_or-all_false (length signals) k);
        known = λ k r. cc (get_or-all_false (length signals) k, r);
      })
      h mem
