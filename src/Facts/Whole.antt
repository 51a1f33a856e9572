-- ===== src/Facts/Whole.antt =====
-- `MutableProgram::analyzeValueFacts` of src/backend/beir.cpp as a whole: the order of the signals, and
-- their facts in that order. `none` is an exception.
use rtlzz.Base.{
  ℕ, suc, ◌<◌, ◌≡◌, refl, ap, ◌∙◌, List, [], ◌∷◌, map, true, ◌&&◌, Option, none, some, ◌==◌, length,
  length-map, arith,
}
use rtlzz.Ir.{Operand, Signal}
use rtlzz.Facts.Analysis.{no_facts, analyze_in_order}
use rtlzz.Facts.Analysis.Operands.{Solves, IsKnown}
use rtlzz.Facts.Analysis.Sound.{analyze_in_order-IsKnown}
use rtlzz.Facts.Analysis.Total.{returns, analyze_in_order-returns}
use rtlzz.Facts.Order.{topological_order}
use rtlzz.Facts.Order.Sound.{dense_from, topological_order-IsTopological}

abbrev pub without_facts : Signal → Signal
without_facts signal = record signal { value = no_facts }

-- `for (auto& signal : signals) signal.value = ValueFacts{};`
unfoldable pub reset_facts : List Signal → List Signal
reset_facts signals = map without_facts signals

abbrev pub analyze_by : Option (List ℕ) → List Signal → Option (List Signal)
analyze_by none signals = none
analyze_by (some order) signals = analyze_in_order order signals

unfoldable pub analyze_value_facts : List Signal → Option (List Signal)
analyze_value_facts signals =
    let cleared = reset_facts signals in analyze_by (topological_order cleared) cleared

dense_from-reset :
    (k : ℕ) (signals : List Signal) → dense_from k (reset_facts signals) ≡ dense_from k signals
unfolding reset_facts
dense_from-reset k [] = refl
dense_from-reset k (s ∷ signals) = ap (λ b. s.id == k && b) (dense_from-reset (suc k) signals)

returns-some : (o : Option (List Signal)) → returns o ≡ true → (r : List Signal) × (o ≡ some r)
returns-some none h = cc
returns-some (some r) h = (r, refl)

analyze_by-some :
    (o : Option (List ℕ)) (signals result : List Signal)
    → analyze_by o signals ≡ some result
    → (order : List ℕ) × (o ≡ some order) × (analyze_in_order order signals ≡ some result)
analyze_by-some none signals result h = cc
analyze_by-some (some order) signals result h = (order, refl, h)

-- Where the ids of the signals are their indices and an order of them is found, the analysis returns:
-- no signal is visited before its operands.
pub analyze_value_facts_returns :
    (signals : List Signal) (order : List ℕ)
    → dense_from 0 signals ≡ true
    → topological_order (reset_facts signals) ≡ some order
    → (result : List Signal) × (analyze_value_facts signals ≡ some result)
unfolding analyze_value_facts
analyze_value_facts_returns signals order dense found =
    let cleared = reset_facts signals in
    let sorted =
      topological_order-IsTopological cleared order (dense_from-reset 0 signals ∙ dense) found in
    let (result, e) =
      returns-some (analyze_in_order order cleared)
        (analyze_in_order-returns order cleared ∙ sorted.first) in
    (result, ap (λ o. analyze_by o cleared) found ∙ e)

-- Where the ids of the signals are their indices, the analysis returns and the numbers of the signals
-- solve the program, the facts of every signal are true of its number and mark nothing above their
-- width. To solve the program is that an undriven signal's number fits its width and a driven one's is
-- what its driver means on the numbers of its operands, where the driver has the signal's width, its
-- literals are 64-bit words, its ports fit the width, and the inference covers it.
pub analyze_value_facts-IsKnown :
    (numbers : ℕ → ℕ) (ports : Operand → ℕ) (signals result : List Signal) (id : ℕ)
    → dense_from 0 signals ≡ true
    → analyze_value_facts signals ≡ some result
    → Solves result numbers ports
    → id < length signals
    → IsKnown numbers result id
unfolding analyze_value_facts reset_facts
analyze_value_facts-IsKnown numbers ports signals result id dense e solves h =
    let cleared = reset_facts signals in
    let (order, found, run) = analyze_by-some (topological_order cleared) cleared result e in
    let sorted =
      topological_order-IsTopological cleared order (dense_from-reset 0 signals ∙ dense) found in
    analyze_in_order-IsKnown numbers ports order cleared result id sorted.once run solves
      (sorted.every id (omega (arith, h, length-map without_facts signals)))
