-- ===== src/Facts/Analysis/Steps.antt =====
-- One visit of the analysis, and what it leaves as it is.
use rtlzz.Base.{
  ℕ, ◌≡◌, ◌∙◌, List, [], ◌∷◌, Bool, true, false, not, ◌&&◌, ◌||◌, some, ◌==◌, if◌then◌else◌, set,
  arith, Bool-cases, Option-cases, inl, inr,
}
use rtlzz.Ir.{Signal, find_signal}
use rtlzz.Facts.Analysis.{driver_resolved, analyzed, analyze_from}
use rtlzz.Facts.Analysis.Stores.{find_signal-id, find_signal-set}

-- Whether the id is in the order.
abbrev pub contains : ℕ → List ℕ → Bool
contains id [] = false
contains id (x ∷ xs) = x == id || contains id xs

-- Whether no id is repeated.
abbrev pub distinct : List ℕ → Bool
distinct [] = true
distinct (id ∷ order) = not (contains id order) && distinct order

-- An analysis that returns has found the first signal, with its operands resolved, and went on.
pub record IsStep (id : ℕ) (order : List ℕ) (signals : List Signal) (resolved : List Bool)
    (result : List Signal) : Type 0 where
  pub s : Signal
  pub found : find_signal signals id ≡ some s
  pub ready : driver_resolved resolved s.driver ≡ true
  pub rest :
      analyze_from order (set signals id (analyzed signals s)) (set resolved id true) ≡ some result

pub analyze_from-IsStep :
    (id : ℕ) (order : List ℕ) (signals : List Signal) (resolved : List Bool) (result : List Signal)
    → analyze_from (id ∷ order) signals resolved ≡ some result
    → IsStep id order signals resolved result
unfolding analyze_from
analyze_from-IsStep id order signals resolved result h =
    elim (Option-cases (find_signal signals id)) [
      | inl missing ↦ absurd (cc (missing, h))
      | inr (s, found) ↦ elim (Bool-cases (driver_resolved resolved s.driver)) [
        | inl ready ↦ record {
          s = s;
          found = found;
          ready = ready;
          rest = rw (found, ready, analyze_from) at h;
        }
        | inr blocked ↦ absurd (let k = rw (found, blocked, analyze_from) at h in cc)
      ]
    ]

-- The signal at hand is written at its place, and the others are found as before.
pub find_signal-analyzed :
    (signals : List Signal) (id j : ℕ) (s : Signal)
    → find_signal signals id ≡ some s
    → find_signal (set signals id (analyzed signals s)) j
      ≡ (if id == j then some (analyzed signals s) else find_signal signals j)
unfolding analyzed
find_signal-analyzed signals id j s found =
    find_signal-set signals id j s (analyzed signals s) found (find_signal-id signals id s found)

-- A signal that is not in the order is left as it is.
pub analyze_from-frame :
    (order : List ℕ) (signals : List Signal) (resolved : List Bool) (result : List Signal) (j : ℕ)
    → analyze_from order signals resolved ≡ some result
    → contains j order ≡ false
    → find_signal result j ≡ find_signal signals j
unfolding analyze_from
analyze_from-frame [] signals resolved result j h out = ground arith
analyze_from-frame (id ∷ order) signals resolved result j h out =
    let step = analyze_from-IsStep id order signals resolved result h in
    analyze_from-frame order (set signals id (analyzed signals step.s)) (set resolved id true)
      result j step.rest (ground arith)
    ∙ find_signal-analyzed signals id j step.s step.found
    ∙ ground arith
