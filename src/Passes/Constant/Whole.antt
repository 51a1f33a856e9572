-- ===== src/Passes/Constant/Whole.antt =====
-- Folding constants keeps every signal of a program, and what its driver reads or its number.
use rtlzz.Base.{ℕ, ◌^◌, ◌<◌, ◌≡◌, List, Bool, true, Option, none, some}
use rtlzz.Limbs.Value.{All}
use rtlzz.Ir.{Operand, Operation, Signal, width_of, find_signal}
use rtlzz.Facts.Analysis.Steps.{contains}
use rtlzz.Passes.Constant.{Pass}
use rtlzz.Passes.Constant.Literal.{IsFitting, IsKnownAs}
use rtlzz.Passes.Constant.Keeps.{KeepsDriver}

module _ (numbers : ℕ → ℕ) (ports : Operand → ℕ) (signs : ℕ → Bool) where
  abbrev pub KeepsOption : Option Operation → Option Operation → ℕ → Bool → Type 0
  KeepsOption none none v signed = Unit
  KeepsOption (some op) (some folded) v signed = KeepsDriver numbers ports signs op folded v signed
  KeepsOption _ _ v signed = ⊥

  -- The signal is the same but for a driver that keeps what it reads, or its signal's number.
  pub record IsFoldedSignal (s t : Signal) (v : ℕ) : Type 0 where
    pub shape : t ≡ record s { driver = t.driver }
    pub keeps : KeepsOption s.driver t.driver v s.value.value.signed_view

  abbrev pub KeepsSignal : Option Signal → Option Signal → ℕ → Type 0
  KeepsSignal none none v = Unit
  KeepsSignal (some s) (some t) v = IsFoldedSignal s t v
  KeepsSignal _ _ v = ⊥

  -- The operands of a driver fit their types, and the number of its signal fits its own.
  abbrev pub IsTypedDriver : Option Operation → ℕ → Type 0
  IsTypedDriver none v = Unit
  IsTypedDriver (some op) v =
      All (IsFitting numbers ports signs) op.operands × (v < 2 ^ width_of op.type)

  -- The facts of the signals are true, signed only where the signal is read as signed, and the drivers
  -- are typed.
  abbrev pub IsTypedProgram : List Signal → Type 0
  IsTypedProgram signals =
      (id : ℕ) (s : Signal)
      → find_signal signals id ≡ some s
      → IsKnownAs s.value (numbers id) (signs id) × IsTypedDriver s.driver (numbers id)

  module _ (start : List Signal) (typed : IsTypedProgram start) where
    -- The signals still to be visited are as they were, and all are kept.
    record Inv (order : List ℕ) (pass : Pass) : Type 0 where
      untouched :
          (id : ℕ) → contains id order ≡ true → find_signal pass.signals id ≡ find_signal start id
      kept :
          (id : ℕ) → KeepsSignal (find_signal start id) (find_signal pass.signals id) (numbers id)
