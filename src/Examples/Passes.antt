-- ===== src/Examples/Passes.antt =====
-- Runs and instances of the passes.
use rtlzz.Base.{ℕ, [], ◌∷◌, Bool, true, false, some}
use rtlzz.Ir.{OperationKind}
use rtlzz.Passes.Constant.{MutableProgram, set_assign, literal_from_facts}
use rtlzz.Passes.Constant.Whole
use rtlzz.Examples.Analysis.{wide, narrow, result, signal, operation, known_as}

abbrev clean : MutableProgram
clean = record { signals = result; value_facts_dirty = false }

abbrev folded : MutableProgram
folded = record {
  signals =
      known_as 5 0xfffa (
        signal 0 16 (
          some (
            set_assign (operation OperationKind.zext [] 16)
              (literal_from_facts wide.value wide.type false) wide.type)))
      ∷ narrow
      ∷ [];
  value_facts_dirty = true;
}

abbrev unsigned : ℕ → Bool
unsigned id = false
