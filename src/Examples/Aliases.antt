-- ===== src/Examples/Aliases.antt =====
-- Runs and instances of the resolution of aliases.
use rtlzz.Base.{
  ◌⊎◌, true, ℕ, zero, suc, ◌≡◌, refl, subst, List, [], ◌∷◌, map, none, some, length, arith,
}
use rtlzz.Limbs.Value.{value}
use rtlzz.Ir.{Operand, width_of}
use rtlzz.Facts.Analysis.Operands.{operand_number}
use rtlzz.Passes.Aliases.{find_alias, follow, follow_all, resolve_operand, with_signed_view}
use rtlzz.Passes.Aliases.Resolved
use rtlzz.Passes.Aliases.Replaced
use rtlzz.Ir.Signature.{Texts}
use rtlzz.Examples.Analysis.{fives, literal_of, no_ports, node_of}

-- Signal 1 stands for signal 2, and signal 2 for 5.
abbrev aliases : List (ℕ × Operand)
aliases = (1, node_of 2 8) ∷ (2, literal_of 5 8) ∷ []

resolved_run : resolve_operand aliases (node_of 1 8) ≡ literal_of 5 8
unfolding resolve_operand follow_all follow find_alias with_signed_view
resolved_run = refl

aliases-five :
    (id : ℕ) (p : Operand)
    → find_alias aliases id ≡ some p
    → operand_number fives no_ports p ≡ fives id
unfolding find_alias value width_of
aliases-five zero p h = cc
aliases-five (suc zero) p h =
    let same : node_of 2 8 ≡ p = cc in subst (λ q. operand_number fives no_ports q ≡ 5) same refl
aliases-five (suc (suc zero)) p h =
    let same : literal_of 5 8 ≡ p = cc in subst (λ q. operand_number fives no_ports q ≡ 5) same refl
aliases-five (suc (suc (suc id))) p h = ground arith

resolve_operand-number_example :
    operand_number fives no_ports (resolve_operand aliases (node_of 1 8))
    ≡ operand_number fives no_ports (node_of 1 8)
resolve_operand-number_example =
    Resolved.resolve_operand-number aliases fives no_ports (node_of 1 8) aliases-five
      (λ p flag. refl)

resolve_operand_ends_example :
    follow aliases (follow_all (length aliases) aliases (Resolved.start (node_of 1 8))) ≡ none
resolve_operand_ends_example = Resolved.resolve_operand_ends aliases (node_of 1 8)

abbrev no_texts : Texts
no_texts = record { ids = []; next = 1 }

abbrev replaced : Replaced.Replaced
replaced = Replaced.replace_operands aliases no_texts (node_of 1 8 ∷ node_of 0 8 ∷ [])

replace_operands-IsReplaced_example :
    Replaced.Resolves aliases (node_of 1 8 ∷ node_of 0 8 ∷ []) replaced.operands
    × ((replaced.changed ≡ true) ⊎ (replaced.operands ≡ node_of 1 8 ∷ node_of 0 8 ∷ []))
    × (map (operand_number fives no_ports) replaced.operands
        ≡ map (operand_number fives no_ports) (node_of 1 8 ∷ node_of 0 8 ∷ []))
replace_operands-IsReplaced_example =
    Replaced.replace_operands-IsReplaced aliases fives no_ports no_texts
      (node_of 1 8 ∷ node_of 0 8 ∷ []) aliases-five (λ p flag. refl)
