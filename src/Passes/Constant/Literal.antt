-- ===== src/Passes/Constant/Literal.antt =====
-- The literal that is made of facts has the number that they describe, and the sign of the operand that
-- it replaces.
use rtlzz.Base.{
  ℕ, ◌%◌, ◌^◌, ◌<◌, ◌≡◌, refl, sym, ap, ap₂, ◌∙◌, List, [], ◌∷◌, map, Bool, true, false, ◌||◌, ◌&&◌,
  Option, none, some, arith, Bool-cases, Option-cases, inl, inr,
}
use native.Mathlib.Nat.{mod-mod, mod-eq_of_lt}
use rtlzz.Limbs.Value.{All, value}
use rtlzz.Limbs.Trim.{value-trim}
use rtlzz.Ir.{Operand, OperandKind, Signal, ValueFacts, ValueType, width_of, find_signal}
use rtlzz.Facts.Sound.{Describes}
use rtlzz.Facts.Constants.Result.{views_signed}
use rtlzz.Facts.Analysis.Operands.{operand_number, number_by_kind, IsTrue}
use rtlzz.Passes.Constant.{
  literal_from_facts, constant_signal, constant_by_kind, constant_operand, propagate_operands,
}
use rtlzz.Passes.Constant.Trimmed.{trim_limbs-trim}

-- True facts of a signal, which are a signed constant only where the signal is read as signed.
abbrev pub IsKnownAs : ValueFacts → ℕ → Bool → Type 0
IsKnownAs f n signed = IsTrue f n × (f.constant ≡ true → f.value.signed_view ≡ true → signed ≡ true)

joined_views :
    (a b c : Bool) → (b ≡ true → a ≡ true) → c ≡ false → ((a || b) || (a || b)) ≡ (a || c)
joined_views true b c h e = refl
joined_views false true c h e = absurd (let never = h refl in cc)
joined_views false false c h e = sym e

module _ (numbers : ℕ → ℕ) (ports : Operand → ℕ) (signs : ℕ → Bool) where
  -- What an operation reads of an operand: its number, its sign and its type.
  abbrev pub read : Operand → ℕ × (Bool × ValueType)
  read o = (operand_number numbers ports o, (views_signed o, o.type))

  pub literal_from_facts-number :
      (f : ValueFacts) (type : ValueType) (signed : Bool) (v : ℕ)
      → Describes f v
      → f.constant ≡ true
      → v < 2 ^ width_of type
      → operand_number numbers ports (literal_from_facts f type signed) ≡ v
  unfolding literal_from_facts
  literal_from_facts-number f type signed v h c small =
      let w = width_of type in
      ap (λ xs. value xs % 2 ^ w) (trim_limbs-trim f.value.limbs w h.value_limbs)
      ∙ ap (λ x. x % 2 ^ w)
          (value-trim f.value.limbs w h.value_limbs ∙ ap (λ x. x % 2 ^ w) (h.exact c))
      ∙ mod-mod v (2 ^ w)
      ∙ mod-eq_of_lt small

  -- A signal's number fits the type that the operand gives it, the operand is signed where the signal is,
  -- and the constant that it does not use is not signed.
  abbrev pub FitsByKind : OperandKind → Operand → Type 0
  FitsByKind OperandKind.symbol o =
      (numbers o.node < 2 ^ width_of o.type)
      × (signs o.node ≡ true → o.signed_view ≡ true)
      × (o.constant.signed_view ≡ false)
  FitsByKind _ o = Unit

  abbrev pub IsFitting : Operand → Type 0
  IsFitting o = FitsByKind o.kind o

  literal_from_facts-read :
      (f : ValueFacts) (o : Operand)
      → IsKnownAs f (numbers o.node) (signs o.node)
      → FitsByKind OperandKind.symbol o
      → f.constant ≡ true
      → read (literal_from_facts f o.type o.signed_view)
        ≡ (numbers o.node, (views_signed o, o.type))
  literal_from_facts-read f o known fits c =
      let view : views_signed (literal_from_facts f o.type o.signed_view) ≡ views_signed o =
        unfold literal_from_facts in
        joined_views o.signed_view f.value.signed_view o.constant.signed_view
          (λ signed. fits.1 (known.1 c signed)) fits.2 in
      let kept : (literal_from_facts f o.type o.signed_view).type ≡ o.type =
        unfold literal_from_facts in refl in
      ap₂ (λ n r. (n, r))
        (literal_from_facts-number f o.type o.signed_view (numbers o.node) known.0.describes c
          fits.0)
        (ap₂ (λ b t. (b, t)) view kept)

  module _ (signals : List Signal)
      (known : (id : ℕ) (s : Signal)
        → find_signal signals id ≡ some s
        → IsKnownAs s.value (numbers id) (signs id)) where
    constant_signal-read :
        (found : Option Signal) (o l : Operand)
        → find_signal signals o.node ≡ found
        → FitsByKind OperandKind.symbol o
        → constant_signal found o ≡ some l
        → read l ≡ (numbers o.node, (views_signed o, o.type))
    constant_signal-read none o l at fits e = cc
    constant_signal-read (some s) o l at fits e =
        elim (Bool-cases (s.value.valid && s.value.constant)) [
          | inl constant ↦
              let made : literal_from_facts s.value o.type o.signed_view ≡ l =
                (let k = rw constant at e in cc) in
              ap read (sym made)
              ∙ literal_from_facts-read s.value o (known o.node s at) fits (ground arith)
          | inr not_known ↦ absurd (let k = rw not_known at e in cc)
        ]

    constant_by_kind-read :
        (kind : OperandKind) (o l : Operand)
        → FitsByKind kind o
        → constant_by_kind kind signals o ≡ some l
        → read l ≡ (number_by_kind kind numbers ports o, (views_signed o, o.type))
    constant_by_kind-read OperandKind.symbol o l fits e =
        constant_signal-read (find_signal signals o.node) o l refl fits e
    constant_by_kind-read OperandKind.literal o l fits e = cc
    constant_by_kind-read OperandKind.port o l fits e = cc

    -- Propagation leaves the number, the sign and the type of every operand as they are.
    pub propagate_operands-read :
        (os : List Operand)
        → All IsFitting os
        → map read (propagate_operands signals os).operands ≡ map read os
    unfolding propagate_operands constant_operand
    propagate_operands-read [] fits = refl
    propagate_operands-read (o ∷ os) fits =
        let rest = propagate_operands-read os fits.1 in
        elim (Option-cases (constant_by_kind o.kind signals o)) [
          | inl stays ↦ rw stays (ap (λ xs. read o ∷ xs) rest)
          | inr (l, e) ↦
              rw e (ap₂ (λ x xs. x ∷ xs) (constant_by_kind-read o.kind o l fits.0 e) rest)
        ]
