-- ===== src/Passes/Constant/Keeps.antt =====
-- What the folding of constants keeps of a driver: the operation and what it reads of its operands, or
-- the number of its signal.
use rtlzz.Base.{
  ℕ, ◌^◌, ◌<◌, ◌≡◌, refl, ap₂, List, map, Bool, true, false, not, ◌&&◌, ◌||◌, some, arith,
  Bool-cases, Option-cases, inl, inr, ◌⊎◌,
}
use rtlzz.Limbs.Value.{All}
use rtlzz.Ir.{Operand, Operation, Signal, ValueFacts, ValueType, width_of, find_signal}
use rtlzz.Facts.Analysis.Operands.{IsTrue}
use rtlzz.Facts.Constants.Result.{views_signed}
use rtlzz.Passes.Constant.{
  can_fold_result, fold_constant_result, fold_driver, is_assign, literal_from_facts, only_literal,
  propagate_operands, set_assign,
}
use rtlzz.Passes.Constant.Literal.{
  IsFitting, IsKnownAs, literal_from_facts-number, propagate_operands-read, read,
}

module _ (numbers : ℕ → ℕ) (ports : Operand → ℕ) (signs : ℕ → Bool) where
  -- The operation is the same but for operands with the same numbers, signs and types.
  pub record IsSameOperation (op folded : Operation) : Type 0 where
    pub shape : folded ≡ record op { operands = folded.operands }
    pub inputs :
        map (read numbers ports signs) folded.operands ≡ map (read numbers ports signs) op.operands

  -- The operation is the assign of an operand of the operation's type with the number, signed or not.
  pub record IsAssignOf (op folded : Operation) (v : ℕ) (signed : Bool) : Type 0 where
    pub operand : Operand
    pub shape : folded ≡ set_assign op operand op.type
    pub reads : read numbers ports signs operand ≡ (v, (signed, op.type))

  -- What the folding of a driver keeps, where its signal has the number `v` and facts that are signed or
  -- not.
  abbrev pub KeepsDriver : Operation → Operation → ℕ → Bool → Type 0
  KeepsDriver op folded v signed = IsSameOperation op folded ⊎ IsAssignOf op folded v signed

  double : (a : Bool) → ((false || a) || (false || a)) ≡ a
  double true = refl
  double false = refl

  literal_from_facts-IsRead :
      (f : ValueFacts) (type : ValueType) (v : ℕ)
      → IsTrue f v
      → f.constant ≡ true
      → v < 2 ^ width_of type
      → read numbers ports signs (literal_from_facts f type false)
        ≡ (v, (f.value.signed_view, type))
  literal_from_facts-IsRead f type v h c small =
      let view : views_signed (literal_from_facts f type false) ≡ f.value.signed_view =
        unfold literal_from_facts in double f.value.signed_view in
      let kept : (literal_from_facts f type false).type ≡ type =
        unfold literal_from_facts in refl in
      ap₂ (λ n r. (n, r))
        (literal_from_facts-number numbers ports signs f type false v h.describes c small)
        (ap₂ (λ b t. (b, t)) view kept)

  fold_constant_result-some :
      (op folded : Operation) (f : ValueFacts)
      → fold_constant_result op f ≡ some folded
      → (f.constant ≡ true) × (folded ≡ set_assign op (literal_from_facts f op.type false) op.type)
  unfolding fold_constant_result
  fold_constant_result-some op folded f e =
      elim (Bool-cases (not f.valid || not f.constant || not (can_fold_result op.kind))) [
        | inl unfit ↦ absurd (let k = rw unfit at e in cc)
        | inr fit ↦
            (let k = rw fit at e in
              elim (Bool-cases
                (is_assign op.kind && only_literal op.operands f (width_of op.type))) [
                  | inl already ↦ absurd (let m = rw already at k in cc)
                  | inr new ↦ (let m = rw new at k in (ground arith, cc))
                ])
      ]

  -- Folding a driver keeps it the same operation of the same numbers, signs and types, or makes it the
  -- assign of a literal with the number of its signal and the sign of its facts.
  pub fold_driver-KeepsDriver :
      (signals : List Signal) (op : Operation) (f : ValueFacts) (v : ℕ)
      → ((id : ℕ) (s : Signal)
          → find_signal signals id ≡ some s
          → IsKnownAs s.value (numbers id) (signs id))
      → All (IsFitting numbers ports signs) op.operands
      → IsTrue f v
      → v < 2 ^ width_of op.type
      → KeepsDriver op (fold_driver signals op f).op v f.value.signed_view
  unfolding fold_driver set_assign
  fold_driver-KeepsDriver signals op f v known fits h small =
      let p = propagate_operands signals op.operands in
      let propagated = record op { operands = p.operands } in
      elim (Option-cases (fold_constant_result propagated f)) [
        | inl stays ↦ rw stays (
            inl (record {
              shape = refl;
              inputs = propagate_operands-read numbers ports signs signals known op.operands fits;
            }))
        | inr (folded, e) ↦
            (let (constant, made) = fold_constant_result-some propagated folded f e in
              rw e (
                inr (record {
                  operand = literal_from_facts f op.type false;
                  shape = made;
                  reads = literal_from_facts-IsRead f op.type v h constant small;
                })))
      ]
