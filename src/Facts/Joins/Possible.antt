-- ===== src/Facts/Joins/Possible.antt =====
-- The values that a case may take, after the conditions that are known.
use rtlzz.Base.{
  ℕ, ◌%◌, ◌≡◌, List, [], ◌∷◌, ◌==◌, arith, Bool-cases, inl, inr, ◌⊎◌, if◌then◌else◌, length,
}
use rtlzz.Limbs.Value.{value, All}
use rtlzz.Ir.{ValueFacts, is_zero}
use rtlzz.Facts.Sound.{Describes}
use rtlzz.Facts.Joins.{possible_values}
use rtlzz.Facts.Joins.Choice.{is_zero-value}

-- The value of a case: that of the first condition that is not 0, else the default.
abbrev pub case_value : List ℕ → ℕ
case_value [] = 0
case_value (default ∷ []) = default
case_value (condition ∷ value ∷ rest) = if condition == 0 then case_value rest else value

-- Each of some facts is true of the number beside it.
abbrev pub DescribeAll : List ValueFacts → List ℕ → Type 0
DescribeAll [] [] = Unit
DescribeAll [] (x ∷ xs) = ⊥
DescribeAll (f ∷ fs) [] = ⊥
DescribeAll (f ∷ fs) (x ∷ xs) = Describes f x × DescribeAll fs xs

-- The facts are true of some number.
abbrev pub IsSound : ValueFacts → Type 0
IsSound f = (x : ℕ) × Describes f x

-- One of some facts is true of a number.
abbrev pub DescribesOne : List ValueFacts → ℕ → Type 0
DescribesOne [] x = ⊥
DescribesOne (f ∷ fs) x = Describes f x ⊎ DescribesOne fs x

pub possible_values-IsSound :
    (fs : List ValueFacts) (xs : List ℕ) → DescribeAll fs xs → All IsSound (possible_values fs)
unfolding possible_values
possible_values-IsSound [] xs h = tt
possible_values-IsSound (d ∷ []) [] h = absurd h
possible_values-IsSound (d ∷ []) (x ∷ xs) h = ((x, h.0), tt)
possible_values-IsSound (c ∷ v ∷ fs) [] h = absurd h
possible_values-IsSound (c ∷ v ∷ fs) (x ∷ []) h = absurd h.1
possible_values-IsSound (c ∷ v ∷ fs) (x ∷ y ∷ xs) h =
    let later = possible_values-IsSound fs xs h.1.1 in
    let here : IsSound v = (y, h.1.0) in
    elim (Bool-cases c.constant) [
      | inl fixed ↦ simp fixed (elim (Bool-cases (is_zero c.value)) [
        | inl skipped ↦ rw skipped later
        | inr taken ↦ rw taken (here, tt)
      ])
      | inr open_bits ↦ simp open_bits (here, later)
    ]

-- The value that the case takes is among the possible ones.
pub possible_values-DescribesOne :
    (fs : List ValueFacts) (xs : List ℕ)
    → length fs % 2 ≡ 1
    → DescribeAll fs xs
    → DescribesOne (possible_values fs) (case_value xs)
unfolding possible_values
possible_values-DescribesOne [] xs odd h = absurd (omega arith)
possible_values-DescribesOne (d ∷ []) [] odd h = absurd h
possible_values-DescribesOne (d ∷ []) (x ∷ []) odd h = inl h.0
possible_values-DescribesOne (d ∷ []) (x ∷ y ∷ xs) odd h = absurd h.1
possible_values-DescribesOne (c ∷ v ∷ fs) [] odd h = absurd h
possible_values-DescribesOne (c ∷ v ∷ fs) (x ∷ []) odd h = absurd h.1
possible_values-DescribesOne (c ∷ v ∷ fs) (x ∷ y ∷ xs) odd h =
    let later = possible_values-DescribesOne fs xs (omega arith) h.1.1 in
    elim (Bool-cases c.constant) [
      | inl fixed ↦
          simp (fixed, is_zero-value c.value, h.0.exact fixed)
            (elim (Bool-cases (x == 0)) [
              | inl skipped ↦ rw skipped later
              | inr taken ↦ rw taken (inl h.1.0)
            ])
      | inr open_bits ↦ simp open_bits (elim (Bool-cases (x == 0)) [
        | inl skipped ↦ rw skipped (inr later)
        | inr taken ↦ rw taken (inl h.1.0)
      ])
    ]
