-- ===== src/Facts/Operation/Meaning.antt =====
-- What an operation gives on numbers, and where the inference is claimed to follow it.
use rtlzz.Base.{
  ℕ, ◌-◌, ◌/◌, ◌%◌, ◌^◌, ◌≤◌, ◌<◌, ◌≡◌, List, [], ◌∷◌, true, not, ◌==◌, Option, none, some,
  if◌then◌else◌,
}
use rtlzz.Base.Int.{ℤ, pos, negsuc}
use mathlib.Core.List.{reverse}
use rtlzz.Ir.{OpCode, Operand, Operation, OperationKind, ValueFacts}
use rtlzz.Facts.Extend.{sext_value}
use rtlzz.Facts.Narrow.{narrow_value, bit_value}
use rtlzz.Facts.Constants.Meaning.{flag}
use rtlzz.Facts.Constants.Result.{
  views_signed, IsViewed, unary_result, binary_result, IsUnaryCovered, IsBinaryCovered,
}
use rtlzz.Facts.Joins.Possible.{case_value}
use rtlzz.Facts.Parts.Concat.{concat_value}
use rtlzz.Facts.Parts.Carry.{carry_value}

-- A statement about the first operand, where there is one.
abbrev pub OnFirst : (ValueFacts → ℕ → Type 0) → Type 0 → List ValueFacts → List ℕ → Type 0
OnFirst P D (f ∷ fs) (x ∷ xs) = P f x
OnFirst P D _ _ = D

abbrev pub OnThree :
    (ValueFacts → ValueFacts → ValueFacts → ℕ → ℕ → ℕ → Type 0)
    → Type 0
    → List ValueFacts
    → List ℕ
    → Type 0
OnThree P D (f ∷ g ∷ h ∷ []) (x ∷ y ∷ z ∷ []) = P f g h x y z
OnThree P D _ _ = D

-- The number that an operation gives; any number of the width where it gives none.
abbrev pub Gives : Option ℕ → ℕ → ℕ → Type 0
Gives none width v = v < 2 ^ width
Gives (some z) width v = v ≡ z

abbrev pub GivesUnary : Operation → List Operand → List ValueFacts → List ℕ → ℕ → ℕ → Type 0
GivesUnary op (o ∷ os) (f ∷ fs) (x ∷ xs) width v = Gives (unary_result op.op width x) width v
GivesUnary op _ _ _ width v = v < 2 ^ width

abbrev pub GivesBinary : Operation → List Operand → List ValueFacts → List ℕ → ℕ → ℕ → Type 0
GivesBinary op (o ∷ p ∷ os) (f ∷ g ∷ fs) (x ∷ y ∷ xs) width v =
    Gives (binary_result op.op (views_signed o) (views_signed p) f.width g.width width x y) width v
GivesBinary op _ _ _ width v = v < 2 ^ width

abbrev pub GivesSlice : ℤ → ℕ → ℕ → ℕ → Type 0
GivesSlice (pos k) width x v = v ≡ x / 2 ^ k % 2 ^ width
GivesSlice (negsuc k) width x v = v < 2 ^ width

abbrev pub GivesBit : ℤ → ℕ → ℕ → ℕ → Type 0
GivesBit (pos k) width x v = v ≡ bit_value x k
GivesBit (negsuc k) width x v = v < 2 ^ width

-- `Means kind op fs xs width v`: on operands `xs` of the widths of `fs`, the operation's result is `v`.
-- Operations that are not inferred may give any number of the width.
abbrev pub Means : OperationKind → Operation → List ValueFacts → List ℕ → ℕ → ℕ → Type 0
Means OperationKind.assign op fs xs width v =
    OnFirst (λ f x. v ≡ x % 2 ^ width) (v < 2 ^ width) fs xs
Means OperationKind.cast op fs xs width v = OnFirst (λ f x. v ≡ x % 2 ^ width) (v < 2 ^ width) fs xs
Means OperationKind.zext op fs xs width v = OnFirst (λ f x. v ≡ x % 2 ^ width) (v < 2 ^ width) fs xs
Means OperationKind.sext op fs xs width v =
    OnFirst (λ f x. v ≡ sext_value f.width width x) (v < 2 ^ width) fs xs
Means OperationKind.trunc op fs xs width v =
    OnFirst
      (λ f x. v ≡ (if op.signed_truncation then narrow_value f.width width x else x % 2 ^ width))
      (v < 2 ^ width) fs xs
Means OperationKind.slice op fs xs width v =
    OnFirst (λ f x. GivesSlice op.lo width x v) (v < 2 ^ width) fs xs
Means OperationKind.bit_select op fs xs width v =
    OnFirst (λ f x. GivesBit op.bit width x v) (v < 2 ^ width) fs xs
Means OperationKind.concat op fs xs width v = v ≡ concat_value (reverse fs) (reverse xs) % 2 ^ width
Means OperationKind.ite op fs xs width v =
    OnThree (λ c f g b x y. v ≡ (if b == 0 then y else x) % 2 ^ width) (v < 2 ^ width) fs xs
Means OperationKind.case op fs xs width v = v ≡ case_value xs % 2 ^ width
Means OperationKind.unary op fs xs width v = GivesUnary op op.operands fs xs width v
Means OperationKind.add_carry op fs xs width v =
    OnThree (λ f g h x y z. v ≡ carry_value width f.width g.width h.width x y z) (v < 2 ^ width) fs
      xs
Means OperationKind.binary op fs xs width v = GivesBinary op op.operands fs xs width v
Means OperationKind.reduce_or op fs xs width v =
    OnFirst (λ f x. v ≡ flag (not (x == 0))) (v < 2 ^ width) fs xs
Means OperationKind.reduce_and op fs xs width v =
    OnFirst (λ f x. v ≡ flag (x == 2 ^ f.width - 1)) (v < 2 ^ width) fs xs
Means _ op fs xs width v = v < 2 ^ width

abbrev pub IsPosition : ℤ → Type 0
IsPosition (pos k) = Unit
IsPosition (negsuc k) = ⊥

-- Operands that are read as signed where their facts are, and an operation on them that is covered.
abbrev pub CoversUnary : OpCode → List Operand → List ValueFacts → ℕ → Type 0
CoversUnary code (o ∷ os) (f ∷ fs) width =
    IsViewed o f × IsUnaryCovered code (views_signed o) f.width width
CoversUnary code _ _ width = Unit

abbrev pub CoversBinary : OpCode → List Operand → List ValueFacts → List ℕ → ℕ → Type 0
CoversBinary code (o ∷ p ∷ os) (f ∷ g ∷ fs) (x ∷ y ∷ xs) width =
    IsViewed o f
    × IsViewed p g
    × IsBinaryCovered code (views_signed o) (views_signed p) f.width g.width width x y g.value.width
CoversBinary code _ _ _ width = Unit

-- Positions are set, arithmetic is within 128 bits and covered, a carry is 0 or 1, a sign extension has
-- a width to extend and a signed narrowing narrows.
abbrev pub IsCovered : OperationKind → Operation → List ValueFacts → List ℕ → ℕ → Type 0
IsCovered OperationKind.sext op fs xs width = OnFirst (λ f x. 0 < f.width) Unit fs xs
IsCovered OperationKind.trunc op fs xs width =
    OnFirst (λ f x. op.signed_truncation ≡ true → width < f.width) Unit fs xs
IsCovered OperationKind.slice op fs xs width = IsPosition op.lo
IsCovered OperationKind.bit_select op fs xs width = IsPosition op.bit
IsCovered OperationKind.unary op fs xs width =
    (width ≤ 128) × CoversUnary op.op op.operands fs width
IsCovered OperationKind.binary op fs xs width =
    (width ≤ 128) × CoversBinary op.op op.operands fs xs width
IsCovered OperationKind.add_carry op fs xs width = OnThree (λ f g h x y z. z < 2) Unit fs xs
IsCovered _ op fs xs width = Unit
