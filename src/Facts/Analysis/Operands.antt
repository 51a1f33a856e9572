-- ===== src/Facts/Analysis/Operands.antt =====
-- The facts of the operands of a driver, and of what it drives.
use rtlzz.Base.{
  ℕ, ◌%◌, ◌^◌, ◌<◌, ◌≡◌, sym, subst, List, [], ◌∷◌, map, Bool, true, false, Option, none, some,
  get_or, arith, Bool-cases, inl, inr,
}
use rtlzz.Limbs.Value.{All, IsLimbs, value}
use rtlzz.Ir.{Operand, OperandKind, Operation, Signal, ValueFacts, width_of, find_signal}
use rtlzz.Base.{not, ◌||◌, length-map}
use rtlzz.Limbs.{trim}
use rtlzz.Limbs.Loops.{get_bit-zeros}
use rtlzz.Limbs.Trim.{trim-IsWord}
use rtlzz.Limbs.Slices.{get_bit-bit_not}
use rtlzz.Ir.{Constant}
use rtlzz.Facts.{
  facts_unknown, from_constant, make_constant, all_bits_known, set_width, promote_known_constant,
}
use rtlzz.Facts.Sound.{
  Describes, facts_unknown-Describes, from_constant-Describes, promote_known_constant-Describes,
}
use rtlzz.Facts.Within.{IsWithin}
use rtlzz.Facts.Joins.Possible.{DescribeAll}
use rtlzz.Facts.Operation.{infer_operation}
use rtlzz.Facts.Operation.Meaning.{Means, IsCovered}
use rtlzz.Facts.Operation.Settle.{Settles, Settles-IsWithin}
use rtlzz.Facts.Operation.Sound.{infer_operation-Settles}
use rtlzz.Facts.Analysis.{
  operand_facts, facts_by_kind, resolved_by_kind, all_resolved, driver_resolved, driven_facts,
}

-- The number of an operand, from those of the signals and of the ports.
abbrev pub number_by_kind : OperandKind → (ℕ → ℕ) → (Operand → ℕ) → Operand → ℕ
number_by_kind OperandKind.literal numbers ports o = value o.constant.limbs % 2 ^ width_of o.type
number_by_kind OperandKind.symbol numbers ports o = numbers o.node
number_by_kind OperandKind.port numbers ports o = ports o

abbrev pub operand_number : (ℕ → ℕ) → (Operand → ℕ) → Operand → ℕ
operand_number numbers ports o = number_by_kind o.kind numbers ports o

-- The limbs of a literal are 64-bit words, and a port's number has the width of the operation.
abbrev pub IsOperand : (Operand → ℕ) → ℕ → Operand → Type 0
IsOperand ports w o = IsLimbs o.constant.limbs × (ports o < 2 ^ w)

-- The number of a signal with no driver fits its width; that of a driven one is what the driver means
-- on the numbers of its operands, at the widths and signs that the facts of the program give them.
abbrev pub SolvesDriver : List Signal → (ℕ → ℕ) → (Operand → ℕ) → Option Operation → ℕ → ℕ → Type 0
SolvesDriver signals numbers ports none w v = v < 2 ^ w
SolvesDriver signals numbers ports (some op) w v =
    (width_of op.type ≡ w)
    × All (IsOperand ports w) op.operands
    × IsCovered op.kind op (map (operand_facts signals w) op.operands)
        (map (operand_number numbers ports) op.operands) w
    × Means op.kind op (map (operand_facts signals w) op.operands)
        (map (operand_number numbers ports) op.operands) w v

abbrev pub Solves : List Signal → (ℕ → ℕ) → (Operand → ℕ) → Type 0
Solves signals numbers ports =
    (id : ℕ) (s : Signal)
    → find_signal signals id ≡ some s
    → SolvesDriver signals numbers ports s.driver (width_of s.type) (numbers id)

promote_known_constant-IsWithin :
    (f : ValueFacts) → IsWithin f → IsWithin (promote_known_constant f)
unfolding promote_known_constant
promote_known_constant-IsWithin f h = elim (Bool-cases (f.constant || not (all_bits_known f))) [
  | inl same ↦ rw same h
  | inr known ↦ rw known h
]

facts_unknown-IsWithin : (w : ℕ) → IsWithin (facts_unknown w)
unfolding facts_unknown
facts_unknown-IsWithin w i p = ground (arith, get_bit-zeros w i)

pub from_constant-IsWithin : (c : Constant) (w : ℕ) → IsLimbs c.limbs → IsWithin (from_constant c w)
unfolding from_constant make_constant
from_constant-IsWithin c w h i p =
    ground (arith, get_bit-bit_not (trim c.limbs w) w i (trim-IsWord c.limbs w h))

-- The facts are true of the number and mark nothing above their width.
pub record IsTrue (f : ValueFacts) (v : ℕ) : Type 0 where
  pub describes : Describes f v
  pub within : IsWithin f

facts_unknown-IsTrue : (w v : ℕ) → v < 2 ^ w → IsTrue (facts_unknown w) v
facts_unknown-IsTrue w v h = record {
  describes = facts_unknown-Describes w v h;
  within = facts_unknown-IsWithin w;
}

-- A signal with that id is there, and its facts are true of its number.
abbrev pub IsKnown : (ℕ → ℕ) → List Signal → ℕ → Type 0
IsKnown numbers signals id =
    (s : Signal) × (find_signal signals id ≡ some s) × IsTrue s.value (numbers id)

module _ (numbers : ℕ → ℕ) (ports : Operand → ℕ) (signals : List Signal) (resolved : List Bool)
    (known : (id : ℕ) → get_or resolved id false ≡ true → IsKnown numbers signals id) where
  facts_by_kind-IsTrue :
      (kind : OperandKind) (w : ℕ) (o : Operand)
      → IsOperand ports w o
      → resolved_by_kind kind resolved o ≡ true
      → IsTrue (facts_by_kind kind signals w o) (number_by_kind kind numbers ports o)
  facts_by_kind-IsTrue OperandKind.literal w o h r = record {
    describes = from_constant-Describes o.constant (width_of o.type) h.0;
    within = from_constant-IsWithin o.constant (width_of o.type) h.0;
  }
  facts_by_kind-IsTrue OperandKind.port w o h r = facts_unknown-IsTrue w (ports o) h.1
  facts_by_kind-IsTrue OperandKind.symbol w o h r =
      let (s, found, good) = known o.node r in rw found good

  operands-IsTrue :
      (w : ℕ) (os : List Operand)
      → All (IsOperand ports w) os
      → all_resolved resolved os ≡ true
      → All IsWithin (map (operand_facts signals w) os)
        × DescribeAll (map (operand_facts signals w) os) (map (operand_number numbers ports) os)
  unfolding all_resolved operand_facts
  operands-IsTrue w [] h r = (tt, tt)
  operands-IsTrue w (o ∷ os) h r =
      let first = facts_by_kind-IsTrue o.kind w o h.0 (ground arith) in
      let rest = operands-IsTrue w os h.1 (ground arith) in
      ((first.within, rest.0), (first.describes, rest.1))

  pub driven_facts-IsTrue :
      (driver : Option Operation) (w v : ℕ)
      → driver_resolved resolved driver ≡ true
      → SolvesDriver signals numbers ports driver w v
      → IsTrue (driven_facts signals driver w) v
  unfolding driven_facts driver_resolved
  driven_facts-IsTrue none w v r h = facts_unknown-IsTrue w v h
  driven_facts-IsTrue (some op) w v r (e, operands, covered, means) =
      let (within, described) = operands-IsTrue w op.operands operands r in
      let fs = map (operand_facts signals w) op.operands in
      let settles : Settles (infer_operation op fs) w v =
        subst
          (λ m.
            IsCovered op.kind op fs (map (operand_number numbers ports) op.operands) m
            → Means op.kind op fs (map (operand_number numbers ports) op.operands) m v
            → Settles (infer_operation op fs) m v)
          e
          (infer_operation-Settles op fs (map (operand_number numbers ports) op.operands) v
            (sym (length-map (operand_facts signals w) op.operands)) within described)
          covered means in
      rw e (record {
        describes =
            promote_known_constant-Describes (set_width (infer_operation op fs) w) v
              settles.settled;
        within =
            promote_known_constant-IsWithin (set_width (infer_operation op fs) w)
              (Settles-IsWithin (infer_operation op fs) w v settles);
      })
