-- ===== src/Facts/Operation/Sound.antt =====
-- The inference of every operation follows what the operation gives on numbers, where it is covered.
use rtlzz.Base.{ℕ, ◌<◌, ◌≡◌, refl, List, [], ◌∷◌, length}
use mathlib.Core.List.{reverse_aux}
use rtlzz.Limbs.Value.{All}
use rtlzz.Ir.{Operation, OperationKind, ValueFacts, width_of}
use rtlzz.Facts.Within.{IsWithin}
use rtlzz.Facts.Joins.Possible.{DescribeAll}
use rtlzz.Facts.Operation.{infer_kind, infer_operation}
use rtlzz.Facts.Operation.Meaning.{Means, IsCovered}
use rtlzz.Facts.Operation.Settle.{Settles, facts_unknown-Settles, width_of-pos}
use rtlzz.Facts.Operation.Moves.{
  assign-Settles, zext-Settles, sext-Settles, trunc-Settles, slice-Settles, bit_select-Settles,
  concat-Settles, ite-Settles, case-Settles, add_carry-Settles, reduce_or-Settles,
  reduce_and-Settles,
}
use rtlzz.Facts.Operation.Folds.{unary-Settles, binary-Settles}

DescribeAll-reverse_aux :
    (fs gs : List ValueFacts) (xs ys : List ℕ)
    → DescribeAll fs xs
    → DescribeAll gs ys
    → DescribeAll (reverse_aux fs gs) (reverse_aux xs ys)
DescribeAll-reverse_aux [] gs [] ys h k = k
DescribeAll-reverse_aux [] gs (x ∷ xs) ys h k = absurd h
DescribeAll-reverse_aux (f ∷ fs) gs [] ys h k = absurd h
DescribeAll-reverse_aux (f ∷ fs) gs (x ∷ xs) ys h k =
    DescribeAll-reverse_aux fs (f ∷ gs) xs (x ∷ ys) h.1 (h.0, k)

module _ (op : Operation) (w v : ℕ) (pos_w : 0 < w) (fs : List ValueFacts) (xs : List ℕ)
    (l : length op.operands ≡ length fs) (within : All IsWithin fs) (h : DescribeAll fs xs) where
  infer_kind-Settles :
      (kind : OperationKind)
      → IsCovered kind op fs xs w
      → Means kind op fs xs w v
      → Settles (infer_kind kind op fs w) w v
  unfolding infer_kind
  infer_kind-Settles OperationKind.assign c m = assign-Settles w v pos_w fs xs h m
  infer_kind-Settles OperationKind.cast c m = assign-Settles w v pos_w fs xs h m
  infer_kind-Settles OperationKind.zext c m = zext-Settles w v pos_w fs xs h m
  infer_kind-Settles OperationKind.sext c m = sext-Settles w v pos_w fs xs h c m
  infer_kind-Settles OperationKind.trunc c m =
      trunc-Settles w v pos_w fs xs h op.signed_truncation c m
  infer_kind-Settles OperationKind.slice c m = slice-Settles w v pos_w fs xs h op.lo c m
  infer_kind-Settles OperationKind.bit_select c m = bit_select-Settles w v fs xs op.bit pos_w h c m
  infer_kind-Settles OperationKind.concat c m =
      concat-Settles w v pos_w fs xs h (DescribeAll-reverse_aux fs [] xs [] h tt) m
  infer_kind-Settles OperationKind.ite c m = ite-Settles w v pos_w fs xs h m
  infer_kind-Settles OperationKind.case c m = case-Settles w v pos_w fs xs h m
  infer_kind-Settles OperationKind.unary c m =
      unary-Settles op w pos_w c.0 op.operands fs xs v refl l within h c.1 m
  infer_kind-Settles OperationKind.add_carry c m = add_carry-Settles w v pos_w fs xs h c m
  infer_kind-Settles OperationKind.binary c m =
      binary-Settles op w pos_w c.0 op.operands fs xs v refl l within h c.1 m
  infer_kind-Settles OperationKind.reduce_or c m = reduce_or-Settles w v pos_w fs xs h m
  infer_kind-Settles OperationKind.reduce_and c m = reduce_and-Settles w v pos_w fs xs h m
  infer_kind-Settles _ c m = facts_unknown-Settles w v m

-- The facts that are inferred for an operation, from facts of as many operands as it has, which are
-- true of their numbers and mark nothing above their widths, are true of what the operation means on
-- those numbers, once they are brought to its width. The operation has its positions set, adds a carry
-- of 0 or 1, extends a sign of some width, and narrows where it narrows a signed value. Where it is
-- arithmetic it is within 128 bits, its operands are read as signed where their facts are, and folding
-- it is covered.
pub infer_operation-Settles :
    (op : Operation) (fs : List ValueFacts) (xs : List ℕ) (v : ℕ)
    → length op.operands ≡ length fs
    → All IsWithin fs
    → DescribeAll fs xs
    → IsCovered op.kind op fs xs (width_of op.type)
    → Means op.kind op fs xs (width_of op.type) v
    → Settles (infer_operation op fs) (width_of op.type) v
unfolding infer_operation
infer_operation-Settles op fs xs v l within h c m =
    infer_kind-Settles op (width_of op.type) v (width_of-pos op.type) fs xs l within h op.kind c m
