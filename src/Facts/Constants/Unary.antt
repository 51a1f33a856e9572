-- ===== src/Facts/Constants/Unary.antt =====
-- Folding a unary operation gives facts that are true of the operation's value.
use rtlzz.Base.{ℕ, ◌-◌, ◌^◌, ◌≤◌, ◌≡◌, refl, List, ◌∷◌, Bool, true, false, not, ◌==◌}
use rtlzz.Limbs.{any_bit_set, zeros, bit_not, sub_bits, resize_bits}
use rtlzz.Limbs.Value.{value, IsWord}
use rtlzz.Limbs.AnyBit.{any_bit_set-value}
use rtlzz.Limbs.Slices.{value-bit_not, bit_not-IsWord}
use rtlzz.Limbs.Difference.{sub_bits-IsWord}
use rtlzz.Limbs.Divide.{negate}
use rtlzz.Limbs.Divide.Signed.{value-negate}
use rtlzz.Ir.{OpCode, Operand, Operation, ValueFacts}
use rtlzz.Facts.Sound.{Describes}
use rtlzz.Facts.Constants.{fold_unary, unary_constant, infer_unary_constant}
use rtlzz.Facts.Constants.Meaning.{Agrees, unary_value, operand_value}
use rtlzz.Facts.Constants.Agreement.{operand_signed-views, unary_value-result}
use rtlzz.Facts.Constants.Result.{
  views_signed, IsViewed, IsUnaryCovered, unary_result, IsSignedAs, unary_signed,
}
use rtlzz.Facts.Constants.Words.{
  word-Describes, bool_constant-Describes, bool_constant-unsigned, constant_bits-signed,
  resized-value, resized-IsWord,
}

not-not : (b : Bool) → not (not b) ≡ b
not-not true = refl
not-not false = refl

fold_unary-Agrees :
    (code : OpCode) (xs : List ℕ) (w : ℕ) (signed : Bool)
    → w ≤ 128
    → IsWord w xs
    → Agrees (fold_unary code xs w signed) (unary_value code w (value xs))
unfolding fold_unary
fold_unary-Agrees OpCode.logic_not xs w signed short h =
    rw (any_bit_set-value xs w h.limbs h.fits, not-not (value xs == 0))
      (bool_constant-Describes (value xs == 0))
fold_unary-Agrees OpCode.bit_not_op xs w signed short h =
    word-Describes (bit_not xs w) w (2 ^ w - 1 - value xs) signed (bit_not-IsWord xs w)
      (value-bit_not xs w h)
fold_unary-Agrees OpCode.neg xs w signed short h =
    word-Describes (sub_bits (zeros w) xs w) w _ signed (sub_bits-IsWord (zeros w) xs w)
      (unfold negate in value-negate w short xs h)
fold_unary-Agrees _ xs w signed short h = tt

unary_constant-Agrees :
    (code : OpCode) (f : ValueFacts) (signed : Bool) (w x : ℕ)
    → w ≤ 128
    → f.constant ≡ true
    → Describes f x
    → Agrees
        (unary_constant code f signed w)
        (unary_value code w (operand_value signed f.width w x))
unfolding unary_constant
unary_constant-Agrees code f signed w x short fixed h =
    rw (fixed, ← resized-value f x w signed h fixed)
      (fold_unary-Agrees code (resize_bits f.value.limbs f.width w signed) w signed short
        (resized-IsWord f x w signed h))

fold_unary-IsSignedAs :
    (code : OpCode) (xs : List ℕ) (w : ℕ) (signed : Bool)
    → IsSignedAs (fold_unary code xs w signed) (unary_signed code signed)
unfolding fold_unary
fold_unary-IsSignedAs OpCode.logic_not xs w signed = bool_constant-unsigned (not (any_bit_set xs w))
fold_unary-IsSignedAs OpCode.bit_not_op xs w signed = constant_bits-signed (bit_not xs w) w signed
fold_unary-IsSignedAs OpCode.neg xs w signed =
    constant_bits-signed (sub_bits (zeros w) xs w) w signed
fold_unary-IsSignedAs _ xs w signed = tt

-- Folding a unary operation with a constant operand, read as signed where its facts are signed, at a
-- result width of at most 128 bits, where `!` does not narrow the operand and the others do not widen
-- a signed one, gives facts that are true of the operation's result, and gives nothing for an
-- operation that is not unary. What it gives is signed as the operand is, and a truth value unsigned.
pub infer_unary_constant-Agrees :
    (op : Operation) (operand : Operand) (rest : List Operand) (f : ValueFacts)
    (facts : List ValueFacts) (w x : ℕ)
    → op.operands ≡ operand ∷ rest
    → w ≤ 128
    → IsViewed operand f
    → IsUnaryCovered op.op (views_signed operand) f.width w
    → f.constant ≡ true
    → Describes f x
    → Agrees (infer_unary_constant op (f ∷ facts) w) (unary_result op.op w x)
      × IsSignedAs
          (infer_unary_constant op (f ∷ facts) w)
          (unary_signed op.op (views_signed operand))
unfolding infer_unary_constant unary_constant
infer_unary_constant-Agrees op operand rest f facts w x e short view c fixed h =
    let s = views_signed operand in
    rw (e, operand_signed-views operand f view, ← unary_value-result op.op s f.width w x c h.fits)
      (
        unary_constant-Agrees op.op f s w x short fixed h,
        rw fixed (fold_unary-IsSignedAs op.op (resize_bits f.value.limbs f.width w s) w s),
      )
