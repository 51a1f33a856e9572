-- ===== src/Facts/Constants/Binary.antt =====
-- Folding a binary operation gives facts that are true of the operation's value.
pub mod Division
pub mod Arithmetic
pub mod Tests
use rtlzz.Base.{
  ℕ, ◌+◌, ◌^◌, ◌≤◌, ◌<◌, ◌≡◌, refl, List, [], ◌∷◌, Bool, true, false, not, ◌||◌, ◌==◌, Option, none,
  some, arith, Bool-cases, inl, inr, if◌then◌else◌,
}
use rtlzz.Limbs.{any_bit_set, resize_bits}
use rtlzz.Limbs.Divide.{DivMod}
use rtlzz.Facts.{constant_bits}
use rtlzz.Ir.{OpCode, Operand, Operation, ValueFacts}
use rtlzz.Facts.Sound.{Describes}
use rtlzz.Facts.Constants.{
  div_mod, constant_to_u64, fold_binary, fold_logic, is_logic, is_comparison, comparison_result,
  binary_constant, infer_binary_constant,
}
use rtlzz.Facts.Constants.Meaning.{
  comparison_holds, logic_holds, Agrees, arithmetic_value, operand_value, operand_order,
  shift_amount, flag,
}
use rtlzz.Facts.Constants.Words.{
  constant_bits-signed, bool_constant-unsigned, bool_constant-Describes, resized-value,
  resized-IsWord, constant_to_u64-shift_amount,
}
use rtlzz.Facts.Constants.Agreement.{
  binary_value, operand_signed-views, binary_value-result, IsBinaryCovered-bound,
}
use rtlzz.Facts.Constants.Result.{
  views_signed, IsViewed, IsBinaryCovered, binary_result, IsSignedAs, binary_signed,
}
use rtlzz.Facts.Constants.Binary.Arithmetic.{fold_binary-Agrees}
use rtlzz.Facts.Constants.Binary.Tests.{
  comparison_result-holds, fold_logic-holds, any_bit_set-constant, fold_comparison-value,
}

shift_amount-lem : (m y a : ℕ) → shift_amount m y ≡ some a → a ≡ y
shift_amount-lem m y a e = ground arith

binary_constant-Agrees :
    (code : OpCode) (f g : ValueFacts) (ls rs : Bool) (w x y : ℕ)
    → w ≤ 128
    → (code ≡ OpCode.shr → y + w ≤ 2 ^ 64)
    → f.constant ≡ true
    → g.constant ≡ true
    → Describes f x
    → Describes g y
    → Agrees
        (binary_constant code f g ls rs w)
        (binary_value code ls rs f.width g.width w x y g.value.width)
unfolding binary_constant
binary_constant-Agrees code f g ls rs w x y short bound cf cg hf hg =
    simp (cf, cg)
      (elim (Bool-cases (is_logic code)) [
        | inl logic ↦
            rw
              (
                logic,
                any_bit_set-constant f x hf cf,
                any_bit_set-constant g y hg cg,
                ← fold_logic-holds code x y,
              )
              (bool_constant-Describes (fold_logic code (not (x == 0)) (not (y == 0))))
        | inr other ↦ rw other (elim (Bool-cases (is_comparison code)) [
          | inl comparison ↦
              rw
                (
                  comparison,
                  fold_comparison-value f g x y hf hg cf cg code ls rs,
                  ← comparison_result-holds code (operand_order ls rs f.width g.width x y),
                )
                (bool_constant-Describes
                  (comparison_result code (operand_order ls rs f.width g.width x y)))
          | inr arithmetic ↦
              rw
                (
                  arithmetic,
                  constant_to_u64-shift_amount g y hg cg,
                  ← resized-value f x w ls hf cf,
                  ← resized-value g y w rs hg cg,
                )
                (fold_binary-Agrees code (resize_bits f.value.limbs f.width w ls)
                  (resize_bits g.value.limbs g.width w rs) w ls (ls || rs)
                  (shift_amount g.value.width y) short
                  (λ c a e. rw (shift_amount-lem g.value.width y a e) (bound c))
                  (resized-IsWord f x w ls hf) (resized-IsWord g y w rs hg))
        ])
      ])

divided-IsSignedAs :
    (d : Option DivMod) (part : DivMod → List ℕ) (w : ℕ) (signed : Bool)
    → IsSignedAs (elim d [ none ↦ none | some q ↦ some (constant_bits (part q) w signed) ]) signed
divided-IsSignedAs none part w signed = tt
divided-IsSignedAs (some d) part w signed = constant_bits-signed (part d) w signed

fold_binary-IsSignedAs :
    (code : OpCode) (l r : List ℕ) (w : ℕ) (ls rs : Bool) (amount : Option ℕ)
    → IsSignedAs (fold_binary code l r w ls (ls || rs) amount) (binary_signed code ls rs)
unfolding fold_binary
fold_binary-IsSignedAs OpCode.div l r w ls rs amount =
    divided-IsSignedAs (div_mod l r w (ls || rs)) (λ d. d.quotient) w (ls || rs)
fold_binary-IsSignedAs OpCode.mod_op l r w ls rs amount =
    divided-IsSignedAs (div_mod l r w (ls || rs)) (λ d. d.remainder) w (ls || rs)
fold_binary-IsSignedAs OpCode.shl l r w ls rs none = tt
fold_binary-IsSignedAs OpCode.shl l r w ls rs (some a) = constant_bits-signed _ w ls
fold_binary-IsSignedAs OpCode.shr l r w ls rs none = tt
fold_binary-IsSignedAs OpCode.shr l r w ls rs (some a) = constant_bits-signed _ w ls
fold_binary-IsSignedAs OpCode.add l r w ls rs amount = constant_bits-signed _ w (ls || rs)
fold_binary-IsSignedAs OpCode.sub l r w ls rs amount = constant_bits-signed _ w (ls || rs)
fold_binary-IsSignedAs OpCode.mul l r w ls rs amount = constant_bits-signed _ w (ls || rs)
fold_binary-IsSignedAs OpCode.bit_and_op l r w ls rs amount = constant_bits-signed _ w (ls || rs)
fold_binary-IsSignedAs OpCode.bit_or_op l r w ls rs amount = constant_bits-signed _ w (ls || rs)
fold_binary-IsSignedAs OpCode.bit_xor_op l r w ls rs amount = constant_bits-signed _ w (ls || rs)
fold_binary-IsSignedAs _ l r w ls rs amount = tt

logic-unsigned :
    (code : OpCode) (ls rs : Bool) → is_logic code ≡ true → binary_signed code ls rs ≡ false
logic-unsigned OpCode.logic_and ls rs e = refl
logic-unsigned OpCode.logic_or ls rs e = refl
logic-unsigned _ ls rs e = cc

comparison-unsigned :
    (code : OpCode) (ls rs : Bool) → is_comparison code ≡ true → binary_signed code ls rs ≡ false
comparison-unsigned OpCode.eq ls rs e = refl
comparison-unsigned OpCode.ne ls rs e = refl
comparison-unsigned OpCode.lt ls rs e = refl
comparison-unsigned OpCode.le ls rs e = refl
comparison-unsigned OpCode.gt ls rs e = refl
comparison-unsigned OpCode.ge ls rs e = refl
comparison-unsigned _ ls rs e = cc

binary_constant-IsSignedAs :
    (code : OpCode) (f g : ValueFacts) (ls rs : Bool) (w : ℕ)
    → f.constant ≡ true
    → g.constant ≡ true
    → IsSignedAs (binary_constant code f g ls rs w) (binary_signed code ls rs)
unfolding binary_constant
binary_constant-IsSignedAs code f g ls rs w cf cg =
    simp (cf, cg)
      (elim (Bool-cases (is_logic code)) [
        | inl logic ↦ rw (logic, logic-unsigned code ls rs logic) (bool_constant-unsigned _)
        | inr other ↦ rw other (elim (Bool-cases (is_comparison code)) [
          | inl comparison ↦
              rw (comparison, comparison-unsigned code ls rs comparison) (bool_constant-unsigned _)
          | inr arithmetic ↦ rw arithmetic (
              fold_binary-IsSignedAs code (resize_bits f.value.limbs f.width w ls)
                (resize_bits g.value.limbs g.width w rs) w ls rs (constant_to_u64 g))
        ])
      ])

-- Folding a binary operation with two constant operands, each read as signed where its facts are
-- signed, at a result width of at most 128 bits, where it is covered (a division does not narrow, a
-- bitwise operation does not widen a signed operand, a shift keeps the operand's width, its amount has
-- 64 bits and does not wrap a right shift nor shift out a negative operand), gives facts that are
-- true of the operation's result, and gives nothing exactly where that has none: a division by zero,
-- or an operation that is not binary. What it gives is signed as the operands say.
pub infer_binary_constant-Agrees :
    (op : Operation) (lhs rhs : Operand) (rest : List Operand) (f g : ValueFacts)
    (facts : List ValueFacts) (w x y : ℕ)
    → op.operands ≡ lhs ∷ rhs ∷ rest
    → w ≤ 128
    → IsViewed lhs f
    → IsViewed rhs g
    → IsBinaryCovered op.op
        (views_signed lhs)
        (views_signed rhs)
        f.width
        g.width
        w
        x
        y
        g.value.width
    → f.constant ≡ true
    → g.constant ≡ true
    → Describes f x
    → Describes g y
    → Agrees
        (infer_binary_constant op (f ∷ g ∷ facts) w)
        (binary_result op.op (views_signed lhs) (views_signed rhs) f.width g.width w x y)
      × IsSignedAs
          (infer_binary_constant op (f ∷ g ∷ facts) w)
          (binary_signed op.op (views_signed lhs) (views_signed rhs))
unfolding infer_binary_constant
infer_binary_constant-Agrees op lhs rhs rest f g facts w x y e short vl vr c cf cg hf hg =
    let ls = views_signed lhs in
    let rs = views_signed rhs in
    rw
      (
        e,
        operand_signed-views lhs f vl,
        operand_signed-views rhs g vr,
        ← binary_value-result op.op ls rs f.width g.width w x y g.value.width c hf.fits hg.fits,
      )
      (
        binary_constant-Agrees op.op f g ls rs w x y short
            (IsBinaryCovered-bound op.op ls rs f.width g.width w x y g.value.width c) cf cg hf hg,
        binary_constant-IsSignedAs op.op f g ls rs w cf cg,
      )
