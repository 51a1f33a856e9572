-- ===== src/Facts/Constants/Binary/Tests.antt =====
-- The logic operations and the comparisons of two constants.
use rtlzz.Base.{
  ℕ, ◌^◌, ◌≤◌, ◌<◌, ◌≡◌, ◌∙◌, refl, ap, ap₂, Bool, true, false, not, ◌==◌, arith, max, Ordering,
}
use rtlzz.Base.Bits.{pow_mono}
use rtlzz.Limbs.{any_bit_set, resize_bits, compare_signed, compare_unsigned}
use rtlzz.Limbs.AnyBit.{any_bit_set-value}
use rtlzz.Limbs.Order.{order, order_ℤ, to_int, compare_signed-value, compare_unsigned-value}
use rtlzz.Limbs.Resize.{extend}
use rtlzz.Ir.{OpCode, ValueFacts}
use rtlzz.Facts.Sound.{Describes}
use rtlzz.Facts.Constants.{fold_comparison, comparison_result, fold_logic}
use rtlzz.Facts.Constants.Meaning.{comparison_holds, logic_holds, operand_value, operand_order}
use rtlzz.Facts.Constants.Words.{resized-value, resized-IsWord}
use native.Mathlib.Nat.{mod-eq_of_lt}

pub comparison_result-holds :
    (code : OpCode) (o : Ordering) → comparison_result code o ≡ comparison_holds code o
unfolding comparison_result
comparison_result-holds OpCode.eq Ordering.lt = refl
comparison_result-holds OpCode.eq Ordering.eq = refl
comparison_result-holds OpCode.eq Ordering.gt = refl
comparison_result-holds OpCode.ne Ordering.lt = refl
comparison_result-holds OpCode.ne Ordering.eq = refl
comparison_result-holds OpCode.ne Ordering.gt = refl
comparison_result-holds OpCode.lt Ordering.lt = refl
comparison_result-holds OpCode.lt Ordering.eq = refl
comparison_result-holds OpCode.lt Ordering.gt = refl
comparison_result-holds OpCode.le Ordering.lt = refl
comparison_result-holds OpCode.le Ordering.eq = refl
comparison_result-holds OpCode.le Ordering.gt = refl
comparison_result-holds OpCode.gt Ordering.lt = refl
comparison_result-holds OpCode.gt Ordering.eq = refl
comparison_result-holds OpCode.gt Ordering.gt = refl
comparison_result-holds OpCode.ge Ordering.lt = refl
comparison_result-holds OpCode.ge Ordering.eq = refl
comparison_result-holds OpCode.ge Ordering.gt = refl
comparison_result-holds _ o = refl

pub fold_logic-holds :
    (code : OpCode) (x y : ℕ) → fold_logic code (not (x == 0)) (not (y == 0)) ≡ logic_holds code x y
unfolding fold_logic
fold_logic-holds OpCode.logic_and x y = ground arith
fold_logic-holds _ x y = ground arith

pub any_bit_set-constant :
    (f : ValueFacts) (x : ℕ)
    → Describes f x
    → f.constant ≡ true
    → any_bit_set f.value.limbs f.width ≡ not (x == 0)
any_bit_set-constant f x h fixed =
    any_bit_set-value f.value.limbs f.width h.value_limbs (rw (h.exact fixed) h.fits)
    ∙ rw (h.exact fixed)

-- Zero extension keeps a pattern.
extend-unsigned : (m w x : ℕ) → x < 2 ^ m → m ≤ w → extend false m w x ≡ x
unfolding extend
extend-unsigned m w x h p = ground (arith, mod-eq_of_lt {n = x} {m = 2 ^ w}, pow_mono m w p)

module _ (f g : ValueFacts) (x y : ℕ) (hf : Describes f x) (hg : Describes g y)
    (cf : f.constant ≡ true) (cg : g.constant ≡ true) where
  signed_order :
      (ls rs : Bool) (c : ℕ)
      → 0 < c
      → compare_signed
          (resize_bits f.value.limbs f.width c ls)
          (resize_bits g.value.limbs g.width c rs)
          c
        ≡ order_ℤ
            (to_int c (operand_value ls f.width c x))
            (to_int c (operand_value rs g.width c y))
  signed_order ls rs c p =
      compare_signed-value (resize_bits f.value.limbs f.width c ls)
        (resize_bits g.value.limbs g.width c rs) c p (resized-IsWord f x c ls hf)
        (resized-IsWord g y c rs hg)
      ∙ rw (resized-value f x c ls hf cf, resized-value g y c rs hg cg)

  unsigned_order :
      (c : ℕ)
      → f.width ≤ c
      → g.width ≤ c
      → compare_unsigned
          (resize_bits f.value.limbs f.width c false)
          (resize_bits g.value.limbs g.width c false)
          c
        ≡ order x y
  unsigned_order c p q =
      let lhs = resized-IsWord f x c false hf in
      let rhs = resized-IsWord g y c false hg in
      compare_unsigned-value (resize_bits f.value.limbs f.width c false)
        (resize_bits g.value.limbs g.width c false) c lhs.limbs rhs.limbs
      ∙ ap₂ order
          (mod-eq_of_lt lhs.fits
            ∙ resized-value f x c false hf cf
            ∙ extend-unsigned f.width c x hf.fits p)
          (mod-eq_of_lt rhs.fits
            ∙ resized-value g y c false hg cg
            ∙ extend-unsigned g.width c y hg.fits q)

  pub fold_comparison-value :
      (code : OpCode) (ls rs : Bool)
      → fold_comparison code f g ls rs
        ≡ comparison_result code (operand_order ls rs f.width g.width x y)
  unfolding fold_comparison
  fold_comparison-value code false false =
      ap (comparison_result code)
        (unsigned_order (max 1 (max f.width g.width)) (omega arith) (omega arith))
  fold_comparison-value code false true =
      ap (comparison_result code)
        (signed_order false true (max 1 (max f.width g.width)) (omega arith))
  fold_comparison-value code true false =
      ap (comparison_result code)
        (signed_order true false (max 1 (max f.width g.width)) (omega arith))
  fold_comparison-value code true true =
      ap (comparison_result code)
        (signed_order true true (max 1 (max f.width g.width)) (omega arith))
