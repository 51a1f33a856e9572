-- ===== src/Facts/Operation/Fits.antt =====
-- The values of unary and binary operations fit the width of the result.
use rtlzz.Base.{
  ℕ, ◌+◌, ◌-◌, ◌*◌, ◌/◌, ◌%◌, ◌^◌, ◌<◌, Bool, true, false, ◌&&◌, ◌||◌, ◌==◌, Option, none, some,
  arith, Bool-cases, inl, inr, if◌then◌else◌,
}
use rtlzz.Ir.{OpCode}
use rtlzz.Facts.Constants.{is_logic, is_comparison}
use rtlzz.Facts.Constants.Meaning.{
  operand_value, unary_value, flag, sign_of, quotient_value, remainder_value, shifted_right,
  arithmetic_value, shift_amount, comparison_holds, logic_holds, operand_order,
}
use rtlzz.Facts.Extend.{extend-lt}
use rtlzz.Limbs.Divide.{signs_differ}
use rtlzz.Limbs.Divide.Signed.{neg_word_if}
use rtlzz.Base.Bits.{pow_pos, bit_and-lt, bit_or-lt, bit_xor-lt}
use native.Mathlib.Nat.{mod-lt, mod-le, div-le_self}
use rtlzz.Facts.Constants.Agreement.{binary_value}
use rtlzz.Facts.Operation.Meaning.{Gives}
use rtlzz.Facts.Operation.Settle.{one_bit}

-- A value of the width, if there is one.
abbrev pub Fits : Option ℕ → ℕ → Type 0
Fits none w = Unit
Fits (some z) w = z < 2 ^ w

pub flag-lt : (w : ℕ) (b : Bool) → 0 < w → flag b < 2 ^ w
flag-lt w true h = omega (arith, one_bit w h)
flag-lt w false h = omega (arith, one_bit w h)

pub unary_value-Fits : (code : OpCode) (w x : ℕ) → 0 < w → Fits (unary_value code w x) w
unary_value-Fits OpCode.logic_not w x h = flag-lt w (x == 0) h
unary_value-Fits OpCode.bit_not_op w x h = omega (arith, pow_pos w)
unary_value-Fits OpCode.neg w x h = mod-lt (2 ^ w - x) (pow_pos w)
unary_value-Fits _ w x h = tt

neg_word_if-lt : (b : Bool) (w x : ℕ) → x < 2 ^ w → neg_word_if b w x < 2 ^ w
neg_word_if-lt true w x h = mod-lt (2 ^ w - x) (pow_pos w)
neg_word_if-lt false w x h = h

shifted_right-lt : (b : Bool) (w a x : ℕ) → x < 2 ^ w → shifted_right b w a x < 2 ^ w
shifted_right-lt b w a x h = elim (Bool-cases (b && sign_of w x)) [
  | inl negative ↦ rw negative (omega (arith, pow_pos w))
  | inr positive ↦ rw positive (omega (arith, div-le_self x (2 ^ a)))
]

if-Fits : (b : Bool) (w z : ℕ) → z < 2 ^ w → Fits (if b then none else some z) w
if-Fits true w z h = tt
if-Fits false w z h = h

arithmetic_value-Fits :
    (code : OpCode) (w : ℕ) (ls signed : Bool) (x y : ℕ) (amount : Option ℕ)
    → x < 2 ^ w
    → y < 2 ^ w
    → Fits (arithmetic_value code w ls signed x y amount) w
arithmetic_value-Fits OpCode.add w ls signed x y amount p q = mod-lt (x + y) (pow_pos w)
arithmetic_value-Fits OpCode.sub w ls signed x y amount p q = mod-lt (x + (2 ^ w - y)) (pow_pos w)
arithmetic_value-Fits OpCode.mul w ls signed x y amount p q = mod-lt (x * y) (pow_pos w)
arithmetic_value-Fits OpCode.div w ls signed x y amount p q =
    let sx = signed && sign_of w x in
    let sy = signed && sign_of w y in
    let a = neg_word_if sx w x in
    let b = neg_word_if sy w y in
    if-Fits (y == 0) w (quotient_value signed w x y) (
      neg_word_if-lt (signs_differ sx sy) w (a / b)
        (omega (arith, div-le_self a b, neg_word_if-lt sx w x p)))
arithmetic_value-Fits OpCode.mod_op w ls signed x y amount p q =
    let sx = signed && sign_of w x in
    let sy = signed && sign_of w y in
    let a = neg_word_if sx w x in
    let b = neg_word_if sy w y in
    if-Fits (y == 0) w (remainder_value signed w x y)
      (neg_word_if-lt sx w (a % b) (omega (arith, mod-le a b, neg_word_if-lt sx w x p)))
arithmetic_value-Fits OpCode.bit_and_op w ls signed x y amount p q = bit_and-lt w x y p
arithmetic_value-Fits OpCode.bit_or_op w ls signed x y amount p q = bit_or-lt w x y p q
arithmetic_value-Fits OpCode.bit_xor_op w ls signed x y amount p q = bit_xor-lt w x y p q
arithmetic_value-Fits OpCode.shl w ls signed x y none p q = tt
arithmetic_value-Fits OpCode.shl w ls signed x y (some a) p q = mod-lt (2 ^ a * x) (pow_pos w)
arithmetic_value-Fits OpCode.shr w ls signed x y none p q = tt
arithmetic_value-Fits OpCode.shr w ls signed x y (some a) p q = shifted_right-lt ls w a x p
arithmetic_value-Fits _ w ls signed x y amount p q = tt

operand_value-lt : (s : Bool) (m w x : ℕ) → x < 2 ^ m → operand_value s m w x < 2 ^ w
operand_value-lt s m w x h = extend-lt (s && sign_of m x) m w x h

pub binary_value-Fits :
    (code : OpCode) (ls rs : Bool) (m n w x y k : ℕ)
    → 0 < w
    → x < 2 ^ m
    → y < 2 ^ n
    → Fits (binary_value code ls rs m n w x y k) w
binary_value-Fits code ls rs m n w x y k h p q = elim (Bool-cases (is_logic code)) [
  | inl logic ↦ rw logic (flag-lt w (logic_holds code x y) h)
  | inr other ↦ rw other (elim (Bool-cases (is_comparison code)) [
    | inl comparison ↦
        rw comparison (flag-lt w (comparison_holds code (operand_order ls rs m n x y)) h)
    | inr arithmetic ↦ rw arithmetic (
        arithmetic_value-Fits code w ls (ls || rs) (operand_value ls m w x) (operand_value rs n w y)
          (shift_amount k y) (operand_value-lt ls m w x p) (operand_value-lt rs n w y q))
  ])
]

pub Gives-lt : (m : Option ℕ) (w v : ℕ) → Fits m w → Gives m w v → v < 2 ^ w
Gives-lt none w v h g = g
Gives-lt (some z) w v h g = omega arith
