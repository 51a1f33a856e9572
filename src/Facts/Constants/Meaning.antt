-- ===== src/Facts/Constants/Meaning.antt =====
-- Operations on numbers: the patterns that operands of given widths and signs stand for, and the value
-- that folding an operation computes from them.
use rtlzz.Base.{
  ℕ, zero, suc, ◌+◌, ◌-◌, ◌*◌, ◌/◌, ◌%◌, ◌^◌, Bool, not, ◌&&◌, ◌||◌, Option, none, some, ltb, leb,
  ◌==◌, if◌then◌else◌, max, Ordering, bit_and, bit_or, bit_xor, true, false,
}
use rtlzz.Base.Bits.{test_bit}
use rtlzz.Limbs.Order.{order, order_ℤ, to_int}
use rtlzz.Limbs.Resize.{extend}
use rtlzz.Limbs.Divide.{signs_differ}
use rtlzz.Limbs.Divide.Signed.{neg_word, neg_word_if}
use rtlzz.Ir.{OpCode, ValueFacts}
use rtlzz.Facts.Sound.{Describes}

-- The sign of a pattern.
abbrev pub sign_of : ℕ → ℕ → Bool
sign_of zero x = false
sign_of (suc w) x = test_bit x w

-- The `w`-bit pattern of an operand of `m` bits.
abbrev pub operand_value : Bool → ℕ → ℕ → ℕ → ℕ
operand_value signed m w x = extend (signed && sign_of m x) m w x

abbrev pub flag : Bool → ℕ
flag b = if b then 1 else 0

-- The value that folding a unary operation computes, from an operand at the result's width.
abbrev pub unary_value : OpCode → ℕ → ℕ → Option ℕ
unary_value OpCode.logic_not w x = some (flag (x == 0))
unary_value OpCode.bit_not_op w x = some (2 ^ w - 1 - x)
unary_value OpCode.neg w x = some (neg_word w x)
unary_value _ w x = none

abbrev pub quotient_value : Bool → ℕ → ℕ → ℕ → ℕ
quotient_value signed w x y =
    let sx = signed && sign_of w x in
    let sy = signed && sign_of w y in
    neg_word_if (signs_differ sx sy) w (neg_word_if sx w x / neg_word_if sy w y)

abbrev pub remainder_value : Bool → ℕ → ℕ → ℕ → ℕ
remainder_value signed w x y =
    let sx = signed && sign_of w x in
    let sy = signed && sign_of w y in neg_word_if sx w (neg_word_if sx w x % neg_word_if sy w y)

-- A right shift of a negative pattern fills with ones.
abbrev pub shifted_right : Bool → ℕ → ℕ → ℕ → ℕ
shifted_right signed w a x =
    if signed && sign_of w x then 2 ^ w - 1 - (2 ^ w - 1 - x) / 2 ^ a else x / 2 ^ a

-- A shift amount that is wider than 64 bits is not folded.
abbrev pub shift_amount : ℕ → ℕ → Option ℕ
shift_amount width y = if leb width 64 && ltb y (2 ^ 64) then some y else none

-- The value that folding computes from two `w`-bit patterns, for the operations that are neither logic
-- nor comparison.
abbrev pub arithmetic_value : OpCode → ℕ → Bool → Bool → ℕ → ℕ → Option ℕ → Option ℕ
arithmetic_value OpCode.add w ls signed x y amount = some ((x + y) % 2 ^ w)
arithmetic_value OpCode.sub w ls signed x y amount = some ((x + (2 ^ w - y)) % 2 ^ w)
arithmetic_value OpCode.mul w ls signed x y amount = some (x * y % 2 ^ w)
arithmetic_value OpCode.div w ls signed x y amount =
    if y == 0 then none else some (quotient_value signed w x y)
arithmetic_value OpCode.mod_op w ls signed x y amount =
    if y == 0 then none else some (remainder_value signed w x y)
arithmetic_value OpCode.bit_and_op w ls signed x y amount = some (bit_and x y)
arithmetic_value OpCode.bit_or_op w ls signed x y amount = some (bit_or x y)
arithmetic_value OpCode.bit_xor_op w ls signed x y amount = some (bit_xor x y)
arithmetic_value OpCode.shl w ls signed x y none = none
arithmetic_value OpCode.shl w ls signed x y (some a) = some (2 ^ a * x % 2 ^ w)
arithmetic_value OpCode.shr w ls signed x y none = none
arithmetic_value OpCode.shr w ls signed x y (some a) = some (shifted_right ls w a x)
arithmetic_value _ w ls signed x y amount = none

-- The order of two operands: as integers if one of them is signed.
abbrev pub operand_order : Bool → Bool → ℕ → ℕ → ℕ → ℕ → Ordering
operand_order ls rs m n x y =
    let c = max 1 (max m n) in
    if ls || rs
    then order_ℤ (to_int c (operand_value ls m c x)) (to_int c (operand_value rs n c y))
    else order x y

abbrev pub is_less : Ordering → Bool
is_less Ordering.lt = true
is_less _ = false

abbrev pub is_same : Ordering → Bool
is_same Ordering.eq = true
is_same _ = false

abbrev pub comparison_holds : OpCode → Ordering → Bool
comparison_holds OpCode.eq o = is_same o
comparison_holds OpCode.ne o = not (is_same o)
comparison_holds OpCode.lt o = is_less o
comparison_holds OpCode.le o = is_less o || is_same o
comparison_holds OpCode.gt o = not (is_less o || is_same o)
comparison_holds OpCode.ge o = not (is_less o)
comparison_holds _ o = false

abbrev pub logic_holds : OpCode → ℕ → ℕ → Bool
logic_holds OpCode.logic_and x y = not (x == 0 || y == 0)
logic_holds _ x y = not (x == 0 && y == 0)

-- Facts agree with a result if neither is there, or the facts are true of the number.
abbrev pub Agrees : Option ValueFacts → Option ℕ → Type 0
Agrees none none = Unit
Agrees none (some z) = ⊥
Agrees (some f) none = ⊥
Agrees (some f) (some z) = Describes f z
