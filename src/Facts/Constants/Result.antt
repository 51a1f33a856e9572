-- ===== src/Facts/Constants/Result.antt =====
-- The results of unary and binary operations on numbers, as `Evaluator` of src/backend/pipeline_reset.cpp
-- computes them; the shifts, `!` and the bitwise operations are also those of src/backend/rtlgen.cpp. Signs
-- belong to operands (src/s8opnorm/checklist.md), never to what is inferred.
use rtlzz.Base.{
  ℕ, ◌+◌, ◌-◌, ◌*◌, ◌%◌, ◌^◌, ◌≤◌, ◌<◌, ◌≡◌, Bool, not, ◌&&◌, ◌||◌, Option, none, some, leb, ◌==◌,
  if◌then◌else◌, bit_and, bit_or, bit_xor, true, false,
}
use rtlzz.Limbs.Divide.Signed.{neg_word}
use rtlzz.Ir.{OpCode, Operand, ValueFacts}
use rtlzz.Facts.Constants.Meaning.{
  sign_of, operand_value, flag, quotient_value, remainder_value, shifted_right, comparison_holds,
  operand_order,
}

-- Whether an operand is read as signed: by its own view, or by the view of its literal.
abbrev pub views_signed : Operand → Bool
views_signed o = o.signed_view || o.constant.signed_view

-- Where the facts of an operand are a signed constant, the operand is read as signed.
abbrev pub IsViewed : Operand → ValueFacts → Type 0
IsViewed o f = f.constant ≡ true → f.value.signed_view ≡ true → views_signed o ≡ true

-- A unary operation at result width `w`: `!` tests the whole operand, and the others bring it to the
-- result width with zeros.
abbrev pub unary_result : OpCode → ℕ → ℕ → Option ℕ
unary_result OpCode.logic_not w x = some (flag (x == 0))
unary_result OpCode.bit_not_op w x = some (2 ^ w - 1 - x % 2 ^ w)
unary_result OpCode.neg w x = some (neg_word w (x % 2 ^ w))
unary_result _ w x = none

-- A shift by the operand's width or more gives zero. Any other shift is made at the width `m` of the
-- operand, whose sign fills a right shift, and then brought to the result width `w`.
abbrev pub left_shift : ℕ → ℕ → ℕ → ℕ → ℕ
left_shift m w a x = if leb m a then 0 else 2 ^ a * x % 2 ^ m % 2 ^ w

abbrev pub right_shift : Bool → ℕ → ℕ → ℕ → ℕ → ℕ
right_shift signed m w a x = if leb m a then 0 else shifted_right signed m a x % 2 ^ w

-- A binary operation at result width `w`, on operands of `m` and `n` bits that are read as signed by
-- `ls` and `rs`.
abbrev pub binary_result : OpCode → Bool → Bool → ℕ → ℕ → ℕ → ℕ → ℕ → Option ℕ
binary_result OpCode.logic_and ls rs m n w x y = some (flag (not (x == 0 || y == 0)))
binary_result OpCode.logic_or ls rs m n w x y = some (flag (not (x == 0 && y == 0)))
binary_result OpCode.eq ls rs m n w x y =
    some (flag (comparison_holds OpCode.eq (operand_order ls rs m n x y)))
binary_result OpCode.ne ls rs m n w x y =
    some (flag (comparison_holds OpCode.ne (operand_order ls rs m n x y)))
binary_result OpCode.lt ls rs m n w x y =
    some (flag (comparison_holds OpCode.lt (operand_order ls rs m n x y)))
binary_result OpCode.le ls rs m n w x y =
    some (flag (comparison_holds OpCode.le (operand_order ls rs m n x y)))
binary_result OpCode.gt ls rs m n w x y =
    some (flag (comparison_holds OpCode.gt (operand_order ls rs m n x y)))
binary_result OpCode.ge ls rs m n w x y =
    some (flag (comparison_holds OpCode.ge (operand_order ls rs m n x y)))
binary_result OpCode.add ls rs m n w x y =
    some ((operand_value ls m w x + operand_value rs n w y) % 2 ^ w)
binary_result OpCode.sub ls rs m n w x y =
    some ((operand_value ls m w x + (2 ^ w - operand_value rs n w y)) % 2 ^ w)
binary_result OpCode.mul ls rs m n w x y =
    some (operand_value ls m w x * operand_value rs n w y % 2 ^ w)
binary_result OpCode.div ls rs m n w x y =
    if operand_value rs n w y == 0
    then none
    else some (quotient_value (ls || rs) w (operand_value ls m w x) (operand_value rs n w y))
binary_result OpCode.mod_op ls rs m n w x y =
    if operand_value rs n w y == 0
    then none
    else some (remainder_value (ls || rs) w (operand_value ls m w x) (operand_value rs n w y))
binary_result OpCode.bit_and_op ls rs m n w x y = some (bit_and (x % 2 ^ w) (y % 2 ^ w))
binary_result OpCode.bit_or_op ls rs m n w x y = some (bit_or (x % 2 ^ w) (y % 2 ^ w))
binary_result OpCode.bit_xor_op ls rs m n w x y = some (bit_xor (x % 2 ^ w) (y % 2 ^ w))
binary_result OpCode.shl ls rs m n w x y = some (left_shift m w y x)
binary_result OpCode.shr ls rs m n w x y = some (right_shift ls m w y x)
binary_result _ ls rs m n w x y = none

-- Where folding a unary operation follows its result: `!` does not narrow its operand, and the others
-- do not widen a signed one.
abbrev pub IsUnaryCovered : OpCode → Bool → ℕ → ℕ → Type 0
IsUnaryCovered OpCode.logic_not signed m w = m ≤ w
IsUnaryCovered _ signed m w = signed ≡ true → w ≤ m

-- A shift at the operand's width, by an amount of at most `k ≤ 64` bits.
abbrev pub IsShift : ℕ → ℕ → ℕ → ℕ → Type 0
IsShift m w y k = (m ≡ w) × (k ≤ 64) × (y < 2 ^ 64)

-- Where folding a binary operation follows its result: a division does not narrow, a bitwise operation
-- does not widen a signed operand, a shift keeps the operand's width and has an amount of 64 bits, and a
-- right shift does not wrap, nor shift out a negative operand.
abbrev pub IsBinaryCovered : OpCode → Bool → Bool → ℕ → ℕ → ℕ → ℕ → ℕ → ℕ → Type 0
IsBinaryCovered OpCode.div ls rs m n w x y k = (m ≤ w) × (n ≤ w)
IsBinaryCovered OpCode.mod_op ls rs m n w x y k = (m ≤ w) × (n ≤ w)
IsBinaryCovered OpCode.bit_and_op ls rs m n w x y k = (ls ≡ true → w ≤ m) × (rs ≡ true → w ≤ n)
IsBinaryCovered OpCode.bit_or_op ls rs m n w x y k = (ls ≡ true → w ≤ m) × (rs ≡ true → w ≤ n)
IsBinaryCovered OpCode.bit_xor_op ls rs m n w x y k = (ls ≡ true → w ≤ m) × (rs ≡ true → w ≤ n)
IsBinaryCovered OpCode.shl ls rs m n w x y k = IsShift m w y k
IsBinaryCovered OpCode.shr ls rs m n w x y k =
    IsShift m w y k × (y + w ≤ 2 ^ 64) × ((ls && sign_of m x) ≡ true → y < m)
IsBinaryCovered _ ls rs m n w x y k = Unit

-- Whether the result of an operation is signed: a truth value is not, a shift is as its operand, and
-- any other result is as one of the operands.
abbrev pub unary_signed : OpCode → Bool → Bool
unary_signed OpCode.logic_not signed = false
unary_signed _ signed = signed

abbrev pub binary_signed : OpCode → Bool → Bool → Bool
binary_signed OpCode.logic_and ls rs = false
binary_signed OpCode.logic_or ls rs = false
binary_signed OpCode.eq ls rs = false
binary_signed OpCode.ne ls rs = false
binary_signed OpCode.lt ls rs = false
binary_signed OpCode.le ls rs = false
binary_signed OpCode.gt ls rs = false
binary_signed OpCode.ge ls rs = false
binary_signed OpCode.shl ls rs = ls
binary_signed OpCode.shr ls rs = ls
binary_signed _ ls rs = ls || rs

-- A constant that is signed or not, where there is one.
abbrev pub IsSignedAs : Option ValueFacts → Bool → Type 0
IsSignedAs none signed = Unit
IsSignedAs (some f) signed = f.value.signed_view ≡ signed
