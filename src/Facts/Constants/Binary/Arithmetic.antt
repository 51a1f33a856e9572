-- ===== src/Facts/Constants/Binary/Arithmetic.antt =====
-- The fold of an arithmetic operation on two words of the result's width.
use rtlzz.Base.{
  ℕ, ◌+◌, ◌-◌, ◌*◌, ◌%◌, ◌^◌, ◌≤◌, ◌<◌, ◌≡◌, refl, ap, ◌∙◌, List, Bool, true, false, ◌&&◌, ◌||◌,
  ◌==◌, Option, none, some, arith, Bool-cases, inl, inr, bit_and, bit_or, bit_xor,
}
use rtlzz.Base.Bits.{
  test_bit, test_bit-bit_and, test_bit-bit_or, test_bit-bit_xor, bit_and-lt, bit_or-lt, bit_xor-lt,
}
use mathlib.Core.Bool.{xor}
use rtlzz.Limbs.{add_bits, sub_bits, sign_bit}
use rtlzz.Limbs.Value.{value, IsWord}
use rtlzz.Limbs.Sum.{value-add_bits, add_bits-IsWord}
use rtlzz.Limbs.Difference.{value-sub_bits_short, sub_bits-IsWord}
use rtlzz.Limbs.Multiply.{mul_bits, value-mul_bits, mul_bits-IsWord}
use rtlzz.Limbs.Shift.{shl_bits, shr_bits}
use rtlzz.Limbs.Shift.Left.{value-shl_bits, shl_bits-IsWord}
use rtlzz.Limbs.Shift.Right.{
  value-shr_bits, value-shr_bits_negative, shr_bits-IsWord, shr_bits_positive,
}
use rtlzz.Ir.{OpCode}
use rtlzz.Facts.{constant_bits}
use rtlzz.Facts.Sound.{Describes}
use rtlzz.Facts.Constants.{fold_binary, bitwise_bits}
use rtlzz.Facts.Constants.Meaning.{
  Agrees, arithmetic_value, quotient_value, remainder_value, shifted_right,
}
use rtlzz.Facts.Constants.Words.{
  word-Describes, sign_bit-sign_of, bitwise_bits-IsWord, value-bitwise_bits,
}
use rtlzz.Facts.Constants.Binary.Division.{div_mod-zero, div_mod-IsDivMod}
use native.Mathlib.Nat.{mod-eq_of_lt}

-- A bitwise operation on words.
module _ (f : ℕ → ℕ → ℕ) (on : Bool → Bool → Bool)
    (digit : (a b i : ℕ) → test_bit (f a b) i ≡ on (test_bit a i) (test_bit b i))
    (bound : (w a b : ℕ) → a < 2 ^ w → b < 2 ^ w → f a b < 2 ^ w)
    (none_set : on false false ≡ false) where
  bitwise-Describes :
      (l r : List ℕ) (w : ℕ) (signed : Bool)
      → IsWord w l
      → IsWord w r
      → Describes (constant_bits (bitwise_bits f l r w) w signed) (f (value l) (value r))
  bitwise-Describes l r w signed hl hr =
      word-Describes (bitwise_bits f l r w) w (f (value l) (value r)) signed
        (bitwise_bits-IsWord f on digit bound none_set l r w hl hr)
        (value-bitwise_bits f on digit bound none_set l r w hl hr)

-- Both right shifts of a word.
value-shr_word :
    (l : List ℕ) (w a : ℕ) (signed : Bool)
    → a + w ≤ 2 ^ 64
    → IsWord w l
    → value (shr_bits l w a signed) ≡ shifted_right signed w a (value l)
value-shr_word l w a false h hl = value-shr_bits l w a h hl.limbs ∙ rw (mod-eq_of_lt hl.fits)
value-shr_word l w a true h hl = elim (Bool-cases (sign_bit l w)) [
  | inl negative ↦
      value-shr_bits_negative l w a h hl negative ∙ rw (← sign_bit-sign_of l w hl.limbs, negative)
  | inr positive ↦
      ap value (shr_bits_positive l w a positive)
      ∙ value-shr_bits l w a h hl.limbs
      ∙ rw (mod-eq_of_lt hl.fits, ← sign_bit-sign_of l w hl.limbs, positive)
]

-- The fold of an operation on two words describes the value that it computes from their numbers.
pub fold_binary-Agrees :
    (code : OpCode) (l r : List ℕ) (w : ℕ) (ls signed : Bool) (amount : Option ℕ)
    → w ≤ 128
    → (code ≡ OpCode.shr → (a : ℕ) → amount ≡ some a → a + w ≤ 2 ^ 64)
    → IsWord w l
    → IsWord w r
    → Agrees
        (fold_binary code l r w ls signed amount)
        (arithmetic_value code w ls signed (value l) (value r) amount)
unfolding fold_binary
fold_binary-Agrees OpCode.add l r w ls signed amount short bound hl hr =
    word-Describes (add_bits l r w) w ((value l + value r) % 2 ^ w) signed (add_bits-IsWord l r w)
      (value-add_bits l r w)
fold_binary-Agrees OpCode.sub l r w ls signed amount short bound hl hr =
    word-Describes (sub_bits l r w) w ((value l + (2 ^ w - value r)) % 2 ^ w) signed
      (sub_bits-IsWord l r w)
      (value-sub_bits_short l r w short hl.limbs hr.limbs ∙ rw (mod-eq_of_lt hr.fits))
fold_binary-Agrees OpCode.mul l r w ls signed amount short bound hl hr =
    word-Describes (mul_bits l r w) w (value l * value r % 2 ^ w) signed
      (mul_bits-IsWord l r w (omega arith) hl.limbs hr.limbs)
      (value-mul_bits l r w (omega arith) hl.limbs hr.limbs)
fold_binary-Agrees OpCode.div l r w ls signed amount short bound hl hr =
    elim (Bool-cases (value r == 0)) [
      | inl by_zero ↦ rw (by_zero, fold_binary, div_mod-zero l r w signed hr (ground arith)) tt
      | inr divides ↦
          let u = div_mod-IsDivMod l r w signed short hl hr (ground arith) in
          rw (divides, fold_binary, u.1)
            (word-Describes u.0.quotient w (quotient_value signed w (value l) (value r)) signed
              u.2.quotient_word u.2.quotient_is)
    ]
fold_binary-Agrees OpCode.mod_op l r w ls signed amount short bound hl hr =
    elim (Bool-cases (value r == 0)) [
      | inl by_zero ↦ rw (by_zero, fold_binary, div_mod-zero l r w signed hr (ground arith)) tt
      | inr divides ↦
          let u = div_mod-IsDivMod l r w signed short hl hr (ground arith) in
          rw (divides, fold_binary, u.1)
            (word-Describes u.0.remainder w (remainder_value signed w (value l) (value r)) signed
              u.2.remainder_word u.2.remainder_is)
    ]
fold_binary-Agrees OpCode.bit_and_op l r w ls signed amount short bound hl hr =
    bitwise-Describes bit_and ◌&&◌ test_bit-bit_and (λ k a b p q. bit_and-lt k a b p) refl l r w
      signed hl hr
fold_binary-Agrees OpCode.bit_or_op l r w ls signed amount short bound hl hr =
    bitwise-Describes bit_or ◌||◌ test_bit-bit_or bit_or-lt refl l r w signed hl hr
fold_binary-Agrees OpCode.bit_xor_op l r w ls signed amount short bound hl hr =
    bitwise-Describes bit_xor xor test_bit-bit_xor bit_xor-lt (unfold xor in refl) l r w signed hl
      hr
fold_binary-Agrees OpCode.shl l r w ls signed none short bound hl hr = tt
fold_binary-Agrees OpCode.shl l r w ls signed (some a) short bound hl hr =
    word-Describes (shl_bits l w a) w (2 ^ a * value l % 2 ^ w) ls
      (shl_bits-IsWord l w a (omega arith) hl.limbs) (value-shl_bits l w a (omega arith) hl.limbs)
fold_binary-Agrees OpCode.shr l r w ls signed none short bound hl hr = tt
fold_binary-Agrees OpCode.shr l r w ls signed (some a) short bound hl hr =
    word-Describes (shr_bits l w a ls) w (shifted_right ls w a (value l)) ls
      (shr_bits-IsWord l w a ls) (value-shr_word l w a ls (bound refl a refl) hl)
fold_binary-Agrees _ l r w ls signed amount short bound hl hr = tt
