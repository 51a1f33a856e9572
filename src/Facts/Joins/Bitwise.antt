-- ===== src/Facts/Joins/Bitwise.antt =====
-- The facts of a bitwise operation on values that are not both constant.
use rtlzz.Base.{
  ℕ, ◌<◌, subst, Bool, ◌*◌, ◌%◌, ◌^◌, ◌≡◌, refl, List, true, false, ◌&&◌, ◌||◌, ltb, arith, bit_and,
  bit_or, bit_xor,
}
use mathlib.Core.Bool.{xor}
use rtlzz.Base.Bits.{
  test_bit, pow_pos, test_bit-mod, test_bit-bit_and, test_bit-bit_or, test_bit-bit_xor, bit_or-lt,
  bit_and-lt, bit_xor-lt,
}
use rtlzz.Limbs.{limb_count, get_bit, trim}
use rtlzz.Limbs.Value.{IsLimbs}
use rtlzz.Limbs.Trim.{trim-IsWord}
use rtlzz.Limbs.Resize.{get_bit-trim, test_bit-extend}
use rtlzz.Facts.Extend.{extend-lt}
use rtlzz.Facts.Constants.Meaning.{operand_value, sign_of}
use rtlzz.Facts.Within.{IsWithin, known_one-within}
use rtlzz.Ir.{OpCode, ValueFacts}
use rtlzz.Facts.Sound.{Describes, known_bits-Describes}
use rtlzz.Facts.Constants.{map_limbs}
use rtlzz.Facts.Constants.Words.{map_limbs-IsLimbs, get_bit-map_limbs}
use rtlzz.Facts.Joins.{facts_bitwise, bitwise_zero, bitwise_one}
use rtlzz.Facts.Joins.Choice.{get_bit-both, both-IsLimbs}
use native.Mathlib.Nat.{mod-lt, mod-eq_of_lt}

-- A mark that one side has.
get_bit-either :
    (n : ℕ) (l r : List ℕ) (j : ℕ)
    → get_bit (map_limbs bit_or n l r) j ≡ (ltb j (64 * n) && (get_bit l j || get_bit r j))
get_bit-either n l r j = get_bit-map_limbs bit_or ◌||◌ test_bit-bit_or bit_or-lt refl n l r j

either-IsLimbs : (n : ℕ) (l r : List ℕ) → IsLimbs l → IsLimbs r → IsLimbs (map_limbs bit_or n l r)
either-IsLimbs n l r hl hr =
    map_limbs-IsLimbs bit_or ◌||◌ test_bit-bit_or bit_or-lt refl n l r hl hr

-- The operation on two numbers.
abbrev pub bitwise_value : OpCode → ℕ → ℕ → ℕ
bitwise_value OpCode.bit_and_op x y = bit_and x y
bitwise_value OpCode.bit_or_op x y = bit_or x y
bitwise_value _ x y = bit_xor x y

-- The marks are true of a number below some width.
pub record IsMarked (w : ℕ) (f : ValueFacts) (x : ℕ) : Type 0 where
  pub zero_limbs : IsLimbs f.known_zero
  pub one_limbs : IsLimbs f.known_one
  pub clear : (i : ℕ) → i < w → get_bit f.known_zero i ≡ true → test_bit x i ≡ false
  pub filled : (i : ℕ) → i < w → get_bit f.known_one i ≡ true → test_bit x i ≡ true

module _ (w n : ℕ) (l r : ValueFacts) (x y : ℕ) (hl : IsMarked w l x) (hr : IsMarked w r y) where
  bitwise_zero-IsLimbs : (code : OpCode) → IsLimbs (bitwise_zero code n l r)
  unfolding bitwise_zero
  bitwise_zero-IsLimbs OpCode.bit_and_op =
      either-IsLimbs n l.known_zero r.known_zero hl.zero_limbs hr.zero_limbs
  bitwise_zero-IsLimbs OpCode.bit_or_op =
      both-IsLimbs n l.known_zero r.known_zero hl.zero_limbs hr.zero_limbs
  bitwise_zero-IsLimbs _ =
      either-IsLimbs n (map_limbs bit_and n l.known_zero r.known_zero)
        (map_limbs bit_and n l.known_one r.known_one)
        (both-IsLimbs n l.known_zero r.known_zero hl.zero_limbs hr.zero_limbs)
        (both-IsLimbs n l.known_one r.known_one hl.one_limbs hr.one_limbs)

  bitwise_one-IsLimbs : (code : OpCode) → IsLimbs (bitwise_one code n l r)
  unfolding bitwise_one
  bitwise_one-IsLimbs OpCode.bit_and_op =
      both-IsLimbs n l.known_one r.known_one hl.one_limbs hr.one_limbs
  bitwise_one-IsLimbs OpCode.bit_or_op =
      either-IsLimbs n l.known_one r.known_one hl.one_limbs hr.one_limbs
  bitwise_one-IsLimbs _ =
      either-IsLimbs n (map_limbs bit_and n l.known_zero r.known_one)
        (map_limbs bit_and n l.known_one r.known_zero)
        (both-IsLimbs n l.known_zero r.known_one hl.zero_limbs hr.one_limbs)
        (both-IsLimbs n l.known_one r.known_zero hl.one_limbs hr.zero_limbs)

  bitwise_zero-clear :
      (code : OpCode) (i : ℕ)
      → i < w
      → get_bit (bitwise_zero code n l r) i ≡ true
      → test_bit (bitwise_value code x y) i ≡ false
  unfolding bitwise_zero xor
  bitwise_zero-clear OpCode.bit_and_op i inside p = ground (
    arith,
    get_bit-either n l.known_zero r.known_zero i,
    test_bit-bit_and x y i,
    hl.clear i,
    hr.clear i,
  )
  bitwise_zero-clear OpCode.bit_or_op i inside p = ground (
    arith,
    get_bit-both n l.known_zero r.known_zero i,
    test_bit-bit_or x y i,
    hl.clear i,
    hr.clear i,
  )
  bitwise_zero-clear _ i inside p = ground (
    arith,
    get_bit-either n (map_limbs bit_and n l.known_zero r.known_zero)
        (map_limbs bit_and n l.known_one r.known_one) i,
    get_bit-both n l.known_zero r.known_zero i,
    get_bit-both n l.known_one r.known_one i,
    test_bit-bit_xor x y i,
    hl.clear i,
    hr.clear i,
    hl.filled i,
    hr.filled i,
  )

  bitwise_one-filled :
      (code : OpCode) (i : ℕ)
      → i < w
      → get_bit (bitwise_one code n l r) i ≡ true
      → test_bit (bitwise_value code x y) i ≡ true
  unfolding bitwise_one xor
  bitwise_one-filled OpCode.bit_and_op i inside p = ground (
    arith,
    get_bit-both n l.known_one r.known_one i,
    test_bit-bit_and x y i,
    hl.filled i,
    hr.filled i,
  )
  bitwise_one-filled OpCode.bit_or_op i inside p = ground (
    arith,
    get_bit-either n l.known_one r.known_one i,
    test_bit-bit_or x y i,
    hl.filled i,
    hr.filled i,
  )
  bitwise_one-filled _ i inside p = ground (
    arith,
    get_bit-either n (map_limbs bit_and n l.known_zero r.known_one)
        (map_limbs bit_and n l.known_one r.known_zero) i,
    get_bit-both n l.known_zero r.known_one i,
    get_bit-both n l.known_one r.known_zero i,
    test_bit-bit_xor x y i,
    hl.clear i,
    hr.clear i,
    hl.filled i,
    hr.filled i,
  )

pub facts_bitwise-IsMarked :
    (code : OpCode) (l r : ValueFacts) (w x y : ℕ)
    → IsMarked w l x
    → IsMarked w r y
    → Describes (facts_bitwise code l r w) (bitwise_value code x y % 2 ^ w)
unfolding facts_bitwise
facts_bitwise-IsMarked code l r w x y hl hr =
    let n = limb_count w in
    let v = bitwise_value code x y in
    let zero_limbs = bitwise_zero-IsLimbs w n l r x y hl hr code in
    let one_limbs = bitwise_one-IsLimbs w n l r x y hl hr code in
    known_bits-Describes w (v % 2 ^ w) (trim (bitwise_zero code n l r) w)
      (trim (bitwise_one code n l r) w) (mod-lt v (pow_pos w))
      (trim-IsWord (bitwise_zero code n l r) w zero_limbs).limbs
      (trim-IsWord (bitwise_one code n l r) w one_limbs).limbs
      (λ i p. ground (
        arith,
        get_bit-trim (bitwise_zero code n l r) w i zero_limbs,
        bitwise_zero-clear w n l r x y hl hr code i,
        test_bit-mod w v i,
      ))
      (λ i p. ground (
        arith,
        get_bit-trim (bitwise_one code n l r) w i one_limbs,
        bitwise_one-filled w n l r x y hl hr code i,
        test_bit-mod w v i,
      ))

Describes-IsMarked : (w : ℕ) (f : ValueFacts) (x : ℕ) → Describes f x → IsMarked w f x
Describes-IsMarked w f x h = record {
  zero_limbs = h.zero_limbs;
  one_limbs = h.one_limbs;
  clear = λ i p. h.clear i;
  filled = λ i p. h.filled i;
}

-- Marks within the width of an operand stay true when it is brought to another width.
extended-IsMarked :
    (w : ℕ) (f : ValueFacts) (x : ℕ) (signed : Bool)
    → IsWithin f
    → Describes f x
    → IsMarked w f (operand_value signed f.width w x)
extended-IsMarked w f x signed within h =
    let sign = signed && sign_of f.width x in
    record {
      zero_limbs = h.zero_limbs;
      one_limbs = h.one_limbs;
      clear = λ i inside p.
          ground (arith, within i p, h.clear i, test_bit-extend sign f.width w x i h.fits);
      filled = λ i inside p. ground (
        arith,
        known_one-within f x i h p,
        h.filled i,
        test_bit-extend sign f.width w x i h.fits,
      );
    }

bitwise_value-lt :
    (code : OpCode) (w x y : ℕ) → x < 2 ^ w → y < 2 ^ w → bitwise_value code x y < 2 ^ w
bitwise_value-lt OpCode.bit_and_op w x y p q = bit_and-lt w x y p
bitwise_value-lt OpCode.bit_or_op w x y p q = bit_or-lt w x y p q
bitwise_value-lt _ w x y p q = bit_xor-lt w x y p q

-- The same for operands that are brought to the result width, signed or not, from facts that mark
-- nothing above their widths.
pub facts_bitwise-extended :
    (code : OpCode) (l r : ValueFacts) (ls rs : Bool) (w x y : ℕ)
    → IsWithin l
    → IsWithin r
    → Describes l x
    → Describes r y
    → Describes
        (facts_bitwise code l r w)
        (bitwise_value code (operand_value ls l.width w x) (operand_value rs r.width w y))
facts_bitwise-extended code l r ls rs w x y wl wr hl hr =
    let a = operand_value ls l.width w x in
    let b = operand_value rs r.width w y in
    let fits : bitwise_value code a b < 2 ^ w =
      bitwise_value-lt code w a b (extend-lt (ls && sign_of l.width x) l.width w x hl.fits)
        (extend-lt (rs && sign_of r.width y) r.width w y hr.fits) in
    subst (λ v. Describes (facts_bitwise code l r w) v) (mod-eq_of_lt fits)
      (facts_bitwise-IsMarked code l r w a b (extended-IsMarked w l x ls wl hl)
        (extended-IsMarked w r y rs wr hr))

-- The facts of and, or and (for any other operation) exclusive or, from facts that are true of two
-- numbers, are true of the operation on the numbers modulo two to the width.
pub facts_bitwise-Describes :
    (code : OpCode) (l r : ValueFacts) (w x y : ℕ)
    → Describes l x
    → Describes r y
    → Describes (facts_bitwise code l r w) (bitwise_value code x y % 2 ^ w)
facts_bitwise-Describes code l r w x y hl hr =
    facts_bitwise-IsMarked code l r w x y (Describes-IsMarked w l x hl)
      (Describes-IsMarked w r y hr)
