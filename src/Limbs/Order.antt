-- ===== src/Limbs/Order.antt =====
-- `factsCompareUnsigned` and `factsCompareSigned` compare the numbers of two vectors.
use rtlzz.Base.{
  ℕ, zero, suc, ◌+◌, ◌-◌, ◌%◌, ◌^◌, ◌<◌, ◌≡◌, refl, sym, ap, ap₂, ◌∙◌, List, [], ◌∷◌, ltb,
  if◌then◌else◌, length, arith, Ordering,
}
use rtlzz.Base.Bits.{test_bit}
use rtlzz.Base.Int.{ℤ, pos, negsuc, pos_part, neg_part}
use native.Mathlib.Nat.{mod-eq_of_lt}
use rtlzz.Limbs.{trim, compare_from, compare_unsigned, compare_signed, sign_bit}
use rtlzz.Limbs.Value.{IsLimbs, value, IsWord, get_bit-value}
use rtlzz.Limbs.Trim.{value-trim, trim-IsWord}

-- The order of two numbers.
abbrev pub order : ℕ → ℕ → Ordering
order x y = if ltb x y then Ordering.lt else if ltb y x then Ordering.gt else Ordering.eq

abbrev then_by : Ordering → Ordering → Ordering
then_by Ordering.lt d = Ordering.lt
then_by Ordering.eq d = d
then_by Ordering.gt d = Ordering.gt

-- The comparison from the top comes to the lowest limb last.
compare_from-cons :
    (n x y : ℕ) (xs ys : List ℕ)
    → compare_from (suc n) (x ∷ xs) (y ∷ ys) ≡ then_by (compare_from n xs ys) (order x y)
unfolding compare_from
compare_from-cons zero x y xs ys = refl
compare_from-cons (suc n) x y xs ys = ground (arith, compare_from-cons n x y xs ys)

compare_from-value :
    (xs ys : List ℕ)
    → IsLimbs xs
    → IsLimbs ys
    → length xs ≡ length ys
    → compare_from (length xs) xs ys ≡ order (value xs) (value ys)
unfolding value
compare_from-value [] [] hx hy l = unfold compare_from in refl
compare_from-value [] (y ∷ ys) hx hy l = absurd (omega arith)
compare_from-value (x ∷ xs) [] hx hy l = absurd (omega arith)
compare_from-value (x ∷ xs) (y ∷ ys) hx hy l =
    compare_from-cons (length xs) x y xs ys
    ∙ ground (arith, compare_from-value xs ys hx.1 hy.1 (omega arith), hx.0, hy.0)

-- The comparison at a width orders the remainders of the two numbers.
pub compare_unsigned-value :
    (l r : List ℕ) (w : ℕ)
    → IsLimbs l
    → IsLimbs r
    → compare_unsigned l r w ≡ order (value l % 2 ^ w) (value r % 2 ^ w)
unfolding compare_unsigned
compare_unsigned-value l r w hl hr =
    let a = trim-IsWord l w hl in
    let b = trim-IsWord r w hr in
    rw (← value-trim l w hl, ← value-trim r w hr, ← a.sized)
      (compare_from-value (trim l w) (trim r w) a.limbs b.limbs (a.sized ∙ sym b.sized))

-- The integer that a `w`-bit pattern stands for in two's complement.
abbrev pub to_int : ℕ → ℕ → ℤ
to_int w x = if test_bit x (w - 1) then negsuc (2 ^ w - 1 - x) else pos x

-- The order of two integers.
abbrev pub order_ℤ : ℤ → ℤ → Ordering
order_ℤ a b = order (pos_part a + neg_part b) (pos_part b + neg_part a)

pub sign_bit-value :
    (v : List ℕ) (w : ℕ) → IsLimbs v → 0 < w → sign_bit v w ≡ test_bit (value v) (w - 1)
unfolding sign_bit
sign_bit-value v zero h p = absurd (omega arith)
sign_bit-value v (suc w) h p =
    get_bit-value v w h ∙ ap (λ (t : ℕ). test_bit (value v) t) (omega arith)

-- The signed comparison of two words orders the integers that they stand for.
pub compare_signed-value :
    (l r : List ℕ) (w : ℕ)
    → 0 < w
    → IsWord w l
    → IsWord w r
    → compare_signed l r w ≡ order_ℤ (to_int w (value l)) (to_int w (value r))
unfolding compare_signed
compare_signed-value l r w pos_w hl hr =
    let below : compare_unsigned l r w ≡ order (value l) (value r) =
      compare_unsigned-value l r w hl.limbs hr.limbs
      ∙ ap₂ order (mod-eq_of_lt hl.fits) (mod-eq_of_lt hr.fits) in
    rw (sign_bit-value l w hl.limbs pos_w, sign_bit-value r w hr.limbs pos_w, below)
      (ground (arith, hl.fits, hr.fits))
