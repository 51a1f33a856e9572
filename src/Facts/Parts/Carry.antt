-- ===== src/Facts/Parts/Carry.antt =====
-- The facts of a sum with carry are true of the sum.
use rtlzz.Base.{
  ℕ, zero, suc, ◌+◌, ◌-◌, ◌%◌, ◌^◌, ◌<◌, ◌≤◌, ◌≡◌, ◌∙◌, List, true, false, ◌&&◌, leb, arith,
  Bool-cases, inl, inr, min, max, leb→le,
}
use rtlzz.Base.Bits.{test_bit, test_bit-mod, test_bit-above, bits_ext, pow_pos, pow_mono}
use rtlzz.Limbs.{get_bit, zeros, set_where, add_bits, resize_bits}
use rtlzz.Limbs.Sum.{value-add_bits, add_bits-IsWord}
use rtlzz.Limbs.Loops.{set_where-IsLimbs, get_bit-set_where, zeros-IsLimbs, get_bit-zeros}
use rtlzz.Limbs.Resize.{extend, test_bit-extend}
use rtlzz.Ir.{ValueFacts}
use rtlzz.Facts.{facts_unknown, always}
use rtlzz.Facts.Sound.{Describes, known_bits-Describes}
use rtlzz.Facts.Constants.Meaning.{operand_value}
use rtlzz.Facts.Constants.Words.{word-Describes, resized-value}
use rtlzz.Facts.Parts.{facts_add_carry, carry_constant, possible_bits, drop_known_zeros}
use native.Mathlib.Nat.{mod-lt, mod-le, mod-add-mod, pow-succ', le_refl}

-- Two numbers and a carry, brought to the result width.
abbrev pub carry_sum : ℕ → ℕ → ℕ → ℕ → ℕ → ℕ → ℕ → ℕ
carry_sum w m n k x y z =
    operand_value false m w x + operand_value false n w y + operand_value false k w z

abbrev pub carry_value : ℕ → ℕ → ℕ → ℕ → ℕ → ℕ → ℕ → ℕ
carry_value w m n k x y z = carry_sum w m n k x y z % 2 ^ w

below_double : (n x : ℕ) → x < 2 ^ n → x < 2 ^ suc n
below_double n x h = omega (arith, pow-succ' 2 n)

-- The known zeros at the top of a number bound it.
drop_known_zeros-lem :
    (kz : List ℕ) (n x : ℕ)
    → x < 2 ^ n
    → ((i : ℕ) → get_bit kz i ≡ true → test_bit x i ≡ false)
    → x < 2 ^ drop_known_zeros kz n
unfolding drop_known_zeros
drop_known_zeros-lem kz zero x h clear = h
drop_known_zeros-lem kz (suc n) x h clear = elim (Bool-cases (get_bit kz n)) [
  | inl known ↦
      let e : x ≡ x % 2 ^ n =
        bits_ext (suc n) x (x % 2 ^ n) h (below_double n (x % 2 ^ n) (mod-lt x (pow_pos n)))
          (λ i p. ground (arith, test_bit-mod n x i, clear n)) in
      rw known (drop_known_zeros-lem kz n x (omega (arith, e, mod-lt x (pow_pos n))) clear)
  | inr free ↦ rw free h
]

zext-lt : (w m x : ℕ) → x < 2 ^ m → operand_value false m w x < 2 ^ min w m
unfolding extend
zext-lt w m x h = elim (Bool-cases (leb w m)) [
  | inl shorter ↦
      let e : min w m ≡ w = omega (arith, leb→le w m) in rw (shorter, e) (mod-lt x (pow_pos w))
  | inr longer ↦ let e : min w m ≡ m = ground arith in rw (longer, e) h
]

zext-le : (w m x : ℕ) → operand_value false m w x ≤ x
unfolding extend
zext-le w m x = elim (Bool-cases (leb w m)) [
  | inl shorter ↦ rw shorter (mod-le x (2 ^ w))
  | inr longer ↦ rw longer (le_refl x)
]

-- Two numbers below powers of two and a carry.
sum-lt : (p q a b c : ℕ) → a < 2 ^ p → b < 2 ^ q → c < 2 → a + b + c < 2 ^ (max p q + 1)
sum-lt p q a b c ha hb hc =
    let e : max p q + 1 ≡ suc (max p q) = omega arith in
    rw e (
      omega (
        arith,
        pow-succ' 2 (max p q),
        pow_mono p (max p q) (omega arith),
        pow_mono q (max p q) (omega arith),
      ))

-- The value of an operand at the result width is within its possible bits.
possible_bits-lem :
    (w : ℕ) (f : ValueFacts) (x : ℕ)
    → Describes f x
    → operand_value false f.width w x < 2 ^ possible_bits w f
unfolding possible_bits
possible_bits-lem w f x h =
    let y = operand_value false f.width w x in
    drop_known_zeros-lem f.known_zero (min w f.width) y (zext-lt w f.width x h.fits)
      (λ i p. ground (arith, test_bit-extend false f.width w x i h.fits, h.clear i))

carry_constant-Describes :
    (w : ℕ) (l r c : ValueFacts) (x y z : ℕ)
    → l.constant ≡ true
    → r.constant ≡ true
    → c.constant ≡ true
    → Describes l x
    → Describes r y
    → Describes c z
    → Describes (carry_constant w l r c) (carry_value w l.width r.width c.width x y z)
unfolding carry_constant
carry_constant-Describes w l r c x y z cl cr cc' hl hr hc =
    let lhs = resize_bits l.value.limbs l.width w false in
    let rhs = resize_bits r.value.limbs r.width w false in
    let carry = resize_bits c.value.limbs c.width w false in
    word-Describes (add_bits (add_bits lhs rhs w) carry w) w
      (carry_value w l.width r.width c.width x y z) false
      (add_bits-IsWord (add_bits lhs rhs w) carry w)
      (value-add_bits (add_bits lhs rhs w) carry w
        ∙ rw
            (
              value-add_bits lhs rhs w,
              resized-value l x w false hl cl,
              resized-value r y w false hr cr,
              resized-value c z w false hc cc',
            )
            (mod-add-mod (operand_value false l.width w x + operand_value false r.width w y) (2 ^ w)
              (operand_value false c.width w z)))

-- The facts of a sum with carry, from facts that are true of the summands and of a carry that is 0 or
-- 1, are true of the sum of the three, modulo two to the result width.
pub facts_add_carry-Describes :
    (w : ℕ) (l r c : ValueFacts) (x y z : ℕ)
    → Describes l x
    → Describes r y
    → Describes c z
    → z < 2
    → Describes (facts_add_carry w l r c) (carry_value w l.width r.width c.width x y z)
unfolding facts_add_carry facts_unknown
facts_add_carry-Describes w l r c x y z hl hr hc small =
    let v = carry_value w l.width r.width c.width x y z in
    let high = max (possible_bits w l) (possible_bits w r) + 1 in
    elim (Bool-cases (l.constant && r.constant && c.constant)) [
      | inl fixed ↦ rw fixed (
          carry_constant-Describes w l r c x y z (ground arith) (ground arith) (ground arith) hl hr
            hc)
      | inr open_bits ↦ rw open_bits (
          known_bits-Describes w v (set_where always (w - high) high (zeros w)) (zeros w)
            (mod-lt (carry_sum w l.width r.width c.width x y z) (pow_pos w))
            (set_where-IsLimbs always (w - high) high (zeros w) (zeros-IsLimbs w)) (zeros-IsLimbs w)
            (λ i p.
              test_bit-above high v i
                (omega (
                  arith,
                  mod-le (carry_sum w l.width r.width c.width x y z) (2 ^ w),
                  sum-lt (possible_bits w l) (possible_bits w r) (operand_value false l.width w x)
                      (operand_value false r.width w y) (operand_value false c.width w z)
                      (possible_bits-lem w l x hl) (possible_bits-lem w r y hr)
                      (omega (arith, zext-le w c.width z)),
                ))
                (ground
                  (arith, get_bit-set_where always (w - high) high (zeros w) i, get_bit-zeros w i)))
            (λ i p. ground (arith, get_bit-zeros w i)))
    ]
