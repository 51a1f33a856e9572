-- ===== src/Limbs/Multiply.antt =====
-- `factsMulBits` of src/backend/beir.cpp: multiplication by shifting and adding.
use rtlzz.Base.{
  ℕ, zero, suc, ◌+◌, ◌*◌, ◌/◌, ◌%◌, ◌^◌, ◌≤◌, ◌≡◌, sym, ap, ◌∙◌, List, true, false, ◌==◌,
  if◌then◌else◌, arith, Bool-cases, inl, inr,
}
use rtlzz.Base.Bits.{pow_pos, test_bit, mod_pow-suc, pow_add}
use rtlzz.Limbs.{zeros, get_bit, add_bits}
use rtlzz.Limbs.Value.{IsLimbs, value, IsWord, get_bit-value}
use rtlzz.Limbs.Loops.{zeros-IsLimbs, length-zeros, value-zeros}
use rtlzz.Limbs.Sum.{value-add_bits, add_bits-IsWord}
use rtlzz.Limbs.Shift.{shl_bits}
use rtlzz.Limbs.Shift.Left.{value-shl_bits}
use native.Mathlib.Nat.{
  mod-add-mod, add-mod-mod, div-div-eq-div-mul, add-mul-mod_self_left, div-add-mod, mod-one,
  div-one, mod-eq_of_lt,
}

unfoldable pub mul_loop : List ℕ → List ℕ → ℕ → ℕ → ℕ → List ℕ → List ℕ
mul_loop lhs rhs width zero bit out = out
mul_loop lhs rhs width (suc rounds) bit out =
    mul_loop lhs rhs width rounds (bit + 1)
      (if get_bit rhs bit then add_bits out (shl_bits lhs width bit) width else out)

unfoldable pub mul_bits : List ℕ → List ℕ → ℕ → List ℕ
mul_bits lhs rhs width = mul_loop lhs rhs width width 0 (zeros width)

pub zeros-IsWord : (w : ℕ) → IsWord w (zeros w)
zeros-IsWord w = record {
  limbs = zeros-IsLimbs w;
  sized = length-zeros w;
  fits = rw (value-zeros w) (pow_pos w);
}

-- The digits of a number from position `b` on, one at a time.
digits_from :
    (r b n : ℕ)
    → 2 ^ b * (r / 2 ^ b % 2 ^ suc n)
      ≡ 2 ^ b * (r / 2 ^ b % 2) + 2 ^ (b + 1) * (r / 2 ^ (b + 1) % 2 ^ n)
digits_from r b n =
    let e : r / 2 ^ b / 2 ≡ r / 2 ^ (b + 1) = div-div-eq-div-mul r (2 ^ b) 2 ∙ rw (← pow_add b 1) in
    rw (mod_pow-suc (r / 2 ^ b) n, e)
      (omega (arith, ap (λ (t : ℕ). t * (r / 2 ^ (b + 1) % 2 ^ n)) (pow_add b 1)))

pub mul-mod : (l r m : ℕ) → l * (r % m) % m ≡ l * r % m
mul-mod l r m =
    let e : l * r ≡ l * (r % m) + m * (l * (r / m)) =
      omega (arith, ap (λ (t : ℕ). l * t) (div-add-mod r m)) in
    sym (add-mul-mod_self_left (l * (r % m)) m (l * (r / m))) ∙ rw (← e)

add_twice : (m o p x : ℕ) → ((o + p % m) % m + x) % m ≡ (o + p + x) % m
add_twice m o p x = rw (add-mod-mod o p m) (mod-add-mod (o + p) m x)

module _ (l r : List ℕ) (w : ℕ) (short : w ≤ 2 ^ 63) (hl : IsLimbs l) (hr : IsLimbs r) where
  tail_of : ℕ → ℕ → ℕ
  tail_of n b = 2 ^ (b + 1) * (value r / 2 ^ (b + 1) % 2 ^ n)

  digit_of : (b : ℕ) → get_bit r b ≡ (value r / 2 ^ b % 2 == 1)
  unfolding test_bit
  digit_of b = get_bit-value r b hr

  one_digit :
      (n b : ℕ)
      → get_bit r b ≡ true
      → (o : ℕ)
      → o + 2 ^ b * value l + value l * tail_of n b
        ≡ o + value l * (2 ^ b * (value r / 2 ^ b % 2 ^ suc n))
  unfolding tail_of
  one_digit n b e o =
      let d : value r / 2 ^ b % 2 ≡ 1 = ground (arith, digit_of b) in
      rw (digits_from (value r) b n, d) (omega arith)

  zero_digit :
      (n b : ℕ)
      → get_bit r b ≡ false
      → (o : ℕ) → o + value l * tail_of n b ≡ o + value l * (2 ^ b * (value r / 2 ^ b % 2 ^ suc n))
  unfolding tail_of
  zero_digit n b e o =
      let d : value r / 2 ^ b % 2 ≡ 0 = ground (arith, digit_of b) in
      rw (digits_from (value r) b n, d) (omega arith)

  mul_loop-IsWord : (n b : ℕ) (out : List ℕ) → IsWord w out → IsWord w (mul_loop l r w n b out)
  unfolding mul_loop
  mul_loop-IsWord zero b out h = h
  mul_loop-IsWord (suc n) b out h = mul_loop-IsWord n (b + 1) _ (elim (Bool-cases (get_bit r b)) [
    | inl one_bit ↦ rw one_bit (add_bits-IsWord out (shl_bits l w b) w)
    | inr zero_bit ↦ rw zero_bit h
  ])

  value-mul_loop :
      (n b : ℕ) (out : List ℕ)
      → IsWord w out
      → value (mul_loop l r w n b out)
        ≡ (value out + value l * (2 ^ b * (value r / 2 ^ b % 2 ^ n))) % 2 ^ w
  unfolding mul_loop tail_of
  value-mul_loop zero b out h = rw mod-one (
      let e : value out + value l * (2 ^ b * 0) ≡ value out = omega arith in
      rw e (sym (mod-eq_of_lt h.fits)))
  value-mul_loop (suc n) b out h = elim (Bool-cases (get_bit r b)) [
    | inl one_bit ↦ rw one_bit (
        value-mul_loop n (b + 1) (add_bits out (shl_bits l w b) w)
          (add_bits-IsWord out (shl_bits l w b) w)
        ∙ rw (value-add_bits out (shl_bits l w b) w, value-shl_bits l w b short hl)
            (add_twice (2 ^ w) (value out) (2 ^ b * value l) (value l * tail_of n b)
              ∙ ap (λ (t : ℕ). t % 2 ^ w) (one_digit n b one_bit (value out))))
    | inr zero_bit ↦ rw zero_bit (
        value-mul_loop n (b + 1) out h
        ∙ ap (λ (t : ℕ). t % 2 ^ w) (zero_digit n b zero_bit (value out)))
  ]

-- The product of two vectors at a width is the product of their numbers modulo two to that width.
pub value-mul_bits :
    (l r : List ℕ) (w : ℕ)
    → w ≤ 2 ^ 63
    → IsLimbs l
    → IsLimbs r
    → value (mul_bits l r w) ≡ value l * value r % 2 ^ w
unfolding mul_bits
value-mul_bits l r w short hl hr =
    let all : value (zeros w) + value l * (2 ^ 0 * (value r / 2 ^ 0 % 2 ^ w))
        ≡ value l * (value r % 2 ^ w) =
      rw (value-zeros w, div-one) (omega arith) in
    value-mul_loop l r w short hl hr w 0 (zeros w) (zeros-IsWord w)
    ∙ rw all (mul-mod (value l) (value r) (2 ^ w))

pub mul_bits-IsWord :
    (l r : List ℕ) (w : ℕ) → w ≤ 2 ^ 63 → IsLimbs l → IsLimbs r → IsWord w (mul_bits l r w)
unfolding mul_bits
mul_bits-IsWord l r w short hl hr = mul_loop-IsWord l r w short hl hr w 0 (zeros w) (zeros-IsWord w)
