-- ===== src/Limbs/AnyBit.antt =====
-- `factsAnyBitSet` tells a word of zeros from the others.
use rtlzz.Base.{
  ℕ, zero, suc, ◌+◌, ◌^◌, ◌≤◌, ◌<◌, ◌≡◌, refl, sym, ◌∙◌, List, true, false, not, ltb, ◌==◌, arith,
  Bool-cases, inl, inr,
}
use rtlzz.Base.Bits.{test_bit-of_zero, test_bit-above}
use rtlzz.Limbs.{get_bit, any_bit_set, any_from}
use rtlzz.Limbs.Value.{IsLimbs, value, get_bit-value}
use rtlzz.Limbs.Loops.{value_of_bits}

-- Whether any bit of a word is set.
any_from-zero : (xs : List ℕ) (n b : ℕ) → ((j : ℕ) → get_bit xs j ≡ false) → any_from xs n b ≡ false
unfolding any_from
any_from-zero xs zero b h = refl
any_from-zero xs (suc n) b h = rw (h b) (any_from-zero xs n (b + 1) h)

any_from-none :
    (xs : List ℕ) (n b j : ℕ) → any_from xs n b ≡ false → b ≤ j → j < b + n → get_bit xs j ≡ false
unfolding any_from
any_from-none xs zero b j h p q = absurd (omega arith)
any_from-none xs (suc n) b j h p q = elim (Bool-cases (b == j)) [
  | inl here ↦ (let e : b ≡ j = ground arith in rw (← e) (ground arith))
  | inr later ↦ any_from-none xs n (b + 1) j (ground arith) (ground arith) (omega arith)
]

no_digit : (xs : List ℕ) (j : ℕ) → IsLimbs xs → value xs ≡ 0 → get_bit xs j ≡ false
no_digit xs j h e = get_bit-value xs j h ∙ rw e (test_bit-of_zero j)

true_ne_false : ¬ (true ≡ false)
true_ne_false h = cc

-- `factsAnyBitSet` tells whether a number that fits the width is not zero.
pub any_bit_set-value :
    (xs : List ℕ) (w : ℕ) → IsLimbs xs → value xs < 2 ^ w → any_bit_set xs w ≡ not (value xs == 0)
unfolding any_bit_set
any_bit_set-value xs w limbs fits = elim (Bool-cases (any_from xs w 0)) [
  | inl some_bit ↦ elim (Bool-cases (value xs == 0)) [
    | inl empty ↦
        (let e : value xs ≡ 0 = ground arith in
          absurd (true_ne_false (sym some_bit ∙ any_from-zero xs w 0 (λ j. no_digit xs j limbs e))))
    | inr filled ↦ rw (some_bit, filled)
  ]
  | inr no_bit ↦
      (let e : value xs ≡ 0 = value_of_bits xs 0 limbs (λ j. sym (
          test_bit-of_zero j
          ∙ sym (elim (Bool-cases (ltb j w)) [
            | inl inside ↦ any_from-none xs w 0 j no_bit (omega arith) (ground arith)
            | inr outside ↦
                get_bit-value xs j limbs ∙ test_bit-above w (value xs) j fits (ground arith)
          ]))) in
        rw (no_bit, e))
]
