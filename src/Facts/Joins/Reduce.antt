-- ===== src/Facts/Joins/Reduce.antt =====
-- The facts of a reduction over the bits of a value.
use rtlzz.Base.{
  ℕ, zero, suc, ◌+◌, ◌-◌, ◌^◌, ◌<◌, ◌≤◌, ◌≡◌, refl, sym, ◌∙◌, List, [], ◌∷◌, Bool, true, false, not,
  ◌==◌, arith, Bool-cases, inl, inr,
}
use rtlzz.Base.Bits.{test_bit, bits_ext, pow_pos, test_bit-of_zero, test_bit-complement}
use rtlzz.Limbs.{get_bit, any_from}
use rtlzz.Limbs.Value.{value}
use rtlzz.Ir.{ValueFacts}
use rtlzz.Facts.{from_constant, make_constant}
use rtlzz.Facts.Sound.{Describes, facts_unknown-Describes}
use rtlzz.Facts.Widths.{constant-Describes}
use rtlzz.Facts.Constants.Meaning.{flag}
use rtlzz.Facts.Joins.{all_from, reduce, facts_reduce_or, facts_reduce_and}

any_from-found :
    (xs : List ℕ) (n b : ℕ) → any_from xs n b ≡ true → (j : ℕ) × (j < b + n) × (get_bit xs j ≡ true)
unfolding any_from
any_from-found xs zero b h = absurd (true_ne_false (sym h))
  where
    true_ne_false : ¬ (true ≡ false)
    true_ne_false e = cc
any_from-found xs (suc n) b h = elim (Bool-cases (get_bit xs b)) [
  | inl here ↦ (b, omega arith, here)
  | inr later ↦ let r = any_from-found xs n (b + 1) (ground arith) in (r.0, omega (arith, r.1), r.2)
]

all_from-lem :
    (xs : List ℕ) (n b j : ℕ) → all_from xs n b ≡ true → b ≤ j → j < b + n → get_bit xs j ≡ true
unfolding all_from
all_from-lem xs zero b j h p q = absurd (omega arith)
all_from-lem xs (suc n) b j h p q = elim (Bool-cases (b == j)) [
  | inl here ↦ (let e : b ≡ j = ground arith in rw (← e) (ground arith))
  | inr later ↦ all_from-lem xs n (b + 1) j (ground arith) (ground arith) (omega arith)
]

bit_constant :
    (d v : ℕ) → d < 2 → v ≡ d → Describes (from_constant (make_constant (d ∷ []) 1 false) 1) v
bit_constant d v h e =
    constant-Describes (d ∷ []) 1 1 false v (omega arith, tt) (unfold value in omega arith)

-- What the marks say, in terms of what they decide.
reduce-Describes :
    (deciding other : List ℕ) (n decided otherwise v : ℕ)
    → decided < 2
    → otherwise < 2
    → v < 2
    → ((j : ℕ) → j < n → get_bit deciding j ≡ true → v ≡ decided)
    → (((j : ℕ) → j < n → get_bit other j ≡ true) → v ≡ otherwise)
    → Describes (reduce deciding other n decided otherwise) v
unfolding reduce
reduce-Describes deciding other n decided otherwise v hd ho hv found all =
    elim (Bool-cases (any_from deciding n 0)) [
      | inl one_decides ↦
          let j = any_from-found deciding n 0 one_decides in
          rw one_decides (bit_constant decided v hd (found j.0 (omega (arith, j.1)) j.2))
      | inr open_bits ↦ rw open_bits (elim (Bool-cases (all_from other n 0)) [
        | inl all_known ↦ rw all_known (
            bit_constant otherwise v ho
              (all λ j p. all_from-lem other n 0 j all_known (omega arith) (omega arith)))
        | inr unknown ↦ rw unknown (facts_unknown-Describes 1 v (omega arith))
      ])
    ]

not_true : (b : Bool) → b ≡ true → b ≡ false → ⊥
not_true b p q = cc

-- The facts of an or over all bits, from facts that are true of a number, are true of whether the
-- number is not 0.
pub facts_reduce_or-Describes :
    (f : ValueFacts) (x : ℕ) → Describes f x → Describes (facts_reduce_or f) (flag (not (x == 0)))
unfolding facts_reduce_or
facts_reduce_or-Describes f x h =
    reduce-Describes f.known_one f.known_zero f.width 1 0 (flag (not (x == 0))) (omega arith)
      (omega arith) (ground arith)
      (λ j p q. elim (Bool-cases (x == 0)) [
        | inl empty ↦
            let e : x ≡ 0 = ground arith in
            absurd (not_true (test_bit x j) (h.filled j q) (rw e (test_bit-of_zero j)))
        | inr filled ↦ rw filled refl
      ])
      (λ all.
        let e : x ≡ 0 =
          bits_ext f.width x 0 h.fits (pow_pos f.width)
            (λ j p. h.clear j (all j p) ∙ sym (test_bit-of_zero j)) in
        rw e refl)

test_bit-ones : (w j : ℕ) → j < w → test_bit (2 ^ w - 1) j ≡ true
test_bit-ones w j h =
    let e : 2 ^ w - 1 ≡ 2 ^ w - 1 - 0 = omega arith in
    rw e (test_bit-complement w 0 j (pow_pos w) h ∙ rw (test_bit-of_zero j))

-- The facts of an and over all bits, from facts that are true of a number, are true of whether the
-- number is the largest of the width.
pub facts_reduce_and-Describes :
    (f : ValueFacts) (x : ℕ)
    → Describes f x
    → Describes (facts_reduce_and f) (flag (x == 2 ^ f.width - 1))
unfolding facts_reduce_and
facts_reduce_and-Describes f x h =
    reduce-Describes f.known_zero f.known_one f.width 0 1 (flag (x == 2 ^ f.width - 1))
      (omega arith) (omega arith) (ground arith)
      (λ j p q. elim (Bool-cases (x == 2 ^ f.width - 1)) [
        | inl full ↦
            let e : x ≡ 2 ^ f.width - 1 = ground arith in
            absurd (not_true (test_bit x j) (rw e (test_bit-ones f.width j p)) (h.clear j q))
        | inr other ↦ rw other refl
      ])
      (λ all.
        let e : x ≡ 2 ^ f.width - 1 =
          bits_ext f.width x (2 ^ f.width - 1) h.fits (omega (arith, pow_pos f.width))
            (λ j p. h.filled j (all j p) ∙ sym (test_bit-ones f.width j p)) in
        ground (arith, e))
