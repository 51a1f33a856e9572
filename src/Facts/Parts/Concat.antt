-- ===== src/Facts/Parts/Concat.antt =====
-- The facts of a concatenation are true of the number with the operands' bits side by side.
use rtlzz.Base.{
  ℕ, ◌+◌, ◌-◌, ◌*◌, ◌%◌, ◌^◌, ◌<◌, ◌≡◌, ap, List, [], ◌∷◌, true, false, ◌&&◌, ◌||◌, ltb, leb, ◌==◌,
  arith, Bool-cases, inl, inr,
}
use rtlzz.Base.Bits.{test_bit, test_bit-fields, test_bit-mod, pow_pos, pow_add}
use mathlib.Core.List.{reverse}
use rtlzz.Limbs.{get_bit, zeros}
use rtlzz.Limbs.Value.{IsLimbs}
use rtlzz.Limbs.Loops.{set_where-IsLimbs, get_bit-set_where, zeros-IsLimbs, get_bit-zeros}
use rtlzz.Ir.{ValueFacts}
use rtlzz.Facts.{facts_unknown}
use rtlzz.Facts.Sound.{Describes, facts_unknown-Describes, known_bits-Describes}
use rtlzz.Facts.Joins.Possible.{DescribeAll}
use rtlzz.Facts.Parts.{copy_marks, concat_from, facts_concat}
use native.Mathlib.Nat.{mod-lt, mul-le-mul_left}

-- The bits of some operands side by side, the first lowest.
abbrev pub concat_value : List ValueFacts → List ℕ → ℕ
concat_value [] xs = 0
concat_value (f ∷ fs) [] = 0
concat_value (f ∷ fs) (x ∷ xs) = x + 2 ^ f.width * concat_value fs xs

copy_marks-get_bit :
    (source : List ℕ) (width offset : ℕ) (out : List ℕ) (j : ℕ)
    → get_bit (copy_marks source width offset out) j ≡ true
    → (get_bit out j || (leb offset j && ltb j (offset + width) && get_bit source (j - offset)))
      ≡ true
unfolding copy_marks
copy_marks-get_bit source width offset out j h =
    ground (arith, get_bit-set_where (λ bit. get_bit source (bit - offset)) width offset out j)

-- Marks that are true of the bits below an offset, with none above.
record IsMarked (offset : ℕ) (kz ko : List ℕ) (a : ℕ) : Type 0 where
  zero_limbs : IsLimbs kz
  one_limbs : IsLimbs ko
  fits : a < 2 ^ offset
  clear : (i : ℕ) → get_bit kz i ≡ true → (i < offset) × (test_bit a i ≡ false)
  filled : (i : ℕ) → get_bit ko i ≡ true → (i < offset) × (test_bit a i ≡ true)

copy_marks-IsMarked :
    (offset : ℕ) (kz ko : List ℕ) (a x : ℕ) (f : ValueFacts)
    → IsMarked offset kz ko a
    → Describes f x
    → IsMarked
        (offset + f.width)
        (copy_marks f.known_zero f.width offset kz)
        (copy_marks f.known_one f.width offset ko)
        (a + 2 ^ offset * x)
copy_marks-IsMarked offset kz ko a x f h d = record {
  zero_limbs =
      unfold copy_marks in
      set_where-IsLimbs (λ bit. get_bit f.known_zero (bit - offset)) f.width offset kz h.zero_limbs;
  one_limbs =
      unfold copy_marks in
      set_where-IsLimbs (λ bit. get_bit f.known_one (bit - offset)) f.width offset ko h.one_limbs;
  fits = omega (arith, pow_add offset f.width, mul-le-mul_left (2 ^ offset) d.fits, h.fits);
  clear = λ i p. ground (
    arith,
    copy_marks-get_bit f.known_zero f.width offset kz i p,
    h.clear i,
    d.clear (i - offset),
    test_bit-fields offset a x i h.fits,
  );
  filled = λ i p. ground (
    arith,
    copy_marks-get_bit f.known_one f.width offset ko i p,
    h.filled i,
    d.filled (i - offset),
    test_bit-fields offset a x i h.fits,
  );
}

concat_from-Describes :
    (w : ℕ) (fs : List ValueFacts) (xs : List ℕ) (offset a : ℕ) (kz ko : List ℕ)
    → DescribeAll fs xs
    → IsMarked offset kz ko a
    → Describes
        (concat_from w fs offset (record (facts_unknown w) { known_zero = kz; known_one = ko }))
        ((a + 2 ^ offset * concat_value fs xs) % 2 ^ w)
unfolding concat_from
concat_from-Describes w [] (x ∷ xs) offset a kz ko h m = absurd h
concat_from-Describes w [] [] offset a kz ko h m =
    let e : a + 2 ^ offset * 0 ≡ a = omega arith in
    rw e (elim (Bool-cases (offset == w)) [
      | inl whole ↦
          let o : offset ≡ w = ground arith in
          rw whole (
            known_bits-Describes w (a % 2 ^ w) kz ko (mod-lt a (pow_pos w)) m.zero_limbs m.one_limbs
              (λ i p. ground (arith, test_bit-mod w a i, m.clear i))
              (λ i p. ground (arith, test_bit-mod w a i, m.filled i)))
      | inr short ↦ rw short (facts_unknown-Describes w (a % 2 ^ w) (mod-lt a (pow_pos w)))
    ])
concat_from-Describes w (f ∷ fs) [] offset a kz ko h m = absurd h
concat_from-Describes w (f ∷ fs) (x ∷ xs) offset a kz ko h m =
    let v = a + 2 ^ offset * (x + 2 ^ f.width * concat_value fs xs) in
    elim (Bool-cases (f.width == 0 || ltb (w - offset) f.width)) [
      | inl unfit ↦ rw unfit (facts_unknown-Describes w (v % 2 ^ w) (mod-lt v (pow_pos w)))
      | inr fit ↦
          let e : a + 2 ^ offset * x + 2 ^ (offset + f.width) * concat_value fs xs ≡ v =
            omega (arith, ap (λ (t : ℕ). t * concat_value fs xs) (pow_add offset f.width)) in
          rw (fit, ← e)
            (concat_from-Describes w fs xs (offset + f.width) (a + 2 ^ offset * x)
              (copy_marks f.known_zero f.width offset kz) (copy_marks f.known_one f.width offset ko)
              h.1 (copy_marks-IsMarked offset kz ko a x f m h.0))
    ]

-- The facts of a concatenation, from facts that are true of the operands (listed from the last), are
-- true of the operands' bits side by side, modulo two to the result width.
pub facts_concat-Describes :
    (w : ℕ) (fs : List ValueFacts) (xs : List ℕ)
    → DescribeAll (reverse fs) xs
    → Describes (facts_concat w fs) (concat_value (reverse fs) xs % 2 ^ w)
unfolding facts_concat facts_unknown
facts_concat-Describes w fs xs h =
    let e : 0 + 2 ^ 0 * concat_value (reverse fs) xs ≡ concat_value (reverse fs) xs = omega arith in
    rw (← e) (
      concat_from-Describes w (reverse fs) xs 0 0 (zeros w) (zeros w) h (record {
        zero_limbs = zeros-IsLimbs w;
        one_limbs = zeros-IsLimbs w;
        fits = omega arith;
        clear = λ i p. ground (arith, get_bit-zeros w i);
        filled = λ i p. ground (arith, get_bit-zeros w i);
      }))
