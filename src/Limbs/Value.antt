-- ===== src/Limbs/Value.antt =====
-- The number that a vector of limbs stands for, and what reading a bit and trimming do to it.
use rtlzz.Base.{
  ℕ, zero, suc, ◌+◌, ◌-◌, ◌*◌, ◌/◌, ◌%◌, ◌^◌, ◌≤◌, ◌<◌, ◌≡◌, refl, ap, List, [], ◌∷◌, false, ◌==◌,
  length, resize, arith, Bool-cases, inl, inr,
}
use rtlzz.Base.Bits.{test_bit, test_bit-fields, test_bit-of_zero, bit_and_mask}
use rtlzz.Limbs.{limb_count, mask_last, trim, get_bit, head_limb, tail_limbs}

abbrev pub All {ℓ κ} : {A : Type ℓ} → (A → Type κ) → List A → Type κ
All P [] = Unit
All P (x ∷ xs) = P x × All P xs

-- Every element is a `std::uint64_t`.
abbrev pub IsLimbs : List ℕ → Type 0
IsLimbs xs = All (λ x. x < 2 ^ 64) xs

unfoldable pub value : List ℕ → ℕ
value [] = 0
value (x ∷ xs) = x + 2 ^ 64 * value xs

-- A vector of the limbs that a width takes, with no bit above the width.
pub record IsWord (width : ℕ) (xs : List ℕ) : Type 0 where
  pub limbs : IsLimbs xs
  pub sized : length xs ≡ limb_count width
  pub fits : value xs < 2 ^ width

pub get_bit-low : (x : ℕ) (xs : List ℕ) (i : ℕ) → i < 64 → get_bit (x ∷ xs) i ≡ test_bit x i
unfolding get_bit
get_bit-low x xs i h =
    let e : i / 64 ≡ 0 = omega arith in let f : i % 64 ≡ i = omega arith in rw (e, f) (ground arith)

pub get_bit-high : (x : ℕ) (xs : List ℕ) (i : ℕ) → 64 ≤ i → get_bit (x ∷ xs) i ≡ get_bit xs (i - 64)
unfolding get_bit
get_bit-high x xs i h =
    let e : i / 64 ≡ suc ((i - 64) / 64) = omega arith in
    let f : i % 64 ≡ (i - 64) % 64 = omega arith in rw (e, f) (ground arith)

-- Reading a bit reads a digit of the number.
pub get_bit-value : (xs : List ℕ) (i : ℕ) → IsLimbs xs → get_bit xs i ≡ test_bit (value xs) i
unfolding value
get_bit-value [] i h = unfold get_bit in ground (arith, test_bit-of_zero i)
get_bit-value (x ∷ xs) i h = ground (
  arith,
  test_bit-fields 64 x (value xs) i h.0,
  get_bit-low x xs i,
  get_bit-high x xs i,
  get_bit-value xs (i - 64) h.1,
)

pub limb_count-add : (w : ℕ) → limb_count (w + 64) ≡ suc (limb_count w)
unfolding limb_count
limb_count-add w = ground arith

limb_count_pos : (w : ℕ) → (w % 64 == 0) ≡ false → 0 < limb_count w
unfolding limb_count
limb_count_pos w h = ground arith

pub limb_count-small : (w : ℕ) → 0 < w → w < 64 → limb_count w ≡ 1
unfolding limb_count
limb_count-small w p q = ground arith

resize-suc : (n : ℕ) (xs : List ℕ) → resize (suc n) 0 xs ≡ head_limb xs ∷ resize n 0 (tail_limbs xs)
resize-suc n [] = refl
resize-suc n (x ∷ xs) = refl

mask_last-cons :
    (m x n : ℕ) (xs : List ℕ)
    → 0 < n
    → mask_last m (x ∷ resize n 0 xs) ≡ x ∷ mask_last m (resize n 0 xs)
unfolding mask_last
mask_last-cons m x zero xs h = absurd (omega arith)
mask_last-cons m x (suc n) [] h = refl
mask_last-cons m x (suc n) (y ∷ ys) h = refl

pub trim-add : (xs : List ℕ) (w : ℕ) → trim xs (w + 64) ≡ head_limb xs ∷ trim (tail_limbs xs) w
unfolding trim
trim-add xs w =
    let e : (w + 64) % 64 ≡ w % 64 = omega arith in
    rw (limb_count-add w, e, resize-suc (limb_count w) xs)
      (elim (Bool-cases (w % 64 == 0)) [
        | inl whole ↦ rw whole
        | inr part ↦ rw part (
            mask_last-cons (2 ^ (w % 64) - 1) (head_limb xs) (limb_count w) (tail_limbs xs)
              (limb_count_pos w part))
      ])

pub trim-zero : (xs : List ℕ) → trim xs 0 ≡ []
unfolding trim limb_count
trim-zero xs = refl

pub trim-small : (xs : List ℕ) (w : ℕ) → 0 < w → w < 64 → trim xs w ≡ head_limb xs % 2 ^ w ∷ []
unfolding trim
trim-small xs w p q =
    let e : w % 64 ≡ w = omega arith in
    let f : (w == 0) ≡ false = ground arith in
    rw (limb_count-small w p q, e, f, resize-suc 0 xs)
      (unfold mask_last in ap (λ (t : ℕ). t ∷ []) (bit_and_mask w (head_limb xs)))
