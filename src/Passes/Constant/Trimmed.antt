-- ===== src/Passes/Constant/Trimmed.antt =====
-- The trim of the constant pass masks the last limb also where the width is full.
use rtlzz.Base.{
  ℕ, ◌-◌, ◌%◌, ◌^◌, ◌≡◌, refl, ap, ◌∙◌, List, [], ◌∷◌, ◌==◌, resize, arith, Bool-cases, inl, inr,
}
use rtlzz.Base.Bits.{bit_and_mask}
use native.Mathlib.Nat.{mod-eq_of_lt}
use rtlzz.Limbs.{limb_count, mask_last, trim}
use rtlzz.Limbs.Value.{IsLimbs}
use rtlzz.Limbs.Resize.{resize-IsLimbs}
use rtlzz.Passes.Constant.{high_mask, trim_limbs}

mask_last-full : (xs : List ℕ) → IsLimbs xs → mask_last (2 ^ 64 - 1) xs ≡ xs
unfolding mask_last
mask_last-full [] h = refl
mask_last-full (x ∷ []) h = ap (λ y. y ∷ []) (bit_and_mask 64 x ∙ mod-eq_of_lt h.0)
mask_last-full (x ∷ y ∷ xs) h = ap (λ r. x ∷ r) (mask_last-full (y ∷ xs) h.1)

pub trim_limbs-trim : (xs : List ℕ) (w : ℕ) → IsLimbs xs → trim_limbs xs w ≡ trim xs w
unfolding trim_limbs high_mask trim
trim_limbs-trim xs w h = elim (Bool-cases (w % 64 == 0)) [
  | inl full ↦ rw full (
      mask_last-full (resize (limb_count w) 0 xs)
        (resize-IsLimbs (limb_count w) 0 xs (omega arith) h))
  | inr part ↦ rw part refl
]
