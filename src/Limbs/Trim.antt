-- ===== src/Limbs/Trim.antt =====
-- Trimming takes the remainder by the power of two of the width.
use rtlzz.Base.{
  ℕ, zero, suc, ◌+◌, ◌-◌, ◌*◌, ◌%◌, ◌^◌, ◌<◌, ◌≡◌, refl, sym, ap, ap₂, ◌∙◌, List, [], ◌∷◌, ltb,
  length, arith, subst, Bool-cases, inl, inr,
}
use rtlzz.Base.Bits.{pow_pos, pow_mono, mod_fields, mod_fields_low}
use rtlzz.Limbs.{limb_count, trim, head_limb, tail_limbs}
use rtlzz.Limbs.Value.{
  IsLimbs, value, IsWord, limb_count-add, limb_count-small, trim-add, trim-zero, trim-small,
}
use native.Mathlib.Nat.{mod-one, mod-lt, mod-eq_of_lt}

-- Induction on a width in steps of one limb.
width_below {ℓ} :
    (P : ℕ → Type ℓ)
    → P 0
    → ((w : ℕ) → 0 < w → w < 64 → P w)
    → ((w : ℕ) → P w → P (w + 64))
    → (k w : ℕ) → w < 64 * k
    → P w
width_below P base small step zero w h = absurd (omega arith)
width_below P base small step (suc k) zero h = base
width_below P base small step (suc k) (suc w) h = elim (Bool-cases (ltb (suc w) 64)) [
  | inl low ↦ small (suc w) (omega arith) (ground arith)
  | inr high ↦
      (let split : suc w ≡ suc w - 64 + 64 = ground arith in
        subst P (sym split)
          (step (suc w - 64) (width_below P base small step k (suc w - 64) (omega arith))))
]

pub width_induction {ℓ} :
    (P : ℕ → Type ℓ)
    → P 0
    → ((w : ℕ) → 0 < w → w < 64 → P w)
    → ((w : ℕ) → P w → P (w + 64))
    → (w : ℕ) → P w
width_induction P base small step w = width_below P base small step (suc w) w (omega arith)

pub head-IsLimb : (xs : List ℕ) → IsLimbs xs → head_limb xs < 2 ^ 64
head-IsLimb [] h = omega arith
head-IsLimb (x ∷ xs) h = h.0

pub tail-IsLimbs : (xs : List ℕ) → IsLimbs xs → IsLimbs (tail_limbs xs)
tail-IsLimbs [] h = tt
tail-IsLimbs (x ∷ xs) h = h.1

pub value-head-tail : (xs : List ℕ) → value xs ≡ head_limb xs + 2 ^ 64 * value (tail_limbs xs)
unfolding value
value-head-tail [] = refl
value-head-tail (x ∷ xs) = refl

-- What trimming promises.
record IsTrimmed (w : ℕ) (xs : List ℕ) : Type 0 where
  remainder : value (trim xs w) ≡ value xs % 2 ^ w
  limbs : IsLimbs (trim xs w)
  sized : length (trim xs w) ≡ limb_count w

trim-IsTrimmed_zero : (xs : List ℕ) → IsTrimmed 0 xs
unfolding value limb_count
trim-IsTrimmed_zero xs = record {
  remainder = rw (trim-zero xs) (sym (mod-one (value xs)));
  limbs = rw (trim-zero xs) tt;
  sized = rw (trim-zero xs) refl;
}

trim-IsTrimmed_small : (w : ℕ) → 0 < w → w < 64 → (xs : List ℕ) → IsTrimmed w xs
unfolding value
trim-IsTrimmed_small w p q xs =
    let bound : head_limb xs % 2 ^ w < 2 ^ w = mod-lt (head_limb xs) (pow_pos w) in
    record {
      remainder = rw (trim-small xs w p q) (
          omega arith
          ∙ sym (mod_fields_low 64 (head_limb xs) (value (tail_limbs xs)) w (omega arith))
          ∙ rw (← value-head-tail xs));
      limbs = rw (trim-small xs w p q) (omega (arith, pow_mono w 64 (omega arith)), tt);
      sized = rw (trim-small xs w p q) (sym (limb_count-small w p q));
    }

trim-IsTrimmed_step :
    (w : ℕ) (xs : List ℕ) → IsLimbs xs → IsTrimmed w (tail_limbs xs) → IsTrimmed (w + 64) xs
unfolding value
trim-IsTrimmed_step w xs h t = record {
  remainder =
      rw (trim-add xs w, t.remainder, value-head-tail xs)
        (sym (mod_fields 64 (head_limb xs) (value (tail_limbs xs)) w (head-IsLimb xs h)));
  limbs = rw (trim-add xs w) (head-IsLimb xs h, t.limbs);
  sized = rw (trim-add xs w, limb_count-add w) (ap suc t.sized);
}

trim-IsTrimmed : (w : ℕ) (xs : List ℕ) → IsLimbs xs → IsTrimmed w xs
trim-IsTrimmed =
    width_induction (λ w. (xs : List ℕ) → IsLimbs xs → IsTrimmed w xs)
      (λ xs h. trim-IsTrimmed_zero xs) (λ w p q xs h. trim-IsTrimmed_small w p q xs)
      (λ w ih xs h. trim-IsTrimmed_step w xs h (ih (tail_limbs xs) (tail-IsLimbs xs h)))

-- Trimming a vector of limbs to a width gives the remainder of its number by two to that width.
pub value-trim : (xs : List ℕ) (w : ℕ) → IsLimbs xs → value (trim xs w) ≡ value xs % 2 ^ w
value-trim xs w h = (trim-IsTrimmed w xs h).remainder

pub trim-IsWord : (xs : List ℕ) (w : ℕ) → IsLimbs xs → IsWord w (trim xs w)
trim-IsWord xs w h =
    let t = trim-IsTrimmed w xs h in
    record {
      limbs = t.limbs;
      sized = t.sized;
      fits = rw t.remainder (mod-lt (value xs) (pow_pos w));
    }

-- Two words of one width with one number are one vector.
value_inj :
    (xs ys : List ℕ)
    → IsLimbs xs
    → IsLimbs ys
    → length xs ≡ length ys
    → value xs ≡ value ys
    → xs ≡ ys
unfolding value
value_inj [] [] hx hy l e = refl
value_inj [] (y ∷ ys) hx hy l e = absurd (omega arith)
value_inj (x ∷ xs) [] hx hy l e = absurd (omega arith)
value_inj (x ∷ xs) (y ∷ ys) hx hy l e =
    ap₂ ◌∷◌ (omega (arith, hx.0, hy.0))
      (value_inj xs ys hx.1 hy.1 (omega arith) (omega (arith, hx.0, hy.0)))

pub IsWord-ext :
    {w : ℕ} {xs ys : List ℕ} → IsWord w xs → IsWord w ys → value xs ≡ value ys → xs ≡ ys
IsWord-ext {w} {xs} {ys} a b e = value_inj xs ys a.limbs b.limbs (a.sized ∙ sym b.sized) e

pub trim_id : {w : ℕ} {xs : List ℕ} → IsWord w xs → trim xs w ≡ xs
trim_id {w} {xs} h =
    IsWord-ext (trim-IsWord xs w h.limbs) h (value-trim xs w h.limbs ∙ mod-eq_of_lt h.fits)
