-- ===== src/Limbs/Difference.antt =====
-- `factsSubBits`: subtraction limb by limb with a borrow. The code loses a borrow that reaches two
-- equal limbs, so the difference is exact up to 128 bits, and beyond where no borrow is lost.
use rtlzz.Base.{
  ℕ, zero, suc, ◌+◌, ◌-◌, ◌*◌, ◌%◌, ◌^◌, ◌≤◌, ◌<◌, ◌≡◌, refl, sym, ap, ◌∙◌, List, arith, inl, inr,
  ◌≢◌, ◌⊎◌,
}
use rtlzz.Base.Bits.{mod_fields, sub_mod, mod_pow_mono}
use rtlzz.Limbs.{limb_count, head_limb, tail_limbs, sub_limbs, sub_bits, next_borrow}
use rtlzz.Limbs.Value.{IsLimbs, value, IsWord}
use rtlzz.Limbs.Trim.{value-head-tail, value-trim, trim-IsWord, head-IsLimb, tail-IsLimbs}
use rtlzz.Limbs.Sum.{limb_count_covers}
use native.Mathlib.Nat.{mod-one, mod-add-mod}

-- No borrow reaches two equal limbs, but for the last ones, whose borrow goes nowhere.
abbrev pub KeepsBorrow : ℕ → ℕ → List ℕ → List ℕ → Type 0
KeepsBorrow zero b l r = Unit
KeepsBorrow (suc zero) b l r = Unit
KeepsBorrow (suc (suc n)) b l r =
    ((b ≡ 0) ⊎ (head_limb l ≢ head_limb r))
    × KeepsBorrow (suc n) (next_borrow b (head_limb l) (head_limb r)) (tail_limbs l) (tail_limbs r)

pub sub_limbs-IsLimbs : (n b : ℕ) (l r : List ℕ) → IsLimbs (sub_limbs n b l r)
unfolding sub_limbs
sub_limbs-IsLimbs zero b l r = tt
sub_limbs-IsLimbs (suc n) b l r = (omega arith, sub_limbs-IsLimbs n _ (tail_limbs l) (tail_limbs r))

-- One limb: the limb written and the borrow handed on account for the difference.
limb_step :
    (b l r : ℕ)
    → b ≤ 1
    → l < 2 ^ 64
    → r < 2 ^ 64
    → (b ≡ 0) ⊎ (l ≢ r)
    → (l + 2 ^ 64 - (r + b) % 2 ^ 64) % 2 ^ 64 + r + b ≡ l + 2 ^ 64 * next_borrow b l r
unfolding next_borrow
limb_step b l r hb hl hr (inl e) = ground arith
limb_step b l r hb hl hr (inr e) = ground arith

next_borrow-le : (b l r : ℕ) → next_borrow b l r ≤ 1
unfolding next_borrow
next_borrow-le b l r = ground arith

-- Adding the subtrahend and the borrow back gives the minuend.
add-sub_limbs :
    (n b : ℕ) (l r : List ℕ)
    → b ≤ 1
    → IsLimbs l
    → IsLimbs r
    → KeepsBorrow n b l r
    → (value (sub_limbs n b l r) + value r + b) % 2 ^ (64 * n) ≡ value l % 2 ^ (64 * n)
unfolding sub_limbs value
add-sub_limbs zero b l r hb hl hr k = mod-one _ ∙ sym (mod-one (value l))
add-sub_limbs (suc zero) b l r hb hl hr k =
    omega (arith, value-head-tail l, value-head-tail r, head-IsLimb l hl, head-IsLimb r hr)
add-sub_limbs (suc (suc n)) b l r hb hl hr k =
    let l0 = head_limb l in
    let r0 = head_limb r in
    let b' = next_borrow b l0 r0 in
    let rest = sub_limbs (suc n) b' (tail_limbs l) (tail_limbs r) in
    let width : 64 * suc (suc n) ≡ 64 * suc n + 64 = omega arith in
    let whole : (l0 + 2 ^ 64 - (r0 + b) % 2 ^ 64) % 2 ^ 64 + 2 ^ 64 * value rest + value r + b
        ≡ l0 + 2 ^ 64 * (value rest + value (tail_limbs r) + b') =
      omega (
        arith,
        value-head-tail r,
        limb_step b l0 r0 hb (head-IsLimb l hl) (head-IsLimb r hr) k.0,
      ) in
    rw
      (
        whole,
        width,
        mod_fields 64 l0 (value rest + value (tail_limbs r) + b') (64 * suc n) (head-IsLimb l hl),
      )
      (ap (λ (t : ℕ). l0 + 2 ^ 64 * t)
          (add-sub_limbs (suc n) b' (tail_limbs l) (tail_limbs r) (next_borrow-le b l0 r0)
            (tail-IsLimbs l hl) (tail-IsLimbs r hr) k.1)
        ∙ sym (mod_fields 64 l0 (value (tail_limbs l)) (64 * suc n) (head-IsLimb l hl))
        ∙ ap (λ (t : ℕ). t % 2 ^ (64 * suc n + 64)) (sym (value-head-tail l)))

pub sub_bits-IsWord : (l r : List ℕ) (w : ℕ) → IsWord w (sub_bits l r w)
unfolding sub_bits
sub_bits-IsWord l r w =
    trim-IsWord (sub_limbs (limb_count w) 0 l r) w (sub_limbs-IsLimbs (limb_count w) 0 l r)

-- The difference of two vectors of limbs at a width, where no borrow is lost, is the difference of
-- their numbers modulo two to that width.
pub value-sub_bits :
    (l r : List ℕ) (w : ℕ)
    → IsLimbs l
    → IsLimbs r
    → KeepsBorrow (limb_count w) 0 l r
    → value (sub_bits l r w) ≡ (value l + (2 ^ w - value r % 2 ^ w)) % 2 ^ w
value-sub_bits l r w hl hr k =
    let raw = sub_limbs (limb_count w) 0 l r in
    let trimmed : value (sub_bits l r w) ≡ value raw % 2 ^ w =
      unfold sub_bits in value-trim raw w (sub_limbs-IsLimbs (limb_count w) 0 l r) in
    let back : (value raw + value r + 0) % 2 ^ w ≡ value l % 2 ^ w =
      mod_pow_mono w (64 * limb_count w) (value raw + value r + 0) (value l) (limb_count_covers w)
        (add-sub_limbs (limb_count w) 0 l r (omega arith) hl hr k) in
    sym (
      sub_mod (2 ^ w) (value (sub_bits l r w)) (value l) (value r) (sub_bits-IsWord l r w).fits (
        rw trimmed (
          mod-add-mod (value raw) (2 ^ w) (value r)
          ∙ ap (λ (t : ℕ). t % 2 ^ w) (omega arith)
          ∙ back)))

KeepsBorrow-short : (n : ℕ) (l r : List ℕ) → n ≤ 2 → KeepsBorrow n 0 l r
KeepsBorrow-short zero l r h = tt
KeepsBorrow-short (suc zero) l r h = tt
KeepsBorrow-short (suc (suc zero)) l r h = (inl refl, tt)
KeepsBorrow-short (suc (suc (suc n))) l r h = absurd (omega arith)

limb_count_short : (w : ℕ) → w ≤ 128 → limb_count w ≤ 2
unfolding limb_count
limb_count_short w h = ground arith

-- Up to 128 bits no borrow is lost.
pub value-sub_bits_short :
    (l r : List ℕ) (w : ℕ)
    → w ≤ 128
    → IsLimbs l
    → IsLimbs r
    → value (sub_bits l r w) ≡ (value l + (2 ^ w - value r % 2 ^ w)) % 2 ^ w
value-sub_bits_short l r w h hl hr =
    value-sub_bits l r w hl hr (KeepsBorrow-short (limb_count w) l r (limb_count_short w h))
