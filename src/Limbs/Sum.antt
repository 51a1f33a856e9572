-- ===== src/Limbs/Sum.antt =====
-- `factsAddBits`: addition limb by limb with a carry is addition modulo two to the width.
use rtlzz.Base.{ℕ, zero, suc, ◌+◌, ◌*◌, ◌/◌, ◌%◌, ◌^◌, ◌≤◌, ◌≡◌, sym, ap, ◌∙◌, List, arith}
use rtlzz.Base.Bits.{mod_fields, mod_pow-mod_pow}
use rtlzz.Limbs.{limb_count, head_limb, tail_limbs, add_limbs, add_bits}
use rtlzz.Limbs.Value.{IsLimbs, value, IsWord}
use rtlzz.Limbs.Trim.{value-head-tail, value-trim, trim-IsWord}
use native.Mathlib.Nat.{mod-one, zero-add}

pub limb_count_covers : (w : ℕ) → w ≤ 64 * limb_count w
unfolding limb_count
limb_count_covers w = ground arith

add_limbs-IsLimbs : (n c : ℕ) (l r : List ℕ) → IsLimbs (add_limbs n c l r)
unfolding add_limbs
add_limbs-IsLimbs zero c l r = tt
add_limbs-IsLimbs (suc n) c l r = (omega arith, add_limbs-IsLimbs n _ (tail_limbs l) (tail_limbs r))

value-add_limbs :
    (n c : ℕ) (l r : List ℕ) → value (add_limbs n c l r) ≡ (c + value l + value r) % 2 ^ (64 * n)
unfolding add_limbs value
value-add_limbs zero c l r = sym (mod-one (c + value l + value r))
value-add_limbs (suc n) c l r =
    let s = c + head_limb l + head_limb r in
    let rest = s / 2 ^ 64 + value (tail_limbs l) + value (tail_limbs r) in
    let split : c + value l + value r ≡ s % 2 ^ 64 + 2 ^ 64 * rest =
      omega (arith, value-head-tail l, value-head-tail r) in
    let width : 64 * suc n ≡ 64 * n + 64 = omega arith in
    rw (split, width, mod_fields 64 (s % 2 ^ 64) rest (64 * n) (omega arith))
      (ap (λ (t : ℕ). s % 2 ^ 64 + 2 ^ 64 * t)
        (value-add_limbs n (s / 2 ^ 64) (tail_limbs l) (tail_limbs r)))

-- The sum of two vectors of limbs at a width is the sum of their numbers modulo two to that width.
pub value-add_bits : (l r : List ℕ) (w : ℕ) → value (add_bits l r w) ≡ (value l + value r) % 2 ^ w
unfolding add_bits
value-add_bits l r w =
    value-trim (add_limbs (limb_count w) 0 l r) w (add_limbs-IsLimbs (limb_count w) 0 l r)
    ∙ rw (value-add_limbs (limb_count w) 0 l r) (
        mod_pow-mod_pow w (64 * limb_count w) (0 + value l + value r) (limb_count_covers w)
        ∙ rw zero-add)

pub add_bits-IsWord : (l r : List ℕ) (w : ℕ) → IsWord w (add_bits l r w)
unfolding add_bits
add_bits-IsWord l r w =
    trim-IsWord (add_limbs (limb_count w) 0 l r) w (add_limbs-IsLimbs (limb_count w) 0 l r)
