-- ===== src/Limbs/LostBorrow.antt =====
-- `factsSubBits` beyond 128 bits: zero minus one loses its borrow at the third limb.
use rtlzz.Base.{ℕ, zero, suc, ◌+◌, ◌-◌, ◌%◌, ◌^◌, ◌≤◌, ◌<◌, ◌≡◌, refl, ◌∙◌, List, ◌∷◌, arith, ◌≢◌}
use rtlzz.Base.Bits.{pow_mono}
use rtlzz.Limbs.{limb_count, head_limb, tail_limbs, sub_limbs, sub_bits, next_borrow}
use rtlzz.Limbs.Value.{value}
use rtlzz.Limbs.Trim.{value-head-tail, value-trim}
use rtlzz.Limbs.Difference.{sub_limbs-IsLimbs}
use native.Mathlib.Nat.{mod-eq_of_lt, zero-add}

sub_limbs-zero : (n : ℕ) (l r : List ℕ) → value l ≡ 0 → value r ≡ 0 → value (sub_limbs n 0 l r) ≡ 0
unfolding sub_limbs value next_borrow
sub_limbs-zero zero l r p q = refl
sub_limbs-zero (suc n) l r p q =
    let hl : head_limb l ≡ 0 = omega (arith, value-head-tail l) in
    let hr : head_limb r ≡ 0 = omega (arith, value-head-tail r) in
    rw (hl, hr)
      (omega (
        arith,
        sub_limbs-zero n (tail_limbs l) (tail_limbs r) (omega (arith, value-head-tail l))
            (omega (arith, value-head-tail r)),
      ))

-- The limb that takes the borrow hands none on.
sub_limbs-stop :
    (n : ℕ) (l r : List ℕ)
    → value l ≡ 0
    → value r ≡ 0
    → value (sub_limbs (suc n) 1 l r) ≡ 2 ^ 64 - 1
unfolding sub_limbs value next_borrow
sub_limbs-stop n l r p q =
    let hl : head_limb l ≡ 0 = omega (arith, value-head-tail l) in
    let hr : head_limb r ≡ 0 = omega (arith, value-head-tail r) in
    rw (hl, hr)
      (omega (
        arith,
        sub_limbs-zero n (tail_limbs l) (tail_limbs r) (omega (arith, value-head-tail l))
            (omega (arith, value-head-tail r)),
      ))

sub_limbs-suc :
    (n b : ℕ) (l r : List ℕ)
    → sub_limbs (suc n) b l r
      ≡ (head_limb l + 2 ^ 64 - (head_limb r + b) % 2 ^ 64) % 2 ^ 64
        ∷ sub_limbs n (next_borrow b (head_limb l) (head_limb r)) (tail_limbs l) (tail_limbs r)
unfolding sub_limbs
sub_limbs-suc n b l r = refl

sub_limbs-one :
    (n : ℕ) (l r : List ℕ)
    → value l ≡ 0
    → value r ≡ 1
    → value (sub_limbs (suc (suc n)) 0 l r) ≡ 2 ^ 128 - 1
unfolding value
sub_limbs-one n l r p q =
    let hl : head_limb l ≡ 0 = omega (arith, value-head-tail l) in
    let hr : head_limb r ≡ 1 = omega (arith, value-head-tail r) in
    let stop =
      sub_limbs-stop n (tail_limbs l) (tail_limbs r) (omega (arith, value-head-tail l))
        (omega (arith, value-head-tail r)) in
    let borrows : next_borrow 0 0 1 ≡ 1 = unfold next_borrow in refl in
    rw (sub_limbs-suc (suc n) 0 l r, hl, hr, borrows) (omega (arith, stop))

limb_count_long : (w : ℕ) → 128 ≤ w → limb_count w ≡ suc (suc (limb_count w - 2))
unfolding limb_count
limb_count_long w h = ground arith

-- At every width of more than 128 bits, subtracting one from zero gives 2 ^ 128 - 1, which is not the
-- difference modulo two to the width.
pub sub_bits_loses_borrow :
    (l r : List ℕ) (w : ℕ)
    → value l ≡ 0
    → value r ≡ 1
    → 128 < w
    → (value (sub_bits l r w) ≡ 2 ^ 128 - 1)
      × (value (sub_bits l r w) ≢ (value l + (2 ^ w - value r % 2 ^ w)) % 2 ^ w)
sub_bits_loses_borrow l r w p q h =
    let n = limb_count w in
    let raw : value (sub_limbs n 0 l r) ≡ 2 ^ 128 - 1 =
      rw (limb_count_long w (omega arith)) (sub_limbs-one (n - 2) l r p q) in
    let bound : 2 ^ 129 ≤ 2 ^ w = pow_mono 129 w (omega arith) in
    let result : value (sub_bits l r w) ≡ 2 ^ 128 - 1 =
      unfold sub_bits in
      value-trim (sub_limbs n 0 l r) w (sub_limbs-IsLimbs n 0 l r)
      ∙ rw raw (mod-eq_of_lt (omega arith)) in
    let one_mod : 1 % 2 ^ w ≡ 1 = mod-eq_of_lt (omega arith) in
    let exact : (0 + (2 ^ w - 1)) % 2 ^ w ≡ 2 ^ w - 1 = rw zero-add (mod-eq_of_lt (omega arith)) in
    (result, rw (result, p, q, one_mod, exact) (omega arith))
