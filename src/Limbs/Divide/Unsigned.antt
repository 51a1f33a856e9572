-- ===== src/Limbs/Divide/Unsigned.antt =====
-- Unsigned restoring division up to 128 bits gives the quotient and the remainder.
use rtlzz.Base.{
  ℕ, zero, suc, ◌+◌, ◌-◌, ◌*◌, ◌/◌, ◌%◌, ◌^◌, ◌≤◌, ◌<◌, ◌≡◌, sym, ap, ◌∙◌, List, true, false, leb,
  arith, Bool-cases, inl, inr, some, leb→le,
}
use rtlzz.Base.Bits.{test_bit, test_bit-mul, mod_unique}
use rtlzz.Limbs.{zeros, set_bit, sub_bits, compare_unsigned, any_bit_set}
use rtlzz.Limbs.Value.{value, IsWord}
use rtlzz.Limbs.Loops.{value-zeros}
use rtlzz.Limbs.Difference.{value-sub_bits_short, sub_bits-IsWord}
use rtlzz.Limbs.Order.{compare_unsigned-value}
use rtlzz.Limbs.Multiply.{zeros-IsWord}
use rtlzz.Limbs.AnyBit.{any_bit_set-value}
use rtlzz.Limbs.Divide.{DivMod, shift_in, div_step, div_loop, div_mod_unsigned, not_less}
use native.Mathlib.Nat.{
  mod-eq_of_lt, div-div-eq-div-mul, pow-suc, mod-lt, mod-le, div-le_self, mul-div-le,
  mul-le-mul_left, div-add-mod, div-eq_of_lt, zero-div, zero-mod, le_refl, div-one,
}
use rtlzz.Limbs.Divide.Step.{set_bit-IsWord, value-shift_in, next_quotient}

-- With `left` bits of the numerator to come, the state holds the quotient and the remainder of the
-- bits that are in.
record IsDividing (n d w left : ℕ) (s : DivMod) : Type 0 where
  q_word : IsWord w s.quotient
  r_word : IsWord w s.remainder
  q_value : value s.quotient ≡ 2 ^ left * (n / 2 ^ left / d)
  r_value : value s.remainder ≡ n / 2 ^ left % d

module _ (num den : List ℕ) (w : ℕ) (short : w ≤ 128) (hn : IsWord w num) (hd : IsWord w den)
    (pos_d : 0 < value den) where
  sub_value :
      (r : List ℕ)
      → IsWord w r
      → value den ≤ value r
      → value (sub_bits r den w) ≡ value r - value den
  sub_value r hr h =
      let e : value den % 2 ^ w ≡ value den = mod-eq_of_lt hd.fits in
      value-sub_bits_short r den w short hr.limbs hd.limbs
      ∙ rw e (
          mod_unique (value r + (2 ^ w - value den)) (2 ^ w) 1 (value r - value den)
            (omega (arith, hr.fits)) (omega (arith, hd.fits)))

  compare_value :
      (r : List ℕ) → IsWord w r → not_less (compare_unsigned r den w) ≡ leb (value den) (value r)
  compare_value r hr =
      let e : value den % 2 ^ w ≡ value den = mod-eq_of_lt hd.fits in
      let f : value r % 2 ^ w ≡ value r = mod-eq_of_lt hr.fits in
      rw (compare_unsigned-value r den w hr.limbs hd.limbs, e, f) (ground arith)

  -- The numbers of one step, from those before it.
  prefix-step : (k : ℕ) → value num / 2 ^ k ≡ 2 * (value num / 2 ^ suc k) + value num / 2 ^ k % 2
  prefix-step k =
      let e : value num / 2 ^ suc k ≡ value num / 2 ^ k / 2 =
        ap (λ (t : ℕ). value num / t) (pow-suc 2 k)
        ∙ sym (div-div-eq-div-mul (value num) (2 ^ k) 2) in
      rw e (omega arith)

  quotient-lt : (k : ℕ) → 2 ^ k * (value num / 2 ^ k / value den) < 2 ^ w
  quotient-lt k = omega (
    arith,
    hn.fits,
    mul-div-le (value num) (2 ^ k),
    mul-le-mul_left (2 ^ k) (div-le_self (value num / 2 ^ k) (value den)),
  )

  split_width : 0 < w → 2 ^ w ≡ 2 ^ (w - 1) * 2
  split_width h = ap (λ (t : ℕ). 2 ^ t) (omega arith) ∙ pow-suc 2 (w - 1)

  -- The remainder has room for one bit more.
  small_remainder : (k : ℕ) → 0 < w → 2 * (value num / 2 ^ suc k % value den) + 1 < 2 ^ w
  small_remainder k h = omega (
    arith,
    mod-le (value num / 2 ^ suc k) (value den),
    prefix-step k,
    div-le_self (value num) (2 ^ k),
    hn.fits,
    split_width h,
  )

  -- The quotient and the remainder after bit `k`, from the shifted remainder.
  digit_of_quotient :
      (k : ℕ)
      → let r = 2 * (value num / 2 ^ suc k % value den) + value num / 2 ^ k % 2 in
        let q = value num / 2 ^ suc k / value den in
        (value den ≤ r
          → (value num / 2 ^ k / value den ≡ 2 * q + 1)
            × (value num / 2 ^ k % value den ≡ r - value den))
        × (r < value den
            → (value num / 2 ^ k / value den ≡ 2 * q) × (value num / 2 ^ k % value den ≡ r))
  digit_of_quotient k =
      let p = value num / 2 ^ suc k in
      next_quotient (value num / 2 ^ k) p (value den) (p / value den) (p % value den)
        (value num / 2 ^ k % 2) (prefix-step k) (omega arith) (sym (div-add-mod p (value den)))
        (mod-lt p pos_d)

  -- The quotient takes the bit `k`.
  quotient_bit :
      (k : ℕ) (q : List ℕ)
      → k < w
      → IsWord w q
      → value q ≡ 2 ^ suc k * (value num / 2 ^ suc k / value den)
      → value num / 2 ^ k / value den ≡ 2 * (value num / 2 ^ suc k / value den) + 1
      → IsWord w (set_bit q k) × (value (set_bit q k) ≡ 2 ^ k * (value num / 2 ^ k / value den))
  quotient_bit k q inside hq e next =
      let old = value num / 2 ^ suc k / value den in
      let sum : value q + 2 ^ k ≡ 2 ^ k * (value num / 2 ^ k / value den) =
        omega (arith, ap (λ (t : ℕ). 2 ^ k * t) next, ap (λ (t : ℕ). t * old) (pow-suc 2 k)) in
      let clear : test_bit (value q) k ≡ false = rw e (test_bit-mul (suc k) old k ∙ ground arith) in
      let s = set_bit-IsWord q w k hq inside (rw sum (quotient-lt k)) clear in (s.0, s.1 ∙ sum)

  div_step-IsDividing :
      (k : ℕ) (s : DivMod)
      → k < w
      → IsDividing (value num) (value den) w (suc k) s
      → IsDividing (value num) (value den) w k (div_step num den w k s)
  unfolding div_step
  div_step-IsDividing k s inside h =
      let r = shift_in num w k s.remainder in
      let shifted =
        value-shift_in num w k s.remainder short (omega arith) hn.limbs h.r_word
          (rw h.r_value (small_remainder k (omega arith))) in
      let r_is : value r ≡ 2 * (value num / 2 ^ suc k % value den) + value num / 2 ^ k % 2 =
        shifted.1 ∙ ap (λ (t : ℕ). 2 * t + value num / 2 ^ k % 2) h.r_value in
      let digit = digit_of_quotient k in
      elim (Bool-cases (not_less (compare_unsigned r den w))) [
        | inl reaches ↦
            (let reach : value den ≤ value r =
                leb→le _ _ (sym (compare_value r shifted.0) ∙ reaches) in
              let next = digit.0 (rw (← r_is) reach) in
              let q = quotient_bit k s.quotient inside h.q_word h.q_value next.0 in
              rw reaches (record {
                q_word = q.0;
                r_word = sub_bits-IsWord r den w;
                q_value = q.1;
                r_value = sub_value r shifted.0 reach ∙ rw r_is (sym next.1);
              }))
        | inr below ↦
            (let under : value r < value den = ground (arith, compare_value r shifted.0) in
              let next = digit.1 (rw (← r_is) under) in
              rw below (record {
                q_word = h.q_word;
                r_word = shifted.0;
                q_value = omega (
                  arith,
                  h.q_value,
                  ap (λ (t : ℕ). 2 ^ k * t) next.0,
                  ap (λ (t : ℕ). t * (value num / 2 ^ suc k / value den)) (pow-suc 2 k),
                );
                r_value = r_is ∙ sym next.1;
              }))
      ]

  div_loop-IsDividing :
      (k : ℕ) (s : DivMod)
      → k ≤ w
      → IsDividing (value num) (value den) w k s
      → IsDividing (value num) (value den) w 0 (div_loop num den w k s)
  unfolding div_loop
  div_loop-IsDividing zero s inside h = h
  div_loop-IsDividing (suc k) s inside h =
      div_loop-IsDividing k (div_step num den w k s) (omega arith)
        (div_step-IsDividing k s inside h)

  start-IsDividing :
      IsDividing (value num) (value den) w w (record { quotient = zeros w; remainder = zeros w })
  start-IsDividing =
      let e : value num / 2 ^ w ≡ 0 = div-eq_of_lt hn.fits in
      record {
        q_word = zeros-IsWord w;
        r_word = zeros-IsWord w;
        q_value = rw (value-zeros w, e, zero-div) (omega arith);
        r_value = rw (value-zeros w, e) (sym (zero-mod (value den)));
      }

-- What a division promises of its result.
pub record IsDivision (n d w : ℕ) (s : DivMod) : Type 0 where
  pub quotient_word : IsWord w s.quotient
  pub remainder_word : IsWord w s.remainder
  pub quotient_value : value s.quotient ≡ n / d
  pub remainder_value : value s.remainder ≡ n % d

-- Up to 128 bits, the unsigned division of two words by a divisor that is not zero returns the
-- quotient and the remainder of their numbers.
pub div_mod_unsigned-IsDivision :
    (num den : List ℕ) (w : ℕ)
    → w ≤ 128
    → IsWord w num
    → IsWord w den
    → 0 < value den
    → (s : DivMod) × (div_mod_unsigned num den w ≡ some s) × IsDivision (value num) (value den) w s
unfolding div_mod_unsigned
div_mod_unsigned-IsDivision num den w short hn hd pos_d =
    let start : DivMod = record { quotient = zeros w; remainder = zeros w } in
    let h =
      div_loop-IsDividing num den w short hn hd pos_d w start (le_refl w)
        (start-IsDividing num den w short hn hd pos_d) in
    let any : any_bit_set den w ≡ true = any_bit_set-value den w hd.limbs hd.fits ∙ ground arith in
    (
      div_loop num den w w start,
      rw any,
      record {
        quotient_word = h.q_word;
        remainder_word = h.r_word;
        quotient_value = h.q_value ∙ rw div-one (omega arith);
        remainder_value = h.r_value ∙ rw div-one;
      },
    )
