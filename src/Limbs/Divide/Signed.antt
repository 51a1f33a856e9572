-- ===== src/Limbs/Divide/Signed.antt =====
-- Signed division up to 128 bits: the magnitudes are divided, the quotient is negated where the signs
-- differ and the remainder where the numerator is negative, all modulo two to the width.
use rtlzz.Base.{
  ℕ, ◌-◌, ◌/◌, ◌%◌, ◌^◌, ◌≤◌, ◌<◌, ◌≡◌, refl, ◌∙◌, List, Bool, true, false, arith, some,
}
use rtlzz.Limbs.{sign_bit, zeros, any_bit_set}
use rtlzz.Limbs.Value.{value, IsWord}
use rtlzz.Limbs.Loops.{value-zeros, zeros-IsLimbs}
use rtlzz.Limbs.AnyBit.{any_bit_set-value}
use rtlzz.Limbs.Difference.{value-sub_bits_short, sub_bits-IsWord}
use rtlzz.Limbs.Divide.{DivMod, div_mod_signed, negate, negate_if, signs_differ}
use rtlzz.Limbs.Divide.Unsigned.{div_mod_unsigned-IsDivision}
use native.Mathlib.Nat.{mod-eq_of_lt, zero-add}

-- Negation of a `w`-bit pattern.
abbrev pub neg_word : ℕ → ℕ → ℕ
neg_word w x = (2 ^ w - x) % 2 ^ w

abbrev pub neg_word_if : Bool → ℕ → ℕ → ℕ
neg_word_if true w x = neg_word w x
neg_word_if false w x = x

module _ (w : ℕ) (short : w ≤ 128) where
  pub value-negate : (xs : List ℕ) → IsWord w xs → value (negate xs w) ≡ neg_word w (value xs)
  unfolding negate
  value-negate xs h =
      let e : value xs % 2 ^ w ≡ value xs = mod-eq_of_lt h.fits in
      value-sub_bits_short (zeros w) xs w short (zeros-IsLimbs w) h.limbs
      ∙ rw (value-zeros w, e) (rw zero-add)

  value-negate_if :
      (b : Bool) (xs : List ℕ)
      → IsWord w xs
      → IsWord w (negate_if b xs w) × (value (negate_if b xs w) ≡ neg_word_if b w (value xs))
  value-negate_if true xs h = (unfold negate in sub_bits-IsWord (zeros w) xs w, value-negate xs h)
  value-negate_if false xs h = (h, refl)

neg_word_pos : (b : Bool) (w x : ℕ) → 0 < x → x < 2 ^ w → 0 < neg_word_if b w x
neg_word_pos true w x p h =
    rw (mod-eq_of_lt {n = 2 ^ w - x} {m = 2 ^ w} (omega arith)) (omega arith)
neg_word_pos false w x p h = p

-- What the signed division promises, by the signs and the magnitudes of its operands.
pub record IsSignedDivision (n d w : ℕ) (sn sd : Bool) (s : DivMod) : Type 0 where
  pub quotient_word : IsWord w s.quotient
  pub remainder_word : IsWord w s.remainder
  pub quotient_value :
      value s.quotient
      ≡ neg_word_if (signs_differ sn sd) w (neg_word_if sn w n / neg_word_if sd w d)
  pub remainder_value :
      value s.remainder ≡ neg_word_if sn w (neg_word_if sn w n % neg_word_if sd w d)

-- Up to 128 bits, the signed division of two words by a divisor that is not zero divides the
-- magnitudes, negates the quotient where the signs differ and the remainder where the numerator is
-- negative.
pub div_mod_signed-IsSignedDivision :
    (num den : List ℕ) (w : ℕ)
    → w ≤ 128
    → IsWord w num
    → IsWord w den
    → 0 < value den
    → (s : DivMod) × (div_mod_signed num den w ≡ some s)
      × IsSignedDivision (value num) (value den) w (sign_bit num w) (sign_bit den w) s
unfolding div_mod_signed
div_mod_signed-IsSignedDivision num den w short hn hd pos_d =
    let sn = sign_bit num w in
    let sd = sign_bit den w in
    let a = value-negate_if w short sn num hn in
    let b = value-negate_if w short sd den hd in
    let any : any_bit_set den w ≡ true = any_bit_set-value den w hd.limbs hd.fits ∙ ground arith in
    let u =
      div_mod_unsigned-IsDivision (negate_if sn num w) (negate_if sd den w) w short a.0 b.0
        (rw b.1 (neg_word_pos sd w (value den) pos_d hd.fits)) in
    let q = value-negate_if w short (signs_differ sn sd) u.0.quotient u.2.quotient_word in
    let r = value-negate_if w short sn u.0.remainder u.2.remainder_word in
    (
      record {
        quotient = negate_if (signs_differ sn sd) u.0.quotient w;
        remainder = negate_if sn u.0.remainder w;
      },
      rw (any, u.1),
      record {
        quotient_word = q.0;
        remainder_word = r.0;
        quotient_value = q.1 ∙ rw (u.2.quotient_value, a.1, b.1);
        remainder_value = r.1 ∙ rw (u.2.remainder_value, a.1, b.1);
      },
    )
