-- ===== src/Facts/Constants/Binary/Division.antt =====
-- Division of words as the fold computes it, and the quotient and remainder of patterns.
use rtlzz.Base.{ℕ, ◌≤◌, ◌<◌, ◌≡◌, ◌∙◌, List, Bool, true, false, none, some, arith, refl}
use rtlzz.Limbs.{any_bit_set}
use rtlzz.Limbs.Value.{value, IsWord}
use rtlzz.Limbs.AnyBit.{any_bit_set-value}
use rtlzz.Limbs.Divide.{DivMod, div_mod_unsigned, div_mod_signed}
use rtlzz.Limbs.Divide.Unsigned.{div_mod_unsigned-IsDivision}
use rtlzz.Limbs.Divide.Signed.{div_mod_signed-IsSignedDivision}
use rtlzz.Facts.Constants.{div_mod}
use rtlzz.Facts.Constants.Meaning.{quotient_value, remainder_value}
use rtlzz.Facts.Constants.Words.{sign_bit-sign_of}

pub div_mod-zero :
    (l r : List ℕ) (w : ℕ) (signed : Bool) → IsWord w r → value r ≡ 0 → div_mod l r w signed ≡ none
unfolding div_mod div_mod_unsigned div_mod_signed
div_mod-zero l r w signed hr e =
    let empty : any_bit_set r w ≡ false = any_bit_set-value r w hr.limbs hr.fits ∙ ground arith in
    cases signed empty
  where
    cases : (s : Bool) → any_bit_set r w ≡ false → div_mod l r w s ≡ none
    cases true none_set = rw none_set refl
    cases false none_set = rw none_set refl

-- A quotient and a remainder of two patterns.
pub record IsDivMod (signed : Bool) (w x y : ℕ) (d : DivMod) : Type 0 where
  pub quotient_word : IsWord w d.quotient
  pub remainder_word : IsWord w d.remainder
  pub quotient_is : value d.quotient ≡ quotient_value signed w x y
  pub remainder_is : value d.remainder ≡ remainder_value signed w x y

pub div_mod-IsDivMod :
    (l r : List ℕ) (w : ℕ) (signed : Bool)
    → w ≤ 128
    → IsWord w l
    → IsWord w r
    → 0 < value r
    → (d : DivMod) × (div_mod l r w signed ≡ some d) × IsDivMod signed w (value l) (value r) d
unfolding div_mod
div_mod-IsDivMod l r w false short hl hr p =
    let u = div_mod_unsigned-IsDivision l r w short hl hr p in
    (
      u.0,
      u.1,
      record {
        quotient_word = u.2.quotient_word;
        remainder_word = u.2.remainder_word;
        quotient_is = u.2.quotient_value;
        remainder_is = u.2.remainder_value;
      },
    )
div_mod-IsDivMod l r w true short hl hr p =
    let u = div_mod_signed-IsSignedDivision l r w short hl hr p in
    (
      u.0,
      u.1,
      record {
        quotient_word = u.2.quotient_word;
        remainder_word = u.2.remainder_word;
        quotient_is =
            u.2.quotient_value ∙ rw (sign_bit-sign_of l w hl.limbs, sign_bit-sign_of r w hr.limbs);
        remainder_is =
            u.2.remainder_value ∙ rw (sign_bit-sign_of l w hl.limbs, sign_bit-sign_of r w hr.limbs);
      },
    )
