-- ===== src/Facts/Parts/Complement.antt =====
-- The facts of a complement are true of the operand's complement, up to the operand's width.
use rtlzz.Base.{ℕ, ◌-◌, ◌^◌, ◌<◌, ◌≡◌, Bool, false, ◌&&◌, arith}
use rtlzz.Base.Bits.{test_bit-complement, pow_pos}
use rtlzz.Limbs.{trim}
use rtlzz.Limbs.Value.{IsLimbs}
use rtlzz.Ir.{ValueFacts}
use rtlzz.Limbs.Trim.{trim-IsWord}
use rtlzz.Limbs.Resize.{get_bit-trim, test_bit-extend}
use rtlzz.Facts.{facts_unknown, set_width}
use rtlzz.Facts.Extend.{extend-lt}
use rtlzz.Facts.Constants.Meaning.{sign_of, operand_value}
use rtlzz.Facts.Within.{IsWithin, known_one-within}
use rtlzz.Facts.Sound.{Describes, known_bits-Describes}
use rtlzz.Facts.Parts.{facts_bit_not}

-- The facts of a complement, from facts with no constant that are true of a number and mark nothing
-- above its width, are true of the complement of the number brought to the result width, whichever
-- way it is extended.
pub facts_bit_not-Describes :
    (f : ValueFacts) (w x : ℕ) (signed : Bool)
    → f.constant ≡ false
    → IsWithin f
    → Describes f x
    → Describes (set_width (facts_bit_not f) w) (2 ^ w - 1 - operand_value signed f.width w x)
unfolding set_width facts_bit_not facts_unknown
facts_bit_not-Describes f w x signed open_bits within h =
    let y = operand_value signed f.width w x in
    let sign = signed && sign_of f.width x in
    let y_fits : y < 2 ^ w = extend-lt sign f.width w x h.fits in
    simp open_bits (
      known_bits-Describes w (2 ^ w - 1 - y) (trim f.known_one w) (trim f.known_zero w)
        (omega (arith, pow_pos w)) (trim-IsWord f.known_one w h.one_limbs).limbs
        (trim-IsWord f.known_zero w h.zero_limbs).limbs
        (λ i p. ground (
          arith,
          get_bit-trim f.known_one w i h.one_limbs,
          known_one-within f x i h,
          h.filled i,
          test_bit-complement w y i y_fits,
          test_bit-extend sign f.width w x i h.fits,
        ))
        (λ i p. ground (
          arith,
          get_bit-trim f.known_zero w i h.zero_limbs,
          within i,
          h.clear i,
          test_bit-complement w y i y_fits,
          test_bit-extend sign f.width w x i h.fits,
        )))

pub facts_bit_not-IsLimbs :
    (f : ValueFacts)
    → f.constant ≡ false
    → IsLimbs f.known_one
    → IsLimbs (facts_bit_not f).known_zero
unfolding facts_bit_not
facts_bit_not-IsLimbs f open_bits h = simp open_bits h
