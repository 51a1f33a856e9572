-- ===== src/Examples/Words.antt =====
-- Runs and instances of the limb operations at concrete words.
use rtlzz.Base.{
  ℕ, ◌+◌, ◌-◌, ◌*◌, ◌/◌, ◌%◌, ◌^◌, ◌≡◌, refl, ◌≢◌, List, [], ◌∷◌, true, false, ◌&&◌, arith, some,
  inl,
}
use rtlzz.Base.Bits.{test_bit}
use rtlzz.Base.Int.{pos}
use rtlzz.Limbs.{
  limb_max, limb_count, trim, mask_last, zeros, get_bit, sign_bit, add_bits, sub_bits, add_limbs,
  sub_limbs, next_borrow, slice_bits, resize_bits, compare_unsigned, compare_signed,
}
use rtlzz.Limbs.Value.{IsLimbs, value, IsWord}
use rtlzz.Limbs.Sum
use rtlzz.Limbs.Difference
use rtlzz.Limbs.LostBorrow
use rtlzz.Limbs.Order
use rtlzz.Limbs.Slices
use rtlzz.Limbs.Resize
use rtlzz.Limbs.Shift.{shl_bits, shr_bits}
use rtlzz.Limbs.Shift.Left
use rtlzz.Limbs.Shift.Right
use rtlzz.Limbs.Multiply
use rtlzz.Limbs.Divide.{DivMod, div_mod_unsigned, div_mod_signed}
use rtlzz.Limbs.Divide.Unsigned
use rtlzz.Limbs.Divide.Signed

-- 2 ^ 66 + 5, a word of 100 bits.
abbrev big : List ℕ
big = 5 ∷ 4 ∷ []

-- 7, a word of 100 bits.
abbrev small : List ℕ
small = 7 ∷ 0 ∷ []

-- -3 at 8 bits.
abbrev minus_three : List ℕ
minus_three = 0xfd ∷ []

abbrev two : List ℕ
two = 2 ∷ []

big-IsLimbs : IsLimbs big
big-IsLimbs = omega arith

big-IsWord : IsWord 100 big
unfolding value limb_count
big-IsWord = record { limbs = omega arith; sized = refl; fits = omega arith }

small-IsWord : IsWord 100 small
unfolding value limb_count
small-IsWord = record { limbs = omega arith; sized = refl; fits = omega arith }

minus_three-IsWord : IsWord 8 minus_three
unfolding value limb_count
minus_three-IsWord = record { limbs = omega arith; sized = refl; fits = omega arith }

two-IsWord : IsWord 8 two
unfolding value limb_count
two-IsWord = record { limbs = omega arith; sized = refl; fits = omega arith }

-- 2 ^ 128 - 1 plus 1 at 192 bits carries into the third limb.
carry_runs : add_bits (limb_max ∷ limb_max ∷ []) (1 ∷ []) 192 ≡ 0 ∷ 0 ∷ 1 ∷ []
unfolding add_bits add_limbs trim mask_last limb_count
carry_runs = refl

-- 0 - 1 at 192 bits leaves the third limb 0.
borrow_stops : sub_bits (zeros 192) (1 ∷ []) 192 ≡ limb_max ∷ limb_max ∷ 0 ∷ []
unfolding sub_bits sub_limbs next_borrow zeros trim mask_last limb_count
borrow_stops = refl

value-add_bits_example :
    value (add_bits (limb_max ∷ limb_max ∷ []) (1 ∷ []) 130)
    ≡ (value (limb_max ∷ limb_max ∷ []) + value (1 ∷ [])) % 2 ^ 130
value-add_bits_example = Sum.value-add_bits (limb_max ∷ limb_max ∷ []) (1 ∷ []) 130

value-sub_bits_example :
    value (sub_bits small big 100) ≡ (value small + (2 ^ 100 - value big % 2 ^ 100)) % 2 ^ 100
unfolding limb_count
value-sub_bits_example =
    Difference.value-sub_bits small big 100 (omega arith) (omega arith) (inl refl, tt)

sub_bits_loses_borrow_example :
    (value (sub_bits [] (1 ∷ []) 192) ≡ 2 ^ 128 - 1)
    × (value (sub_bits [] (1 ∷ []) 192)
        ≢ (value [] + (2 ^ 192 - value (1 ∷ []) % 2 ^ 192)) % 2 ^ 192)
unfolding value
sub_bits_loses_borrow_example =
    LostBorrow.sub_bits_loses_borrow [] (1 ∷ []) 192 refl refl (omega arith)

value-shl_bits_example : value (shl_bits big 100 40) ≡ 2 ^ 40 * value big % 2 ^ 100
value-shl_bits_example = Left.value-shl_bits big 100 40 (omega arith) big-IsLimbs

value-shr_bits_example : value (shr_bits big 100 65 false) ≡ value big % 2 ^ 100 / 2 ^ 65
value-shr_bits_example = Right.value-shr_bits big 100 65 (omega arith) big-IsLimbs

value-shr_bits_negative_example :
    value (shr_bits minus_three 8 1 true) ≡ 2 ^ 8 - 1 - (2 ^ 8 - 1 - value minus_three) / 2 ^ 1
unfolding sign_bit get_bit test_bit
value-shr_bits_negative_example =
    Right.value-shr_bits_negative minus_three 8 1 (omega arith) minus_three-IsWord refl

shr_bits_wraps_example :
    value (shr_bits minus_three 8 (2 ^ 64 - 1) false) ≡ 2 ^ 1 * value minus_three % 2 ^ 8
shr_bits_wraps_example =
    Right.shr_bits_wraps minus_three 8 1 (omega arith) (omega arith) (omega arith)

value-mul_bits_example : value (Multiply.mul_bits big small 100) ≡ value big * value small % 2 ^ 100
value-mul_bits_example =
    Multiply.value-mul_bits big small 100 (omega arith) big-IsLimbs (omega arith)

div_mod_unsigned-IsDivision_example :
    (s : DivMod) × (div_mod_unsigned big small 100 ≡ some s)
    × Unsigned.IsDivision (value big) (value small) 100 s
unfolding value
div_mod_unsigned-IsDivision_example =
    Unsigned.div_mod_unsigned-IsDivision big small 100 (omega arith) big-IsWord small-IsWord
      (omega arith)

div_mod_signed-IsSignedDivision_example :
    (s : DivMod) × (div_mod_signed minus_three two 8 ≡ some s)
    × Signed.IsSignedDivision
        (value minus_three)
        (value two)
        8
        (sign_bit minus_three 8)
        (sign_bit two 8)
        s
unfolding value
div_mod_signed-IsSignedDivision_example =
    Signed.div_mod_signed-IsSignedDivision minus_three two 8 (omega arith) minus_three-IsWord
      two-IsWord (omega arith)

compare_unsigned-value_example :
    compare_unsigned small big 100 ≡ Order.order (value small % 2 ^ 100) (value big % 2 ^ 100)
compare_unsigned-value_example =
    Order.compare_unsigned-value small big 100 (omega arith) big-IsLimbs

compare_signed-value_example :
    compare_signed minus_three two 8
    ≡ Order.order_ℤ (Order.to_int 8 (value minus_three)) (Order.to_int 8 (value two))
compare_signed-value_example =
    Order.compare_signed-value minus_three two 8 (omega arith) minus_three-IsWord two-IsWord

value-slice_bits_example : value (slice_bits big (pos 2) 65) ≡ value big / 2 ^ 2 % 2 ^ 65
value-slice_bits_example = Slices.value-slice_bits big 2 65 big-IsLimbs

value-resize_bits_example :
    value (resize_bits minus_three 8 100 true)
    ≡ Resize.extend (true && sign_bit minus_three 8) 8 100 (value minus_three % 2 ^ 8)
value-resize_bits_example = Resize.value-resize_bits minus_three 8 100 true (omega arith)
