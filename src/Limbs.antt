-- ===== src/Limbs.antt =====
-- Bit vectors as vectors of 64-bit limbs, the lowest first: the helpers `facts...` of
-- src/backend/beir.cpp. A limb is a number below 2 ^ 64, and the wrap of `std::uint64_t` is written
-- out. Widths are never negative here, since every caller passes a width made positive before.
pub mod Value
pub mod Trim
pub mod Loops
pub mod Sum
pub mod Difference
pub mod LostBorrow
pub mod Shift
pub mod Order
pub mod Slices
pub mod Resize
pub mod AnyBit
pub mod Multiply
pub mod Divide
use rtlzz.Base.{
  ℕ, zero, suc, ◌+◌, ◌-◌, ◌*◌, ◌/◌, ◌%◌, ◌^◌, compare, Ordering, bit_and, bit_or, List, [], ◌∷◌,
  map, Bool, true, false, not, ◌&&◌, ◌||◌, Option, none, some, ltb, leb, ◌==◌, if◌then◌else◌,
  length, get_or, set, resize, replicate,
}
use rtlzz.Base.Bits.{test_bit}
use rtlzz.Base.Int.{ℤ, pos, negsuc, ◌+ℤ◌}

abbrev pub limb_max : ℕ
limb_max = 2 ^ 64 - 1

unfoldable pub limb_count : ℕ → ℕ
limb_count width = if width == 0 then 0 else (width + 63) / 64

-- `limbs.back() &= mask`.
unfoldable pub mask_last : ℕ → List ℕ → List ℕ
mask_last mask [] = []
mask_last mask (x ∷ []) = bit_and x mask ∷ []
mask_last mask (x ∷ y ∷ ys) = x ∷ mask_last mask (y ∷ ys)

unfoldable pub trim : List ℕ → ℕ → List ℕ
trim limbs width =
    let sized = resize (limb_count width) 0 limbs in
    if width % 64 == 0 then sized else mask_last (2 ^ (width % 64) - 1) sized

unfoldable pub zeros : ℕ → List ℕ
zeros width = replicate (limb_count width) 0

unfoldable pub get_bit : List ℕ → ℕ → Bool
get_bit limbs bit = ltb (bit / 64) (length limbs) && test_bit (get_or limbs (bit / 64) 0) (bit % 64)

-- The same at an `int` position, which may be negative.
unfoldable pub get_bit_int : List ℕ → ℤ → Bool
get_bit_int limbs (pos bit) = get_bit limbs bit
get_bit_int limbs (negsuc n) = false

unfoldable pub set_bit : List ℕ → ℕ → List ℕ
set_bit limbs bit =
    if ltb (bit / 64) (length limbs)
    then set limbs (bit / 64) (bit_or (get_or limbs (bit / 64) 0) (2 ^ (bit % 64)))
    else limbs

-- The bit `width - 1`, which is no bit at all where the width is 0.
unfoldable pub sign_bit : List ℕ → ℕ → Bool
sign_bit limbs zero = false
sign_bit limbs (suc w) = get_bit limbs w

-- `for (bit = first; bit < first + rounds; ++bit) if (test(bit)) factsSetBit(out, bit);`
unfoldable pub set_where : (ℕ → Bool) → ℕ → ℕ → List ℕ → List ℕ
set_where test zero bit out = out
set_where test (suc rounds) bit out =
    set_where test rounds (bit + 1) (if test bit then set_bit out bit else out)

unfoldable pub bit_not : List ℕ → ℕ → List ℕ
bit_not value width = trim (map (λ limb. limb_max - limb) value) width

unfoldable pub slice_bits : List ℕ → ℤ → ℕ → List ℕ
slice_bits value lo width =
    set_where (λ bit. get_bit_int value (lo +ℤ pos bit)) width 0 (zeros width)

unfoldable pub any_from : List ℕ → ℕ → ℕ → Bool
any_from limbs zero bit = false
any_from limbs (suc rounds) bit = get_bit limbs bit || any_from limbs rounds (bit + 1)

unfoldable pub any_bit_set : List ℕ → ℕ → Bool
any_bit_set limbs width = any_from limbs width 0

unfoldable pub resize_bits : List ℕ → ℕ → ℕ → Bool → List ℕ
resize_bits limbs old_width new_width sign_extend =
    let value = trim limbs old_width in
    let sign = sign_extend && sign_bit value old_width in
    let longer = resize (limb_count new_width) (if sign then limb_max else 0) value in
    if leb new_width old_width
    then trim value new_width
    else trim
        (if sign then set_where (λ _. true) (new_width - old_width) old_width longer else longer)
        new_width

-- From the highest limb down; the first that differs decides.
unfoldable pub compare_from : ℕ → List ℕ → List ℕ → Ordering
compare_from zero lhs rhs = Ordering.eq
compare_from (suc i) lhs rhs =
    let l = get_or lhs i 0 in
    let r = get_or rhs i 0 in
    let rest = compare_from i lhs rhs in
    if ltb l r then Ordering.lt else if ltb r l then Ordering.gt else rest

unfoldable pub compare_unsigned : List ℕ → List ℕ → ℕ → Ordering
compare_unsigned lhs rhs width = compare_from (limb_count width) (trim lhs width) (trim rhs width)

unfoldable pub compare_signed : List ℕ → List ℕ → ℕ → Ordering
compare_signed lhs rhs width =
    let below = compare_unsigned lhs rhs width in
    if sign_bit lhs width
    then (if sign_bit rhs width then below else Ordering.lt)
    else (if sign_bit rhs width then Ordering.gt else below)

abbrev pub head_limb : List ℕ → ℕ
head_limb [] = 0
head_limb (x ∷ xs) = x

abbrev pub tail_limbs : List ℕ → List ℕ
tail_limbs [] = []
tail_limbs (x ∷ xs) = xs

-- A 128-bit sum of two limbs and the carry.
unfoldable pub add_limbs : ℕ → ℕ → List ℕ → List ℕ → List ℕ
add_limbs zero carry lhs rhs = []
add_limbs (suc n) carry lhs rhs =
    let sum = carry + head_limb lhs + head_limb rhs in
    sum % 2 ^ 64 ∷ add_limbs n (sum / 2 ^ 64) (tail_limbs lhs) (tail_limbs rhs)

unfoldable pub add_bits : List ℕ → List ℕ → ℕ → List ℕ
add_bits lhs rhs width = trim (add_limbs (limb_count width) 0 lhs rhs) width

-- The borrow that a limb hands on, as the code computes it.
unfoldable pub next_borrow : ℕ → ℕ → ℕ → ℕ
next_borrow borrow l r =
    if ltb l r || (not (borrow == 0) && (r + borrow) % 2 ^ 64 == 0) then 1 else 0

unfoldable pub sub_limbs : ℕ → ℕ → List ℕ → List ℕ → List ℕ
sub_limbs zero borrow lhs rhs = []
sub_limbs (suc n) borrow lhs rhs =
    let l = head_limb lhs in
    let r = head_limb rhs in
    (l + 2 ^ 64 - (r + borrow) % 2 ^ 64) % 2 ^ 64
    ∷ sub_limbs n (next_borrow borrow l r) (tail_limbs lhs) (tail_limbs rhs)

unfoldable pub sub_bits : List ℕ → List ℕ → ℕ → List ℕ
sub_bits lhs rhs width = trim (sub_limbs (limb_count width) 0 lhs rhs) width
