-- ===== src/Limbs/Shift.antt =====
-- `factsShlBits` and `factsShrBits` of src/backend/beir.cpp. The position `bit + amount` is a
-- `std::uint64_t` and wraps.
pub mod Left
pub mod Right
use rtlzz.Base.{ℕ, zero, suc, ◌+◌, ◌%◌, ◌^◌, List, Bool, ◌&&◌, ltb, leb, if◌then◌else◌}
use rtlzz.Limbs.{zeros, get_bit, set_bit, set_where, sign_bit}

-- `(std::uint64_t) bit + amount`.
abbrev pub moved : ℕ → ℕ → ℕ
moved bit amount = (bit + amount) % 2 ^ 64

unfoldable pub shl_loop : List ℕ → ℕ → ℕ → ℕ → ℕ → List ℕ → List ℕ
shl_loop value width amount zero bit out = out
shl_loop value width amount (suc rounds) bit out = shl_loop value width amount rounds (bit + 1) (
    if ltb (moved bit amount) width && get_bit value bit
    then set_bit out (moved bit amount)
    else out)

unfoldable pub shl_bits : List ℕ → ℕ → ℕ → List ℕ
shl_bits value width amount =
    if leb width amount then zeros width else shl_loop value width amount width 0 (zeros width)

-- The bit that a right shift puts at a position.
unfoldable pub shr_test : List ℕ → ℕ → ℕ → Bool → ℕ → Bool
shr_test value width amount sign bit =
    if ltb (moved bit amount) width then get_bit value (moved bit amount) else sign

unfoldable pub shr_bits : List ℕ → ℕ → ℕ → Bool → List ℕ
shr_bits value width amount sign_extend =
    set_where (shr_test value width amount (sign_extend && sign_bit value width)) width 0
      (zeros width)
