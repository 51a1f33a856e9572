-- ===== src/Facts/Within.antt =====
-- Facts that mark nothing above their width.
use rtlzz.Base.{ℕ, ◌<◌, ◌≡◌, Bool, true, false, ltb, arith, Bool-cases, inl, inr}
use rtlzz.Base.Bits.{test_bit, test_bit-above}
use rtlzz.Limbs.{get_bit}
use rtlzz.Ir.{ValueFacts}
use rtlzz.Facts.Sound.{Describes}

not_both : (b : Bool) → b ≡ true → b ≡ false → ⊥
not_both b p q = cc

-- No zero is marked above the width.
abbrev pub IsWithin : ValueFacts → Type 0
IsWithin f = (i : ℕ) → get_bit f.known_zero i ≡ true → i < f.width

-- A number of the facts' width has no digit above it, so no one is marked there.
pub known_one-within :
    (f : ValueFacts) (x i : ℕ) → Describes f x → get_bit f.known_one i ≡ true → i < f.width
known_one-within f x i h p = elim (Bool-cases (ltb i f.width)) [
  | inl inside ↦ ground arith
  | inr outside ↦
      absurd
        (not_both (test_bit x i) (h.filled i p) (test_bit-above f.width x i h.fits (ground arith)))
]
