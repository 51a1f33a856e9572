-- ===== src/Facts/Widths.antt =====
-- The facts of extensions, truncations, slices and bit selections are true of the value that the
-- operation gives.
use rtlzz.Base.{
  ℕ, ◌+◌, ◌/◌, ◌%◌, ◌^◌, ◌<◌, ◌≡◌, ◌∙◌, List, Bool, ◌&&◌, ◌||◌, ltb, leb, ◌==◌, arith, Bool-cases,
  inl, inr, resize, length-resize,
}
use rtlzz.Base.Int.{pos}
use rtlzz.Base.Bits.{test_bit-mod, test_bit-div, pow_pos}
use rtlzz.Limbs.{limb_count, get_bit, trim, slice_bits, set_where}
use rtlzz.Limbs.Value.{IsLimbs, value}
use rtlzz.Limbs.Trim.{value-trim, trim-IsWord}
use rtlzz.Limbs.Loops.{set_where-IsLimbs, get_bit-set_where, within}
use rtlzz.Limbs.Slices.{get_bit-slice_pos, slice_bits-IsLimbs, value-slice_bits}
use rtlzz.Limbs.Resize.{get_bit-trim, get_bit-resize_zero, resize-IsLimbs}
use rtlzz.Limbs.Sum.{limb_count_covers}
use rtlzz.Ir.{ValueFacts}
use rtlzz.Facts.{from_constant, make_constant, facts_trunc, facts_slice}
use rtlzz.Facts.Sound.{
  Describes, facts_unknown-Describes, from_constant-Describes, known_bits-Describes,
}
use native.Mathlib.Nat.{mod-lt, mod-mod}

-- Facts whose constant is trimmed to some width on the way describe the number at the width.
pub constant-Describes :
    (limbs : List ℕ) (copy w : ℕ) (signed : Bool) (y : ℕ)
    → IsLimbs limbs
    → value limbs % 2 ^ copy % 2 ^ w ≡ y
    → Describes (from_constant (make_constant limbs copy signed) w) y
constant-Describes limbs copy w signed y h e =
    let c = make_constant limbs copy signed in
    let t : IsLimbs c.limbs = unfold make_constant in (trim-IsWord limbs copy h).limbs in
    let v : value c.limbs ≡ value limbs % 2 ^ copy =
      unfold make_constant in value-trim limbs copy h in
    rw (← e, ← v) (from_constant-Describes c w t)

-- Truncation keeps the low bits.
pub facts_trunc-Describes :
    (f : ValueFacts) (w x : ℕ) → Describes f x → Describes (facts_trunc f w) (x % 2 ^ w)
unfolding facts_trunc
facts_trunc-Describes f w x h = elim (Bool-cases (f.width == 0)) [
  | inl none_known ↦ rw none_known (facts_unknown-Describes w (x % 2 ^ w) (mod-lt x (pow_pos w)))
  | inr known ↦ rw known (elim (Bool-cases f.constant) [
    | inl fixed ↦ rw fixed (
        constant-Describes f.value.limbs w w f.value.signed_view (x % 2 ^ w) h.value_limbs
          (mod-mod (value f.value.limbs) (2 ^ w) ∙ rw (h.exact fixed)))
    | inr open_bits ↦ rw open_bits (
        known_bits-Describes w (x % 2 ^ w) (slice_bits f.known_zero (pos 0) w)
          (slice_bits f.known_one (pos 0) w) (mod-lt x (pow_pos w))
          (slice_bits-IsLimbs f.known_zero (pos 0) w) (slice_bits-IsLimbs f.known_one (pos 0) w)
          (λ i p.
            ground (arith, get_bit-slice_pos f.known_zero 0 w i, h.clear i, test_bit-mod w x i))
          (λ i p.
            ground (arith, get_bit-slice_pos f.known_one 0 w i, h.filled i, test_bit-mod w x i)))
  ])
]

-- A slice from position `k` drops `k` bits and keeps the next `w`.
pub facts_slice-Describes :
    (f : ValueFacts) (k w x : ℕ)
    → Describes f x
    → Describes (facts_slice f (pos k) w) (x / 2 ^ k % 2 ^ w)
unfolding facts_slice
facts_slice-Describes f k w x h =
    let y = x / 2 ^ k % 2 ^ w in
    let y_fits : y < 2 ^ w = mod-lt (x / 2 ^ k) (pow_pos w) in
    elim (Bool-cases (f.width == 0)) [
      | inl none_known ↦ rw none_known (facts_unknown-Describes w y y_fits)
      | inr known ↦ rw known (elim (Bool-cases f.constant) [
        | inl fixed ↦ rw fixed (
            constant-Describes (slice_bits f.value.limbs (pos k) w) w w f.value.signed_view y
              (slice_bits-IsLimbs f.value.limbs (pos k) w)
              (rw (
                value-slice_bits f.value.limbs k w h.value_limbs,
                h.exact fixed,
                mod-mod,
                mod-mod,
              )))
        | inr open_bits ↦ rw open_bits (
            known_bits-Describes w y (slice_bits f.known_zero (pos k) w)
              (slice_bits f.known_one (pos k) w) y_fits (slice_bits-IsLimbs f.known_zero (pos k) w)
              (slice_bits-IsLimbs f.known_one (pos k) w)
              (λ i p. ground (
                arith,
                get_bit-slice_pos f.known_zero k w i,
                h.clear (k + i),
                test_bit-mod w (x / 2 ^ k) i,
                test_bit-div k x i,
              ))
              (λ i p. ground (
                arith,
                get_bit-slice_pos f.known_one k w i,
                h.filled (k + i),
                test_bit-mod w (x / 2 ^ k) i,
                test_bit-div k x i,
              )))
      ])
    ]

-- The marks of a source, brought to the out width: below the copied width those of the source, above
-- it whatever the loop sets.
pub marks_extended :
    (known : List ℕ) (test : ℕ → Bool) (copy n b w i : ℕ)
    → get_bit
        (trim (set_where test n b (resize (limb_count w) 0 (slice_bits known (pos 0) copy))) w)
        i
      ≡ (ltb i w && ((ltb i copy && get_bit known i) || (leb b i && ltb i (b + n) && test i)))
marks_extended known test copy n b w i =
    let grown = resize (limb_count w) 0 (slice_bits known (pos 0) copy) in
    let limbs : IsLimbs grown =
      resize-IsLimbs (limb_count w) 0 (slice_bits known (pos 0) copy) (omega arith)
        (slice_bits-IsLimbs known (pos 0) copy) in
    get_bit-trim (set_where test n b grown) w i (set_where-IsLimbs test n b grown limbs)
    ∙ ground (
      arith,
      get_bit-set_where test n b grown i,
      get_bit-resize_zero (limb_count w) (slice_bits known (pos 0) copy) i,
      get_bit-slice_pos known 0 copy i,
      length-resize (limb_count w) 0 (slice_bits known (pos 0) copy),
      within w i,
      limb_count_covers w,
    )
