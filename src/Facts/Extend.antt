-- ===== src/Facts/Extend.antt =====
-- The facts of zero and sign extension are true of the extended value.
use rtlzz.Base.{
  ℕ, zero, suc, ◌+◌, ◌-◌, ◌%◌, ◌^◌, ◌≤◌, ◌<◌, ◌≡◌, ap, ◌∙◌, List, Bool, true, false, ◌&&◌, ltb, leb,
  ◌==◌, arith, Bool-cases, inl, inr, if◌then◌else◌, min, resize,
}
use rtlzz.Base.Int.{pos}
use rtlzz.Base.Bits.{test_bit, test_bit-mod, test_bit-above, pow_pos, pow_mono}
use rtlzz.Limbs.{limb_count, get_bit, trim, slice_bits, set_where, sign_bit}
use rtlzz.Limbs.Value.{IsLimbs, value, get_bit-value}
use rtlzz.Limbs.Trim.{trim-IsWord}
use rtlzz.Limbs.Loops.{set_where-IsLimbs, get_bit-set_where, within, value_of_bits}
use rtlzz.Limbs.Slices.{get_bit-slice_pos, slice_bits-IsLimbs}
use rtlzz.Limbs.Resize.{get_bit-trim, get_bit-resize_zero, resize-IsLimbs, extend, test_bit-extend}
use rtlzz.Limbs.Sum.{limb_count_covers}
use rtlzz.Ir.{ValueFacts}
use rtlzz.Facts.{facts_zext, facts_sext, sext_known, always}
use rtlzz.Facts.Sound.{Describes, facts_unknown-Describes, known_bits-Describes}
use rtlzz.Facts.Widths.{marks_extended, constant-Describes, facts_trunc-Describes}
use native.Mathlib.Nat.{mod-lt, mod-eq_of_lt, mod-mod}

-- Marks that are only copied.
marks_copied :
    (known : List ℕ) (copy w i : ℕ)
    → get_bit (trim (resize (limb_count w) 0 (slice_bits known (pos 0) copy)) w) i
      ≡ (ltb i w && (ltb i copy && get_bit known i))
marks_copied known copy w i =
    get_bit-trim (resize (limb_count w) 0 (slice_bits known (pos 0) copy)) w i (
      resize-IsLimbs (limb_count w) 0 (slice_bits known (pos 0) copy) (omega arith)
        (slice_bits-IsLimbs known (pos 0) copy))
    ∙ ground (
      arith,
      get_bit-resize_zero (limb_count w) (slice_bits known (pos 0) copy) i,
      get_bit-slice_pos known 0 copy i,
      limb_count_covers w,
    )

marks-IsLimbs :
    (known : List ℕ) (test : ℕ → Bool) (copy n b w : ℕ)
    → IsLimbs
        (trim (set_where test n b (resize (limb_count w) 0 (slice_bits known (pos 0) copy))) w)
marks-IsLimbs known test copy n b w =
    (trim-IsWord _ w (
      set_where-IsLimbs test n b (resize (limb_count w) 0 (slice_bits known (pos 0) copy)) (
        resize-IsLimbs (limb_count w) 0 (slice_bits known (pos 0) copy) (omega arith)
          (slice_bits-IsLimbs known (pos 0) copy)))).limbs

copied-IsLimbs :
    (known : List ℕ) (copy w : ℕ)
    → IsLimbs (trim (resize (limb_count w) 0 (slice_bits known (pos 0) copy)) w)
copied-IsLimbs known copy w =
    (trim-IsWord _ w (
      resize-IsLimbs (limb_count w) 0 (slice_bits known (pos 0) copy) (omega arith)
        (slice_bits-IsLimbs known (pos 0) copy))).limbs

-- The number survives the trimming to the copied width.
copied_constant : (v x m w : ℕ) → v ≡ x → x < 2 ^ m → v % 2 ^ min m w % 2 ^ w ≡ x % 2 ^ w
copied_constant v x m w e h = rw e (elim (Bool-cases (leb m w)) [
  | inl shorter ↦
      (let q : min m w ≡ m = ground arith in rw q (ap (λ (t : ℕ). t % 2 ^ w) (mod-eq_of_lt h)))
  | inr longer ↦ (let q : min m w ≡ w = ground arith in rw q (mod-mod x (2 ^ w)))
])

-- Zero extension keeps the number, and truncates it where the width is smaller.
pub facts_zext-Describes :
    (f : ValueFacts) (w x : ℕ) → Describes f x → Describes (facts_zext f w) (x % 2 ^ w)
unfolding facts_zext
facts_zext-Describes f w x h =
    let copy = min f.width w in
    elim (Bool-cases (f.width == 0)) [
      | inl none_known ↦
          rw none_known (facts_unknown-Describes w (x % 2 ^ w) (mod-lt x (pow_pos w)))
      | inr known ↦ rw known (elim (Bool-cases f.constant) [
        | inl fixed ↦ rw fixed (
            constant-Describes f.value.limbs copy w f.value.signed_view (x % 2 ^ w) h.value_limbs
              (copied_constant (value f.value.limbs) x f.width w (h.exact fixed) h.fits))
        | inr open_bits ↦ rw open_bits (
            known_bits-Describes w (x % 2 ^ w) _ _ (mod-lt x (pow_pos w))
              (marks-IsLimbs f.known_zero always copy (w - f.width) f.width w)
              (copied-IsLimbs f.known_one copy w)
              (λ i p. ground (
                arith,
                marks_extended f.known_zero always copy (w - f.width) f.width w i,
                h.clear i,
                test_bit-mod w x i,
                test_bit-above f.width x i h.fits,
              ))
              (λ i p.
                ground (arith, marks_copied f.known_one copy w i, h.filled i, test_bit-mod w x i)))
      ])
    ]

sign_bit-pos : (v : List ℕ) (m : ℕ) → 0 < m → sign_bit v m ≡ get_bit v (m - 1)
unfolding sign_bit
sign_bit-pos v zero h = absurd (omega arith)
sign_bit-pos v (suc m) h = ap (λ (t : ℕ). get_bit v t) (omega arith)

-- Sign extension by the sign bit of a number.
abbrev pub sext_value : ℕ → ℕ → ℕ → ℕ
sext_value m w x = extend (test_bit x (m - 1)) m w x

pub extend-lt : (s : Bool) (m w x : ℕ) → x < 2 ^ m → extend s m w x < 2 ^ w
unfolding extend
extend-lt s m w x h = elim (Bool-cases (leb w m)) [
  | inl shorter ↦ rw shorter (mod-lt x (pow_pos w))
  | inr longer ↦ rw longer (extended s (pow_mono m w (ground arith)))
]
  where
    extended : (b : Bool) → 2 ^ m ≤ 2 ^ w → (if b then x + (2 ^ w - 2 ^ m) else x) < 2 ^ w
    extended true p = omega arith
    extended false p = omega arith

-- The limbs that a sign-extended constant is given.
sext_limbs-value :
    (v : List ℕ) (m w x : ℕ)
    → IsLimbs v
    → 0 < m
    → m < w
    → value v ≡ x
    → x < 2 ^ m
    → value (if sign_bit v m then set_where always (w - m) m (trim v w) else trim v w)
      ≡ sext_value m w x
sext_limbs-value v m w x hv pos_m longer e h =
    let t = trim-IsWord v w hv in
    let sign : sign_bit v m ≡ test_bit x (m - 1) =
      sign_bit-pos v m pos_m ∙ get_bit-value v (m - 1) hv ∙ ap (λ (n : ℕ). test_bit n (m - 1)) e in
    let digit : (j : ℕ) → get_bit v j ≡ test_bit x j =
      λ j. get_bit-value v j hv ∙ ap (λ (n : ℕ). test_bit n j) e in
    elim (Bool-cases (test_bit x (m - 1))) [
      | inl negative ↦
          rw (sign, negative)
            (value_of_bits (set_where always (w - m) m (trim v w)) (extend true m w x)
              (set_where-IsLimbs always (w - m) m (trim v w) t.limbs)
              λ j. ground (
                arith,
                get_bit-set_where always (w - m) m (trim v w) j,
                get_bit-trim v w j hv,
                digit j,
                test_bit-extend true m w x j h,
                test_bit-above m x j h,
                within w j,
                t.sized,
              ))
      | inr positive ↦
          rw (sign, positive)
            (value_of_bits (trim v w) (extend false m w x) t.limbs λ j. ground (
              arith,
              get_bit-trim v w j hv,
              digit j,
              test_bit-extend false m w x j h,
              test_bit-above m x j h,
            ))
    ]

sext_limbs-IsLimbs :
    (v : List ℕ) (m w : ℕ)
    → IsLimbs v
    → IsLimbs (if sign_bit v m then set_where always (w - m) m (trim v w) else trim v w)
sext_limbs-IsLimbs v m w h =
    let t = trim-IsWord v w h in
    elim (Bool-cases (sign_bit v m)) [
      | inl negative ↦ rw negative (set_where-IsLimbs always (w - m) m (trim v w) t.limbs)
      | inr positive ↦ rw positive t.limbs
    ]

-- Sign extension copies the sign bit of the source up to the new width.
pub facts_sext-Describes :
    (f : ValueFacts) (w x : ℕ)
    → 0 < f.width
    → Describes f x
    → Describes (facts_sext f w) (sext_value f.width w x)
unfolding facts_sext sext_known
facts_sext-Describes f w x wide h =
    let m = f.width in
    let s = test_bit x (m - 1) in
    let y_fits : extend s m w x < 2 ^ w = extend-lt s m w x h.fits in
    let has_width : (m == 0) ≡ false = ground arith in
    rw has_width (elim (Bool-cases (leb w m)) [
      | inl shorter ↦ rw shorter (
          let e : extend s m w x ≡ x % 2 ^ w = unfold extend in rw shorter in
          rw e (facts_trunc-Describes f w x h))
      | inr longer ↦ rw longer (elim (Bool-cases f.constant) [
        | inl fixed ↦ rw fixed (
            let e =
              sext_limbs-value f.value.limbs m w x h.value_limbs wide (ground arith) (h.exact fixed)
                h.fits in
            constant-Describes _ w w f.value.signed_view (extend s m w x)
              (sext_limbs-IsLimbs f.value.limbs m w h.value_limbs)
              (rw (e, mod-mod) (mod-eq_of_lt y_fits)))
        | inr open_bits ↦ rw open_bits (
            known_bits-Describes w (extend s m w x) _ _ y_fits
              (marks-IsLimbs f.known_zero (λ bit. sign_bit f.known_zero m) m (w - m) m w)
              (marks-IsLimbs f.known_one (λ bit. sign_bit f.known_one m) m (w - m) m w)
              (λ i p. ground (
                arith,
                marks_extended f.known_zero (λ bit. sign_bit f.known_zero m) m (w - m) m w i,
                h.clear i,
                h.clear (m - 1),
                sign_bit-pos f.known_zero m wide,
                test_bit-extend s m w x i h.fits,
              ))
              (λ i p. ground (
                arith,
                marks_extended f.known_one (λ bit. sign_bit f.known_one m) m (w - m) m w i,
                h.filled i,
                h.filled (m - 1),
                sign_bit-pos f.known_one m wide,
                test_bit-extend s m w x i h.fits,
              )))
      ])
    ])
