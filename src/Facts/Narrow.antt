-- ===== src/Facts/Narrow.antt =====
-- The facts of signed narrowing and of a bit selection are true of the value that the operation gives.
use rtlzz.Base.{
  ℕ, ◌+◌, ◌-◌, ◌*◌, ◌/◌, ◌%◌, ◌^◌, ◌≤◌, ◌<◌, ◌≡◌, refl, ap, ◌∙◌, List, [], ◌∷◌, Bool, true, false,
  ◌&&◌, ◌||◌, ltb, leb, ◌==◌, arith, Bool-cases, inl, inr, if◌then◌else◌,
}
use rtlzz.Base.Int.{pos}
use rtlzz.Base.Bits.{
  test_bit, test_bit-zero, test_bit-mod, test_bit-div, test_bit-fields, test_bit-above, pow_pos,
}
use rtlzz.Limbs.{get_bit, get_bit_int, set_bit, zeros, limb_count}
use rtlzz.Limbs.Value.{IsLimbs, value, get_bit-value}
use rtlzz.Limbs.Loops.{
  set_where-IsLimbs, zeros-IsLimbs, get_bit-set_where-zeros, value_of_bits, set_bit-IsLimbs,
  get_bit-set_bit, get_bit-zeros, length-zeros,
}
use rtlzz.Ir.{ValueFacts}
use rtlzz.Facts.{facts_signed_trunc, facts_bit_select, narrow_known, source_bit}
use rtlzz.Facts.Sound.{Describes, facts_unknown-Describes, known_bits-Describes}
use rtlzz.Facts.Widths.{constant-Describes}
use native.Mathlib.Nat.{mod-lt, mod-eq_of_lt, mod-mod, pow-suc, mul-le-mul_left}

-- The low bits but one of a number, below the sign bit of its `m` bits.
abbrev pub narrow_value : ℕ → ℕ → ℕ → ℕ
narrow_value m w x = x % 2 ^ (w - 1) + 2 ^ (w - 1) * (x / 2 ^ (m - 1) % 2)

pub narrow_value-lt : (m w x : ℕ) → 0 < w → narrow_value m w x < 2 ^ w
narrow_value-lt m w x h =
    let e : 2 ^ w ≡ 2 ^ (w - 1) * 2 = ap (λ (t : ℕ). 2 ^ t) (omega arith) ∙ pow-suc 2 (w - 1) in
    let small : 2 ^ (w - 1) * (x / 2 ^ (m - 1) % 2) ≤ 2 ^ (w - 1) * 1 =
      mul-le-mul_left (2 ^ (w - 1)) (omega arith) in
    omega (arith, mod-lt x (pow_pos (w - 1)))

test_bit-narrow :
    (m w x i : ℕ)
    → 0 < w
    → test_bit (narrow_value m w x) i ≡ (ltb i w && test_bit x (source_bit m w i))
test_bit-narrow m w x i h =
    let bit = x / 2 ^ (m - 1) % 2 in
    ground (
      arith,
      test_bit-fields (w - 1) (x % 2 ^ (w - 1)) bit i (mod-lt x (pow_pos (w - 1))),
      test_bit-mod (w - 1) x i,
      test_bit-zero bit,
      test_bit-above 1 bit (i - (w - 1)),
      test_bit-zero (x / 2 ^ (m - 1)),
      test_bit-div (m - 1) x 0,
    )

narrow_known-bit :
    (known : List ℕ) (m w i : ℕ)
    → get_bit (narrow_known known m w) i ≡ (ltb i w && get_bit known (source_bit m w i))
unfolding narrow_known
narrow_known-bit known m w i =
    get_bit-set_where-zeros (λ bit. get_bit known (source_bit m w bit)) w i

narrow_known-IsLimbs : (known : List ℕ) (m w : ℕ) → IsLimbs (narrow_known known m w)
unfolding narrow_known
narrow_known-IsLimbs known m w =
    set_where-IsLimbs (λ bit. get_bit known (source_bit m w bit)) w 0 (zeros w) (zeros-IsLimbs w)

-- Signed narrowing of `m` bits to fewer keeps the low bits but one and puts the sign bit above them.
pub facts_signed_trunc-Describes :
    (f : ValueFacts) (w x : ℕ)
    → 0 < w
    → w < f.width
    → Describes f x
    → Describes (facts_signed_trunc f w) (narrow_value f.width w x)
unfolding facts_signed_trunc
facts_signed_trunc-Describes f w x some_width narrower h =
    let m = f.width in
    let y = narrow_value m w x in
    let y_fits : y < 2 ^ w = narrow_value-lt m w x some_width in
    let ones = narrow_known f.known_one m w in
    let narrows : (w == 0 || leb m w) ≡ false = ground arith in
    rw narrows (elim (Bool-cases f.constant) [
      | inl fixed ↦ rw fixed (
          let e : value ones ≡ y = value_of_bits ones y (narrow_known-IsLimbs f.known_one m w) (λ j.
            ground (
              arith,
              narrow_known-bit f.known_one m w j,
              test_bit-narrow m w x j some_width,
              h.complete fixed (source_bit m w j),
            )) in
          constant-Describes ones w w f.value.signed_view y (narrow_known-IsLimbs f.known_one m w)
            (rw (e, mod-mod) (mod-eq_of_lt y_fits)))
      | inr open_bits ↦ rw open_bits (
          known_bits-Describes w y (narrow_known f.known_zero m w) ones y_fits
            (narrow_known-IsLimbs f.known_zero m w) (narrow_known-IsLimbs f.known_one m w)
            (λ i p. ground (
              arith,
              narrow_known-bit f.known_zero m w i,
              test_bit-narrow m w x i some_width,
              h.clear (source_bit m w i),
            ))
            (λ i p. ground (
              arith,
              narrow_known-bit f.known_one m w i,
              test_bit-narrow m w x i some_width,
              h.filled (source_bit m w i),
            )))
    ])

-- The mark of the one bit that is selected.
selected_bit :
    (b : Bool) (i : ℕ) → get_bit (if b then set_bit (zeros 1) 0 else zeros 1) i ≡ (i == 0 && b)
selected_bit true i =
    get_bit-set_bit (zeros 1) 0 i ∙ ground (arith, get_bit-zeros 1 i, length-zeros 1, one_limb)
  where
    one_limb : limb_count 1 ≡ 1
    one_limb = unfold limb_count in refl
selected_bit false i = get_bit-zeros 1 i ∙ ground arith

selected-IsLimbs : (b : Bool) → IsLimbs (if b then set_bit (zeros 1) 0 else zeros 1)
selected-IsLimbs true = set_bit-IsLimbs (zeros 1) 0 (zeros-IsLimbs 1)
selected-IsLimbs false = zeros-IsLimbs 1

-- The bit at position `k`, as a number.
abbrev pub bit_value : ℕ → ℕ → ℕ
bit_value x k = x / 2 ^ k % 2

test_bit-bit_value : (x k i : ℕ) → test_bit (bit_value x k) i ≡ (i == 0 && test_bit x k)
test_bit-bit_value x k i = ground (arith, test_bit-mod 1 (x / 2 ^ k) i, test_bit-div k x i)

flag-IsLimbs : (b : Bool) → IsLimbs ((if b then 1 else 0) ∷ [])
flag-IsLimbs true = (omega arith, tt)
flag-IsLimbs false = (omega arith, tt)

flag-value :
    (f : ValueFacts) (k x : ℕ)
    → Describes f x
    → f.constant ≡ true
    → value ((if get_bit f.value.limbs k then 1 else 0) ∷ []) % 2 ^ 1 % 2 ^ 1 ≡ bit_value x k
unfolding value test_bit
flag-value f k x h fixed =
    ground (arith, get_bit-value f.value.limbs k h.value_limbs, h.exact fixed)

-- A bit selection gives the bit at its position.
pub facts_bit_select-Describes :
    (f : ValueFacts) (k x : ℕ)
    → Describes f x
    → Describes (facts_bit_select f (pos k)) (bit_value x k)
unfolding facts_bit_select get_bit_int
facts_bit_select-Describes f k x h = elim (Bool-cases (f.width == 0)) [
  | inl none_known ↦ rw none_known (facts_unknown-Describes 1 (bit_value x k) (omega arith))
  | inr known ↦ rw known (elim (Bool-cases f.constant) [
    | inl fixed ↦ rw fixed (
        constant-Describes ((if get_bit f.value.limbs k then 1 else 0) ∷ []) 1 1 f.value.signed_view
          (bit_value x k) (flag-IsLimbs (get_bit f.value.limbs k)) (flag-value f k x h fixed))
    | inr open_bits ↦ rw open_bits (
        known_bits-Describes 1 (bit_value x k) _ _ (omega arith)
          (selected-IsLimbs (get_bit f.known_zero k)) (selected-IsLimbs (get_bit f.known_one k))
          (λ i p.
            ground
              (arith, selected_bit (get_bit f.known_zero k) i, test_bit-bit_value x k i, h.clear k))
          (λ i p.
            ground (
              arith,
              selected_bit (get_bit f.known_one k) i,
              test_bit-bit_value x k i,
              h.filled k,
            )))
  ])
]
