-- ===== src/Limbs/Resize.antt =====
-- The bits of a vector after trimming and after `resize`, and `factsResizeBits`: zero and sign
-- extension and truncation.
use rtlzz.Base.{
  ℕ, zero, suc, ◌+◌, ◌-◌, ◌*◌, ◌%◌, ◌^◌, ◌≤◌, ◌<◌, ◌≡◌, refl, sym, ap, ◌∙◌, List, [], ◌∷◌, Bool,
  true, false, ◌&&◌, ltb, leb, length, arith, Bool-cases, inl, inr, if◌then◌else◌, resize,
  length-resize,
}
use rtlzz.Base.Bits.{
  test_bit, test_bit-mod, test_bit-of_zero, test_bit-complement, test_bit-above, test_bit-fields,
  split_pow, pow_pos,
}
use native.Mathlib.Nat.{mod-lt}
use rtlzz.Limbs.{limb_count, get_bit, trim, limb_max, resize_bits, sign_bit, set_where}
use rtlzz.Limbs.Value.{IsLimbs, value, IsWord, get_bit-value, get_bit-low, get_bit-high}
use rtlzz.Limbs.Trim.{value-trim, trim-IsWord}
use rtlzz.Limbs.Loops.{set_where-IsLimbs, get_bit-set_where, within, value_of_bits}
use rtlzz.Limbs.Sum.{limb_count_covers}

pub get_bit-trim :
    (xs : List ℕ) (w j : ℕ) → IsLimbs xs → get_bit (trim xs w) j ≡ (ltb j w && get_bit xs j)
get_bit-trim xs w j h =
    get_bit-value (trim xs w) j (trim-IsWord xs w h).limbs
    ∙ rw (value-trim xs w h)
        (test_bit-mod w (value xs) j ∙ ap (λ (t : Bool). ltb j w && t) (sym (get_bit-value xs j h)))

get_bit-nil : (j : ℕ) → get_bit [] j ≡ false
unfolding get_bit
get_bit-nil j = ground arith

-- Growing a vector by copies of a limb.
pub get_bit-resize :
    (n a : ℕ) (xs : List ℕ) (j : ℕ)
    → get_bit (resize n a xs) j
      ≡ (ltb j (64 * n) && (if ltb j (64 * length xs) then get_bit xs j else test_bit a (j % 64)))
get_bit-resize zero a xs j = ground (arith, get_bit-nil j)
get_bit-resize (suc n) a [] j = ground (
  arith,
  get_bit-low a (resize n a []) j,
  get_bit-high a (resize n a []) j,
  get_bit-resize n a [] (j - 64),
)
get_bit-resize (suc n) a (x ∷ xs) j = ground (
  arith,
  get_bit-low x (resize n a xs) j,
  get_bit-high x (resize n a xs) j,
  get_bit-low x xs j,
  get_bit-high x xs j,
  get_bit-resize n a xs (j - 64),
)

pub resize-IsLimbs : (n a : ℕ) (xs : List ℕ) → a < 2 ^ 64 → IsLimbs xs → IsLimbs (resize n a xs)
resize-IsLimbs zero a xs p h = tt
resize-IsLimbs (suc n) a [] p h = (p, resize-IsLimbs n a [] p tt)
resize-IsLimbs (suc n) a (x ∷ xs) p h = (h.0, resize-IsLimbs n a xs p h.1)

pub get_bit-outside : (xs : List ℕ) (j : ℕ) → 64 * length xs ≤ j → get_bit xs j ≡ false
unfolding get_bit
get_bit-outside xs j h = ground arith

-- Growing by zeros adds no bit.
pub get_bit-resize_zero :
    (n : ℕ) (xs : List ℕ) (j : ℕ) → get_bit (resize n 0 xs) j ≡ (ltb j (64 * n) && get_bit xs j)
get_bit-resize_zero n xs j =
    ground (arith, get_bit-resize n 0 xs j, test_bit-of_zero (j % 64), get_bit-outside xs j)

pub sign_bit-trim : (v : List ℕ) (w : ℕ) → IsLimbs v → sign_bit (trim v w) w ≡ sign_bit v w
unfolding sign_bit
sign_bit-trim v zero h = refl
sign_bit-trim v (suc w) h = get_bit-trim v (suc w) w h ∙ ground arith

-- Extending a trimmed vector by a fill of ones from `old` to `new`.
get_bit-ones_above :
    (v : List ℕ) (old new j : ℕ)
    → IsLimbs v
    → old ≤ new
    → get_bit
        (trim
          (set_where (λ _. true) (new - old) old (resize (limb_count new) limb_max (trim v old)))
          new)
        j
      ≡ (ltb j new && (if ltb j old then get_bit v j else true))
get_bit-ones_above v old new j h p =
    let t = trim-IsWord v old h in
    let longer = resize (limb_count new) limb_max (trim v old) in
    let longer_limbs : IsLimbs longer =
      resize-IsLimbs (limb_count new) limb_max (trim v old) (omega arith) t.limbs in
    get_bit-trim (set_where (λ _. true) (new - old) old longer) new j
      (set_where-IsLimbs (λ _. true) (new - old) old longer longer_limbs)
    ∙ ground (
      arith,
      get_bit-set_where (λ _. true) (new - old) old longer j,
      get_bit-resize (limb_count new) limb_max (trim v old) j,
      get_bit-trim v old j h,
      length-resize (limb_count new) limb_max (trim v old),
      within new j,
      t.sized,
      limb_count_covers old,
      limb_count_covers new,
    )

-- Extending it by zeros.
get_bit-zeros_above :
    (v : List ℕ) (old new j : ℕ)
    → IsLimbs v
    → get_bit (trim (resize (limb_count new) 0 (trim v old)) new) j
      ≡ (ltb j new && (if ltb j old then get_bit v j else false))
get_bit-zeros_above v old new j h =
    let t = trim-IsWord v old h in
    get_bit-trim (resize (limb_count new) 0 (trim v old)) new j
      (resize-IsLimbs (limb_count new) 0 (trim v old) (omega arith) t.limbs)
    ∙ ground (
      arith,
      get_bit-resize_zero (limb_count new) (trim v old) j,
      get_bit-trim v old j h,
      limb_count_covers new,
    )

-- The bits of a vector brought from one width to another.
pub get_bit-resize_bits :
    (v : List ℕ) (old new : ℕ) (signed : Bool) (j : ℕ)
    → IsLimbs v
    → get_bit (resize_bits v old new signed) j
      ≡ (ltb j new && (if ltb j old then get_bit v j else signed && sign_bit v old))
unfolding resize_bits
get_bit-resize_bits v old new signed j h =
    rw (sign_bit-trim v old h) (elim (Bool-cases (leb new old)) [
      | inl shorter ↦ rw shorter (
          get_bit-trim (trim v old) new j (trim-IsWord v old h).limbs
          ∙ ground (arith, get_bit-trim v old j h))
      | inr longer ↦ rw longer (elim (Bool-cases (signed && sign_bit v old)) [
        | inl negative ↦ rw negative (get_bit-ones_above v old new j h (ground arith))
        | inr positive ↦ rw positive (get_bit-zeros_above v old new j h)
      ])
    ])

pub resize_bits-IsWord :
    (v : List ℕ) (old new : ℕ) (signed : Bool)
    → IsLimbs v
    → IsWord new (resize_bits v old new signed)
unfolding resize_bits
resize_bits-IsWord v old new signed h =
    let t = trim-IsWord v old h in
    let sign = signed && sign_bit (trim v old) old in
    elim (Bool-cases (leb new old)) [
      | inl shorter ↦ rw shorter (trim-IsWord (trim v old) new t.limbs)
      | inr longer ↦ rw longer (elim (Bool-cases sign) [
        | inl negative ↦ rw negative (
            trim-IsWord _ new (
              set_where-IsLimbs (λ _. true) (new - old) old
                (resize (limb_count new) limb_max (trim v old))
                (resize-IsLimbs (limb_count new) limb_max (trim v old) (omega arith) t.limbs)))
        | inr positive ↦ rw positive (
            trim-IsWord _ new
              (resize-IsLimbs (limb_count new) 0 (trim v old) (omega arith) t.limbs))
      ])
    ]

-- The pattern of `n` bits that sign extension gives a pattern `x` of `m` bits, or its low bits where
-- `n` is not larger.
unfoldable pub extend : Bool → ℕ → ℕ → ℕ → ℕ
extend sign m n x = if leb n m then x % 2 ^ n else if sign then x + (2 ^ n - 2 ^ m) else x

test_bit-longer :
    (sign : Bool) (m n x j : ℕ)
    → x < 2 ^ m
    → m < n
    → test_bit (if sign then x + (2 ^ n - 2 ^ m) else x) j
      ≡ (ltb j n && (if ltb j m then test_bit x j else sign))
test_bit-longer false m n x j h p = ground (arith, test_bit-above m x j h)
test_bit-longer true m n x j h p =
    let ones = 2 ^ (n - m) - 1 - 0 in
    let whole : 2 ^ (n - m) ≡ 1 + ones = omega (arith, pow_pos (n - m)) in
    let high : x + (2 ^ n - 2 ^ m) ≡ x + 2 ^ m * ones =
      omega (arith, split_pow m n (omega arith), ap (λ (t : ℕ). 2 ^ m * t) whole) in
    rw high (
      ground (
        arith,
        test_bit-fields m x ones j h,
        test_bit-complement (n - m) 0 (j - m) (pow_pos (n - m)),
        test_bit-above (n - m) ones (j - m) (omega (arith, pow_pos (n - m))),
        test_bit-of_zero (j - m),
      ))

pub test_bit-extend :
    (sign : Bool) (m n x j : ℕ)
    → x < 2 ^ m
    → test_bit (extend sign m n x) j ≡ (ltb j n && (if ltb j m then test_bit x j else sign))
unfolding extend
test_bit-extend sign m n x j h = elim (Bool-cases (leb n m)) [
  | inl shorter ↦ rw shorter (test_bit-mod n x j ∙ ground arith)
  | inr longer ↦ rw longer (test_bit-longer sign m n x j h (ground arith))
]

-- The number of the resized vector: the low bits, with ones above them up to the new width where the
-- vector is signed and negative.
pub value-resize_bits :
    (v : List ℕ) (old new : ℕ) (signed : Bool)
    → IsLimbs v
    → value (resize_bits v old new signed)
      ≡ extend (signed && sign_bit v old) old new (value v % 2 ^ old)
value-resize_bits v old new signed h =
    value_of_bits (resize_bits v old new signed)
      (extend (signed && sign_bit v old) old new (value v % 2 ^ old))
      (resize_bits-IsWord v old new signed h).limbs
      (λ j.
        get_bit-resize_bits v old new signed j h
        ∙ sym (
            test_bit-extend (signed && sign_bit v old) old new (value v % 2 ^ old) j
              (mod-lt (value v) (pow_pos old))
            ∙ ground (arith, test_bit-mod old (value v) j, get_bit-value v j h)))
