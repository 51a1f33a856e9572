-- ===== src/Facts/Constants/Words.antt =====
-- The parts of constant folding: facts of a computed word, operands resized, bitwise operations limb
-- by limb, the shift amount.
use rtlzz.Base.{
  ℕ, zero, suc, ◌-◌, ◌*◌, ◌^◌, ◌≤◌, ◌<◌, ◌≡◌, refl, ap, sym, ◌∙◌, List, [], ◌∷◌, Bool, true, false,
  ◌&&◌, some, arith, Bool-cases, inl, inr, ltb, leb, ◌==◌,
}
use rtlzz.Base.Bits.{test_bit, test_bit-above, test_bit-of_zero}
use rtlzz.Limbs.{limb_count, get_bit, resize_bits, sign_bit, head_limb, tail_limbs}
use rtlzz.Limbs.Value.{IsLimbs, value, IsWord, get_bit-value, get_bit-low, get_bit-high}
use rtlzz.Limbs.Trim.{trim-IsWord}
use rtlzz.Limbs.Sum.{limb_count_covers}
use rtlzz.Limbs.Loops.{value_of_bits}
use rtlzz.Limbs.Resize.{get_bit-trim, value-resize_bits, resize_bits-IsWord}
use rtlzz.Ir.{ValueFacts, rest_zero, all_zero}
use rtlzz.Facts.{constant_bits, bool_constant, from_constant, make_constant}
use rtlzz.Facts.Sound.{Describes}
use rtlzz.Facts.Widths.{constant-Describes}
use rtlzz.Facts.Constants.{constant_to_u64, map_limbs, bitwise_bits}
use rtlzz.Facts.Constants.Meaning.{sign_of, operand_value, flag, shift_amount}
use native.Mathlib.Nat.{mod-eq_of_lt}

-- The facts of a word that was computed.
pub constant_bits-Describes :
    (xs : List ℕ) (w : ℕ) (signed : Bool)
    → IsWord w xs
    → Describes (constant_bits xs w signed) (value xs)
unfolding constant_bits
constant_bits-Describes xs w signed h =
    constant-Describes xs w w signed (value xs) h.limbs
      (rw (mod-eq_of_lt h.fits) (mod-eq_of_lt h.fits))

pub word-Describes :
    (xs : List ℕ) (w y : ℕ) (signed : Bool)
    → IsWord w xs
    → value xs ≡ y
    → Describes (constant_bits xs w signed) y
word-Describes xs w y signed h e = rw (← e) (constant_bits-Describes xs w signed h)

pub bool_constant-Describes : (b : Bool) → Describes (bool_constant b) (flag b)
unfolding bool_constant
bool_constant-Describes true =
    constant-Describes (1 ∷ []) 1 1 false 1 (omega arith, tt) (unfold value in omega arith)
bool_constant-Describes false =
    constant-Describes (0 ∷ []) 1 1 false 0 (omega arith, tt) (unfold value in omega arith)

pub sign_bit-sign_of : (xs : List ℕ) (w : ℕ) → IsLimbs xs → sign_bit xs w ≡ sign_of w (value xs)
unfolding sign_bit
sign_bit-sign_of xs zero h = refl
sign_bit-sign_of xs (suc w) h = get_bit-value xs w h

-- The resized limbs of a constant operand.
pub resized-value :
    (f : ValueFacts) (x w : ℕ) (signed : Bool)
    → Describes f x
    → f.constant ≡ true
    → value (resize_bits f.value.limbs f.width w signed) ≡ operand_value signed f.width w x
resized-value f x w signed h fixed =
    value-resize_bits f.value.limbs f.width w signed h.value_limbs
    ∙ rw (sign_bit-sign_of f.value.limbs f.width h.value_limbs, h.exact fixed, mod-eq_of_lt h.fits)

pub resized-IsWord :
    (f : ValueFacts) (x w : ℕ) (signed : Bool)
    → Describes f x
    → IsWord w (resize_bits f.value.limbs f.width w signed)
resized-IsWord f x w signed h = resize_bits-IsWord f.value.limbs f.width w signed h.value_limbs

get_bit-nil : (j : ℕ) → get_bit [] j ≡ false
unfolding get_bit
get_bit-nil j = ground arith

get_bit-head : (xs : List ℕ) (j : ℕ) → j < 64 → get_bit xs j ≡ test_bit (head_limb xs) j
get_bit-head [] j h = rw (get_bit-nil j) (sym (test_bit-of_zero j))
get_bit-head (x ∷ xs) j h = get_bit-low x xs j h

get_bit-tail : (xs : List ℕ) (j : ℕ) → 64 ≤ j → get_bit xs j ≡ get_bit (tail_limbs xs) (j - 64)
get_bit-tail [] j h = rw (get_bit-nil j) (sym (get_bit-nil (j - 64)))
get_bit-tail (x ∷ xs) j h = get_bit-high x xs j h

-- One digit of an operation that is done limb by limb.
module _ (f : ℕ → ℕ → ℕ) (on : Bool → Bool → Bool)
    (digit : (a b i : ℕ) → test_bit (f a b) i ≡ on (test_bit a i) (test_bit b i))
    (bound : (w a b : ℕ) → a < 2 ^ w → b < 2 ^ w → f a b < 2 ^ w)
    (none_set : on false false ≡ false) where
  pub map_limbs-IsLimbs :
      (n : ℕ) (l r : List ℕ) → IsLimbs l → IsLimbs r → IsLimbs (map_limbs f n l r)
  unfolding map_limbs
  map_limbs-IsLimbs zero l r hl hr = tt
  map_limbs-IsLimbs (suc n) [] [] hl hr =
      (bound 64 0 0 (omega arith) (omega arith), map_limbs-IsLimbs n [] [] tt tt)
  map_limbs-IsLimbs (suc n) [] (y ∷ ys) hl hr =
      (bound 64 0 y (omega arith) hr.0, map_limbs-IsLimbs n [] ys tt hr.1)
  map_limbs-IsLimbs (suc n) (x ∷ xs) [] hl hr =
      (bound 64 x 0 hl.0 (omega arith), map_limbs-IsLimbs n xs [] hl.1 tt)
  map_limbs-IsLimbs (suc n) (x ∷ xs) (y ∷ ys) hl hr =
      (bound 64 x y hl.0 hr.0, map_limbs-IsLimbs n xs ys hl.1 hr.1)

  pub get_bit-map_limbs :
      (n : ℕ) (l r : List ℕ) (j : ℕ)
      → get_bit (map_limbs f n l r) j ≡ (ltb j (64 * n) && on (get_bit l j) (get_bit r j))
  unfolding map_limbs
  get_bit-map_limbs zero l r j = get_bit-nil j ∙ ground arith
  get_bit-map_limbs (suc n) l r j =
      let first = f (head_limb l) (head_limb r) in
      let others = map_limbs f n (tail_limbs l) (tail_limbs r) in
      elim (Bool-cases (ltb j 64)) [
        | inl low ↦
            let p : j < 64 = ground arith in
            let q : ltb j (64 * suc n) ≡ true = ground arith in
            get_bit-low first others j p
            ∙ digit (head_limb l) (head_limb r) j
            ∙ rw (q, get_bit-head l j p, get_bit-head r j p) refl
        | inr high ↦
            let p : 64 ≤ j = ground arith in
            let q : ltb (j - 64) (64 * n) ≡ ltb j (64 * suc n) = ground arith in
            get_bit-high first others j p
            ∙ get_bit-map_limbs n (tail_limbs l) (tail_limbs r) (j - 64)
            ∙ rw (q, get_bit-tail l j p, get_bit-tail r j p) refl
      ]

  pub bitwise_bits-IsWord :
      (l r : List ℕ) (w : ℕ) → IsWord w l → IsWord w r → IsWord w (bitwise_bits f l r w)
  unfolding bitwise_bits
  bitwise_bits-IsWord l r w hl hr =
      trim-IsWord (map_limbs f (limb_count w) l r) w
        (map_limbs-IsLimbs (limb_count w) l r hl.limbs hr.limbs)

  get_bit-bitwise_bits :
      (l r : List ℕ) (w j : ℕ)
      → IsWord w l
      → IsWord w r
      → get_bit (bitwise_bits f l r w) j ≡ (ltb j w && on (get_bit l j) (get_bit r j))
  unfolding bitwise_bits
  get_bit-bitwise_bits l r w j hl hr =
      get_bit-trim (map_limbs f (limb_count w) l r) w j
        (map_limbs-IsLimbs (limb_count w) l r hl.limbs hr.limbs)
      ∙ rw (get_bit-map_limbs (limb_count w) l r j) (ground (arith, limb_count_covers w))

  -- The operation limb by limb is the operation on the numbers.
  pub value-bitwise_bits :
      (l r : List ℕ) (w : ℕ)
      → IsWord w l
      → IsWord w r
      → value (bitwise_bits f l r w) ≡ f (value l) (value r)
  value-bitwise_bits l r w hl hr =
      value_of_bits (bitwise_bits f l r w) (f (value l) (value r))
        (bitwise_bits-IsWord l r w hl hr).limbs
        (λ j. get_bit-bitwise_bits l r w j hl hr ∙ elim (Bool-cases (ltb j w)) [
          | inl inside ↦ rw inside (
              rw (get_bit-value l j hl.limbs, get_bit-value r j hr.limbs)
                (sym (digit (value l) (value r) j)))
          | inr outside ↦ rw outside (
              sym (
                test_bit-above w (f (value l) (value r)) j
                  (bound w (value l) (value r) hl.fits hr.fits) (ground arith)))
        ])

pub all_zero-value : (xs : List ℕ) → all_zero xs ≡ (value xs == 0)
unfolding all_zero value
all_zero-value [] = refl
all_zero-value (x ∷ xs) = ground (arith, all_zero-value xs)

rest_zero-value : (xs : List ℕ) → IsLimbs xs → rest_zero xs ≡ ltb (value xs) (2 ^ 64)
unfolding value
rest_zero-value [] h = refl
rest_zero-value (x ∷ xs) h = ground (arith, all_zero-value xs, h.0)

head_limb-value : (xs : List ℕ) → value xs < 2 ^ 64 → head_limb xs ≡ value xs
unfolding value
head_limb-value [] h = refl
head_limb-value (x ∷ xs) h = omega arith

-- The shift amount is the operand's number, where it is read at all.
pub constant_to_u64-shift_amount :
    (f : ValueFacts) (y : ℕ)
    → Describes f y
    → f.constant ≡ true
    → constant_to_u64 f ≡ shift_amount f.value.width y
unfolding constant_to_u64
constant_to_u64-shift_amount f y h fixed =
    rw (fixed, rest_zero-value f.value.limbs h.value_limbs, h.exact fixed)
      (elim (Bool-cases (leb f.value.width 64 && ltb y (2 ^ 64))) [
        | inl read ↦ rw read (
            ap some
              (head_limb-value f.value.limbs (rw (h.exact fixed) (ground arith)) ∙ h.exact fixed))
        | inr unread ↦ rw unread refl
      ])

pub constant_bits-signed :
    (xs : List ℕ) (w : ℕ) (signed : Bool) → (constant_bits xs w signed).value.signed_view ≡ signed
unfolding constant_bits from_constant make_constant
constant_bits-signed xs w signed = refl

pub bool_constant-unsigned : (b : Bool) → (bool_constant b).value.signed_view ≡ false
unfolding bool_constant constant_bits from_constant make_constant
bool_constant-unsigned b = refl
