-- ===== src/Base/Bits/Digits.antt =====
-- The digit at a position, digits of a remainder, and that a number is known by its digits.
use Prim.Native.Nat.{ℕ, zero, suc, ◌+◌, ◌*◌, ◌/◌, ◌%◌, ◌^◌, ◌≤◌, ◌<◌, ◌-◌}
use mathlib.Core.Path.{◌≡◌, sym, ap, ◌∙◌}
use mathlib.Core.Bool.{Bool, false, ◌&&◌}
use native.Mathlib.Omega.{arith}
use native.Mathlib.Nat.{
  pow-succ', div-div-eq-div-mul, div-add-mod, mod-lt, one-le-pow, mul-le-mul_left, div-one,
  div-eq_of_lt, mul-add-mod_self_left, mod-eq_of_lt, mul-add-div, mod-one, zero-add, suc-add,
  pow-le-pow_right, mod-mod, mod-add-mod, add-mul-mod_self_left,
}
use rtlzz.Base.Tests.{◌==◌, ltb, leb, if◌then◌else◌}

-- `(n >> i) & 1`.
unfoldable pub test_bit : ℕ → ℕ → Bool
test_bit n i = n / 2 ^ i % 2 == 1

pub test_bit-zero : (n : ℕ) → test_bit n 0 ≡ (n % 2 == 1)
unfolding test_bit
test_bit-zero n = ground (arith, div-one n)

pub test_bit-suc : (n i : ℕ) → test_bit n (suc i) ≡ test_bit (n / 2) i
unfolding test_bit
test_bit-suc n i =
    ap (λ (t : ℕ). t % 2 == 1)
      (ap (λ (t : ℕ). n / t) (pow-succ' 2 i) ∙ sym (div-div-eq-div-mul n 2 (2 ^ i)))

pub pow_pos : (k : ℕ) → 0 < 2 ^ k
pow_pos k = one-le-pow k 2 (omega arith)

-- A remainder and a quotient are known by the equation of division.
pub mod_unique : (n m q r : ℕ) → r < m → n ≡ m * q + r → n % m ≡ r
mod_unique n m q r h e = rw e (mul-add-mod_self_left m q r ∙ mod-eq_of_lt h)

pub div_unique : (n m q r : ℕ) → r < m → n ≡ m * q + r → n / m ≡ q
div_unique n m q r h e = rw e (mul-add-div (omega arith) q r ∙ omega (arith, div-eq_of_lt h))

-- The remainder by a product has the remainder by one factor as its low part.
pub mod_mul : (n a b : ℕ) → 0 < a → 0 < b → n % (a * b) ≡ n % a + a * (n / a % b)
mod_mul n a b ha hb =
    mod_unique n (a * b) (n / a / b) (n % a + a * (n / a % b))
      (omega (arith, mod-lt n ha, mul-le-mul_left a (mod-lt (n / a) hb)))
      (omega (arith, div-add-mod n a, ap (λ (t : ℕ). a * t) (div-add-mod (n / a) b)))

pub mod_pow-suc : (n w : ℕ) → n % 2 ^ suc w ≡ n % 2 + 2 * (n / 2 % 2 ^ w)
mod_pow-suc n w = rw pow-succ' (mod_mul n 2 (2 ^ w) (omega arith) (pow_pos w))

half-mod_pow : (n w : ℕ) → n % 2 ^ suc w / 2 ≡ n / 2 % 2 ^ w
half-mod_pow n w = omega (arith, mod_pow-suc n w)

pub test_bit-of_zero : (i : ℕ) → test_bit 0 i ≡ false
test_bit-of_zero zero = test_bit-zero 0
test_bit-of_zero (suc i) = test_bit-suc 0 i ∙ test_bit-of_zero i

-- A remainder by a power of two keeps the low digits and drops the others.
pub test_bit-mod : (w n i : ℕ) → test_bit (n % 2 ^ w) i ≡ (ltb i w && test_bit n i)
test_bit-mod zero n i = rw mod-one (ground (arith, test_bit-of_zero i))
test_bit-mod (suc w) n zero =
    test_bit-zero (n % 2 ^ suc w) ∙ ground (arith, mod_pow-suc n w, test_bit-zero n)
test_bit-mod (suc w) n (suc i) =
    test_bit-suc (n % 2 ^ suc w) i
    ∙ rw (half-mod_pow n w) (test_bit-mod w (n / 2) i ∙ ground (arith, test_bit-suc n i))

pub bits_ext :
    (w a b : ℕ) → a < 2 ^ w → b < 2 ^ w → ((i : ℕ) → i < w → test_bit a i ≡ test_bit b i) → a ≡ b
bits_ext zero a b ha hb h = omega arith
bits_ext (suc w) a b ha hb h = ground (
  arith,
  h 0 (omega arith),
  test_bit-zero a,
  test_bit-zero b,
  bits_ext w (a / 2) (b / 2) (omega (arith, pow-succ' 2 w)) (omega (arith, pow-succ' 2 w))
      (λ i p. sym (test_bit-suc a i) ∙ h (suc i) (omega arith) ∙ test_bit-suc b i),
)

pub pow_add : (a b : ℕ) → 2 ^ (a + b) ≡ 2 ^ a * 2 ^ b
pow_add zero b = rw zero-add (omega arith)
pow_add (suc a) b = rw suc-add (
    omega (
      arith,
      pow-succ' 2 (a + b),
      pow-succ' 2 a,
      ap (λ (t : ℕ). 2 * t) (pow_add a b),
      ap (λ (t : ℕ). t * 2 ^ b) (pow-succ' 2 a),
    ))

pub pow_mono : (a b : ℕ) → a ≤ b → 2 ^ a ≤ 2 ^ b
pow_mono a b h = pow-le-pow_right (omega arith) h

pub split_pow : (a b : ℕ) → a ≤ b → 2 ^ b ≡ 2 ^ a * 2 ^ (b - a)
split_pow a b h = ap (λ (t : ℕ). 2 ^ t) (omega arith) ∙ pow_add a (b - a)

-- A remainder at a smaller width forgets the one at a larger.
pub mod_pow-mod_pow : (a b n : ℕ) → a ≤ b → n % 2 ^ b % 2 ^ a ≡ n % 2 ^ a
mod_pow-mod_pow a b n h = rw (split_pow a b h) (
    rw (mod_mul n (2 ^ a) (2 ^ (b - a)) (pow_pos a) (pow_pos (b - a)))
      (add-mul-mod_self_left (n % 2 ^ a) (2 ^ a) (n / 2 ^ a % 2 ^ (b - a)) ∙ mod-mod n (2 ^ a)))

-- The digits of two fields side by side.
pub test_bit-fields :
    (k x y i : ℕ)
    → x < 2 ^ k
    → test_bit (x + 2 ^ k * y) i ≡ (if ltb i k then test_bit x i else test_bit y (i - k))
test_bit-fields zero x y i h = let e : x + 2 ^ 0 * y ≡ y = omega arith in rw e (ground arith)
test_bit-fields (suc k) x y zero h = ground (
  arith,
  test_bit-zero (x + 2 ^ suc k * y),
  test_bit-zero x,
  ap (λ (t : ℕ). t * y) (pow-succ' 2 k),
)
test_bit-fields (suc k) x y (suc i) h =
    let e : (x + 2 ^ suc k * y) / 2 ≡ x / 2 + 2 ^ k * y =
      omega (arith, ap (λ (t : ℕ). t * y) (pow-succ' 2 k)) in
    test_bit-suc (x + 2 ^ suc k * y) i
    ∙ rw e (
        test_bit-fields k (x / 2) y i (omega (arith, pow-succ' 2 k))
        ∙ ground (arith, test_bit-suc x i))

-- Remainders of two fields side by side.
pub mod_fields : (k x y w : ℕ) → x < 2 ^ k → (x + 2 ^ k * y) % 2 ^ (w + k) ≡ x + 2 ^ k * (y % 2 ^ w)
mod_fields k x y w h =
    let e : 2 ^ (w + k) ≡ 2 ^ k * 2 ^ w = ap (λ (t : ℕ). 2 ^ t) (omega arith) ∙ pow_add k w in
    let low : (x + 2 ^ k * y) % 2 ^ k ≡ x =
      mod_unique (x + 2 ^ k * y) (2 ^ k) y x h (omega arith) in
    let high : (x + 2 ^ k * y) / 2 ^ k ≡ y =
      div_unique (x + 2 ^ k * y) (2 ^ k) y x h (omega arith) in
    rw e (mod_mul (x + 2 ^ k * y) (2 ^ k) (2 ^ w) (pow_pos k) (pow_pos w) ∙ rw (low, high))

pub mod_fields_low : (k x y w : ℕ) → w ≤ k → (x + 2 ^ k * y) % 2 ^ w ≡ x % 2 ^ w
mod_fields_low k x y w h =
    let e : x + 2 ^ k * y ≡ x + 2 ^ w * (2 ^ (k - w) * y) =
      omega (arith, ap (λ (t : ℕ). t * y) (split_pow w k h)) in
    rw e (add-mul-mod_self_left x (2 ^ w) (2 ^ (k - w) * y))

pub test_bit-div : (k n i : ℕ) → test_bit (n / 2 ^ k) i ≡ test_bit n (k + i)
unfolding test_bit
test_bit-div k n i = rw (pow_add k i, ← div-div-eq-div-mul n (2 ^ k) (2 ^ i))

pub test_bit-mul : (k n i : ℕ) → test_bit (2 ^ k * n) i ≡ (leb k i && test_bit n (i - k))
test_bit-mul k n i =
    let e : 2 ^ k * n ≡ 0 + 2 ^ k * n = omega arith in
    rw e (test_bit-fields k 0 n i (pow_pos k) ∙ ground (arith, test_bit-of_zero i))

pub test_bit-above : (w n i : ℕ) → n < 2 ^ w → w ≤ i → test_bit n i ≡ false
test_bit-above w n i h p =
    let e : n ≡ n % 2 ^ w = sym (mod-eq_of_lt h) in rw e (test_bit-mod w n i ∙ ground arith)

pub lt_pow : (n : ℕ) → n < 2 ^ n
lt_pow zero = omega arith
lt_pow (suc n) = omega (arith, lt_pow n, pow-succ' 2 n)

-- The number below a modulus that gives back `l` when `r` is added to it.
pub sub_mod : (m y l r : ℕ) → y < m → (y + r) % m ≡ l % m → (l + (m - r % m)) % m ≡ y
sub_mod m y l r h e =
    let k = m - r % m in
    let whole : y + r + k ≡ y + m * (r / m + 1) =
      omega (arith, div-add-mod r m, mod-lt r {m = m} (omega arith)) in
    sym (mod-add-mod l m k)
    ∙ rw (← e) (
        mod-add-mod (y + r) m k ∙ rw whole (add-mul-mod_self_left y m (r / m + 1) ∙ mod-eq_of_lt h))

-- Equality modulo a power of two holds modulo the smaller ones.
pub mod_pow_mono : (a b x y : ℕ) → a ≤ b → x % 2 ^ b ≡ y % 2 ^ b → x % 2 ^ a ≡ y % 2 ^ a
mod_pow_mono a b x y h e =
    sym (mod_pow-mod_pow a b x h) ∙ ap (λ (t : ℕ). t % 2 ^ a) e ∙ mod_pow-mod_pow a b y h
