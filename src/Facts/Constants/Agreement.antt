-- ===== src/Facts/Constants/Agreement.antt =====
-- Where folding an operation is covered, the value that the fold computes is the operation's result.
use rtlzz.Base.{
  ℕ, zero, suc, ◌+◌, ◌-◌, ◌*◌, ◌%◌, ◌^◌, ◌≤◌, ◌<◌, ◌≡◌, refl, sym, ◌∙◌, ap, Bool, true, false, ◌&&◌,
  ◌||◌, Option, some, leb, ◌==◌, if◌then◌else◌, arith, Bool-cases, inl, inr, subst,
}
use native.Mathlib.Nat.{mod-eq_of_lt, div-le_self, div-eq_of_lt, mul_assoc, mul-mod_right}
use rtlzz.Limbs.Resize.{extend}
use rtlzz.Base.Bits.{test_bit-of_zero, pow_mono, pow_pos, split_pow, mod_pow-mod_pow}
use rtlzz.Ir.{OpCode, Operand, ValueFacts}
use rtlzz.Facts.Constants.{operand_signed, is_logic, is_comparison}
use rtlzz.Facts.Constants.Meaning.{
  logic_holds, comparison_holds, operand_order, arithmetic_value, operand_value, sign_of,
  shifted_right, unary_value, flag, shift_amount,
}
use rtlzz.Facts.Constants.Result.{
  views_signed, IsViewed, unary_result, binary_result, left_shift, right_shift, IsUnaryCovered,
  IsBinaryCovered,
}

-- The value that the fold of a binary operation computes.
abbrev pub binary_value : OpCode → Bool → Bool → ℕ → ℕ → ℕ → ℕ → ℕ → ℕ → Option ℕ
binary_value code ls rs m n w x y amount_width =
    if is_logic code
    then some (flag (logic_holds code x y))
    else if is_comparison code
    then some (flag (comparison_holds code (operand_order ls rs m n x y)))
    else arithmetic_value code w ls (ls || rs) (operand_value ls m w x) (operand_value rs n w y)
        (shift_amount amount_width y)

-- Where an operand agrees with its facts, the fold takes the operand's own sign.
pub operand_signed-views :
    (o : Operand) (f : ValueFacts) → IsViewed o f → operand_signed o f ≡ views_signed o
unfolding operand_signed
operand_signed-views o f h = elim (Bool-cases f.constant) [
  | inl c ↦ elim (Bool-cases f.value.signed_view) [
    | inl v ↦ simp (c, v, h c v)
    | inr v ↦ ground (arith, v)
  ]
  | inr c ↦ ground (arith, c)
]

-- An operand that is unsigned, or not widened, is brought to a width by the remainder.
pub operand_value-mod :
    (s : Bool) (m w x : ℕ) → (s ≡ true → w ≤ m) → x < 2 ^ m → operand_value s m w x ≡ x % 2 ^ w
unfolding extend
operand_value-mod s m w x c h = elim (Bool-cases (leb w m)) [
  | inl narrow ↦ rw narrow refl
  | inr wide ↦ elim (Bool-cases s) [
    | inl signed ↦ absurd (let le = c signed in ground arith)
    | inr unsigned ↦
        let below = pow_mono m w (ground arith) in
        rw wide (rw unsigned (sym (mod-eq_of_lt (omega arith))))
  ]
]

sign_of-zero : (m : ℕ) → sign_of m 0 ≡ false
sign_of-zero zero = refl
sign_of-zero (suc m) = test_bit-of_zero m

operand_value-is_zero :
    (s : Bool) (m w x : ℕ) → m ≤ w → x < 2 ^ m → (operand_value s m w x == 0) ≡ (x == 0)
unfolding extend
operand_value-is_zero s m w x c h =
    let below = pow_mono m w c in
    elim (Bool-cases (leb w m)) [
      | inl narrow ↦ rw narrow (ap (λ t. t == 0) (mod-eq_of_lt (omega arith)))
      | inr wide ↦ elim (Bool-cases (s && sign_of m x)) [
        | inl negative ↦
            let nonzero : x ≡ 0 → ⊥ = λ e.
              let none_set : (s && sign_of m 0) ≡ false = ground (arith, sign_of-zero m) in
              cc ((subst (λ t. (s && sign_of m t) ≡ true) e negative), none_set) in
            rw wide (rw negative (ground (arith, nonzero)))
        | inr positive ↦ rw wide (rw positive refl)
      ]
    ]

operand_value-same : (s : Bool) (w x : ℕ) → x < 2 ^ w → operand_value s w w x ≡ x
unfolding extend
operand_value-same s w x h = operand_value-mod s w w x (λ _. omega arith) h ∙ mod-eq_of_lt h

pub unary_value-result :
    (code : OpCode) (s : Bool) (m w x : ℕ)
    → IsUnaryCovered code s m w
    → x < 2 ^ m
    → unary_value code w (operand_value s m w x) ≡ unary_result code w x
unary_value-result OpCode.logic_not s m w x c h =
    ap (λ b. some (flag b)) (operand_value-is_zero s m w x c h)
unary_value-result OpCode.bit_not_op s m w x c h = rw (operand_value-mod s m w x c h) refl
unary_value-result OpCode.neg s m w x c h = rw (operand_value-mod s m w x c h) refl
unary_value-result _ s m w x c h = refl

left_shift-value : (w a x : ℕ) → 2 ^ a * x % 2 ^ w ≡ left_shift w w a x
left_shift-value w a x = elim (Bool-cases (leb w a)) [
  | inl over ↦
      rw (over, split_pow w a (ground arith))
        (ap (λ t. t % 2 ^ w) (mul_assoc (2 ^ w) (2 ^ (a - w)) x) ∙ mul-mod_right (2 ^ w) _)
  | inr under ↦ rw under (sym (mod_pow-mod_pow w w (2 ^ a * x) (omega arith)))
]

right_shift-value :
    (s : Bool) (w a x : ℕ)
    → ((s && sign_of w x) ≡ true → a < w)
    → x < 2 ^ w
    → shifted_right s w a x ≡ right_shift s w w a x
right_shift-value s w a x c h = elim (Bool-cases (s && sign_of w x)) [
  | inl negative ↦
      let under : leb w a ≡ false = let lt = c negative in ground arith in
      rw (negative, under) (sym (mod-eq_of_lt (omega (arith, pow_pos w))))
  | inr positive ↦
      let small = div-le_self x (2 ^ a) in
      rw positive (elim (Bool-cases (leb w a)) [
        | inl over ↦ rw over (div-eq_of_lt (let le = pow_mono w a (ground arith) in omega arith))
        | inr under ↦ rw under (sym (mod-eq_of_lt (omega arith)))
      ])
]

shift_amount-value : (k y : ℕ) → k ≤ 64 → y < 2 ^ 64 → shift_amount k y ≡ some y
shift_amount-value k y hk hy = ground arith

pub binary_value-result :
    (code : OpCode) (ls rs : Bool) (m n w x y k : ℕ)
    → IsBinaryCovered code ls rs m n w x y k
    → x < 2 ^ m
    → y < 2 ^ n
    → binary_value code ls rs m n w x y k ≡ binary_result code ls rs m n w x y
binary_value-result OpCode.bit_and_op ls rs m n w x y k c p q =
    rw (operand_value-mod ls m w x c.0 p, operand_value-mod rs n w y c.1 q) refl
binary_value-result OpCode.bit_or_op ls rs m n w x y k c p q =
    rw (operand_value-mod ls m w x c.0 p, operand_value-mod rs n w y c.1 q) refl
binary_value-result OpCode.bit_xor_op ls rs m n w x y k c p q =
    rw (operand_value-mod ls m w x c.0 p, operand_value-mod rs n w y c.1 q) refl
binary_value-result OpCode.shl ls rs m n w x y k (same, narrow, small) p q =
    rw (same, shift_amount-value k y narrow small)
      (ap some (
        ap (λ t. 2 ^ y * t % 2 ^ w) (operand_value-same ls w x (rw (← same) p))
        ∙ left_shift-value w y x))
binary_value-result OpCode.shr ls rs m n w x y k ((same, narrow, small), bound, under) p q =
    rw (same, shift_amount-value k y narrow small)
      (ap some (
        ap (shifted_right ls w y) (operand_value-same ls w x (rw (← same) p))
        ∙ right_shift-value ls w y x (λ e. rw (← same) (under (rw same e))) (rw (← same) p)))
binary_value-result _ ls rs m n w x y k c p q = refl

pub IsBinaryCovered-bound :
    (code : OpCode) (ls rs : Bool) (m n w x y k : ℕ)
    → IsBinaryCovered code ls rs m n w x y k
    → code ≡ OpCode.shr
    → y + w ≤ 2 ^ 64
IsBinaryCovered-bound OpCode.shr ls rs m n w x y k (shift, bound, under) e = bound
IsBinaryCovered-bound _ ls rs m n w x y k c e = cc
