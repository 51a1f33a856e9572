-- ===== src/Facts/Operation/Moves.antt =====
-- The inference of the operations that move, choose and reduce bits.
use rtlzz.Base.{
  ℕ, ◌-◌, ◌/◌, ◌%◌, ◌^◌, ◌<◌, ◌≡◌, refl, List, [], ◌∷◌, Bool, true, false, not, ◌==◌, leb, arith,
  Bool-cases, inl, inr, if◌then◌else◌, length,
}
use rtlzz.Base.Int.{ℤ, pos, negsuc}
use rtlzz.Base.Bits.{pow_pos, test_bit}
use mathlib.Core.List.{reverse}
use rtlzz.Ir.{ValueFacts}
use rtlzz.Facts.{
  facts_unknown, facts_zext, facts_sext, facts_trunc, facts_signed_trunc, facts_slice,
  facts_bit_select,
}
use rtlzz.Facts.Sound.{Describes}
use rtlzz.Facts.Extend.{facts_zext-Describes, facts_sext-Describes, sext_value, extend-lt}
use rtlzz.Facts.Widths.{facts_trunc-Describes, facts_slice-Describes}
use rtlzz.Facts.Narrow.{
  facts_signed_trunc-Describes, facts_bit_select-Describes, narrow_value, narrow_value-lt,
  bit_value,
}
use rtlzz.Facts.Constants.Meaning.{flag}
use rtlzz.Facts.Joins.{facts_ite, facts_case, facts_reduce_or, facts_reduce_and}
use rtlzz.Facts.Joins.Choice.{facts_ite-Describes}
use rtlzz.Facts.Joins.Cases.{facts_case-Describes}
use rtlzz.Facts.Joins.Possible.{DescribeAll, case_value}
use rtlzz.Facts.Joins.Reduce.{facts_reduce_or-Describes, facts_reduce_and-Describes}
use rtlzz.Facts.Parts.{facts_concat, facts_add_carry}
use rtlzz.Facts.Parts.Concat.{facts_concat-Describes, concat_value}
use rtlzz.Facts.Parts.Carry.{facts_add_carry-Describes, carry_value, carry_sum}
use rtlzz.Facts.Operation.{first_or, three_or, valid_case_shape}
use rtlzz.Facts.Operation.Meaning.{OnFirst, OnThree, GivesSlice, GivesBit, IsPosition}
use rtlzz.Facts.Operation.Settle.{
  Settles, settled_as, facts_unknown-Settles, single_bit-Settles, unknown_any-Settles,
}
use native.Mathlib.Nat.{mod-lt}

-- An operation on its first operand, from what it does to facts that are true of a number.
first-Settles :
    (step : ValueFacts → ValueFacts) (P C : ValueFacts → ℕ → Type 0) (w v : ℕ)
    (fs : List ValueFacts) (xs : List ℕ)
    → ((f : ValueFacts) (x : ℕ) → Describes f x → C f x → P f x → Settles (step f) w v)
    → DescribeAll fs xs
    → OnFirst C Unit fs xs
    → OnFirst P (v < 2 ^ w) fs xs
    → Settles (first_or step (facts_unknown w) fs) w v
first-Settles step P C w v [] [] keeps h c p = facts_unknown-Settles w v p
first-Settles step P C w v [] (x ∷ xs) keeps h c p = absurd h
first-Settles step P C w v (f ∷ fs) [] keeps h c p = absurd h
first-Settles step P C w v (f ∷ fs) (x ∷ xs) keeps h c p = keeps f x h.0 c p

flag_small : (b : Bool) → flag b < 2
flag_small true = omega arith
flag_small false = omega arith

no_condition : (fs : List ValueFacts) (xs : List ℕ) → OnFirst (λ f x. Unit) Unit fs xs
no_condition [] xs = tt
no_condition (f ∷ fs) [] = tt
no_condition (f ∷ fs) (x ∷ xs) = tt

no_condition_three : (fs : List ValueFacts) (xs : List ℕ) → OnThree (λ f g k x y z. Unit) Unit fs xs
no_condition_three [] xs = tt
no_condition_three (f ∷ []) xs = tt
no_condition_three (f ∷ g ∷ []) xs = tt
no_condition_three (f ∷ g ∷ k ∷ []) [] = tt
no_condition_three (f ∷ g ∷ k ∷ []) (x ∷ []) = tt
no_condition_three (f ∷ g ∷ k ∷ []) (x ∷ y ∷ []) = tt
no_condition_three (f ∷ g ∷ k ∷ []) (x ∷ y ∷ z ∷ []) = tt
no_condition_three (f ∷ g ∷ k ∷ []) (x ∷ y ∷ z ∷ t ∷ xs) = tt
no_condition_three (f ∷ g ∷ k ∷ l ∷ fs) xs = tt

three-Settles :
    (step : ValueFacts → ValueFacts → ValueFacts → ValueFacts)
    (P C : ValueFacts → ValueFacts → ValueFacts → ℕ → ℕ → ℕ → Type 0) (w v : ℕ)
    (fs : List ValueFacts) (xs : List ℕ)
    → ((f g k : ValueFacts) (x y z : ℕ)
        → Describes f x
        → Describes g y
        → Describes k z
        → C f g k x y z
        → P f g k x y z
        → Settles (step f g k) w v)
    → DescribeAll fs xs
    → OnThree C Unit fs xs
    → OnThree P (v < 2 ^ w) fs xs
    → Settles (three_or step (facts_unknown w) fs) w v
three-Settles step P C w v [] xs keeps h c p = facts_unknown-Settles w v p
three-Settles step P C w v (f ∷ []) xs keeps h c p = facts_unknown-Settles w v p
three-Settles step P C w v (f ∷ g ∷ []) xs keeps h c p = facts_unknown-Settles w v p
three-Settles step P C w v (f ∷ g ∷ k ∷ []) [] keeps h c p = absurd h
three-Settles step P C w v (f ∷ g ∷ k ∷ []) (x ∷ []) keeps h c p = absurd h.1
three-Settles step P C w v (f ∷ g ∷ k ∷ []) (x ∷ y ∷ []) keeps h c p = absurd h.1.1
three-Settles step P C w v (f ∷ g ∷ k ∷ []) (x ∷ y ∷ z ∷ []) keeps h c p =
    keeps f g k x y z h.0 h.1.0 h.1.1.0 c p
three-Settles step P C w v (f ∷ g ∷ k ∷ []) (x ∷ y ∷ z ∷ t ∷ xs) keeps h c p = absurd h.1.1.1
three-Settles step P C w v (f ∷ g ∷ k ∷ l ∷ fs) xs keeps h c p = facts_unknown-Settles w v p

module _ (w v : ℕ) (pos_w : 0 < w) (fs : List ValueFacts) (xs : List ℕ)
    (h : DescribeAll fs xs) where
  pub assign-Settles :
      OnFirst (λ f x. v ≡ x % 2 ^ w) (v < 2 ^ w) fs xs
      → Settles
          (first_or
            (λ f. if leb f.width w then facts_zext f w else facts_trunc f w)
            (facts_unknown w)
            fs)
          w
          v
  assign-Settles =
      first-Settles (λ f. if leb f.width w then facts_zext f w else facts_trunc f w)
        (λ f x. v ≡ x % 2 ^ w) (λ f x. Unit) w v fs xs
        (λ f x d c e. elim (Bool-cases (leb f.width w)) [
          | inl fits ↦ rw fits (
              settled_as (facts_zext f w) w v (x % 2 ^ w) (facts_zext-Describes f w x d)
                (mod-lt x (pow_pos w)) e)
          | inr wide ↦ rw wide (
              settled_as (facts_trunc f w) w v (x % 2 ^ w) (facts_trunc-Describes f w x d)
                (mod-lt x (pow_pos w)) e)
        ])
        h (no_condition fs xs)

  pub zext-Settles :
      OnFirst (λ f x. v ≡ x % 2 ^ w) (v < 2 ^ w) fs xs
      → Settles (first_or (λ f. facts_zext f w) (facts_unknown w) fs) w v
  zext-Settles =
      first-Settles (λ f. facts_zext f w) (λ f x. v ≡ x % 2 ^ w) (λ f x. Unit) w v fs xs
        (λ f x d c e.
          settled_as (facts_zext f w) w v (x % 2 ^ w) (facts_zext-Describes f w x d)
            (mod-lt x (pow_pos w)) e)
        h (no_condition fs xs)

  pub sext-Settles :
      OnFirst (λ f x. 0 < f.width) Unit fs xs
      → OnFirst (λ f x. v ≡ sext_value f.width w x) (v < 2 ^ w) fs xs
      → Settles (first_or (λ f. facts_sext f w) (facts_unknown w) fs) w v
  sext-Settles =
      first-Settles (λ f. facts_sext f w) (λ f x. v ≡ sext_value f.width w x) (λ f x. 0 < f.width) w
        v fs xs
        (λ f x d wide e.
          settled_as (facts_sext f w) w v (sext_value f.width w x)
            (facts_sext-Describes f w x wide d)
            (extend-lt (test_bit x (f.width - 1)) f.width w x d.fits) e)
        h

  pub trunc-Settles :
      (signed : Bool)
      → OnFirst (λ f x. signed ≡ true → w < f.width) Unit fs xs
      → OnFirst
          (λ f x. v ≡ (if signed then narrow_value f.width w x else x % 2 ^ w))
          (v < 2 ^ w)
          fs
          xs
      → Settles
          (if signed
            then first_or (λ f. facts_signed_trunc f w) (facts_unknown w) fs
            else first_or (λ f. facts_trunc f w) (facts_unknown w) fs)
          w
          v
  trunc-Settles true =
      first-Settles (λ f. facts_signed_trunc f w) (λ f x. v ≡ narrow_value f.width w x)
        (λ f x. true ≡ true → w < f.width) w v fs xs
        (λ f x d narrows e.
          settled_as (facts_signed_trunc f w) w v (narrow_value f.width w x)
            (facts_signed_trunc-Describes f w x pos_w (narrows refl) d)
            (narrow_value-lt f.width w x pos_w) e)
        h
  trunc-Settles false = λ c.
      first-Settles (λ f. facts_trunc f w) (λ f x. v ≡ x % 2 ^ w) (λ f x. Unit) w v fs xs
        (λ f x d _ e.
          settled_as (facts_trunc f w) w v (x % 2 ^ w) (facts_trunc-Describes f w x d)
            (mod-lt x (pow_pos w)) e)
        h (no_condition fs xs)

  pub slice-Settles :
      (lo : ℤ)
      → IsPosition lo
      → OnFirst (λ f x. GivesSlice lo w x v) (v < 2 ^ w) fs xs
      → Settles (first_or (λ f. facts_slice f lo w) (facts_unknown w) fs) w v
  slice-Settles (negsuc k) p = absurd p
  slice-Settles (pos k) p =
      first-Settles (λ f. facts_slice f (pos k) w) (λ f x. v ≡ x / 2 ^ k % 2 ^ w) (λ f x. Unit) w v
        fs xs
        (λ f x d c e.
          settled_as (facts_slice f (pos k) w) w v (x / 2 ^ k % 2 ^ w)
            (facts_slice-Describes f k w x d) (mod-lt (x / 2 ^ k) (pow_pos w)) e)
        h (no_condition fs xs)

  pub concat-Settles :
      DescribeAll (reverse fs) (reverse xs)
      → v ≡ concat_value (reverse fs) (reverse xs) % 2 ^ w
      → Settles (facts_concat w fs) w v
  concat-Settles r =
      settled_as (facts_concat w fs) w v (concat_value (reverse fs) (reverse xs) % 2 ^ w)
        (facts_concat-Describes w fs (reverse xs) r)
        (mod-lt (concat_value (reverse fs) (reverse xs)) (pow_pos w))

  pub ite-Settles :
      OnThree (λ c f g b x y. v ≡ (if b == 0 then y else x) % 2 ^ w) (v < 2 ^ w) fs xs
      → Settles (three_or (facts_ite w) (facts_unknown w) fs) w v
  ite-Settles =
      three-Settles (facts_ite w) (λ c f g b x y. v ≡ (if b == 0 then y else x) % 2 ^ w)
        (λ c f g b x y. Unit) w v fs xs
        (λ c f g b x y dc df dg _ e.
          settled_as (facts_ite w c f g) w v ((if b == 0 then y else x) % 2 ^ w)
            (facts_ite-Describes w c f g b x y dc df dg)
            (mod-lt (if b == 0 then y else x) (pow_pos w)) e)
        h (no_condition_three fs xs)

  pub case-Settles :
      v ≡ case_value xs % 2 ^ w
      → Settles (if valid_case_shape (length fs) then facts_case w fs else facts_unknown w) w v
  case-Settles e = elim (Bool-cases (valid_case_shape (length fs))) [
    | inl shaped ↦ rw shaped (
        settled_as (facts_case w fs) w v (case_value xs % 2 ^ w)
          (facts_case-Describes w fs xs (ground arith) h) (mod-lt (case_value xs) (pow_pos w)) e)
    | inr other ↦ rw other (facts_unknown-Settles w v (rw e (mod-lt (case_value xs) (pow_pos w))))
  ]

  pub add_carry-Settles :
      OnThree (λ f g k x y z. z < 2) Unit fs xs
      → OnThree (λ f g k x y z. v ≡ carry_value w f.width g.width k.width x y z) (v < 2 ^ w) fs xs
      → Settles (three_or (facts_add_carry w) (facts_unknown w) fs) w v
  add_carry-Settles =
      three-Settles (facts_add_carry w)
        (λ f g k x y z. v ≡ carry_value w f.width g.width k.width x y z) (λ f g k x y z. z < 2) w v
        fs xs
        (λ f g k x y z df dg dk small e.
          settled_as (facts_add_carry w f g k) w v (carry_value w f.width g.width k.width x y z)
            (facts_add_carry-Describes w f g k x y z df dg dk small)
            (mod-lt (carry_sum w f.width g.width k.width x y z) (pow_pos w)) e)
        h

  pub reduce_or-Settles :
      OnFirst (λ f x. v ≡ flag (not (x == 0))) (v < 2 ^ w) fs xs
      → Settles (first_or facts_reduce_or (facts_unknown w) fs) w v
  reduce_or-Settles =
      first-Settles facts_reduce_or (λ f x. v ≡ flag (not (x == 0))) (λ f x. Unit) w v fs xs
        (λ f x d c e.
          single_bit-Settles (facts_reduce_or f) w v (flag (not (x == 0))) pos_w
            (facts_reduce_or-Describes f x d) (flag_small (not (x == 0))) e)
        h (no_condition fs xs)

  pub reduce_and-Settles :
      OnFirst (λ f x. v ≡ flag (x == 2 ^ f.width - 1)) (v < 2 ^ w) fs xs
      → Settles (first_or facts_reduce_and (facts_unknown w) fs) w v
  reduce_and-Settles =
      first-Settles facts_reduce_and (λ f x. v ≡ flag (x == 2 ^ f.width - 1)) (λ f x. Unit) w v fs
        xs
        (λ f x d c e.
          single_bit-Settles (facts_reduce_and f) w v (flag (x == 2 ^ f.width - 1)) pos_w
            (facts_reduce_and-Describes f x d) (flag_small (x == 2 ^ f.width - 1)) e)
        h (no_condition fs xs)

-- A bit selection has one bit whatever the width of its result.
pub bit_select-Settles :
    (w v : ℕ) (fs : List ValueFacts) (xs : List ℕ) (bit : ℤ)
    → 0 < w
    → DescribeAll fs xs
    → IsPosition bit
    → OnFirst (λ f x. GivesBit bit w x v) (v < 2 ^ w) fs xs
    → Settles (first_or (λ f. facts_bit_select f bit) (facts_unknown 1) fs) w v
bit_select-Settles w v fs xs (negsuc k) pos_w h p g = absurd p
bit_select-Settles w v [] [] (pos k) pos_w h p g = unknown_any-Settles 1 w v g
bit_select-Settles w v [] (x ∷ xs) (pos k) pos_w h p g = absurd h
bit_select-Settles w v (f ∷ fs) [] (pos k) pos_w h p g = absurd h
bit_select-Settles w v (f ∷ fs) (x ∷ xs) (pos k) pos_w h p g =
    single_bit-Settles (facts_bit_select f (pos k)) w v (bit_value x k) pos_w
      (facts_bit_select-Describes f k x h.0) (omega arith) g
