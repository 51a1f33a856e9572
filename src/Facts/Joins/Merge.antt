-- ===== src/Facts/Joins/Merge.antt =====
-- Merging the facts of the values that a case may take.
use rtlzz.Base.{
  ℕ, ◌%◌, ◌^◌, ◌<◌, ◌≡◌, refl, List, [], ◌∷◌, Bool, true, false, ltb, ◌==◌, arith, Bool-cases, inl,
  inr, ◌⊎◌, length,
}
use rtlzz.Base.Bits.{pow_pos}
use rtlzz.Limbs.Value.{IsLimbs, All}
use rtlzz.Ir.{ValueFacts}
use rtlzz.Facts.{no_constant, facts_zext, facts_trunc, facts_unknown, from_constant}
use rtlzz.Facts.Sound.{Describes}
use rtlzz.Facts.Joins.{facts_resize, merge_facts, merge_all, merge_possible}
use rtlzz.Facts.Joins.Choice.{facts_resize-Describes, get_bit-both, both-IsLimbs}
use native.Mathlib.Nat.{mod-lt}
use rtlzz.Facts.Joins.Possible.{IsSound, DescribesOne}

-- Facts that other facts may be merged into.
record IsOpen (w : ℕ) (f : ValueFacts) : Type 0 where
  open_width : f.width ≡ w
  no_value : f.constant ≡ false
  zero_marks : IsLimbs f.known_zero
  one_marks : IsLimbs f.known_one
  value_marks : IsLimbs f.value.limbs

not_constant : (b : Bool) → b ≡ true → b ≡ false → ⊥
not_constant b p q = cc

facts_zext-width : (f : ValueFacts) (w : ℕ) → (facts_zext f w).width ≡ w
unfolding facts_zext facts_unknown from_constant
facts_zext-width f w = elim (Bool-cases (f.width == 0)) [
  | inl none_known ↦ rw none_known refl
  | inr known ↦ rw known (elim (Bool-cases f.constant) [
    | inl fixed ↦ simp fixed refl
    | inr open_bits ↦ simp open_bits refl
  ])
]

facts_trunc-width : (f : ValueFacts) (w : ℕ) → (facts_trunc f w).width ≡ w
unfolding facts_trunc facts_unknown from_constant
facts_trunc-width f w = elim (Bool-cases (f.width == 0)) [
  | inl none_known ↦ rw none_known refl
  | inr known ↦ rw known (elim (Bool-cases f.constant) [
    | inl fixed ↦ simp fixed refl
    | inr open_bits ↦ simp open_bits refl
  ])
]

facts_resize-width : (f : ValueFacts) (w : ℕ) → (facts_resize f w).width ≡ w
unfolding facts_resize
facts_resize-width f w = elim (Bool-cases (ltb f.width w)) [
  | inl narrow ↦ rw narrow (facts_zext-width f w)
  | inr wide ↦ rw wide (facts_trunc-width f w)
]

module _ (w : ℕ) where
  merge_facts-IsOpen :
      (out v : ValueFacts) → IsOpen w out → IsSound v → IsOpen w (merge_facts w out v)
  unfolding merge_facts
  merge_facts-IsOpen out v h s =
      let r = facts_resize-Describes v w s.0 s.1 in
      record {
        open_width = h.open_width;
        no_value = h.no_value;
        zero_marks =
            both-IsLimbs (length out.known_zero) out.known_zero (facts_resize v w).known_zero
              h.zero_marks r.zero_limbs;
        one_marks =
            both-IsLimbs (length out.known_zero) out.known_one (facts_resize v w).known_one
              h.one_marks r.one_limbs;
        value_marks = h.value_marks;
      }

  -- Merging into facts keeps what was true of a number, and keeps what the merged facts say.
  merge_facts-Describes :
      (out v : ValueFacts) (y : ℕ)
      → IsOpen w out
      → IsSound v
      → y < 2 ^ w
      → Describes out y ⊎ Describes (facts_resize v w) y
      → Describes (merge_facts w out v) y
  unfolding merge_facts
  merge_facts-Describes out v y h s small (inl d) =
      let o = merge_facts-IsOpen out v h s in
      let n = length out.known_zero in
      let r = facts_resize v w in
      record {
        zero_limbs = unfold merge_facts in o.zero_marks;
        one_limbs = unfold merge_facts in o.one_marks;
        value_limbs = h.value_marks;
        clear = λ i p. ground (arith, get_bit-both n out.known_zero r.known_zero i, d.clear i);
        filled = λ i p. ground (arith, get_bit-both n out.known_one r.known_one i, d.filled i);
        exact = d.exact;
        complete = λ p. absurd (not_constant out.constant p h.no_value);
        fits = d.fits;
      }
  merge_facts-Describes out v y h s small (inr d) =
      let o = merge_facts-IsOpen out v h s in
      let n = length out.known_zero in
      let r = facts_resize v w in
      record {
        zero_limbs = unfold merge_facts in o.zero_marks;
        one_limbs = unfold merge_facts in o.one_marks;
        value_limbs = h.value_marks;
        clear = λ i p. ground (arith, get_bit-both n out.known_zero r.known_zero i, d.clear i);
        filled = λ i p. ground (arith, get_bit-both n out.known_one r.known_one i, d.filled i);
        exact = λ p. absurd (not_constant out.constant p h.no_value);
        complete = λ p. absurd (not_constant out.constant p h.no_value);
        fits = rw h.open_width small;
      }

  merge_all-Describes :
      (vs : List ValueFacts) (out : ValueFacts) (x : ℕ)
      → IsOpen w out
      → All IsSound vs
      → Describes out (x % 2 ^ w) ⊎ DescribesOne vs x
      → Describes (merge_all w out vs) (x % 2 ^ w)
  unfolding merge_all
  merge_all-Describes [] out x h s (inl d) = d
  merge_all-Describes [] out x h s (inr d) = absurd d
  merge_all-Describes (v ∷ vs) out x h s (inl d) =
      merge_all-Describes vs (merge_facts w out v) x (merge_facts-IsOpen out v h s.0) s.1
        (inl (merge_facts-Describes out v (x % 2 ^ w) h s.0 (mod-lt x (pow_pos w)) (inl d)))
  merge_all-Describes (v ∷ vs) out x h s (inr (inl d)) =
      merge_all-Describes vs (merge_facts w out v) x (merge_facts-IsOpen out v h s.0) s.1 (
        inl (
          merge_facts-Describes out v (x % 2 ^ w) h s.0 (mod-lt x (pow_pos w))
            (inr (facts_resize-Describes v w x d))))
  merge_all-Describes (v ∷ vs) out x h s (inr (inr d)) =
      merge_all-Describes vs (merge_facts w out v) x (merge_facts-IsOpen out v h s.0) s.1 (inr d)

  -- The first possible value, with its constant forgotten.
  opened : ValueFacts → ValueFacts
  opened v = record (facts_resize v w) { constant = false; value = no_constant }

  opened-IsOpen : (v : ValueFacts) → IsSound v → IsOpen w (opened v)
  unfolding opened
  opened-IsOpen v s =
      let r = facts_resize-Describes v w s.0 s.1 in
      record {
        open_width = facts_resize-width v w;
        no_value = refl;
        zero_marks = r.zero_limbs;
        one_marks = r.one_limbs;
        value_marks = tt;
      }

  opened-Describes : (v : ValueFacts) (x : ℕ) → Describes v x → Describes (opened v) (x % 2 ^ w)
  unfolding opened
  opened-Describes v x d =
      let r = facts_resize-Describes v w x d in
      record {
        zero_limbs = r.zero_limbs;
        one_limbs = r.one_limbs;
        value_limbs = tt;
        clear = r.clear;
        filled = r.filled;
        exact = λ p. cc;
        complete = λ p i q. cc;
        fits = r.fits;
      }

  pub merge_possible-Describes :
      (vs : List ValueFacts) (x : ℕ)
      → All IsSound vs
      → DescribesOne vs x
      → Describes (merge_possible w vs) (x % 2 ^ w)
  unfolding merge_possible opened
  merge_possible-Describes [] x s d = absurd d
  merge_possible-Describes (v ∷ []) x s (inl d) = facts_resize-Describes v w x d
  merge_possible-Describes (v ∷ []) x s (inr d) = absurd d
  merge_possible-Describes (v ∷ u ∷ vs) x s (inl d) =
      merge_all-Describes (u ∷ vs) (opened v) x (opened-IsOpen v s.0) s.1
        (inl (opened-Describes v x d))
  merge_possible-Describes (v ∷ u ∷ vs) x s (inr d) =
      merge_all-Describes (u ∷ vs) (opened v) x (opened-IsOpen v s.0) s.1 (inr d)
