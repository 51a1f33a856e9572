-- ===== src/Facts/Joins/Choice.antt =====
-- The facts of a choice are true of the value that is chosen.
use rtlzz.Base.{
  ℕ, ◌*◌, ◌%◌, ◌^◌, ◌≡◌, refl, List, false, ◌&&◌, ltb, ◌==◌, arith, Bool-cases, inl, inr,
  if◌then◌else◌, bit_and,
}
use rtlzz.Base.Bits.{pow_pos, test_bit-bit_and, bit_and-lt}
use rtlzz.Limbs.{limb_count, get_bit}
use rtlzz.Limbs.Value.{IsLimbs, value}
use rtlzz.Ir.{Constant, ValueFacts, is_zero}
use rtlzz.Facts.Sound.{Describes, known_bits-Describes}
use rtlzz.Facts.Widths.{facts_trunc-Describes}
use rtlzz.Facts.Extend.{facts_zext-Describes}
use rtlzz.Facts.Constants.{map_limbs}
use rtlzz.Facts.Constants.Words.{all_zero-value, map_limbs-IsLimbs, get_bit-map_limbs}
use rtlzz.Facts.Joins.{facts_resize, facts_ite}
use native.Mathlib.Nat.{mod-lt}

pub facts_resize-Describes :
    (f : ValueFacts) (w x : ℕ) → Describes f x → Describes (facts_resize f w) (x % 2 ^ w)
unfolding facts_resize
facts_resize-Describes f w x h = elim (Bool-cases (ltb f.width w)) [
  | inl narrow ↦ rw narrow (facts_zext-Describes f w x h)
  | inr wide ↦ rw wide (facts_trunc-Describes f w x h)
]

pub is_zero-value : (c : Constant) → is_zero c ≡ (value c.limbs == 0)
unfolding is_zero
is_zero-value c = all_zero-value c.limbs

-- A mark that both sides have.
pub get_bit-both :
    (n : ℕ) (l r : List ℕ) (j : ℕ)
    → get_bit (map_limbs bit_and n l r) j ≡ (ltb j (64 * n) && (get_bit l j && get_bit r j))
get_bit-both n l r j =
    get_bit-map_limbs bit_and ◌&&◌ test_bit-bit_and (λ k a b p q. bit_and-lt k a b p) refl n l r j

pub both-IsLimbs :
    (n : ℕ) (l r : List ℕ) → IsLimbs l → IsLimbs r → IsLimbs (map_limbs bit_and n l r)
both-IsLimbs n l r hl hr =
    map_limbs-IsLimbs bit_and ◌&&◌ test_bit-bit_and (λ k a b p q. bit_and-lt k a b p) refl n l r hl
      hr

-- The facts of a choice, from facts that are true of the condition and of both alternatives, are true
-- of the alternative that is chosen modulo two to the result width: the second where the condition is
-- 0, else the first.
pub facts_ite-Describes :
    (w : ℕ) (c f g : ValueFacts) (b x y : ℕ)
    → Describes c b
    → Describes f x
    → Describes g y
    → Describes (facts_ite w c f g) ((if b == 0 then y else x) % 2 ^ w)
unfolding facts_ite
facts_ite-Describes w c f g b x y hc hf hg =
    let picked = facts_resize-Describes f w x hf in
    let passed = facts_resize-Describes g w y hg in
    elim (Bool-cases c.constant) [
      | inl fixed ↦
          simp (fixed, is_zero-value c.value, hc.exact fixed)
            (elim (Bool-cases (b == 0)) [
              | inl empty ↦ rw empty passed
              | inr filled ↦ rw filled picked
            ])
      | inr unknown ↦ simp unknown (joined picked passed)
    ]
  where
    joined :
        Describes (facts_resize f w) (x % 2 ^ w)
        → Describes (facts_resize g w) (y % 2 ^ w)
        → Describes
            (facts_ite w (record c { constant = false }) f g)
            ((if b == 0 then y else x) % 2 ^ w)
    joined picked passed =
        let z = (if b == 0 then y else x) % 2 ^ w in
        let size = limb_count w in
        let a = facts_resize f w in
        let d = facts_resize g w in
        known_bits-Describes w z (map_limbs bit_and size a.known_zero d.known_zero)
          (map_limbs bit_and size a.known_one d.known_one)
          (mod-lt (if b == 0 then y else x) (pow_pos w))
          (both-IsLimbs size a.known_zero d.known_zero picked.zero_limbs passed.zero_limbs)
          (both-IsLimbs size a.known_one d.known_one picked.one_limbs passed.one_limbs)
          (λ i p.
            ground (
              arith,
              get_bit-both size a.known_zero d.known_zero i,
              picked.clear i,
              passed.clear i,
            ))
          (λ i p.
            ground (
              arith,
              get_bit-both size a.known_one d.known_one i,
              picked.filled i,
              passed.filled i,
            ))
