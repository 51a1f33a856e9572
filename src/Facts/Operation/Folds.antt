-- ===== src/Facts/Operation/Folds.antt =====
-- The inference of unary and binary operations.
use rtlzz.Base.{
  ℕ, ◌-◌, ◌^◌, ◌<◌, ◌≤◌, ◌≡◌, refl, sym, ◌∙◌, List, [], ◌∷◌, Bool, true, false, not, ◌||◌, Option,
  none, some, arith, Bool-cases, inl, inr, subst, length,
}
use rtlzz.Ir.{OpCode, Operand, Operation, ValueFacts}
use rtlzz.Facts.{set_width}
use rtlzz.Facts.Sound.{Describes}
use rtlzz.Facts.Within.{IsWithin}
use rtlzz.Facts.Constants.{
  infer_unary_constant, infer_binary_constant, unary_constant, binary_constant,
}
use rtlzz.Facts.Constants.Meaning.{Agrees, operand_value, unary_value}
use rtlzz.Facts.Constants.Unary.{infer_unary_constant-Agrees}
use rtlzz.Facts.Constants.Binary.{infer_binary_constant-Agrees}
use rtlzz.Facts.Constants.Result.{views_signed, unary_result, binary_result}
use rtlzz.Facts.Constants.Agreement.{binary_value, unary_value-result, binary_value-result}
use rtlzz.Facts.Joins.{facts_bitwise}
use rtlzz.Facts.Joins.Bitwise.{facts_bitwise-extended, bitwise_value}
use rtlzz.Facts.Parts.{facts_bit_not}
use rtlzz.Facts.Parts.Complement.{facts_bit_not-Describes, facts_bit_not-IsLimbs}
use rtlzz.Limbs.Value.{All}
use rtlzz.Facts.Joins.Possible.{DescribeAll}
use rtlzz.Facts.Operation.Fits.{Fits, unary_value-Fits, binary_value-Fits, Gives-lt}
use rtlzz.Facts.Operation.{partial_unary, partial_binary, is_bitwise, is_bit_not, folded_or}
use rtlzz.Facts.Operation.Meaning.{Gives, GivesUnary, GivesBinary, CoversUnary, CoversBinary}
use rtlzz.Facts.Operation.Settle.{Settles, settled_as, facts_unknown-Settles}

-- A fold that agrees with the result settles its value, where the partial facts do if it gives none.
folded-Settles :
    (o : Option ValueFacts) (m : Option ℕ) (partial : ValueFacts) (w v : ℕ)
    → Agrees o m
    → Fits m w
    → Gives m w v
    → (o ≡ none → m ≡ none → Settles partial w v)
    → Settles (folded_or o partial) w v
folded-Settles none none partial w v a small g rest = rest refl refl
folded-Settles none (some z) partial w v a small g rest = absurd a
folded-Settles (some f) none partial w v a small g rest = absurd a
folded-Settles (some f) (some z) partial w v a small g rest = settled_as f w v z a small g

no_complement : (code : OpCode) (w y : ℕ) → unary_value code w y ≡ none → is_bit_not code ≡ false
no_complement OpCode.bit_not_op w y e = cc
no_complement _ w y e = refl

complement_value :
    (code : OpCode) (w y : ℕ) → is_bit_not code ≡ true → unary_value code w y ≡ some (2 ^ w - 1 - y)
complement_value OpCode.bit_not_op w y e = refl
complement_value _ w y e = cc

bitwise_has_value :
    (code : OpCode) (ls rs : Bool) (m n w x y k : ℕ)
    → is_bitwise code ≡ true
    → binary_value code ls rs m n w x y k
      ≡ some (bitwise_value code (operand_value ls m w x) (operand_value rs n w y))
bitwise_has_value OpCode.bit_and_op ls rs m n w x y k e = refl
bitwise_has_value OpCode.bit_or_op ls rs m n w x y k e = refl
bitwise_has_value OpCode.bit_xor_op ls rs m n w x y k e = refl
bitwise_has_value _ ls rs m n w x y k e = cc

no_unary_fold :
    (op : Operation) (o : Operand) (os : List Operand) (f : ValueFacts) (fs : List ValueFacts)
    (w : ℕ)
    → op.operands ≡ o ∷ os
    → f.constant ≡ false
    → infer_unary_constant op (f ∷ fs) w ≡ none
unfolding infer_unary_constant unary_constant
no_unary_fold op o os f fs w e open_bits = rw e (simp open_bits refl)

no_binary_fold :
    (op : Operation) (o p : Operand) (os : List Operand) (f g : ValueFacts) (fs : List ValueFacts)
    (w : ℕ)
    → op.operands ≡ o ∷ p ∷ os
    → (not f.constant || not g.constant) ≡ true
    → infer_binary_constant op (f ∷ g ∷ fs) w ≡ none
unfolding infer_binary_constant binary_constant
no_binary_fold op o p os f g fs w e open_bits = rw e (simp open_bits refl)

module _ (op : Operation) (w : ℕ) (pos_w : 0 < w) (short : w ≤ 128) where
  partial_unary-Settles :
      (f : ValueFacts) (fs : List ValueFacts) (x v : ℕ) (s : Bool)
      → IsWithin f
      → Describes f x
      → f.constant ≡ false
      → Gives (unary_value op.op w (operand_value s f.width w x)) w v
      → v < 2 ^ w
      → Settles (partial_unary op (f ∷ fs) w) w v
  unfolding partial_unary
  partial_unary-Settles f fs x v s within h open_bits g small =
      elim (Bool-cases (is_bit_not op.op)) [
        | inl complement ↦
            let y = operand_value s f.width w x in
            let e : v ≡ 2 ^ w - 1 - y =
              subst (λ m. Gives m w v) (complement_value op.op w y complement) g in
            rw complement (record {
              marks = facts_bit_not-IsLimbs f open_bits h.one_limbs;
              settled =
                  subst (λ t. Describes (set_width (facts_bit_not f) w) t) (sym e)
                    (facts_bit_not-Describes f w x s open_bits within h);
            })
        | inr other ↦ rw other (facts_unknown-Settles w v small)
      ]

  pub unary-Settles :
      (os : List Operand) (fs : List ValueFacts) (xs : List ℕ) (v : ℕ)
      → op.operands ≡ os
      → length os ≡ length fs
      → All IsWithin fs
      → DescribeAll fs xs
      → CoversUnary op.op os fs w
      → GivesUnary op os fs xs w v
      → Settles (folded_or (infer_unary_constant op fs w) (partial_unary op fs w)) w v
  unary-Settles [] [] xs v e l within h cover g =
      unfold infer_unary_constant partial_unary in
      rw e (elim (Bool-cases (is_bit_not op.op)) [
        | inl complement ↦ rw complement (facts_unknown-Settles w v g)
        | inr other ↦ rw other (facts_unknown-Settles w v g)
      ])
  unary-Settles [] (f ∷ fs) xs v e l within h cover g = absurd (omega arith)
  unary-Settles (o ∷ os) [] xs v e l within h cover g = absurd (omega arith)
  unary-Settles (o ∷ os) (f ∷ fs) [] v e l within h cover g = absurd h
  unary-Settles (o ∷ os) (f ∷ fs) (x ∷ xs) v e l within h cover g =
      let s = views_signed o in
      let y = operand_value s f.width w x in
      let same = unary_value-result op.op s f.width w x cover.1 h.0.fits in
      let old : Gives (unary_value op.op w y) w v = subst (λ m. Gives m w v) (sym same) g in
      let fits = unary_value-Fits op.op w y pos_w in
      let small = Gives-lt (unary_value op.op w y) w v fits old in
      elim (Bool-cases f.constant) [
        | inl fixed ↦
            folded-Settles (infer_unary_constant op (f ∷ fs) w) (unary_result op.op w x)
              (partial_unary op (f ∷ fs) w) w v
              (infer_unary_constant-Agrees op o os f fs w x e short cover.0 cover.1 fixed h.0).0
              (subst (λ m. Fits m w) same fits) g
              (λ _ no_value.
                unfold partial_unary in
                rw (no_complement op.op w y (same ∙ no_value)) (facts_unknown-Settles w v small))
        | inr open_bits ↦
            rw (no_unary_fold op o os f fs w e open_bits)
              (partial_unary-Settles f fs x v s within.0 h.0 open_bits old small)
      ]

  partial_binary-Settles :
      (f g : ValueFacts) (fs : List ValueFacts) (ls rs : Bool) (x y k v : ℕ)
      → IsWithin f
      → IsWithin g
      → Describes f x
      → Describes g y
      → Gives (binary_value op.op ls rs f.width g.width w x y k) w v
      → v < 2 ^ w
      → Settles (partial_binary op (f ∷ g ∷ fs) w) w v
  unfolding partial_binary
  partial_binary-Settles f g fs ls rs x y k v wf wg hf hg given small =
      elim (Bool-cases (is_bitwise op.op)) [
        | inl bitwise ↦
            let z =
              bitwise_value op.op (operand_value ls f.width w x) (operand_value rs g.width w y) in
            let e : v ≡ z =
              subst (λ m. Gives m w v)
                (bitwise_has_value op.op ls rs f.width g.width w x y k bitwise) given in
            rw bitwise (
              settled_as (facts_bitwise op.op f g w) w v z
                (facts_bitwise-extended op.op f g ls rs w x y wf wg hf hg)
                (subst (λ t. t < 2 ^ w) e small) e)
        | inr other ↦ rw other (facts_unknown-Settles w v small)
      ]

  pub binary-Settles :
      (os : List Operand) (fs : List ValueFacts) (xs : List ℕ) (v : ℕ)
      → op.operands ≡ os
      → length os ≡ length fs
      → All IsWithin fs
      → DescribeAll fs xs
      → CoversBinary op.op os fs xs w
      → GivesBinary op os fs xs w v
      → Settles (folded_or (infer_binary_constant op fs w) (partial_binary op fs w)) w v
  binary-Settles [] [] xs v e l within h cover given =
      unfold infer_binary_constant partial_binary in
      rw e (elim (Bool-cases (is_bitwise op.op)) [
        | inl bitwise ↦ rw bitwise (facts_unknown-Settles w v given)
        | inr other ↦ rw other (facts_unknown-Settles w v given)
      ])
  binary-Settles [] (f ∷ fs) xs v e l within h cover given = absurd (omega arith)
  binary-Settles (o ∷ []) [] xs v e l within h cover given = absurd (omega arith)
  binary-Settles (o ∷ []) (f ∷ []) xs v e l within h cover given =
      unfold infer_binary_constant partial_binary in
      rw e (elim (Bool-cases (is_bitwise op.op)) [
        | inl bitwise ↦ rw bitwise (facts_unknown-Settles w v given)
        | inr other ↦ rw other (facts_unknown-Settles w v given)
      ])
  binary-Settles (o ∷ []) (f ∷ g ∷ fs) xs v e l within h cover given = absurd (omega arith)
  binary-Settles (o ∷ p ∷ os) [] xs v e l within h cover given = absurd (omega arith)
  binary-Settles (o ∷ p ∷ os) (f ∷ []) xs v e l within h cover given = absurd (omega arith)
  binary-Settles (o ∷ p ∷ os) (f ∷ g ∷ fs) [] v e l within h cover given = absurd h
  binary-Settles (o ∷ p ∷ os) (f ∷ g ∷ fs) (x ∷ []) v e l within h cover given = absurd h.1
  binary-Settles (o ∷ p ∷ os) (f ∷ g ∷ fs) (x ∷ y ∷ xs) v e l within h cover given =
      let ls = views_signed o in
      let rs = views_signed p in
      let m = binary_value op.op ls rs f.width g.width w x y g.value.width in
      let n = binary_result op.op ls rs f.width g.width w x y in
      let same : m ≡ n =
        binary_value-result op.op ls rs f.width g.width w x y g.value.width cover.2 h.0.fits
          h.1.0.fits in
      let old : Gives m w v = subst (λ t. Gives t w v) (sym same) given in
      let fits : Fits m w =
        binary_value-Fits op.op ls rs f.width g.width w x y g.value.width pos_w h.0.fits
          h.1.0.fits in
      let small = Gives-lt m w v fits old in
      let rest =
        partial_binary-Settles f g fs ls rs x y g.value.width v within.0 within.1.0 h.0 h.1.0 old
          small in
      elim (Bool-cases (not f.constant || not g.constant)) [
        | inl open_bits ↦ rw (no_binary_fold op o p os f g fs w e open_bits) rest
        | inr fixed ↦
            folded-Settles (infer_binary_constant op (f ∷ g ∷ fs) w) n
              (partial_binary op (f ∷ g ∷ fs) w) w v
              (infer_binary_constant-Agrees op o p os f g fs w x y e short cover.0 cover.1 cover.2
                (ground arith) (ground arith) h.0 h.1.0).0
              (subst (λ t. Fits t w) same fits) given (λ _ _. rest)
      ]
