-- ===== src/Ir/Signature/Interned.antt =====
-- `MutableProgram::internText` of src/backend/beir.cpp: a text keeps the id it was given.
use Prim.Native.String.{String, compare}
use text.Mathlib.TextEquality.{path_by_compare}
use text.Mathlib.TextPositions.{compare_refl}
use rtlzz.Base.{
  ℕ, ◌≡◌, refl, subst, [], ◌∷◌, true, false, none, some, Bool-cases, Option-cases, inl, inr,
  Ordering, ◌⊎◌,
}
use rtlzz.Ir.{Operand}
use rtlzz.Ir.Signature.{
  Texts, equal_text, text_id_of, intern_text, operand_signature, operand_signatures,
}

equal_text_refl : (a : String) → equal_text a a ≡ true
equal_text_refl a = rw (equal_text, compare_refl a) refl

equal_by :
    (a b : String) (o : Ordering)
    → compare a b ≡ o
    → (elim o [ Ordering.eq ↦ true | _ ↦ false ]) ≡ true
    → a ≡ b
equal_by a b Ordering.lt e h = cc
equal_by a b Ordering.eq e h = path_by_compare a b e
equal_by a b Ordering.gt e h = cc

equal_text-equal : (a b : String) → equal_text a b ≡ true → a ≡ b
equal_text-equal a b h = equal_by a b (compare a b) refl h

-- The text has the id: 0 where it is empty, and the table's otherwise.
abbrev pub HasId : Texts → String → ℕ → Type 0
HasId texts text id =
    ((equal_text text "" ≡ true) × (id ≡ 0))
    ⊎ ((equal_text text "" ≡ false) × (text_id_of texts.ids text ≡ some id))

-- Interning a text that has an id gives the id and changes nothing.
pub intern_text-known :
    (texts : Texts) (text : String) (id : ℕ)
    → HasId texts text id
    → intern_text texts text ≡ (texts, id)
unfolding intern_text
intern_text-known texts text id (inl (empty, zero_id)) = rw (empty, zero_id) refl
intern_text-known texts text id (inr (full, found)) = rw (full, found) refl

-- A text that was interned has its id.
pub intern_text-HasId :
    (texts : Texts) (text : String)
    → HasId (intern_text texts text).0 text (intern_text texts text).1
unfolding intern_text
intern_text-HasId texts text = elim (Bool-cases (equal_text text "")) [
  | inl empty ↦ rw empty (inl (refl, refl))
  | inr full ↦ rw full (elim (Option-cases (text_id_of texts.ids text)) [
    | inl new ↦ rw new (inr (refl, unfold text_id_of in rw (equal_text_refl text) refl))
    | inr (id, found) ↦ rw (found) (inr (refl, found))
  ])
]

-- Interning another text leaves it its id.
pub intern_text-keeps :
    (texts : Texts) (text other : String) (id : ℕ)
    → HasId texts text id
    → HasId (intern_text texts other).0 text id
unfolding intern_text
intern_text-keeps texts text other id (inl empty) = inl empty
intern_text-keeps texts text other id (inr (full, found)) = inr (
  full,
  elim (Bool-cases (equal_text other "")) [
    | inl empty ↦ rw empty found
    | inr other_full ↦ rw other_full (elim (Option-cases (text_id_of texts.ids other)) [
      | inr (other_id, known) ↦ rw known found
      | inl new ↦ rw new (
          unfold text_id_of in
          elim (Bool-cases (equal_text other text)) [
            | inl same ↦ absurd (
                let e = equal_text-equal other text same in
                let missing = subst (λ t. text_id_of texts.ids t ≡ none) e new in cc)
            | inr differ ↦ rw differ found
          ])
    ])
  ],
)

-- An operand whose text has the id of its signature has that signature, from any table.
operand_signature-known :
    (texts later : Texts) (o : Operand)
    → HasId later o.text (operand_signature texts o).1.text_id
    → operand_signature later o ≡ (later, (operand_signature texts o).1)
unfolding operand_signature
operand_signature-known texts later o h =
    rw (intern_text-known later o.text (intern_text texts o.text).1 h) refl

-- The signatures of two operands are the same from the table that they leave, in the other order.
pub operand_signatures-again :
    (texts : Texts) (x y : Operand)
    → let first = operand_signature texts x in
      let second = operand_signature first.0 y in
      operand_signatures second.0 (y ∷ x ∷ []) ≡ (second.0, second.1 ∷ first.1 ∷ [])
unfolding operand_signatures
operand_signatures-again texts x y =
    let first = operand_signature texts x in
    let second = operand_signature first.0 y in
    let has_y : HasId second.0 y.text second.1.text_id =
      unfold operand_signature in intern_text-HasId first.0 y.text in
    let has_x : HasId second.0 x.text first.1.text_id =
      unfold operand_signature in
      intern_text-keeps first.0 x.text y.text first.1.text_id (intern_text-HasId texts x.text) in
    rw
      (
        operand_signature-known first.0 second.0 y has_y,
        operand_signature-known texts second.0 x has_x,
      )
      refl
