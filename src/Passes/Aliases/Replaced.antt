-- ===== src/Passes/Aliases/Replaced.antt =====
-- `MutableProgram::replaceAliases` of src/backend/beir.cpp, without its debug metadata.
use rtlzz.Base.{
  ℕ, ◌≡◌, refl, sym, ap, ap₂, true, arith, ◌⊎◌, List, [], ◌∷◌, map, Bool, false, not, ◌||◌, Option,
  none, some, if◌then◌else◌, Bool-cases, inl, inr,
}
use rtlzz.Ir.{Operand, Operation, Signal}
use rtlzz.Ir.Signature.{
  OperandSignature, Texts, constant_signature_of, operand_signature, same_operand_signature,
  type_signature,
}
use rtlzz.Ir.Signature.Swapped.{same_operand_signature-equal}
use rtlzz.Facts.Analysis.Operands.{operand_number}
use rtlzz.Passes.Aliases.{find_alias, resolve_operand}
use rtlzz.Passes.Aliases.Resolved.{resolve_operand-number}

pub record Replaced : Type 0 where
  pub texts : Texts
  pub operands : List Operand
  pub changed : Bool

-- An operand is replaced where its signature differs from that of what it resolves to.
unfoldable pub replace_operands : List (ℕ × Operand) → Texts → List Operand → Replaced
replace_operands aliases texts [] = record { texts = texts; operands = []; changed = false }
replace_operands aliases texts (o ∷ os) =
    let resolved = resolve_operand aliases o in
    let first = operand_signature texts resolved in
    let second = operand_signature first.0 o in
    let same = same_operand_signature first.1 second.1 in
    let rest = replace_operands aliases second.0 os in
    record {
      texts = rest.texts;
      operands = (if same then o else resolved) ∷ rest.operands;
      changed = not same || rest.changed;
    }

pub record ReplacedSignals : Type 0 where
  pub texts : Texts
  pub signals : List Signal
  pub changed : Bool

abbrev pub replace_driver :
    List (ℕ × Operand) → Texts → Signal → Option Operation → ReplacedSignals → ReplacedSignals
replace_driver aliases texts s none rest = record rest { signals = s ∷ rest.signals }
replace_driver aliases texts s (some op) rest =
    let r = replace_operands aliases texts op.operands in
    record rest {
      signals = record s { driver = some (record op { operands = r.operands }) } ∷ rest.signals;
      changed = r.changed || rest.changed;
    }

abbrev pub texts_after : List (ℕ × Operand) → Texts → Option Operation → Texts
texts_after aliases texts none = texts
texts_after aliases texts (some op) = (replace_operands aliases texts op.operands).texts

-- The signals, and whether any changed, in which case the facts are to be found again.
unfoldable pub replace_aliases : List (ℕ × Operand) → Texts → List Signal → ReplacedSignals
replace_aliases aliases texts [] = record { texts = texts; signals = []; changed = false }
replace_aliases aliases texts (s ∷ signals) =
    let rest = replace_aliases aliases (texts_after aliases texts s.driver) signals in
    replace_driver aliases texts s s.driver rest

-- An operand is alike another if they differ in no more than the text and the constant of a symbol.
pub record IsAlike (a b : Operand) : Type 0 where
  pub kind : a.kind ≡ b.kind
  pub node : a.node ≡ b.node
  pub type : a.type ≡ b.type
  pub signed_view : a.signed_view ≡ b.signed_view
  pub constant : constant_signature_of a.kind a.constant ≡ constant_signature_of b.kind b.constant

IsAlike-refl : (a : Operand) → IsAlike a a
IsAlike-refl a = record {
  kind = refl;
  node = refl;
  type = refl;
  signed_view = refl;
  constant = refl;
}

-- Operands with the same signature are alike.
same_signature-IsAlike :
    (texts later : Texts) (a b : Operand)
    → same_operand_signature (operand_signature texts a).1 (operand_signature later b).1 ≡ true
    → IsAlike b a
unfolding operand_signature type_signature
same_signature-IsAlike texts later a b same =
    let s = (operand_signature texts a).1 in
    let t = (operand_signature later b).1 in
    let equal : s ≡ t = same_operand_signature-equal s t same in
    record {
      kind = sym (ap (λ (r : OperandSignature). r.kind) equal);
      node = sym (ap (λ (r : OperandSignature). r.node) equal);
      type = sym (
          ap
            (λ (r : OperandSignature). record {
              width = r.type.width;
              array_dims = r.type.array_dims;
            })
            equal);
      signed_view = sym (ap (λ (r : OperandSignature). r.signed_view) equal);
      constant = sym (ap (λ (r : OperandSignature). r.constant) equal);
    }

-- Every operand is alike what the operand in its place resolves to.
abbrev pub Resolves : List (ℕ × Operand) → List Operand → List Operand → Type 0
Resolves aliases [] [] = Unit
Resolves aliases (o ∷ os) (r ∷ rs) = IsAlike r (resolve_operand aliases o) × Resolves aliases os rs
Resolves aliases _ _ = ⊥

module _ (aliases : List (ℕ × Operand)) where
  replace_operands-Resolves :
      (texts : Texts) (os : List Operand)
      → Resolves aliases os (replace_operands aliases texts os).operands
  unfolding replace_operands
  replace_operands-Resolves texts [] = tt
  replace_operands-Resolves texts (o ∷ os) =
      let resolved = resolve_operand aliases o in
      let first = operand_signature texts resolved in
      let second = operand_signature first.0 o in
      (
        elim (Bool-cases (same_operand_signature first.1 second.1)) [
          | inl same ↦ rw same (same_signature-IsAlike texts first.0 resolved o same)
          | inr differ ↦ rw differ (IsAlike-refl resolved)
        ],
        replace_operands-Resolves second.0 os,
      )

  -- Without a change the operands stay as they are.
  replace_operands-unchanged :
      (texts : Texts) (os : List Operand)
      → (replace_operands aliases texts os).changed ≡ false
      → (replace_operands aliases texts os).operands ≡ os
  unfolding replace_operands
  replace_operands-unchanged texts [] e = refl
  replace_operands-unchanged texts (o ∷ os) e =
      let first = operand_signature texts (resolve_operand aliases o) in
      let second = operand_signature first.0 o in
      let same : same_operand_signature first.1 second.1 ≡ true = ground arith in
      rw same (ap (λ rs. o ∷ rs) (replace_operands-unchanged second.0 os (ground arith)))

replace_operands-numbers :
    (aliases : List (ℕ × Operand)) (numbers : ℕ → ℕ) (ports : Operand → ℕ) (texts : Texts)
    (os : List Operand)
    → ((id : ℕ) (p : Operand)
        → find_alias aliases id ≡ some p
        → operand_number numbers ports p ≡ numbers id)
    → ((p : Operand) (flag : Bool) → ports (record p { signed_view = flag }) ≡ ports p)
    → map (operand_number numbers ports) (replace_operands aliases texts os).operands
      ≡ map (operand_number numbers ports) os
unfolding replace_operands
replace_operands-numbers aliases numbers ports texts [] keeps blind = refl
replace_operands-numbers aliases numbers ports texts (o ∷ os) keeps blind =
    let resolved = resolve_operand aliases o in
    let first = operand_signature texts resolved in
    let second = operand_signature first.0 o in
    let rest = replace_operands-numbers aliases numbers ports second.0 os keeps blind in
    ap₂ (λ x xs. x ∷ xs)
      (elim (Bool-cases (same_operand_signature first.1 second.1)) [
        | inl same ↦ rw same refl
        | inr differ ↦ rw differ (resolve_operand-number aliases numbers ports o keeps blind)
      ])
      rest

-- Replacing aliases puts in the place of every operand one that is alike what it resolves to, in kind,
-- node, type, signed view and the constant of a literal, and either marks a change or leaves the
-- operands as they are. Where every alias has the number of the signal that it stands for, and the
-- number of a port does not depend on the signed view, the operands keep their numbers.
pub replace_operands-IsReplaced :
    (aliases : List (ℕ × Operand)) (numbers : ℕ → ℕ) (ports : Operand → ℕ) (texts : Texts)
    (os : List Operand)
    → ((id : ℕ) (p : Operand)
        → find_alias aliases id ≡ some p
        → operand_number numbers ports p ≡ numbers id)
    → ((p : Operand) (flag : Bool) → ports (record p { signed_view = flag }) ≡ ports p)
    → Resolves aliases os (replace_operands aliases texts os).operands
      × (((replace_operands aliases texts os).changed ≡ true)
          ⊎ ((replace_operands aliases texts os).operands ≡ os))
      × (map (operand_number numbers ports) (replace_operands aliases texts os).operands
          ≡ map (operand_number numbers ports) os)
replace_operands-IsReplaced aliases numbers ports texts os keeps blind = (
  replace_operands-Resolves aliases texts os,
  elim (Bool-cases (replace_operands aliases texts os).changed) [
    | inl changed ↦ inl changed
    | inr unchanged ↦ inr (replace_operands-unchanged aliases texts os unchanged)
  ],
  replace_operands-numbers aliases numbers ports texts os keeps blind,
)
