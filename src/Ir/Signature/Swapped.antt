-- ===== src/Ir/Signature/Swapped.antt =====
-- Equal signatures of operands, and the signatures of operations that commute.
use rtlzz.Base.{
  ℕ, ◌≡◌, refl, ap₂, List, [], ◌∷◌, Bool, true, false, ◌==◌, arith, Bool-cases, inl, inr,
}
use rtlzz.Ir.{OpCode, Operand, OperandKind, Operation, OperationKind}
use rtlzz.Ir.Signature.{
  TypeSignature, ConstantSignature, OperandSignature, same_numbers, same_flag, kind_code,
  same_type_signature, same_constant_signature, same_operand_signature, less_operand_signature,
  in_order, Texts, is_commutative_code, is_commutative_op, operand_signature, operand_signatures,
  operation_signature,
}
use rtlzz.Ir.Signature.Interned.{operand_signatures-again}
use rtlzz.Ir.Signature.Ordered.{operand_signatures-IsCompared}

same_numbers-equal : (a b : List ℕ) → same_numbers a b ≡ true → a ≡ b
same_numbers-equal [] [] h = refl
same_numbers-equal [] (y ∷ ys) h = cc
same_numbers-equal (x ∷ xs) [] h = cc
same_numbers-equal (x ∷ xs) (y ∷ ys) h =
    let head : x ≡ y = ground arith in
    ap₂ (λ z zs. z ∷ zs) head (same_numbers-equal xs ys (ground arith))

same_flag-equal : (a b : Bool) → same_flag a b ≡ true → a ≡ b
same_flag-equal true true h = refl
same_flag-equal true false h = cc
same_flag-equal false true h = cc
same_flag-equal false false h = refl

kind_code-equal : (a b : OperandKind) → (kind_code a == kind_code b) ≡ true → a ≡ b
kind_code-equal OperandKind.symbol OperandKind.symbol h = refl
kind_code-equal OperandKind.literal OperandKind.literal h = refl
kind_code-equal OperandKind.port OperandKind.port h = refl
kind_code-equal _ _ h = cc

same_type_signature-equal : (a b : TypeSignature) → same_type_signature a b ≡ true → a ≡ b
unfolding same_type_signature
same_type_signature-equal a b h =
    let width : a.width ≡ b.width = ground arith in
    let dims = same_numbers-equal a.array_dims b.array_dims (ground arith) in cc

same_constant_signature-equal :
    (a b : ConstantSignature) → same_constant_signature a b ≡ true → a ≡ b
unfolding same_constant_signature
same_constant_signature-equal a b h =
    let width : a.width ≡ b.width = ground arith in
    let signed = same_flag-equal a.signed_view b.signed_view (ground arith) in
    let limbs = same_numbers-equal a.limbs b.limbs (ground arith) in cc

-- Signatures of operands that are the same are equal.
pub same_operand_signature-equal :
    (a b : OperandSignature) → same_operand_signature a b ≡ true → a ≡ b
unfolding same_operand_signature
same_operand_signature-equal a b h =
    let kind = kind_code-equal a.kind b.kind (ground arith) in
    let node : a.node ≡ b.node = ground arith in
    let text : a.text_id ≡ b.text_id = ground arith in
    let type = same_type_signature-equal a.type b.type (ground arith) in
    let signed = same_flag-equal a.signed_view b.signed_view (ground arith) in
    let constant = same_constant_signature-equal a.constant b.constant (ground arith) in cc

in_order-swap : (a b : OperandSignature) → in_order true (a ∷ b ∷ []) ≡ in_order true (b ∷ a ∷ [])
unfolding in_order
in_order-swap a b =
    let ordered = operand_signatures-IsCompared a b in
    elim (Bool-cases (same_operand_signature a b)) [
      | inl same ↦ (let e = same_operand_signature-equal a b same in cc)
      | inr differ ↦ elim (Bool-cases (less_operand_signature a b)) [
        | inl less ↦
            (let more : less_operand_signature b a ≡ false = ground (arith, ordered.one) in
              rw (less, more) refl)
        | inr more ↦
            (let less : less_operand_signature b a ≡ true = ground (arith, ordered.one) in
              rw (less, more) refl)
      ]
    ]

-- The operations whose operands may be swapped.
abbrev pub Commutes : OpCode → Type 0
Commutes OpCode.add = Unit
Commutes OpCode.mul = Unit
Commutes OpCode.bit_and_op = Unit
Commutes OpCode.bit_or_op = Unit
Commutes OpCode.bit_xor_op = Unit
Commutes OpCode.logic_and = Unit
Commutes OpCode.logic_or = Unit
Commutes OpCode.eq = Unit
Commutes OpCode.ne = Unit
Commutes _ = ⊥

commutative_code : (code : OpCode) → Commutes code → is_commutative_code code ≡ true
commutative_code OpCode.add h = refl
commutative_code OpCode.mul h = refl
commutative_code OpCode.bit_and_op h = refl
commutative_code OpCode.bit_or_op h = refl
commutative_code OpCode.bit_xor_op h = refl
commutative_code OpCode.logic_and h = refl
commutative_code OpCode.logic_or h = refl
commutative_code OpCode.eq h = refl
commutative_code OpCode.ne h = refl
commutative_code _ h = absurd h

-- Once the signature of a binary operation is made of one that commutes, the operation with its two
-- operands swapped has the same signature, and the table of texts stays as it is.
pub operation_signature-swap :
    (texts : Texts) (op : Operation) (x y : Operand)
    → op.kind ≡ OperationKind.binary
    → Commutes op.op
    → op.operands ≡ x ∷ y ∷ []
    → let signed = operation_signature texts op in
      operation_signature signed.0 (record op { operands = y ∷ x ∷ [] }) ≡ signed
unfolding operation_signature is_commutative_op
operation_signature-swap texts op x y kind commutes e =
    let first = operand_signature texts x in
    let second = operand_signature first.0 y in
    let run : operand_signatures texts (x ∷ y ∷ []) ≡ (second.0, first.1 ∷ second.1 ∷ []) =
      unfold operand_signatures in refl in
    rw
      (
        e,
        run,
        operand_signatures-again texts x y,
        kind,
        commutative_code op.op commutes,
        in_order-swap second.1 first.1,
      )
      refl
