-- ===== src/Ir/Signature.antt =====
-- The signatures by which src/backend/beir.cpp finds equal operations: their equality and order, and
-- how `MutableProgram` makes them. The hash functions are left out.
pub mod Ordered
pub mod Interned
pub mod Swapped
use Prim.Native.String.{String, compare}
use rtlzz.Base.{
  ℕ, ◌+◌, List, [], ◌∷◌, Bool, true, false, not, ◌&&◌, ◌||◌, Option, none, some, Ordering, ltb,
  ◌==◌, if◌then◌else◌, length,
}
use rtlzz.Base.Int.{ℤ}
use rtlzz.Ir.{Constant, OpCode, Operand, OperandKind, Operation, OperationKind, ValueType}

abbrev pub is_binary : OperationKind → Bool
is_binary OperationKind.binary = true
is_binary _ = false

abbrev pub is_commutative_code : OpCode → Bool
is_commutative_code OpCode.add = true
is_commutative_code OpCode.mul = true
is_commutative_code OpCode.bit_and_op = true
is_commutative_code OpCode.bit_or_op = true
is_commutative_code OpCode.bit_xor_op = true
is_commutative_code OpCode.logic_and = true
is_commutative_code OpCode.logic_or = true
is_commutative_code OpCode.eq = true
is_commutative_code OpCode.ne = true
is_commutative_code _ = false

unfoldable pub is_commutative_op : OperationKind → OpCode → Bool
is_commutative_op kind op = is_binary kind && is_commutative_code op

pub record TypeSignature : Type 0 where
  pub width : ℕ
  pub array_dims : List ℕ

pub record ConstantSignature : Type 0 where
  pub width : ℕ
  pub signed_view : Bool
  pub limbs : List ℕ

pub record OperandSignature : Type 0 where
  pub kind : OperandKind
  pub node : ℕ
  pub text_id : ℕ
  pub type : TypeSignature
  pub signed_view : Bool
  pub constant : ConstantSignature

pub record OperationSignature : Type 0 where
  pub kind : OperationKind
  pub op : OpCode
  pub type : TypeSignature
  pub signed_truncation : Bool
  pub to_width : ℕ
  pub hi : ℤ
  pub lo : ℤ
  pub bit : ℤ
  pub times : ℕ
  pub operands : List OperandSignature

-- `==` and `<` of `std::vector` on numbers.
abbrev pub same_numbers : List ℕ → List ℕ → Bool
same_numbers [] [] = true
same_numbers (x ∷ xs) (y ∷ ys) = x == y && same_numbers xs ys
same_numbers _ _ = false

abbrev pub less_numbers : List ℕ → List ℕ → Bool
less_numbers [] [] = false
less_numbers [] (y ∷ ys) = true
less_numbers (x ∷ xs) [] = false
less_numbers (x ∷ xs) (y ∷ ys) = let rest = less_numbers xs ys in if x == y then rest else ltb x y

-- `==` and `<` on `bool`.
abbrev pub same_flag : Bool → Bool → Bool
same_flag true b = b
same_flag false b = not b

abbrev pub less_flag : Bool → Bool → Bool
less_flag a b = not a && b

unfoldable pub same_type : ValueType → ValueType → Bool
same_type lhs rhs = lhs.width == rhs.width && same_numbers lhs.array_dims rhs.array_dims

unfoldable pub same_type_signature : TypeSignature → TypeSignature → Bool
same_type_signature a b = a.width == b.width && same_numbers a.array_dims b.array_dims

unfoldable pub less_type_signature : TypeSignature → TypeSignature → Bool
less_type_signature a b =
    if a.width == b.width then less_numbers a.array_dims b.array_dims else ltb a.width b.width

unfoldable pub same_constant_signature : ConstantSignature → ConstantSignature → Bool
same_constant_signature a b =
    a.width == b.width && (same_flag a.signed_view b.signed_view && same_numbers a.limbs b.limbs)

unfoldable pub less_constant_signature : ConstantSignature → ConstantSignature → Bool
less_constant_signature a b =
    if a.width == b.width
    then if same_flag a.signed_view b.signed_view
      then less_numbers a.limbs b.limbs
      else less_flag a.signed_view b.signed_view
    else ltb a.width b.width

-- `static_cast<int>(kind)`.
abbrev pub kind_code : OperandKind → ℕ
kind_code OperandKind.symbol = 0
kind_code OperandKind.literal = 1
kind_code OperandKind.port = 2

unfoldable pub same_operand_signature : OperandSignature → OperandSignature → Bool
same_operand_signature a b =
    kind_code a.kind == kind_code b.kind
    && (a.node == b.node
        && (a.text_id == b.text_id
            && (same_type_signature a.type b.type
                && (same_flag a.signed_view b.signed_view
                    && same_constant_signature a.constant b.constant))))

unfoldable pub less_operand_signature : OperandSignature → OperandSignature → Bool
less_operand_signature a b =
    if kind_code a.kind == kind_code b.kind
    then if a.node == b.node
      then if a.text_id == b.text_id
        then if same_type_signature a.type b.type
          then if same_flag a.signed_view b.signed_view
            then less_constant_signature a.constant b.constant
            else less_flag a.signed_view b.signed_view
          else less_type_signature a.type b.type
        else ltb a.text_id b.text_id
      else ltb a.node b.node
    else ltb (kind_code a.kind) (kind_code b.kind)

-- `text_ids_` and `next_text_id_`.
pub record Texts : Type 0 where
  pub ids : List (String × ℕ)
  pub next : ℕ

abbrev pub equal_text : String → String → Bool
equal_text a b = elim (compare a b) [ Ordering.eq ↦ true | _ ↦ false ]

unfoldable pub text_id_of : List (String × ℕ) → String → Option ℕ
text_id_of [] text = none
text_id_of ((key, id) ∷ ids) text =
    let rest = text_id_of ids text in if equal_text key text then some id else rest

abbrev pub intern_new : Texts → String → Option ℕ → Texts × ℕ
intern_new texts text none =
    (record { ids = (text, texts.next) ∷ texts.ids; next = texts.next + 1 }, texts.next)
intern_new texts text (some id) = (texts, id)

unfoldable pub intern_text : Texts → String → Texts × ℕ
intern_text texts text =
    if equal_text text "" then (texts, 0) else intern_new texts text (text_id_of texts.ids text)

unfoldable pub type_signature : ValueType → TypeSignature
type_signature type = record { width = type.width; array_dims = type.array_dims }

unfoldable pub constant_signature : Constant → ConstantSignature
constant_signature c = record { width = c.width; signed_view = c.signed_view; limbs = c.limbs }

abbrev pub no_constant_signature : ConstantSignature
no_constant_signature = record { width = 0; signed_view = false; limbs = [] }

abbrev pub constant_signature_of : OperandKind → Constant → ConstantSignature
constant_signature_of OperandKind.literal c = constant_signature c
constant_signature_of _ c = no_constant_signature

unfoldable pub operand_signature : Texts → Operand → Texts × OperandSignature
operand_signature texts o =
    let interned = intern_text texts o.text in
    (
      interned.0,
      record {
        kind = o.kind;
        node = o.node;
        text_id = interned.1;
        type = type_signature o.type;
        signed_view = o.signed_view;
        constant = constant_signature_of o.kind o.constant;
      },
    )

unfoldable pub operand_signatures : Texts → List Operand → Texts × List OperandSignature
operand_signatures texts [] = (texts, [])
operand_signatures texts (o ∷ os) =
    let first = operand_signature texts o in
    let rest = operand_signatures first.0 os in (rest.0, first.1 ∷ rest.1)

-- Two operands of a commutative operation are put in their order.
unfoldable pub in_order : Bool → List OperandSignature → List OperandSignature
in_order true (a ∷ b ∷ []) = if less_operand_signature b a then b ∷ a ∷ [] else a ∷ b ∷ []
in_order _ operands = operands

unfoldable pub operation_signature : Texts → Operation → Texts × OperationSignature
operation_signature texts op =
    let signed = operand_signatures texts op.operands in
    (
      signed.0,
      record {
        kind = op.kind;
        op = op.op;
        type = type_signature op.type;
        signed_truncation = op.signed_truncation;
        to_width = op.to_width;
        hi = op.hi;
        lo = op.lo;
        bit = op.bit;
        times = op.times;
        operands = in_order (is_commutative_op op.kind op.op) signed.1;
      },
    )
