-- ===== src/Ir/Signature/Ordered.antt =====
-- The order of the signatures of operands: of two, one is less or they are the same.
use rtlzz.Base.{
  ℕ, ◌≡◌, refl, List, [], ◌∷◌, Bool, true, false, not, ◌&&◌, ltb, ◌==◌, if◌then◌else◌, arith,
}
use rtlzz.Ir.Signature.{
  TypeSignature, ConstantSignature, OperandSignature, same_numbers, less_numbers, same_flag,
  less_flag, kind_code, same_type_signature, less_type_signature, same_constant_signature,
  less_constant_signature, same_operand_signature, less_operand_signature,
}

abbrev pub exactly_one : Bool → Bool → Bool → Bool
exactly_one true b c = not b && not c
exactly_one false true c = not c
exactly_one false false c = c

-- Less, same and greater exclude each other, and sameness is the same both ways.
pub record IsCompared (less same greater back : Bool) : Type 0 where
  pub one : exactly_one less same greater ≡ true
  pub both : same ≡ back

-- First one key is compared, and the next where they are the same.
lex :
    {l e g b m f h c : Bool}
    → IsCompared l e g b
    → IsCompared m f h c
    → IsCompared (if e then m else l) (e && f) (if b then h else g) (b && c)
lex {e = true} {b = true} p q = record { one = q.one; both = q.both }
lex {e = true} {b = false} p q = absurd (cc p.both)
lex {e = false} {b = true} p q = absurd (cc p.both)
lex {e = false} {b = false} p q = record { one = p.one; both = refl }

numbers-IsCompared : (a b : ℕ) → IsCompared (ltb a b) (a == b) (ltb b a) (b == a)
numbers-IsCompared a b = record { one = ground arith; both = ground arith }

flags-IsCompared :
    (a b : Bool) → IsCompared (less_flag a b) (same_flag a b) (less_flag b a) (same_flag b a)
flags-IsCompared true true = record { one = refl; both = refl }
flags-IsCompared true false = record { one = refl; both = refl }
flags-IsCompared false true = record { one = refl; both = refl }
flags-IsCompared false false = record { one = refl; both = refl }

lists-IsCompared :
    (a b : List ℕ)
    → IsCompared (less_numbers a b) (same_numbers a b) (less_numbers b a) (same_numbers b a)
lists-IsCompared [] [] = record { one = refl; both = refl }
lists-IsCompared [] (y ∷ ys) = record { one = refl; both = refl }
lists-IsCompared (x ∷ xs) [] = record { one = refl; both = refl }
lists-IsCompared (x ∷ xs) (y ∷ ys) = lex (numbers-IsCompared x y) (lists-IsCompared xs ys)

types-IsCompared :
    (a b : TypeSignature)
    → IsCompared
        (less_type_signature a b)
        (same_type_signature a b)
        (less_type_signature b a)
        (same_type_signature b a)
unfolding less_type_signature same_type_signature
types-IsCompared a b =
    lex (numbers-IsCompared a.width b.width) (lists-IsCompared a.array_dims b.array_dims)

constants-IsCompared :
    (a b : ConstantSignature)
    → IsCompared
        (less_constant_signature a b)
        (same_constant_signature a b)
        (less_constant_signature b a)
        (same_constant_signature b a)
unfolding less_constant_signature same_constant_signature
constants-IsCompared a b =
    lex (numbers-IsCompared a.width b.width)
      (lex (flags-IsCompared a.signed_view b.signed_view) (lists-IsCompared a.limbs b.limbs))

-- Of two signatures of operands exactly one of these holds: the first is less, they are the same, or
-- the second is less; and they are the same one way where they are the other way.
pub operand_signatures-IsCompared :
    (a b : OperandSignature)
    → IsCompared
        (less_operand_signature a b)
        (same_operand_signature a b)
        (less_operand_signature b a)
        (same_operand_signature b a)
unfolding less_operand_signature same_operand_signature
operand_signatures-IsCompared a b = lex (numbers-IsCompared (kind_code a.kind) (kind_code b.kind)) (
    lex (numbers-IsCompared a.node b.node) (
      lex (numbers-IsCompared a.text_id b.text_id) (
        lex (types-IsCompared a.type b.type) (
          lex (flags-IsCompared a.signed_view b.signed_view)
            (constants-IsCompared a.constant b.constant)))))
