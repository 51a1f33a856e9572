-- ===== src/Ir.antt =====
-- The backend IR of src/backend/beir.hpp: constants, operands, operations, signals and programs. A
-- node id is an index, widths are never negative and 0 stands for no width, and positions that
-- default to -1 are integers. The debug metadata of operations and signals is left out.
pub mod Signature
pub mod Text
use Prim.Native.String.{String}
use rtlzz.Base.{
  ℕ, zero, suc, ◌-◌, ◌/◌, ◌%◌, ◌^◌, List, [], ◌∷◌, Bool, true, false, ◌&&◌, ◌||◌, Option, ltb, ◌==◌,
  if◌then◌else◌, length, get_or, get_elem?, some, none,
}
use rtlzz.Base.Int.{ℤ}
use rtlzz.Limbs.{limb_max}

pub data OperandKind : Type 0 where
  symbol literal port : OperandKind

pub data OperationKind : Type 0 where
  assign port_read add_carry binary unary array_access call cast ite case zext sext trunc slice
        bit_select write_slice write_bit concat repeat reduce_or reduce_and reduce_xor
        dynamic_bit_select dynamic_slice dynamic_write_slice dynamic_write_bit look_up aggregate :
      OperationKind

pub data OpCode : Type 0 where
  no_op add sub mul div mod_op bit_and_op bit_or_op bit_xor_op logic_and logic_or eq ne lt le gt ge
        shl shr logic_not bit_not_op neg :
      OpCode

pub record ValueType : Type 0 where
  pub width : ℕ
  pub array_dims : List ℕ

pub record Constant : Type 0 where
  pub limbs : List ℕ
  pub width : ℕ
  pub signed_view : Bool

pub record Operand : Type 0 where
  pub kind : OperandKind
  pub node : ℕ
  pub text : String
  pub constant : Constant
  pub type : ValueType
  pub signed_view : Bool

pub record ValueFacts : Type 0 where
  pub valid : Bool
  pub width : ℕ
  pub constant : Bool
  pub value : Constant
  pub known_zero : List ℕ
  pub known_one : List ℕ

pub record Operation : Type 0 where
  pub kind : OperationKind
  pub op : OpCode
  pub operands : List Operand
  pub type : ValueType
  pub signed_truncation : Bool
  pub to_width : ℕ
  pub hi : ℤ
  pub lo : ℤ
  pub bit : ℤ
  pub times : ℕ

pub record Signal : Type 0 where
  pub id : ℕ
  pub name : String
  pub type : ValueType
  pub port_name : String
  pub port_element_index : ℤ
  pub value : ValueFacts
  pub driver : Option Operation

-- The width of a value: a type with no width counts as one bit.
unfoldable pub width_of : ValueType → ℕ
width_of type = if ltb 0 type.width then type.width else 1

-- Whether every limb is 0.
unfoldable pub all_zero : List ℕ → Bool
all_zero [] = true
all_zero (x ∷ xs) = x == 0 && all_zero xs

unfoldable pub is_zero : Constant → Bool
is_zero c = all_zero c.limbs

-- A lowest limb of 1 and zeros above it.
unfoldable pub one_limbs : List ℕ → Bool
one_limbs [] = false
one_limbs (x ∷ xs) = x == 1 && all_zero xs

unfoldable pub is_one : Constant → Bool
is_one c = one_limbs c.limbs

-- The first `full` limbs are all ones, and the next is the mask of the bits left over.
unfoldable pub ones_limbs : List ℕ → ℕ → ℕ → Bool
ones_limbs limbs zero rem_bits =
    rem_bits == 0 || (ltb 0 (length limbs) && get_or limbs 0 0 == 2 ^ rem_bits - 1)
ones_limbs [] (suc full) rem_bits = false
ones_limbs (x ∷ xs) (suc full) rem_bits = x == limb_max && ones_limbs xs full rem_bits

unfoldable pub is_all_ones : Constant → Bool
is_all_ones c = if c.width == 0 then false else ones_limbs c.limbs (c.width / 64) (c.width % 64)

unfoldable pub is_bool_true : Constant → Bool
is_bool_true c = c.width == 1 && is_one c

unfoldable pub is_bool_false : Constant → Bool
is_bool_false c = c.width == 1 && is_zero c

abbrev pub rest_zero : List ℕ → Bool
rest_zero [] = true
rest_zero (x ∷ xs) = all_zero xs

unfoldable pub fits_u64 : Constant → Bool
fits_u64 c = if ltb 64 c.width then false else rest_zero c.limbs

-- `none` is the exception.
unfoldable pub to_u64 : Constant → Option ℕ
to_u64 c = if fits_u64 c then some (get_or c.limbs 0 0) else none

abbrev pub with_id : ℕ → Option Signal → Option Signal
with_id id none = none
with_id id (some signal) = if signal.id == id then some signal else none

-- `Program::findSignal`: the signal at the index, if it has that id.
unfoldable pub find_signal : List Signal → ℕ → Option Signal
find_signal signals id = with_id id (get_elem? signals id)
