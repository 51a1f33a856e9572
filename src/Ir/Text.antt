-- ===== src/Ir/Text.antt =====
-- The texts of kinds and codes in src/backend/beir.cpp.
use Prim.Native.String.{String}
use rtlzz.Base.{◌≡◌, refl, sym, ap, ◌∙◌, Option, none, some, if◌then◌else◌}
use rtlzz.Ir.{OpCode, OperandKind, OperationKind}
use rtlzz.Ir.Signature.{equal_text}

abbrev pub operand_kind_text : OperandKind → String
operand_kind_text OperandKind.symbol = "symbol"
operand_kind_text OperandKind.literal = "literal"
operand_kind_text OperandKind.port = "port"

abbrev pub operation_kind_text : OperationKind → String
operation_kind_text OperationKind.assign = "assign"
operation_kind_text OperationKind.port_read = "port_read"
operation_kind_text OperationKind.add_carry = "add_carry"
operation_kind_text OperationKind.binary = "binary"
operation_kind_text OperationKind.unary = "unary"
operation_kind_text OperationKind.array_access = "array_access"
operation_kind_text OperationKind.call = "call"
operation_kind_text OperationKind.cast = "cast"
operation_kind_text OperationKind.ite = "ite"
operation_kind_text OperationKind.case = "case"
operation_kind_text OperationKind.zext = "zext"
operation_kind_text OperationKind.sext = "sext"
operation_kind_text OperationKind.trunc = "trunc"
operation_kind_text OperationKind.slice = "slice"
operation_kind_text OperationKind.bit_select = "bit_select"
operation_kind_text OperationKind.write_slice = "write_slice"
operation_kind_text OperationKind.write_bit = "write_bit"
operation_kind_text OperationKind.concat = "concat"
operation_kind_text OperationKind.repeat = "repeat"
operation_kind_text OperationKind.reduce_or = "reduce_or"
operation_kind_text OperationKind.reduce_and = "reduce_and"
operation_kind_text OperationKind.reduce_xor = "reduce_xor"
operation_kind_text OperationKind.dynamic_bit_select = "dynamic_bit_select"
operation_kind_text OperationKind.dynamic_slice = "dynamic_slice"
operation_kind_text OperationKind.dynamic_write_slice = "dynamic_write_slice"
operation_kind_text OperationKind.dynamic_write_bit = "dynamic_write_bit"
operation_kind_text OperationKind.look_up = "lookup"
operation_kind_text OperationKind.aggregate = "aggregate"

abbrev pub op_code_text : OpCode → String
op_code_text OpCode.no_op = ""
op_code_text OpCode.add = "+"
op_code_text OpCode.sub = "-"
op_code_text OpCode.mul = "*"
op_code_text OpCode.div = "/"
op_code_text OpCode.mod_op = "%"
op_code_text OpCode.bit_and_op = "&"
op_code_text OpCode.bit_or_op = "|"
op_code_text OpCode.bit_xor_op = "^"
op_code_text OpCode.logic_and = "&&"
op_code_text OpCode.logic_or = "||"
op_code_text OpCode.eq = "=="
op_code_text OpCode.ne = "!="
op_code_text OpCode.lt = "<"
op_code_text OpCode.le = "<="
op_code_text OpCode.gt = ">"
op_code_text OpCode.ge = ">="
op_code_text OpCode.shl = "<<"
op_code_text OpCode.shr = ">>"
op_code_text OpCode.logic_not = "!"
op_code_text OpCode.bit_not_op = "~"
op_code_text OpCode.neg = "-"

-- The kind with a text.
abbrev kind_with_text : String → Option OperationKind
kind_with_text text =
    if equal_text text "assign"
    then some OperationKind.assign
    else if equal_text text "port_read"
    then some OperationKind.port_read
    else if equal_text text "add_carry"
    then some OperationKind.add_carry
    else if equal_text text "binary"
    then some OperationKind.binary
    else if equal_text text "unary"
    then some OperationKind.unary
    else if equal_text text "array_access"
    then some OperationKind.array_access
    else if equal_text text "call"
    then some OperationKind.call
    else if equal_text text "cast"
    then some OperationKind.cast
    else if equal_text text "ite"
    then some OperationKind.ite
    else if equal_text text "case"
    then some OperationKind.case
    else if equal_text text "zext"
    then some OperationKind.zext
    else if equal_text text "sext"
    then some OperationKind.sext
    else if equal_text text "trunc"
    then some OperationKind.trunc
    else if equal_text text "slice"
    then some OperationKind.slice
    else if equal_text text "bit_select"
    then some OperationKind.bit_select
    else if equal_text text "write_slice"
    then some OperationKind.write_slice
    else if equal_text text "write_bit"
    then some OperationKind.write_bit
    else if equal_text text "concat"
    then some OperationKind.concat
    else if equal_text text "repeat"
    then some OperationKind.repeat
    else if equal_text text "reduce_or"
    then some OperationKind.reduce_or
    else if equal_text text "reduce_and"
    then some OperationKind.reduce_and
    else if equal_text text "reduce_xor"
    then some OperationKind.reduce_xor
    else if equal_text text "dynamic_bit_select"
    then some OperationKind.dynamic_bit_select
    else if equal_text text "dynamic_slice"
    then some OperationKind.dynamic_slice
    else if equal_text text "dynamic_write_slice"
    then some OperationKind.dynamic_write_slice
    else if equal_text text "dynamic_write_bit"
    then some OperationKind.dynamic_write_bit
    else if equal_text text "lookup"
    then some OperationKind.look_up
    else if equal_text text "aggregate"
    then some OperationKind.aggregate
    else none

kind_with_text-lem : (k : OperationKind) → kind_with_text (operation_kind_text k) ≡ some k
kind_with_text-lem OperationKind.assign = refl
kind_with_text-lem OperationKind.port_read = refl
kind_with_text-lem OperationKind.add_carry = refl
kind_with_text-lem OperationKind.binary = refl
kind_with_text-lem OperationKind.unary = refl
kind_with_text-lem OperationKind.array_access = refl
kind_with_text-lem OperationKind.call = refl
kind_with_text-lem OperationKind.cast = refl
kind_with_text-lem OperationKind.ite = refl
kind_with_text-lem OperationKind.case = refl
kind_with_text-lem OperationKind.zext = refl
kind_with_text-lem OperationKind.sext = refl
kind_with_text-lem OperationKind.trunc = refl
kind_with_text-lem OperationKind.slice = refl
kind_with_text-lem OperationKind.bit_select = refl
kind_with_text-lem OperationKind.write_slice = refl
kind_with_text-lem OperationKind.write_bit = refl
kind_with_text-lem OperationKind.concat = refl
kind_with_text-lem OperationKind.repeat = refl
kind_with_text-lem OperationKind.reduce_or = refl
kind_with_text-lem OperationKind.reduce_and = refl
kind_with_text-lem OperationKind.reduce_xor = refl
kind_with_text-lem OperationKind.dynamic_bit_select = refl
kind_with_text-lem OperationKind.dynamic_slice = refl
kind_with_text-lem OperationKind.dynamic_write_slice = refl
kind_with_text-lem OperationKind.dynamic_write_bit = refl
kind_with_text-lem OperationKind.look_up = refl
kind_with_text-lem OperationKind.aggregate = refl

some-inj : (a b : OperationKind) → some a ≡ some b → a ≡ b
some-inj a b h = cc

-- Two kinds of operations with the same text are the same.
pub operation_kind_text-inj :
    (a b : OperationKind) → operation_kind_text a ≡ operation_kind_text b → a ≡ b
operation_kind_text-inj a b h =
    some-inj a b (sym (kind_with_text-lem a) ∙ ap kind_with_text h ∙ kind_with_text-lem b)
