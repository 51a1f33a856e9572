-- ===== src/Lib.antt =====
-- Verification of the RTLzz backend.
--
-- RTLzz compiles restricted C++ to SystemVerilog: a frontend lowers the source in stages to a graph
-- of signals with drivers, the backend IR of src/backend/beir.hpp, which the optimizer
-- (src/backend/beopt.cpp and the passes beside it) rewrites and src/backend/rtlgen.cpp prints. The
-- optimizer folds constants by facts about the bits of each signal, which src/backend/beir.cpp
-- computes on vectors of 64-bit limbs. This library models that computation, and the passes that fold
-- constants, follow aliases and eliminate dead signals.
--
-- - Base: shared names, Boolean tests, vectors as lists, integers, and the binary digits of numbers
--   (Base/Bits), by which operations on limbs are compared with operations on numbers.
-- - Limbs: the helpers `facts...` of src/backend/beir.cpp on vectors of limbs. `value`
--   (Limbs/Value) is the number of a vector and `IsWord` says that it fills a width exactly.
--   Trim, Resize, Slices, Sum, Difference, LostBorrow, Order and AnyBit are about factsTrim,
--   factsResizeBits, factsSliceBits and factsBitNot, factsAddBits, factsSubBits, the comparisons and
--   factsAnyBitSet. Shift, Multiply and Divide hold factsShlBits and factsShrBits, factsMulBits, and
--   the two division routines, with their theorems.
-- - Ir: the data types of src/backend/beir.hpp, and the tests on `Operand::Constant`.
-- - Ir/Text: the texts of kinds and codes. Ir/Signature: the signatures of operations by which equal ones are
--   found, with their order, and the table of texts (Interned).
-- - Facts: `ValueFacts` with its constructors and the transfer functions of extension, truncation,
--   slicing, signed narrowing and bit selection. `Describes` (Facts/Sound) says that facts are true
--   of a number.
-- - Facts/Constants: factsInferUnaryConstant and factsInferBinaryConstant. Meaning has the values that
--   they compute, as numbers. Result has the results of the operations as
--   src/backend/pipeline_reset.cpp evaluates them, and says where folding is claimed to follow these;
--   Agreement compares the two. Not covered are, for instance, a shift of another width than its result,
--   a signed shift by the width or more, a `!` that narrows, and signs that only the facts have.
-- - Facts/Joins: the branches of factsInferOperation for Ite, Case, bitwise operations and
--   reductions; Facts/Parts: those for Concat, AddCarry and BitNot.
-- - Facts/Operation: factsInferOperation as a whole. `Means` (Meaning) says what an operation gives on
--   numbers, `IsCovered` where the inference is claimed to follow it, and `Settles` (Settle) that facts
--   are true at the width of the signal that keeps them.
-- - Facts/Order: factsTopologicalOrder, a queue of the signals whose operands have been visited.
--   `pending` (Pending) counts the operands that hold a signal back.
-- - Facts/Analysis and Facts/Whole: MutableProgram::analyzeValueFacts, in an order that is given, and
--   in the order that is found.
-- - Passes/Constant: `foldConstants` of src/backend/beopt_constant.hpp, on the signals and the flag of a
--   `MutableProgram`. Literal and Keeps are about one driver, Whole about a pass.
-- - Passes/Dead: `eliminateDeadNodes` of src/backend/beopt_dce.hpp and MutableProgram::compact. Pushed and
--   Marked are about the search for live signals, Kept and Renamed about the program that is left.
-- - Passes/Aliases: MutableProgram::resolveOperand (Resolved), replaceAliases (Replaced) and
--   isCseCandidate.
-- - Debug: the debug metadata that passes attach to nodes, at the top of src/backend/beir.cpp.
-- - Examples: runs of the definitions and the theorems at concrete inputs.
--
-- A limb is a number below 2 ^ 64 and the wrap of `std::uint64_t` is written out. A width is a
-- number, since the callers pass widths that are made positive first, and positions that default to
-- -1 are integers; the overflow of `int` is not modelled. Loops over bits or limbs recur on the
-- rounds left. The loop over the queue in Facts/Order has as many rounds as signals as its fuel, since
-- each round visits another signal; so has the search in Passes/Dead, which pushes a signal once, and
-- the chain in Passes/Aliases has as many as aliases, since an id is followed once. A count of operands
-- is taken to be below 2 ^ 64. The IR's data types and the passes leave out the debug metadata and the
-- cache of temporary names. The hash functions of signatures, the other passes, the emitted text, the
-- printing of RTL and the frontend are not modelled.
pub mod Base
pub mod Limbs
pub mod Ir
pub mod Facts
pub mod Passes
pub mod Debug
pub mod Examples
