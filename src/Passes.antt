-- ===== src/Passes.antt =====
-- The passes of the optimizer, beside src/backend/beopt.cpp.
pub mod Constant
pub mod Dead
pub mod Aliases
