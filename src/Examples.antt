-- ===== src/Examples.antt =====
-- Tests of the definitions, and the theorems at concrete inputs.
mod Words
mod Marks
mod Folds
mod Notes
mod Analysis
mod Passes
mod Signatures
mod Dead
mod Aliases
