-- ===== src/ConstEval.antt =====
-- The bit-level constant evaluator of p-code, icicle-cpu/src/exec/const_eval.rs.
mod Tests
pub mod Bit
pub mod BitVec
pub mod Shift
pub mod Naming
pub mod Eval
