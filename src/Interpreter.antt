-- ===== src/Interpreter.antt =====
-- The integer operations of the interpreter, icicle-cpu/src/exec/interpreter.rs.
pub mod IntOp
