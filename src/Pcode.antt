-- ===== src/Pcode.antt =====
-- P-code: the operations, operands, instructions and blocks of sleigh/pcode/src/ops.rs, and the
-- arithmetic helpers of sleigh/pcode/src/helpers.rs.
pub mod Op
pub mod Sizes
pub mod Var
pub mod Block
mod Tests
