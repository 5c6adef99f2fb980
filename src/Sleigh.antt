-- ===== src/Sleigh.antt =====
-- The runtime of the Sleigh specifications: sleigh/sleigh-runtime/src, and the part of
-- sleigh/sleigh-compile/src that writes what it evaluates.
pub mod Signed
pub mod Expr
pub mod Field
pub mod Folding
pub mod Decoder
pub mod Matcher
pub mod Instruction
pub mod Decode
pub mod Backtrack
