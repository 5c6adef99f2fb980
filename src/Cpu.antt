-- ===== src/Cpu.antt =====
-- The processor state: icicle-cpu/src/cpu.rs, lib.rs and regs.rs.
pub mod ExceptionCode
pub mod State
pub mod Regs
mod Tests
