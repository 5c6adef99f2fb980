-- ===== src/Mem.antt =====
-- The memory of the emulator: icicle-mem.
pub mod RangeMap
pub mod Perm
pub mod Tlb
pub mod Physical
mod Tests
pub mod Page
pub mod Align
pub mod Mmu
