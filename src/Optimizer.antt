-- ===== src/Optimizer.antt =====
-- The p-code optimizer: icicle-cpu/src/lifter/optimize.rs.
pub mod LiveBytes
pub mod DeadStores
mod Tests
