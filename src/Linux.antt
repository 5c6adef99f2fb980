-- ===== src/Linux.antt =====
-- The Linux user-mode environment: icicle-linux/src/fs/file.rs.
pub mod FileTable
mod Tests
