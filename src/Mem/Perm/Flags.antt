-- ===== src/Mem/Perm/Flags.antt =====
-- The permission bits of icicle-mem/src/perm.rs. `MAP` is `mapped`.
use icicle_emu.Base.{ℕ}

abbrev pub init : ℕ
init = 1

abbrev pub read : ℕ
read = 2

abbrev pub write : ℕ
write = 4

abbrev pub exec : ℕ
exec = 8

abbrev pub mapped : ℕ
mapped = 16

abbrev pub in_code_cache : ℕ
in_code_cache = 128

abbrev pub all : ℕ
all = 159
