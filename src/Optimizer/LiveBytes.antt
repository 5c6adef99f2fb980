-- ===== src/Optimizer/LiveBytes.antt =====
-- `LiveBytes` of icicle-cpu/src/lifter/optimize.rs: the bytes of a variable as the bits of a `u64`. The
-- bytes of a variable are below 64.
pub mod Laws
use icicle_emu.Base.{
  ℕ, zero, suc, ◌+◌, ◌-◌, ◌^◌, Bool, true, false, bit_and, bit_or, ◌==◌, if◌then◌else◌, u64_max,
}
use icicle_emu.Pcode.Var.{VarNode}

-- The loops over `size` bytes from `byte` on.
abbrev pub add_bytes : ℕ → ℕ → ℕ → ℕ
add_bytes zero byte set = set
add_bytes (suc size) byte set = add_bytes size (suc byte) (bit_or set (2 ^ byte))

abbrev pub subtract_bytes : ℕ → ℕ → ℕ → ℕ
subtract_bytes zero byte set = set
subtract_bytes (suc size) byte set =
    subtract_bytes size (suc byte) (bit_and set (u64_max - 2 ^ byte))

abbrev pub any_bytes : ℕ → ℕ → ℕ → Bool
any_bytes zero byte set = false
any_bytes (suc size) byte set =
    let rest = any_bytes size (suc byte) set in if bit_and set (2 ^ byte) == 0 then rest else true

unfoldable pub add : ℕ → VarNode → ℕ
add set var = add_bytes var.size var.offset set

unfoldable pub subtract : ℕ → VarNode → ℕ
subtract set var = subtract_bytes var.size var.offset set

unfoldable pub any_set : ℕ → VarNode → Bool
any_set set var = any_bytes var.size var.offset set

unfoldable pub new : VarNode → ℕ
unfolding add
new var = add 0 var

abbrev pub is_empty : ℕ → Bool
is_empty set = set == 0
