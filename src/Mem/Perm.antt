-- ===== src/Mem/Perm.antt =====
-- Permissions and errors of memory accesses: icicle-mem/src/perm.rs. A `u8` is a number below 256, and
-- `!mask` is 255 - mask.
pub mod Flags
pub mod Codes
pub mod Checks
use icicle_emu.Mem.Perm.Flags
use icicle_emu.Base.{
  ℕ, ◌-◌, Bool, true, false, ◌&&◌, List, [], ◌∷◌, map, ◌==◌, if◌then◌else◌, bit_and, bit_or,
}

pub data MemError : Type 0 where
  unallocated unmapped unmapped_register uninitalized read_violation write_violation : MemError
  exec_violation read_watch write_watch unaligned out_of_memory self_modifying_code : MemError
  address_overflow unknown : MemError

-- `MemResult`
pub data MemResult {ℓ} (A : Type ℓ) : Type ℓ where
  ok : A → MemResult A
  err : MemError → MemResult A

unfoldable pub code : MemError → ℕ
code MemError.unmapped = 0x10000
code MemError.uninitalized = 0x10001
code MemError.read_violation = 0x10002
code MemError.write_violation = 0x10003
code MemError.exec_violation = 0x10004
code MemError.read_watch = 0x10005
code MemError.write_watch = 0x10006
code MemError.unallocated = 0x10007
code MemError.unaligned = 0x10008
code MemError.out_of_memory = 0x10009
code MemError.self_modifying_code = 0x1000a
code MemError.address_overflow = 0x1000b
code MemError.unmapped_register = 0x1000c
code MemError.unknown = 0x1ffff

unfoldable pub from_code : ℕ → MemError
from_code code =
    if code == 0x10000
    then MemError.unmapped
    else if code == 0x10001
    then MemError.uninitalized
    else if code == 0x10002
    then MemError.read_violation
    else if code == 0x10003
    then MemError.write_violation
    else if code == 0x10004
    then MemError.exec_violation
    else if code == 0x10005
    then MemError.read_watch
    else if code == 0x10006
    then MemError.write_watch
    else if code == 0x10007
    then MemError.unallocated
    else if code == 0x10008
    then MemError.unaligned
    else if code == 0x10009
    then MemError.out_of_memory
    else if code == 0x1000a
    then MemError.self_modifying_code
    else if code == 0x1000b
    then MemError.address_overflow
    else MemError.unknown

-- The permissions that are missing, the most important first.
unfoldable pub get_error_kind : ℕ → MemError
get_error_kind perm =
    if bit_and perm Flags.mapped == 0
    then MemError.unmapped
    else if bit_and perm Flags.read == 0
    then MemError.read_violation
    else if bit_and perm Flags.write == 0
    then MemError.write_violation
    else if bit_and perm Flags.exec == 0
    then MemError.exec_violation
    else if bit_and perm Flags.init == 0
    then MemError.uninitalized
    else MemError.unknown

-- The loop of `get_error_kind_bytes`.
abbrev pub meet : ℕ → List ℕ → ℕ
meet check [] = check
meet check (byte ∷ perm) = meet (bit_and check byte) perm

unfoldable pub get_error_kind_bytes : List ℕ → MemError
unfolding get_error_kind
get_error_kind_bytes perm = get_error_kind (meet Flags.all perm)

unfoldable pub check : ℕ → ℕ → MemResult (Unit {0})
unfolding get_error_kind
check perm mask =
    let masked = bit_or perm (255 - mask) in
    if bit_and masked Flags.all == Flags.all
    then MemResult.ok tt
    else MemResult.err (get_error_kind masked)

abbrev pub all_equal : ℕ → List ℕ → Bool
all_equal v [] = true
all_equal v (b ∷ r) = b == v && all_equal v r

unfoldable pub check_bytes : List ℕ → ℕ → MemResult (Unit {0})
unfolding get_error_kind_bytes
check_bytes perm mask =
    let masked = map (λ (byte : ℕ). bit_or byte (bit_and (255 - mask) Flags.all)) perm in
    if all_equal Flags.all masked
    then MemResult.ok tt
    else MemResult.err (get_error_kind_bytes masked)
