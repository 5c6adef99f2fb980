-- ===== src/Mem/Perm/Codes.antt =====
-- The codes of errors in icicle-mem/src/perm.rs.
use icicle_emu.Base.{◌≡◌, refl}
use icicle_emu.Mem.Perm.{MemError, code, from_code}

-- The error that a code stands for when it is read: the code of the unmapped register has no arm.
abbrev pub read_back : MemError → MemError
read_back MemError.unmapped_register = MemError.unknown
read_back MemError.unallocated = MemError.unallocated
read_back MemError.unmapped = MemError.unmapped
read_back MemError.uninitalized = MemError.uninitalized
read_back MemError.read_violation = MemError.read_violation
read_back MemError.write_violation = MemError.write_violation
read_back MemError.exec_violation = MemError.exec_violation
read_back MemError.read_watch = MemError.read_watch
read_back MemError.write_watch = MemError.write_watch
read_back MemError.unaligned = MemError.unaligned
read_back MemError.out_of_memory = MemError.out_of_memory
read_back MemError.self_modifying_code = MemError.self_modifying_code
read_back MemError.address_overflow = MemError.address_overflow
read_back MemError.unknown = MemError.unknown

-- Every error is read back from its code, but for the unmapped register, which is read back as
-- unknown.
pub from_code-code : (e : MemError) → from_code (code e) ≡ read_back e
unfolding from_code code
from_code-code MemError.unmapped_register = refl
from_code-code MemError.unallocated = refl
from_code-code MemError.unmapped = refl
from_code-code MemError.uninitalized = refl
from_code-code MemError.read_violation = refl
from_code-code MemError.write_violation = refl
from_code-code MemError.exec_violation = refl
from_code-code MemError.read_watch = refl
from_code-code MemError.write_watch = refl
from_code-code MemError.unaligned = refl
from_code-code MemError.out_of_memory = refl
from_code-code MemError.self_modifying_code = refl
from_code-code MemError.address_overflow = refl
from_code-code MemError.unknown = refl
