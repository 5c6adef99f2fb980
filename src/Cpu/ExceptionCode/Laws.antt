-- ===== src/Cpu/ExceptionCode/Laws.antt =====
-- What the exception codes of icicle-cpu/src/lib.rs stand for.
use icicle_emu.Base.{◌≡◌, refl}
use icicle_emu.Cpu.ExceptionCode.{ExceptionCode, as_u32, from_u32}

-- Every exception code is read back from its number.
pub from_u32-as_u32 : (c : ExceptionCode) → from_u32 (as_u32 c) ≡ c
unfolding from_u32 as_u32
from_u32-as_u32 ExceptionCode.none = refl
from_u32-as_u32 ExceptionCode.instruction_limit = refl
from_u32-as_u32 ExceptionCode.halt = refl
from_u32-as_u32 ExceptionCode.sleep = refl
from_u32-as_u32 ExceptionCode.software_breakpoint = refl
from_u32-as_u32 ExceptionCode.syscall = refl
from_u32-as_u32 ExceptionCode.cpu_state_changed = refl
from_u32-as_u32 ExceptionCode.division_exception = refl
from_u32-as_u32 ExceptionCode.read_unmapped = refl
from_u32-as_u32 ExceptionCode.read_perm = refl
from_u32-as_u32 ExceptionCode.read_unaligned = refl
from_u32-as_u32 ExceptionCode.read_watch = refl
from_u32-as_u32 ExceptionCode.read_uninitialized = refl
from_u32-as_u32 ExceptionCode.write_unmapped = refl
from_u32-as_u32 ExceptionCode.write_perm = refl
from_u32-as_u32 ExceptionCode.write_watch = refl
from_u32-as_u32 ExceptionCode.write_unaligned = refl
from_u32-as_u32 ExceptionCode.exec_violation = refl
from_u32-as_u32 ExceptionCode.self_modifying_code = refl
from_u32-as_u32 ExceptionCode.exec_unaligned = refl
from_u32-as_u32 ExceptionCode.out_of_memory = refl
from_u32-as_u32 ExceptionCode.address_overflow = refl
from_u32-as_u32 ExceptionCode.invalid_instruction = refl
from_u32-as_u32 ExceptionCode.unknown_interrupt = refl
from_u32-as_u32 ExceptionCode.unknown_cpu_id = refl
from_u32-as_u32 ExceptionCode.invalid_op_size = refl
from_u32-as_u32 ExceptionCode.invalid_float_size = refl
from_u32-as_u32 ExceptionCode.code_not_translated = refl
from_u32-as_u32 ExceptionCode.shadow_stack_overflow = refl
from_u32-as_u32 ExceptionCode.shadow_stack_invalid = refl
from_u32-as_u32 ExceptionCode.invalid_target = refl
from_u32-as_u32 ExceptionCode.unimplemented_op = refl
from_u32-as_u32 ExceptionCode.external_addr = refl
from_u32-as_u32 ExceptionCode.environment = refl
from_u32-as_u32 ExceptionCode.jit_error = refl
from_u32-as_u32 ExceptionCode.internal_error = refl
from_u32-as_u32 ExceptionCode.unmapped_register = refl
from_u32-as_u32 ExceptionCode.unknown_error = refl
