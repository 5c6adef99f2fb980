-- ===== src/Cpu/ExceptionCode.antt =====
-- `ExceptionCode` of icicle-cpu/src/lib.rs: the codes, and the exceptions for the errors of memory. An
-- unknown code is read as in a release build, without the panic.
pub mod Laws
use icicle_emu.Base.{ℕ, Bool, true, false, ◌==◌, if◌then◌else◌}
use icicle_emu.Mem.Perm.{MemError}

pub data ExceptionCode : Type 0 where
  none instruction_limit halt sleep software_breakpoint syscall cpu_state_changed : ExceptionCode
  division_exception read_unmapped read_perm read_unaligned read_watch read_uninitialized :
      ExceptionCode
  write_unmapped write_perm write_watch write_unaligned exec_violation : ExceptionCode
  self_modifying_code exec_unaligned out_of_memory address_overflow invalid_instruction :
      ExceptionCode
  unknown_interrupt unknown_cpu_id invalid_op_size invalid_float_size code_not_translated :
      ExceptionCode
  shadow_stack_overflow shadow_stack_invalid invalid_target unimplemented_op : ExceptionCode
  external_addr environment jit_error internal_error unmapped_register unknown_error : ExceptionCode

-- `as u32`; the last code follows the one before.
unfoldable pub as_u32 : ExceptionCode → ℕ
as_u32 ExceptionCode.none = 0x0
as_u32 ExceptionCode.instruction_limit = 0x1
as_u32 ExceptionCode.halt = 0x2
as_u32 ExceptionCode.sleep = 0x3
as_u32 ExceptionCode.software_breakpoint = 0x4
as_u32 ExceptionCode.syscall = 0x101
as_u32 ExceptionCode.cpu_state_changed = 0x102
as_u32 ExceptionCode.division_exception = 0x103
as_u32 ExceptionCode.read_unmapped = 0x201
as_u32 ExceptionCode.read_perm = 0x202
as_u32 ExceptionCode.read_unaligned = 0x203
as_u32 ExceptionCode.read_watch = 0x204
as_u32 ExceptionCode.read_uninitialized = 0x205
as_u32 ExceptionCode.write_unmapped = 0x301
as_u32 ExceptionCode.write_perm = 0x302
as_u32 ExceptionCode.write_watch = 0x303
as_u32 ExceptionCode.write_unaligned = 0x304
as_u32 ExceptionCode.exec_violation = 0x401
as_u32 ExceptionCode.self_modifying_code = 0x402
as_u32 ExceptionCode.exec_unaligned = 0x403
as_u32 ExceptionCode.out_of_memory = 0x501
as_u32 ExceptionCode.address_overflow = 0x502
as_u32 ExceptionCode.invalid_instruction = 0x1001
as_u32 ExceptionCode.unknown_interrupt = 0x1002
as_u32 ExceptionCode.unknown_cpu_id = 0x1003
as_u32 ExceptionCode.invalid_op_size = 0x1004
as_u32 ExceptionCode.invalid_float_size = 0x1005
as_u32 ExceptionCode.code_not_translated = 0x1006
as_u32 ExceptionCode.shadow_stack_overflow = 0x1007
as_u32 ExceptionCode.shadow_stack_invalid = 0x1008
as_u32 ExceptionCode.invalid_target = 0x1009
as_u32 ExceptionCode.unimplemented_op = 0x100a
as_u32 ExceptionCode.external_addr = 0x2001
as_u32 ExceptionCode.environment = 0x2002
as_u32 ExceptionCode.jit_error = 0x3001
as_u32 ExceptionCode.internal_error = 0x3002
as_u32 ExceptionCode.unmapped_register = 0x3003
as_u32 ExceptionCode.unknown_error = 0x3004

unfoldable pub from_u32 : ℕ → ExceptionCode
from_u32 code =
    if code == 0x0
    then ExceptionCode.none
    else if code == 0x1
    then ExceptionCode.instruction_limit
    else if code == 0x2
    then ExceptionCode.halt
    else if code == 0x3
    then ExceptionCode.sleep
    else if code == 0x4
    then ExceptionCode.software_breakpoint
    else if code == 0x101
    then ExceptionCode.syscall
    else if code == 0x102
    then ExceptionCode.cpu_state_changed
    else if code == 0x103
    then ExceptionCode.division_exception
    else if code == 0x201
    then ExceptionCode.read_unmapped
    else if code == 0x202
    then ExceptionCode.read_perm
    else if code == 0x203
    then ExceptionCode.read_unaligned
    else if code == 0x204
    then ExceptionCode.read_watch
    else if code == 0x205
    then ExceptionCode.read_uninitialized
    else if code == 0x301
    then ExceptionCode.write_unmapped
    else if code == 0x302
    then ExceptionCode.write_perm
    else if code == 0x303
    then ExceptionCode.write_watch
    else if code == 0x304
    then ExceptionCode.write_unaligned
    else if code == 0x401
    then ExceptionCode.exec_violation
    else if code == 0x402
    then ExceptionCode.self_modifying_code
    else if code == 0x403
    then ExceptionCode.exec_unaligned
    else if code == 0x501
    then ExceptionCode.out_of_memory
    else if code == 0x502
    then ExceptionCode.address_overflow
    else if code == 0x1001
    then ExceptionCode.invalid_instruction
    else if code == 0x1002
    then ExceptionCode.unknown_interrupt
    else if code == 0x1003
    then ExceptionCode.unknown_cpu_id
    else if code == 0x1004
    then ExceptionCode.invalid_op_size
    else if code == 0x1005
    then ExceptionCode.invalid_float_size
    else if code == 0x1006
    then ExceptionCode.code_not_translated
    else if code == 0x1007
    then ExceptionCode.shadow_stack_overflow
    else if code == 0x1008
    then ExceptionCode.shadow_stack_invalid
    else if code == 0x1009
    then ExceptionCode.invalid_target
    else if code == 0x100a
    then ExceptionCode.unimplemented_op
    else if code == 0x2001
    then ExceptionCode.external_addr
    else if code == 0x2002
    then ExceptionCode.environment
    else if code == 0x3001
    then ExceptionCode.jit_error
    else if code == 0x3002
    then ExceptionCode.internal_error
    else if code == 0x3003
    then ExceptionCode.unmapped_register
    else ExceptionCode.unknown_error

unfoldable pub is_running : ExceptionCode → Bool
is_running ExceptionCode.none = true
is_running ExceptionCode.instruction_limit = true
is_running _ = false

unfoldable pub is_memory_error : ExceptionCode → Bool
is_memory_error ExceptionCode.read_unmapped = true
is_memory_error ExceptionCode.read_perm = true
is_memory_error ExceptionCode.read_unaligned = true
is_memory_error ExceptionCode.read_watch = true
is_memory_error ExceptionCode.read_uninitialized = true
is_memory_error ExceptionCode.write_unmapped = true
is_memory_error ExceptionCode.write_perm = true
is_memory_error ExceptionCode.write_watch = true
is_memory_error ExceptionCode.write_unaligned = true
is_memory_error ExceptionCode.self_modifying_code = true
is_memory_error _ = false

-- `From<MemError>`
unfoldable pub from_mem_error : MemError → ExceptionCode
from_mem_error MemError.unmapped = ExceptionCode.read_unmapped
from_mem_error MemError.uninitalized = ExceptionCode.read_uninitialized
from_mem_error MemError.read_violation = ExceptionCode.read_perm
from_mem_error MemError.write_violation = ExceptionCode.write_perm
from_mem_error MemError.exec_violation = ExceptionCode.exec_violation
from_mem_error MemError.read_watch = ExceptionCode.read_watch
from_mem_error MemError.write_watch = ExceptionCode.write_watch
from_mem_error MemError.unaligned = ExceptionCode.read_unaligned
from_mem_error MemError.out_of_memory = ExceptionCode.out_of_memory
from_mem_error MemError.self_modifying_code = ExceptionCode.self_modifying_code
from_mem_error MemError.address_overflow = ExceptionCode.address_overflow
from_mem_error MemError.unmapped_register = ExceptionCode.unmapped_register
from_mem_error MemError.unallocated = ExceptionCode.unknown_error
from_mem_error MemError.unknown = ExceptionCode.unknown_error

unfoldable pub from_load_error : MemError → ExceptionCode
unfolding from_mem_error
from_load_error MemError.unmapped = ExceptionCode.read_unmapped
from_load_error MemError.uninitalized = ExceptionCode.read_uninitialized
from_load_error MemError.read_violation = ExceptionCode.read_perm
from_load_error MemError.unaligned = ExceptionCode.read_unaligned
from_load_error MemError.read_watch = ExceptionCode.read_watch
from_load_error err = from_mem_error err

unfoldable pub from_store_error : MemError → ExceptionCode
unfolding from_mem_error
from_store_error MemError.unmapped = ExceptionCode.write_unmapped
from_store_error MemError.write_violation = ExceptionCode.write_perm
from_store_error MemError.unaligned = ExceptionCode.write_unaligned
from_store_error MemError.write_watch = ExceptionCode.write_watch
from_store_error err = from_mem_error err
