-- ===== src/Cpu/State.antt =====
-- The exception, the instruction count and the shadow stack of `Cpu` in icicle-cpu/src/cpu.rs. Of the
-- registers only the program counter is kept. Counts stay below a `u64`; a difference that would be
-- negative is a panic, `none`.
pub mod Counts
pub mod Calls
use icicle_emu.Base.{
  ℕ, zero, suc, ◌+◌, ◌-◌, ◌*◌, ◌%◌, ◌^◌, Bool, true, false, Option, none, some, List, [], ◌∷◌, ◌==◌,
  leb, ltb, if◌then◌else◌, length, take, drop, set, replicate, ◌++◌, u64_max,
}
use icicle_emu.Cpu.ExceptionCode.{ExceptionCode, as_u32}

pub record ShadowStackEntry : Type 0 where
  pub addr : ℕ
  pub block : ℕ

pub record ShadowStack : Type 0 where
  pub stack : List ShadowStackEntry
  pub offset : ℕ

pub record Exception : Type 0 where
  pub code : ℕ
  pub value : ℕ

pub record Fuel : Type 0 where
  pub remaining : ℕ
  pub start : ℕ

pub record Cpu : Type 0 where
  pub shadow_stack : ShadowStack
  pub count : ℕ
  pub fuel : Fuel
  pub exception : Exception
  pub block_id : ℕ
  pub block_offset : ℕ
  pub pc : ℕ

abbrev pub shadow_stack_size : ℕ
shadow_stack_size = 0x1000

unfoldable pub new_shadow_stack : ShadowStack
new_shadow_stack = record {
  stack = replicate shadow_stack_size (record { addr = 0; block = 0 });
  offset = 0;
}

unfoldable pub as_slice : ShadowStack → List ShadowStackEntry
as_slice s = take s.offset s.stack

-- `clone_from`
unfoldable pub clone_shadow_stack : ShadowStack → ShadowStack → ShadowStack
clone_shadow_stack s source = record {
  stack = take source.offset source.stack ++ drop source.offset s.stack;
  offset = source.offset;
}

abbrev pub raise : ExceptionCode → ℕ → Cpu → Cpu
raise code value cpu = record cpu { exception = record { code = as_u32 code; value = value } }

unfoldable pub clear_exception : Cpu → Cpu
unfolding as_u32
clear_exception cpu = raise ExceptionCode.none 0 cpu

unfoldable pub push_shadow_stack : Cpu → ℕ → Cpu
unfolding as_u32
push_shadow_stack cpu addr =
    let s = cpu.shadow_stack in
    if leb shadow_stack_size s.offset
    then raise ExceptionCode.shadow_stack_overflow addr cpu
    else record cpu {
      shadow_stack = record {
        stack = set s.stack s.offset (record { addr = addr; block = u64_max });
        offset = s.offset + 1;
      };
    }

-- The index of the last entry with the target.
abbrev pub later : Option ℕ → Bool → Option ℕ
later (some i) here = some (suc i)
later none here = if here then some 0 else none

unfoldable pub find_last : List ShadowStackEntry → ℕ → Option ℕ
find_last [] target = none
find_last (e ∷ entries) target = later (find_last entries target) (target == e.addr)

abbrev pub pop_to : Cpu → ℕ → Option ℕ → Cpu
pop_to cpu target none = raise ExceptionCode.shadow_stack_invalid target cpu
pop_to cpu target (some i) = record cpu { shadow_stack = record cpu.shadow_stack { offset = i } }

unfoldable pub pop_shadow_stack : Cpu → ℕ → Cpu
unfolding as_slice find_last as_u32
pop_shadow_stack cpu target = pop_to cpu target (find_last (as_slice cpu.shadow_stack) target)

unfoldable pub update_fuel : Cpu → ℕ → Option Cpu
update_fuel cpu new =
    if ltb cpu.fuel.start cpu.fuel.remaining
    then none
    else some (record cpu {
      count = cpu.count + (cpu.fuel.start - cpu.fuel.remaining);
      fuel = record { remaining = new; start = new };
    })

unfoldable pub icount : Cpu → Option ℕ
icount cpu =
    if ltb (cpu.count + cpu.fuel.start) cpu.fuel.remaining
    then none
    else some (cpu.count + cpu.fuel.start - cpu.fuel.remaining)

-- What follows an instruction that raises no exception.
abbrev pub stop_at : Option ℕ × Cpu → Option ℕ × Cpu
stop_at (none, cpu) = (none, cpu)
stop_at (some i, cpu) = (some (suc i), cpu)

module _ (pc_size : ℕ) where
  -- The mask keeps the lowest `pc_size` bytes, of which there are 1, 2, 4 or 8.
  unfoldable pub write_pc : Cpu → ℕ → Cpu
  write_pc cpu val = record cpu {
    pc = val % 2 ^ (8 * pc_size);
    block_id = u64_max;
    block_offset = 0;
  }

  abbrev pub spend : Cpu → ℕ → ℕ → Cpu
  spend cpu addr zero = raise ExceptionCode.instruction_limit addr cpu
  spend cpu addr (suc fuel) = record cpu { fuel = record cpu.fuel { remaining = fuel } }

  unfoldable pub next_instruction : Cpu → ℕ → Cpu
  unfolding write_pc as_u32
  next_instruction cpu addr = spend (write_pc cpu addr) addr cpu.fuel.remaining

  -- `interpret_block_unchecked` on a block of instruction markers: the offset of the one that raises an
  -- exception.
  unfoldable pub interpret_markers : List ℕ → Cpu → Option ℕ × Cpu
  unfolding next_instruction
  interpret_markers [] cpu = (none, cpu)
  interpret_markers (addr ∷ addrs) cpu =
      let cpu = next_instruction cpu addr in
      let rest = interpret_markers addrs cpu in
      if cpu.exception.code == 0 then stop_at rest else (some 0, cpu)
