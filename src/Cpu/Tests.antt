-- ===== src/Cpu/Tests.antt =====
-- Runs of the processor state of icicle-cpu, and its theorems at concrete inputs.
use icicle_emu.Base.{
  ◌<◌, ℕ, ◌+◌, ◌-◌, ◌≡◌, refl, arith, true, some, [], ◌∷◌, replicate, length-replicate,
  if◌then◌else◌, leb, ltb, ◌&&◌,
}
use icicle_emu.Pcode.Var.{VarNode}
use icicle_emu.Cpu.State.{
  Cpu, ShadowStackEntry, ShadowStack, push_shadow_stack, pop_shadow_stack, interpret_markers,
}
use icicle_emu.Cpu.State.Counts.{interpret_markers-limit, IsLimited}
use icicle_emu.Cpu.State.Calls.{
  IsStack, IsPushed, IsPopped, push_shadow_stack-IsPushed, pop_shadow_stack-IsPopped,
}
use icicle_emu.Cpu.Regs.{
  ℤ, register_space_bytes, Regs, var_offset, check_bounds, read_var, write_var,
}
use icicle_emu.Cpu.Regs.Laws.{read_var-write_var}

abbrev entry_stack : ShadowStack
entry_stack = record { stack = replicate 4096 (record { addr = 0x4000; block = 0 }); offset = 2 }

entry_stack-IsStack : IsStack entry_stack
entry_stack-IsStack = (
  length-replicate {A = ShadowStackEntry} 4096 (record { addr = 0x4000; block = 0 }),
  omega arith,
)

abbrev cpu : Cpu
cpu = record {
  shadow_stack = entry_stack;
  count = 10;
  fuel = record { remaining = 2; start = 5 };
  exception = record { code = 0; value = 0 };
  block_id = 0;
  block_offset = 0;
  pc = 0x1000;
}

interpret_markers-limit_example :
    IsLimited 2 3 (interpret_markers 4 (0x1000 ∷ 0x1004 ∷ 0x1008 ∷ []) cpu)
interpret_markers-limit_example = interpret_markers-limit 4 (0x1000 ∷ 0x1004 ∷ 0x1008 ∷ []) cpu refl

push_shadow_stack-IsPushed_example : IsPushed cpu 0x5000 (push_shadow_stack cpu 0x5000)
push_shadow_stack-IsPushed_example = push_shadow_stack-IsPushed cpu 0x5000 entry_stack-IsStack

pop_shadow_stack-IsPopped_example : IsPopped cpu 0x4000 (pop_shadow_stack cpu 0x4000)
pop_shadow_stack-IsPopped_example = pop_shadow_stack-IsPopped cpu 0x4000 entry_stack-IsStack

abbrev reg_1 : VarNode
reg_1 = record { id = 1; offset = 4; size = 2 }

abbrev zeroed : Regs
zeroed i = 0

-- A variable that starts before the register space, passes the check of the bounds.
before_space_test :
    (var_offset (record { id = 0x10000 - 0x201; offset = 0; size = 32 }) ≡ ℤ.negsuc 15)
    × (check_bounds (record { id = 0x10000 - 0x201; offset = 0; size = 32 }) 32 ≡ true)
unfolding check_bounds
before_space_test = (refl, refl)

read_var-write_var_example :
    (o : ℕ) × (r' : Regs) × (var_offset reg_1 ≡ ℤ.pos o)
    × (o + 2 < register_space_bytes)
    × (write_var zeroed reg_1 (0x34 ∷ 0x12 ∷ []) ≡ some r')
    × (read_var 2 r' reg_1 ≡ some (0x34 ∷ 0x12 ∷ []))
    × ((if leb o 0x2016 && ltb 0x2016 (o + 2) then 0 else r' 0x2016) ≡ 0)
unfolding check_bounds
read_var-write_var_example = read_var-write_var zeroed reg_1 (0x34 ∷ 0x12 ∷ []) 0x2016 refl refl
