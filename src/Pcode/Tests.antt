-- ===== src/Pcode/Tests.antt =====
-- Small slices of sleigh/pcode/src/ops.rs, to which the theorems are applied.
use icicle_emu.Base.{some, ℕ, ◌≡◌, ◌>>=◌, arith}
use icicle_emu.Pcode.Op.{Op}
use icicle_emu.Pcode.Var.{Value, slice_value, value_size}
use icicle_emu.Pcode.Block.{Inputs, Instruction}
use icicle_emu.Pcode.Var.Slices.{slice_value-slice_value}

slice_value-slice_value_example :
    (slice_value (Value.const 0x1122334455667788 8) 2 4 ≡ some (Value.const 0x33445566 4))
    × ((slice_value (Value.const 0x1122334455667788 8) 2 4 >>= λ u. slice_value u 1 2)
        ≡ slice_value (Value.const 0x1122334455667788 8) 3 2)
unfolding value_size
slice_value-slice_value_example =
    slice_value-slice_value (Value.const 0x1122334455667788 8) 2 4 1 2 (omega arith) (omega arith)
      (omega arith) (omega arith) (omega arith)

-- An instruction that writes a temporary.
abbrev write_tmp : ℕ → Instruction
write_tmp id = record {
  op = Op.copy;
  inputs = Inputs.const_const 0 8 0 0;
  output = record { id = id; offset = 0; size = 8 };
}
