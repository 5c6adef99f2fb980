-- ===== src/Sleigh/Folding/Tests.antt =====
-- Folding at concrete constants.
use icicle_emu.Base.{◌≡◌, refl, some, arith}
use icicle_emu.Pcode.Op.{Op}
use icicle_emu.Pcode.Var.{VarNode, Value, mask, value_size}
use icicle_emu.Sleigh.Field.{sxt64}
use icicle_emu.Sleigh.Folding.{const_eval, fold}
use icicle_emu.Sleigh.Folding.Agree.{AgreesOn, const_eval-AgreesOn}

abbrev two_bytes : VarNode
two_bytes = record { id = 3; offset = 0; size = 2 }

const_eval-AgreesOn_example : AgreesOn two_bytes 2 2 0xfff0 0x8020
const_eval-AgreesOn_example =
    const_eval-AgreesOn two_bytes 2 2 0xfff0 0x8020 (omega arith) (omega arith) (omega arith)
      (omega arith) (omega arith) (omega arith)

sum_wraps :
    const_eval two_bytes Op.int_add (Value.const 0xfff0 2) (Value.const 0x20 2) ≡ some (some 0x10)
unfolding const_eval fold mask sxt64 value_size
sum_wraps = refl

-- The shift to the right fills with the top bit.
right_fills :
    const_eval two_bytes Op.int_right (Value.const 0x80 1) (Value.const 1 1) ≡ some (some 0xc0)
unfolding const_eval fold mask sxt64 value_size
right_fills = refl

-- A product with zero is known, also where the other factor is not.
zero_product :
    const_eval two_bytes Op.int_mul (Value.var two_bytes) (Value.const 0 2) ≡ some (some 0)
unfolding const_eval fold value_size
zero_product = refl
