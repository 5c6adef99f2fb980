-- ===== src/Sleigh/Field/Tests.antt =====
-- Fields at concrete inputs.
use icicle_emu.Base.{◌-◌, ◌^◌, ◌≡◌, refl, inr, true, false, none, some, arith}
use icicle_emu.Pcode.Var.{mask}
use icicle_emu.Sleigh.Field.{Field, sxt64, extract, field_mask, set}
use icicle_emu.Sleigh.Field.Laws.{IsStored, set-IsStored}

abbrev nibble : Field
nibble = record { offset = 4; num_bits = 4; signed = true; hex = false; attached = none }

abbrev high_byte : Field
high_byte = record { offset = 8; num_bits = 8; signed = false; hex = false; attached = none }

set-IsStored_example : IsStored nibble high_byte 0xabcd 0x39 (set nibble 0xabcd 0x39)
set-IsStored_example =
    set-IsStored nibble high_byte 0xabcd 0x39 (omega arith, omega arith) (omega arith, omega arith)
      (inr (omega arith))

signed_nibble : set nibble 0xabcd 0x39 ≡ some 0xab9d
unfolding set field_mask mask
signed_nibble = refl

negative_nibble : extract nibble 0xab9d ≡ some (2 ^ 64 - 7)
unfolding extract mask sxt64
negative_nibble = refl
