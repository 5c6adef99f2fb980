-- ===== src/Sleigh/Field.antt =====
-- `Token` and `Field` of sleigh/sleigh-runtime/src/lib.rs, and `sxt64` of sleigh/pcode/src/helpers.rs. An `i64` is the unsigned reading of its bits; `none` is the panic of a
-- shift by the width or more, or of a width that underflows.
mod Bits
pub mod Laws
mod Tests
use icicle_emu.Base.{
  ℕ, ◌+◌, ◌-◌, ◌*◌, ◌/◌, ◌%◌, ◌^◌, Bool, true, false, Option, none, some, ◌>>=◌, leb, ltb,
  if◌then◌else◌, bit_and, bit_or, u64_mod, u64_max,
}
use icicle_emu.Pcode.Var.{mask}
use icicle_emu.Sleigh.Signed.{arithmetic_shift}

abbrev pub shift_left : ℕ → ℕ → Option ℕ
shift_left value k = if ltb k 64 then some (value * 2 ^ k % u64_mod) else none

abbrev pub shift_right : ℕ → ℕ → Option ℕ
shift_right value k = if ltb k 64 then some (value / 2 ^ k) else none

abbrev pub width_left : ℕ → Option ℕ
width_left bits = if leb bits 64 then some (64 - bits) else none

unfoldable pub sxt64 : ℕ → ℕ → Option ℕ
sxt64 value num_bits = do
  k ← width_left num_bits
  shifted ← shift_left value k
  some (arithmetic_shift shifted k)

pub record Token : Type 0 where
  pub big_endian : Bool
  pub offset : ℕ
  pub size : ℕ

pub record Field : Type 0 where
  pub offset : ℕ
  pub num_bits : ℕ
  pub signed : Bool
  pub hex : Bool
  pub attached : Option ℕ

abbrev pub extended : Bool → ℕ → ℕ → Option ℕ
extended true value num_bits = sxt64 value num_bits
extended false value num_bits = some value

unfoldable pub extract : Field → ℕ → Option ℕ
unfolding mask sxt64
extract field value = do
  shifted ← shift_right value field.offset
  m ← mask field.num_bits
  extended field.signed (bit_and shifted m) field.num_bits

unfoldable pub field_mask : Field → Option ℕ
unfolding mask
field_mask field = do m ← mask field.num_bits; shift_left m field.offset

-- The value of `dst` afterwards.
unfoldable pub set : Field → ℕ → ℕ → Option ℕ
unfolding field_mask
set field dst value = do
  m ← field_mask field
  shifted ← shift_left value field.offset
  some (bit_or (bit_and dst (u64_max - m)) (bit_and shifted m))
