-- ===== src/Pcode/Var.antt =====
-- `VarNode` and `Value` of sleigh/pcode/src/ops.rs and `mask` of sleigh/pcode/src/helpers.rs. An id is
-- the unsigned reading of an `i16`; an overflow of a sum, a product or a shift is a panic, `none`.
pub mod Slices
use icicle_emu.Base.{
  ℕ, ◌+◌, ◌-◌, ◌*◌, ◌/◌, ◌%◌, ◌^◌, Bool, true, false, ◌||◌, Option, none, some, ◌>>=◌, ltb, leb,
  ◌==◌, if◌then◌else◌, u64_max,
}

pub record VarNode : Type 0 where
  pub id : ℕ
  pub offset : ℕ
  pub size : ℕ

pub data Value : Type 0 where
  var : VarNode → Value
  const : ℕ → ℕ → Value

unfoldable pub new : ℕ → ℕ → VarNode
new id size = record { id = id; offset = 0; size = size }

unfoldable pub is_temp : VarNode → Bool
is_temp v = leb (2 ^ 15) v.id

-- The result of `try_slice`, under its own panics.
unfoldable pub try_slice : VarNode → ℕ → ℕ → Option (Option VarNode)
try_slice v offset size =
    if leb 256 (offset + size)
    then none
    else if ltb v.size (offset + size)
    then some none
    else if leb 256 (v.offset + offset)
    then none
    else some (some (record v { offset = v.offset + offset; size = size }))

unfoldable pub slice : VarNode → ℕ → ℕ → Option VarNode
unfolding try_slice
slice v offset size = try_slice v offset size >>= λ node. node

-- The lowest `bits` bits, of which there are 1 to 64.
unfoldable pub mask : ℕ → Option ℕ
mask bits = if bits == 0 || ltb 64 bits then none else some (u64_max / 2 ^ (64 - bits))

-- `(x >> (offset * 8)) & mask(size * 8)`, where `&` with a mask is a remainder.
unfoldable pub slice_value : Value → ℕ → ℕ → Option Value
unfolding slice mask
slice_value (Value.var v) offset size = slice v offset size >>= λ v. some (Value.var v)
slice_value (Value.const x _) offset size =
    if leb 64 (offset * 8)
    then none
    else mask (size * 8) >>= λ m. some (Value.const (x / 2 ^ (offset * 8) % (m + 1)) size)

unfoldable pub truncate_value : Value → ℕ → Option Value
unfolding slice_value
truncate_value v size = slice_value v 0 size

unfoldable pub value_size : Value → ℕ
value_size (Value.var v) = v.size
value_size (Value.const _ size) = size

unfoldable pub const_eq : Value → ℕ → Bool
const_eq (Value.const c _) value = c == value
const_eq (Value.var _) value = false

-- `VarNode::extract_from_const`. The shift is by the offset as it stands, not in bits.
unfoldable pub extract_from_const : VarNode → ℕ → Option ℕ
unfolding mask
extract_from_const v value =
    if leb 64 v.offset
    then none
    else if ltb v.size 8
    then (mask (v.size * 8) >>= λ m. some (value / 2 ^ v.offset % (m + 1)))
    else some (value / 2 ^ v.offset)
