-- ===== src/Cpu/Regs.antt =====
-- `Regs` of icicle-cpu/src/regs.rs: the bytes of the register space, in which temporaries have negative
-- ids, here the unsigned readings of an `i16`. `none` is a panic, or an access outside of the space.
pub mod Laws
use icicle_emu.Base.{
  ℕ, zero, suc, ◌+◌, ◌-◌, ◌*◌, Bool, true, false, ◌&&◌, Option, none, some, List, [], ◌∷◌, ◌==◌,
  leb, ltb, if◌then◌else◌, length,
}
use icicle_emu.Pcode.Var.{VarNode}

pub data ℤ : Type 0 where
  pos negsuc : ℕ → ℤ

abbrev pub difference : ℕ → ℕ → ℤ
difference a b = if leb b a then ℤ.pos (a - b) else ℤ.negsuc (b - a - 1)

abbrev pub plus : ℤ → ℕ → ℤ
plus (ℤ.pos n) m = ℤ.pos (n + m)
plus (ℤ.negsuc n) m = difference m (suc n)

-- `REGISTER_SPACE_BYTES` and `REG_OFFSET`
abbrev pub register_space_bytes : ℕ
register_space_bytes = 0x20000

abbrev pub reg_offset : ℕ
reg_offset = 0x200 * 16

abbrev pub Regs : Type 0
Regs = ℕ → ℕ

unfoldable pub fill : ℕ → Regs
fill val i = val

unfoldable pub var_offset : VarNode → ℤ
var_offset v =
    if ltb v.id 0x8000
    then ℤ.pos (reg_offset + (v.id * 16 + v.offset))
    else difference (reg_offset + v.offset) ((0x10000 - v.id) * 16)

abbrev pub in_space : ℤ → Bool
in_space (ℤ.pos end) = ltb 0 end && ltb end register_space_bytes
in_space (ℤ.negsuc _) = false

unfoldable pub check_bounds : VarNode → ℕ → Bool
unfolding var_offset
check_bounds v size = v.size == size && in_space (plus (var_offset v) size)

abbrev pub bytes_from : Regs → ℕ → ℕ → List ℕ
bytes_from r offset zero = []
bytes_from r offset (suc n) = r offset ∷ bytes_from r (suc offset) n

abbrev pub set_bytes : Regs → ℕ → List ℕ → Regs
set_bytes r offset [] i = r i
set_bytes r offset (x ∷ value) i = if i == offset then x else set_bytes r (suc offset) value i

unfoldable pub read_at : Regs → ℕ → ℤ → Option (List ℕ)
read_at r n (ℤ.pos offset) =
    if leb (offset + n) register_space_bytes then some (bytes_from r offset n) else none
read_at r n (ℤ.negsuc _) = none

unfoldable pub write_at : Regs → ℤ → List ℕ → Option Regs
write_at r (ℤ.pos offset) value =
    if leb (offset + length value) register_space_bytes
    then some (set_bytes r offset value)
    else none
write_at r (ℤ.negsuc _) value = none

-- `read_var` and `write_var` of `n` bytes.
unfoldable pub read_var : ℕ → Regs → VarNode → Option (List ℕ)
unfolding check_bounds read_at
read_var n r v = if check_bounds v n then read_at r n (var_offset v) else none

unfoldable pub write_var : Regs → VarNode → List ℕ → Option Regs
unfolding check_bounds write_at
write_var r v value =
    if check_bounds v (length value) then write_at r (var_offset v) value else none

-- The slice of a variable, which is absent past the space.
abbrev pub slice_at : Regs → ℤ → ℕ → Option (List ℕ)
slice_at r (ℤ.pos offset) size =
    if leb (offset + size) register_space_bytes then some (bytes_from r offset size) else none
slice_at r (ℤ.negsuc _) size = none

unfoldable pub get : Regs → VarNode → Option (List ℕ)
unfolding var_offset
get r v = slice_at r (var_offset v) v.size

unfoldable pub restore_from : Regs → Regs → ℕ → Regs
restore_from r other valid i = if ltb i (reg_offset + valid * 16) then other i else r i
