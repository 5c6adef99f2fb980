-- ===== src/Pcode/Block.antt =====
-- `Inputs`, `Instruction` and `Block` of sleigh/pcode/src/ops.rs. An id is the unsigned reading of an
-- `i16`, so that the temporaries are those from 2 ^ 15 on. The outer `none` is a panic.
pub mod Temporaries
use icicle_emu.Base.{
  ℕ, zero, suc, ◌-◌, Bool, true, false, Option, none, some, ◌>>=◌, List, [], ◌∷◌, ◌++◌, min, take,
  ◌==◌, if◌then◌else◌,
}
use icicle_emu.Pcode.Op.{Op}
use icicle_emu.Pcode.Var
use icicle_emu.Pcode.Var.{VarNode, Value, is_temp}

-- `InputsImpl`: the tags of the two operands are merged.
pub data Inputs : Type 0 where
  const_const : ℕ → ℕ → ℕ → ℕ → Inputs
  const_var : ℕ → ℕ → VarNode → Inputs
  var_const : VarNode → ℕ → ℕ → Inputs
  var_var : VarNode → VarNode → Inputs

unfoldable pub new_inputs : Value → Value → Inputs
new_inputs (Value.const a a_size) (Value.const b b_size) = Inputs.const_const a a_size b b_size
new_inputs (Value.const a a_size) (Value.var b) = Inputs.const_var a a_size b
new_inputs (Value.var a) (Value.const b b_size) = Inputs.var_const a b b_size
new_inputs (Value.var a) (Value.var b) = Inputs.var_var a b

unfoldable pub first : Inputs → Value
first (Inputs.const_const a a_size b b_size) = Value.const a a_size
first (Inputs.const_var a a_size b) = Value.const a a_size
first (Inputs.var_const a b b_size) = Value.var a
first (Inputs.var_var a b) = Value.var a

unfoldable pub second : Inputs → Value
second (Inputs.const_const a a_size b b_size) = Value.const b b_size
second (Inputs.const_var a a_size b) = Value.var b
second (Inputs.var_const a b b_size) = Value.const b b_size
second (Inputs.var_var a b) = Value.var b

abbrev pub no_var : VarNode
no_var = record { id = 0; offset = 0; size = 0 }

pub record Instruction : Type 0 where
  pub op : Op
  pub inputs : Inputs
  pub output : VarNode

pub record Block : Type 0 where
  pub instructions : List Instruction
  pub next_tmp : ℕ

unfoldable pub new_block : Block
new_block = record { instructions = []; next_tmp = 0xffff }

unfoldable pub push : Block → Instruction → Block
push b i = record b { instructions = b.instructions ++ i ∷ [] }

-- The id before -2 ^ 15 is a panic.
abbrev pub previous_id : ℕ → Option ℕ
previous_id id = if id == 0x8000 then none else some (id - 1)

unfoldable pub alloc_tmp : Block → ℕ → Option (VarNode × Block)
alloc_tmp b size = do
  next ← previous_id b.next_tmp
  some (Var.new b.next_tmp size, record b { next_tmp = next })

-- The smallest id of a temporary that is written.
abbrev pub smaller : Bool → ℕ → Option ℕ → Option ℕ
smaller false id o = o
smaller true id none = some id
smaller true id (some other) = some (min id other)

unfoldable pub min_tmp : List Instruction → Option ℕ
unfolding is_temp
min_tmp [] = none
min_tmp (i ∷ r) = smaller (is_temp i.output) i.output.id (min_tmp r)

abbrev pub next_id : Option ℕ → Option ℕ
next_id none = some 0xffff
next_id (some id) = previous_id id

unfoldable pub next_tmp_of : List Instruction → Option ℕ
unfolding min_tmp
next_tmp_of instructions = next_id (min_tmp instructions)

unfoldable pub recompute_next_tmp : Block → Option Block
unfolding next_tmp_of
recompute_next_tmp b = next_tmp_of b.instructions >>= λ next. some (record b { next_tmp = next })

-- `as_u64`
abbrev pub as_u64 : Value → Option ℕ
as_u64 (Value.const c _) = some c
as_u64 (Value.var _) = none

abbrev pub is_marker : Op → Bool
is_marker Op.instruction_marker = true
is_marker _ = false

unfoldable pub first_addr : List Instruction → Option (Option ℕ)
unfolding first
first_addr [] = some none
first_addr (i ∷ r) =
    if is_marker i.op then (as_u64 (first i.inputs) >>= λ addr. some (some addr)) else first_addr r

-- The last marker, found from the end.
abbrev pub last_addr : List Instruction → Option Instruction
last_addr [] = none
last_addr (i ∷ r) = elim (last_addr r) [
  | some j ↦ some j
  | none ↦ if is_marker i.op then some i else none
]

unfoldable pub address_of : List Instruction → ℕ → Option (Option ℕ)
unfolding first
address_of instructions offset = elim (last_addr (take offset instructions)) [
  | none ↦ some none
  | some i ↦ as_u64 (first i.inputs) >>= λ addr. some (some addr)
]

abbrev pub one_more : Option ℕ → Option ℕ
one_more none = none
one_more (some n) = some (suc n)

-- `Iterator::position`
unfoldable pub offset_of : List Instruction → ℕ → Option (Option ℕ)
unfolding first
offset_of [] addr = some none
offset_of (i ∷ r) addr =
    let rest = offset_of r addr >>= λ o. some (one_more o) in
    if is_marker i.op
    then (as_u64 (first i.inputs) >>= λ start. if start == addr then some (some 0) else rest)
    else rest
