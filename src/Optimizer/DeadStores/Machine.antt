-- ===== src/Optimizer/DeadStores/Machine.antt =====
-- A machine for blocks without branches: variables of bytes, and a world, with the exception of the
-- processor, that only the operations with side effects change. What an operation computes and does
-- is a parameter. As in `interpret_block_unchecked` of icicle-cpu/src/cpu.rs, a run stops behind an
-- operation that leaves an exception.
use icicle_emu.Base.{
  ℕ, zero, suc, ◌-◌, ◌/◌, ◌%◌, ◌≡◌, Bool, true, false, ◌&&◌, ◌||◌, List, [], ◌∷◌, ◌==◌,
  if◌then◌else◌,
}
use icicle_emu.Optimizer.LiveBytes.Laws.{in_range}
use icicle_emu.Pcode.Op.{Op, has_side_effects}
use icicle_emu.Pcode.Var.{VarNode, Value}
use icicle_emu.Pcode.Block.{Instruction, first, second}

-- The bytes of every variable.
abbrev pub Vars : Type 0
Vars = ℕ → ℕ → ℕ

abbrev pub read_bytes : Vars → ℕ → ℕ → ℕ → List ℕ
read_bytes s id offset zero = []
read_bytes s id offset (suc size) = s id offset ∷ read_bytes s id (suc offset) size

abbrev pub const_bytes : ℕ → ℕ → List ℕ
const_bytes zero x = []
const_bytes (suc size) x = x % 256 ∷ const_bytes size (x / 256)

abbrev pub read : Vars → Value → List ℕ
read s (Value.var v) = read_bytes s v.id v.offset v.size
read s (Value.const x size) = const_bytes size x

-- Byte `k` of variable `id` belongs to `v`.
abbrev pub covers : VarNode → ℕ → ℕ → Bool
covers v id k = id == v.id && in_range v.size v.offset k

abbrev pub write : Vars → VarNode → (ℕ → ℕ) → Vars
write s v bytes id k = if covers v id k then bytes (k - v.offset) else s id k

-- How a run of a block ends: behind its last operation, or behind the one that raised an exception.
pub data Run (W : Type 0) : Type 0 where
  completed stopped : Vars × W → Run W

abbrev pub unless_raised : {W : Type 0} → Bool → Vars × W → Run W → Run W
unless_raised true s rest = Run.stopped s
unless_raised false s rest = rest

-- Operations without side effects change the world at most by raising an exception.
abbrev pub IsPure : {W : Type 0} → (W → Bool) → (Op → W → List ℕ → List ℕ → W) → Type 0
IsPure raised effect =
    (op : Op) (w : _) (a b : List ℕ)
    → (if has_side_effects op || raised (effect op w a b) then w else effect op w a b) ≡ w

-- `raised` says whether the exception of the world is set.
module _ {W : Type 0} (raised : W → Bool) (result : Op → W → List ℕ → List ℕ → ℕ → ℕ)
    (effect : Op → W → List ℕ → List ℕ → W) where
  unfoldable pub execute : Instruction → Vars × W → Vars × W
  unfolding first second
  execute i (s, w) =
      let a = read s (first i.inputs) in
      let b = read s (second i.inputs) in (write s i.output (result i.op w a b), effect i.op w a b)

  unfoldable pub run : List Instruction → Vars × W → Run W
  unfolding execute
  run [] s = Run.completed s
  run (i ∷ is) s = let s' : Vars × W = execute i s in unless_raised (raised s'.1) s' (run is s')
