-- ===== src/Optimizer/DeadStores.antt =====
-- `DeadStoreDetector` and `dead_store_elimination` of icicle-cpu/src/lifter/optimize.rs. A hash map is a
-- function to an `Option`, a hash set a Boolean function, and the set of dead instructions a list of
-- flags, one for each instruction, that tell those to keep.
pub mod Machine
pub mod Steps
pub mod Straight
pub mod Sound
use icicle_emu.Base.{
  ℕ, zero, suc, ◌+◌, ◌^◌, Bool, true, false, not, ◌&&◌, ◌||◌, Option, none, some, List, [], ◌∷◌,
  bit_or, ◌==◌, ltb, leb, if◌then◌else◌,
}
use icicle_emu.Optimizer.LiveBytes
use icicle_emu.Optimizer.LiveBytes.{add, subtract, any_set, is_empty}
use icicle_emu.Pcode.Op.{Op, has_side_effects}
use icicle_emu.Pcode.Var.{VarNode, Value}
use icicle_emu.Pcode.Block.{Inputs, Instruction, first, second, is_marker}

abbrev pub ByteMap : Type 0
ByteMap = ℕ → Option ℕ

abbrev pub no_bytes : ByteMap
no_bytes id = none

abbrev pub update : ByteMap → ℕ → Option ℕ → ByteMap
update m id v j = if j == id then v else m j

-- The maps of the detector that change in the scan.
pub record Liveness : Type 0 where
  pub last_write : ByteMap
  pub live_reads : ByteMap
  pub live_across_block : ByteMap

abbrev pub no_liveness : Liveness
no_liveness = record { last_write = no_bytes; live_reads = no_bytes; live_across_block = no_bytes }

abbrev pub union : Option ℕ → Option ℕ → Option ℕ
union a none = a
union none (some e) = some e
union (some x) (some e) = some (bit_or x e)

abbrev pub is_branch : Op → Bool
is_branch (Op.pcode_branch _) = true
is_branch (Op.pcode_label _) = true
is_branch (Op.branch _) = true
is_branch _ = false

abbrev pub is_label : Op → Bool
is_label (Op.pcode_label _) = true
is_label _ = false

-- The first loop: the variables that are read in a part of the block before they are written there.
abbrev pub read_unwritten : (ℕ → Bool) → Value → ℕ → Bool
read_unwritten written (Value.var x) id = id == x.id && not (written x.id)
read_unwritten written (Value.const _ _) id = false

unfoldable pub live_tmps_from : (ℕ → Bool) → (ℕ → Bool) → List Instruction → ℕ → Bool
unfolding first second
live_tmps_from written live [] id = live id
live_tmps_from written live (i ∷ r) id =
    let next =
      live_tmps_from (λ j. if is_label i.op then false else (j == i.output.id || written j))
        (λ j.
          if is_label i.op
          then live j
          else (live j
              || read_unwritten written (first i.inputs) j
              || read_unwritten written (second i.inputs) j))
        r id in
    next

-- A change of block, and of instruction.
abbrev pub at_branch : Liveness → Liveness
at_branch d =
    let reads : ByteMap = λ id. union (d.live_reads id) (d.live_across_block id) in
    record { last_write = no_bytes; live_reads = reads; live_across_block = reads }

abbrev pub at_boundary : Bool → Op → Liveness → Liveness
at_boundary single op d =
    let d = if is_branch op then at_branch d else d in
    if single && is_marker op then no_liveness else d

-- The part of a read that a write does not satisfy.
abbrev pub remaining : Option ℕ → VarNode → Option ℕ
remaining none output = none
remaining (some prev) output =
    let rest = subtract prev output in if is_empty rest then none else some rest

unfoldable pub overwrite : Liveness → VarNode → Liveness
unfolding subtract
overwrite d output = record d {
  live_reads = update d.live_reads output.id (remaining (d.live_reads output.id) output);
}

abbrev pub with_read : Option ℕ → VarNode → Option ℕ
with_read none var = some (LiveBytes.new var)
with_read (some set) var = some (add set var)

unfoldable pub mark_as_read : Liveness → VarNode → Liveness
unfolding add LiveBytes.new
mark_as_read d var = record d {
  live_reads = update d.live_reads var.id (with_read (d.live_reads var.id) var);
}

-- `VarNode::NONE`
abbrev pub is_none : VarNode → Bool
is_none var = var.id == 0 && var.offset == 0 && var.size == 0

unfoldable pub mark_input : Liveness → Value → Liveness
unfolding mark_as_read
mark_input d (Value.var var) = if is_none var then d else mark_as_read d var
mark_input d (Value.const _ _) = d

abbrev pub any_read : Option ℕ → VarNode → Bool
any_read none var = false
any_read (some read) var = any_set read var

-- `is_live` from the bytes that are written later, and the check of the reads.
abbrev pub by_write : Liveness → VarNode → Option ℕ → Bool × Liveness
by_write d var none =
    (true, record d { last_write = update d.last_write var.id (some (LiveBytes.new var)) })
by_write d var (some prev) =
    let merged = add prev var in
    if prev == merged
    then (any_read (d.live_reads var.id) var, d)
    else (true, record d { last_write = update d.last_write var.id (some merged) })

-- Ids from 2 ^ 15 on are negative.
abbrev pub should_persist : (ℕ → Bool) → ℕ → Bool
should_persist additional_tmps id = ltb 0 id && ltb id (2 ^ 15) && not (additional_tmps id)

module _ (additional_tmps live_tmps : ℕ → Bool) where
  abbrev pub persists : ℕ → Bool
  persists id = should_persist additional_tmps id || live_tmps id

  unfoldable pub is_live : Liveness → VarNode → Bool × Liveness
  unfolding add any_set LiveBytes.new
  is_live d var =
      if persists var.id
      then by_write d var (d.last_write var.id)
      else (any_read (d.live_reads var.id) var, d)

  -- One round of the scan: whether the instruction is kept.
  unfoldable pub step : Bool → Instruction → Liveness → Bool × Liveness
  unfolding is_live overwrite mark_input first second has_side_effects
  step single i d =
      let (live, d) = is_live (at_boundary single i.op d) i.output in
      if live || has_side_effects i.op
      then (true, mark_input (mark_input (overwrite d i.output) (first i.inputs)) (second i.inputs))
      else (false, d)

  -- The scan, from the last instruction to the first.
  unfoldable pub scan : Bool → List Instruction → List Bool × Liveness
  unfolding step
  scan single [] = ([], no_liveness)
  scan single (i ∷ r) =
      let (flags, d) = scan single r in let (keep, d) = step single i d in (keep ∷ flags, d)

abbrev pub select : List Bool → List Instruction → List Instruction
select [] is = []
select (f ∷ flags) [] = []
select (f ∷ flags) (i ∷ is) = if f then i ∷ select flags is else select flags is

unfoldable pub dead_store_elimination : Bool → (ℕ → Bool) → List Instruction → List Instruction
unfolding scan live_tmps_from
dead_store_elimination single additional_tmps is =
    select (scan additional_tmps (live_tmps_from (λ id. false) (λ id. false) is) single is).0 is
