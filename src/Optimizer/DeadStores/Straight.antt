-- ===== src/Optimizer/DeadStores/Straight.antt =====
-- Blocks without branches, and the bytes that the scan of icicle-cpu/src/lifter/optimize.rs needs of
-- the variables before an instruction.
use icicle_emu.Base.{
  ℕ, ◌+◌, ◌≤◌, ◌<◌, ◌≡◌, ◌∙◌, ap, arith, Bool, true, false, not, ◌&&◌, ◌||◌, List, [], ◌∷◌,
  Bool-cases, inl, inr,
}
use icicle_emu.Pcode.Op.{Op}
use icicle_emu.Pcode.Var.{Value}
use icicle_emu.Pcode.Block.{Instruction, first, second, is_marker}
use icicle_emu.Optimizer.DeadStores.{
  Liveness, ByteMap, is_branch, persists, is_live, overwrite, mark_input,
}
use icicle_emu.Optimizer.DeadStores.Machine.{covers}
use icicle_emu.Optimizer.DeadStores.Steps.{
  bits, uses, bits-overwrite, bits-mark_input, last_write-mark_input, live_reads-is_live,
  bits-last_write-is_live, unread-dropped, written-dropped,
}

-- Byte `k` of `j` is read before it is written.
unfoldable pub used : List Instruction → ℕ → ℕ → Bool
unfolding first second
used [] j k = false
used (i ∷ is) j k =
    let rest = used is j k in
    (not (covers i.output j k) && rest) || uses (first i.inputs) j k || uses (second i.inputs) j k

-- An operation that may read or write a variable other than its operands and its output: a select reads
-- the condition that it names, and a hook or a helper gets the whole processor.
abbrev pub is_opaque : Op → Bool
is_opaque (Op.select _) = true
is_opaque (Op.hook _) = true
is_opaque (Op.hook_if _) = true
is_opaque (Op.pcode_op _) = true
is_opaque _ = false

-- No branch, and none of these.
abbrev pub is_plain : Op → Bool
is_plain op = not (is_branch op) && not (is_opaque op)

abbrev pub Fits : Value → Type 0
Fits (Value.var v) = v.offset + v.size ≤ 64
Fits (Value.const _ _) = Unit

-- What is used before it is set after a marker that separates two instructions persists.
unfoldable pub IsStraight : Bool → (ℕ → Bool) → List Instruction → Type 0
unfolding first second used
IsStraight single persistent [] = Unit
IsStraight single persistent (i ∷ is) =
    (is_plain i.op ≡ true)
    × (i.output.offset + i.output.size ≤ 64)
    × Fits (first i.inputs)
    × Fits (second i.inputs)
    × ((j k : ℕ) → (single && is_marker i.op && used is j k && not (persistent j)) ≡ false)
    × IsStraight single persistent is

module _ (additional_tmps live_tmps : ℕ → Bool) where
  -- Byte `k` of `j` matters before an instruction.
  abbrev pub needed : Liveness → ℕ → ℕ → Bool
  needed d j k =
      bits (d.live_reads j) k
      || (persists additional_tmps live_tmps j && not (bits (d.last_write j) k))

  -- The liveness before an instruction that is kept.
  abbrev pub after_kept : Instruction → Liveness → Liveness
  after_kept i d =
      mark_input
        (mark_input (overwrite (is_live additional_tmps live_tmps d i.output).1 i.output)
          (first i.inputs))
        (second i.inputs)

  pub live_reads-after_kept :
      (i : Instruction) (d : Liveness) (j k : ℕ)
      → i.output.offset + i.output.size ≤ 64
      → k < 64
      → bits ((after_kept i d).live_reads j) k ≡ (
          (bits (d.live_reads j) k && not (covers i.output j k))
          || uses (first i.inputs) j k
          || uses (second i.inputs) j k)
  live_reads-after_kept i d j k f h =
      let d1 = (is_live additional_tmps live_tmps d i.output).1 in
      let d2 = overwrite d1 i.output in
      bits-mark_input (mark_input d2 (first i.inputs)) (second i.inputs) j k
      ∙ ap (λ b. b || uses (second i.inputs) j k)
          (bits-mark_input d2 (first i.inputs) j k
            ∙ ap (λ b. b || uses (first i.inputs) j k)
                (bits-overwrite d1 i.output j k f h
                  ∙ ap (λ (m : ByteMap). bits (m j) k && not (covers i.output j k))
                      (live_reads-is_live additional_tmps live_tmps d i.output)))
      ∙ ground arith

  pub needed-after_kept :
      (i : Instruction) (d : Liveness) (j k : ℕ)
      → i.output.offset + i.output.size ≤ 64
      → k < 64
      → needed (after_kept i d) j k ≡ (
          (needed d j k && not (covers i.output j k))
          || uses (first i.inputs) j k
          || uses (second i.inputs) j k)
  unfolding overwrite
  needed-after_kept i d j k f h =
      let d1 = (is_live additional_tmps live_tmps d i.output).1 in
      let d2 = overwrite d1 i.output in
      let reads = live_reads-after_kept i d j k f h in
      let same =
        last_write-mark_input (mark_input d2 (first i.inputs)) (second i.inputs)
        ∙ last_write-mark_input d2 (first i.inputs) in
      let writes = ap (λ (m : ByteMap). bits (m j) k) same in
      elim (Bool-cases (persists additional_tmps live_tmps j)) [
        | inl p ↦ ground (
          arith,
          reads,
          writes,
          bits-last_write-is_live additional_tmps live_tmps d i.output j k p,
        )
        | inr p ↦ ground (arith, reads)
      ]

  -- Nothing that an instruction which is dropped writes is needed.
  pub needed_dropped :
      (i : Instruction) (d : Liveness) (j k : ℕ)
      → (is_live additional_tmps live_tmps d i.output).0 ≡ false
      → covers i.output j k ≡ true
      → needed d j k ≡ false
  needed_dropped i d j k e c = elim (Bool-cases (persists additional_tmps live_tmps j)) [
    | inl p ↦ ground (
      arith,
      unread-dropped additional_tmps live_tmps d i.output j k e c,
      written-dropped additional_tmps live_tmps d i.output j k p e c,
    )
    | inr p ↦ ground (arith, unread-dropped additional_tmps live_tmps d i.output j k e c)
  ]
