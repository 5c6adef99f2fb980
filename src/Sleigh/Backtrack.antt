-- ===== src/Sleigh/Backtrack.antt =====
-- Decoding with backtracking: `try_decode_constructor` and `decode_subtable` of
-- sleigh/sleigh-runtime/src/decoder.rs. Fuel counts the subtables within each other, and the cases of a matcher bound
-- the alternatives of one.
pub mod Kept
pub mod Attempts
pub mod Restored
mod Tests
use icicle_emu.Base.{
  ℕ, zero, suc, ◌+◌, ◌-◌, ◌%◌, max, Bool, true, false, not, ◌&&◌, ◌||◌, Option, none, some, ◌>>=◌,
  ◌⊎◌, inl, inr, List, [], ◌∷◌, ltb, leb, if◌then◌else◌, length, get_elem?, drop,
}
use icicle_emu.Mem.Mmu.{Outcome}
use icicle_emu.Sleigh.Field.{extract}
use icicle_emu.Sleigh.Field
use icicle_emu.Sleigh.Decoder.{Decoder, get_range, get_token}
use icicle_emu.Sleigh.Matcher.{SequentialMatcher, match_constructor}
use icicle_emu.Sleigh.Instruction.{
  DecodeAction, SleighData, DecodedConstructor, Instruction, invalid_constructor, alloc_constructor,
}
use icicle_emu.Sleigh.Decode.{Ran, Subtable, eval_context_expr, run_action, run_actions}

abbrev pub decode_actions : SleighData → ℕ → Option (List DecodeAction)
decode_actions sleigh id = do
  c ← get_elem? sleigh.constructors id
  get_range sleigh.decode_actions c.decode_actions.0 c.decode_actions.1

-- What an alternative gives: no constructor where it failed.
abbrev pub Tried : Type 0
Tried = Outcome (Option DecodedConstructor × Decoder × Instruction)

-- The length is cut to a byte; an end before the start is a panic.
abbrev pub after_actions : DecodedConstructor → Ran → Tried
after_actions ctx (Ran.finished d inst next) =
    let next_offset = max next d.next_offset in
    if leb ctx.offset next_offset
    then Outcome.returned (
      some (record ctx { len = (next_offset - ctx.offset) % 256 }),
      record d { next_offset = next_offset },
      inst,
    )
    else Outcome.panicked
after_actions ctx (Ran.backtracked d inst) = Outcome.returned (none, d, inst)
after_actions ctx Ran.panicked = Outcome.panicked
after_actions ctx Ran.out_of_fuel = Outcome.out_of_fuel

abbrev pub run_constructor :
    (DecodedConstructor → DecodeAction → Decoder → Instruction → ℕ → Ran)
    → Option (List DecodeAction)
    → DecodedConstructor
    → Decoder
    → Instruction
    → Tried
run_constructor run none ctx d inst = Outcome.panicked
run_constructor run (some actions) ctx d inst =
    after_actions ctx
      (run_actions (run ctx) actions (record d { next_offset = d.offset }) inst d.next_offset)

abbrev pub try_allocated :
    (DecodedConstructor → DecodeAction → Decoder → Instruction → ℕ → Ran)
    → Option (List DecodeAction)
    → Decoder
    → Instruction
    → Option (Unit {0} ⊎ (DecodedConstructor × Instruction))
    → Tried
try_allocated run actions d inst none = Outcome.panicked
try_allocated run actions d inst (some (inl _)) = Outcome.returned (none, d, inst)
try_allocated run actions d inst (some (inr (ctx, allocated))) =
    run_constructor run actions (record ctx { offset = d.offset % 256 }) d allocated

unfoldable pub try_decode_constructor :
    (ℕ → ℕ)
    → SleighData
    → (Decoder → Instruction → ℕ → Subtable)
    → Decoder
    → Instruction
    → ℕ
    → Tried
unfolding alloc_constructor extract get_token eval_context_expr Field.set
try_decode_constructor reserve sleigh decode d inst id =
    try_allocated (run_action reserve sleigh decode) (decode_actions sleigh id) d inst
      (alloc_constructor sleigh inst id)

-- The state that the decoder goes back to.
abbrev pub restore : Decoder → Decoder → Decoder
restore initial d = record d {
  is_valid = true;
  offset = initial.offset;
  next_offset = initial.next_offset;
  token_stack = drop (length d.token_stack - length initial.token_stack) d.token_stack;
  context = initial.context;
  global_context = initial.global_context;
}

abbrev pub invalid : Option DecodedConstructor → Decoder → Instruction → Subtable
invalid none d inst = Outcome.panicked
invalid (some c) d inst = Outcome.returned (c, record d { is_valid = false }, inst)

-- The loop: `attempt` decodes a constructor, `failed` is what follows the loop.
module _ (search : Decoder → ℕ → Option (Option (ℕ × ℕ)))
    (attempt : Decoder → Instruction → ℕ → Tried) (failed : Decoder → Instruction → Subtable)
    (initial : Decoder) where
  abbrev pub go_back : Decoder → Instruction → (Decoder → Instruction → Subtable) → Subtable
  go_back d inst again =
      if d.allow_backtracking then again (restore initial d) inst else failed d inst

  abbrev pub after_attempt : Tried → (Decoder → Instruction → Subtable) → Subtable
  after_attempt (Outcome.returned (none, d, inst)) again = go_back d inst again
  after_attempt (Outcome.returned (some c, d, inst)) again =
      if d.is_valid || not d.allow_backtracking
      then Outcome.returned (c, d, inst)
      else go_back d inst again
  after_attempt Outcome.panicked again = Outcome.panicked
  after_attempt Outcome.out_of_fuel again = Outcome.out_of_fuel

  abbrev pub after_match :
      Option (Option (ℕ × ℕ))
      → Decoder
      → Instruction
      → (ℕ → Decoder → Instruction → Subtable)
      → Subtable
  after_match none d inst again = Outcome.panicked
  after_match (some none) d inst again = failed d inst
  after_match (some (some (id, next))) d inst again = after_attempt (attempt d inst id) (again next)

  abbrev pub decode_loop : ℕ → ℕ → Decoder → Instruction → Subtable
  decode_loop zero match_offset d inst = Outcome.out_of_fuel
  decode_loop (suc rounds) match_offset d inst =
      after_match (search d match_offset) d inst
        (λ (next : ℕ) (d' : Decoder) (inst' : Instruction). decode_loop rounds next d' inst')

abbrev pub in_table :
    (ℕ → ℕ)
    → SleighData
    → (Decoder → Instruction → ℕ → Subtable)
    → Decoder
    → Instruction
    → ℕ
    → Option SequentialMatcher
    → Subtable
in_table reserve sleigh decode d inst table none = Outcome.panicked
in_table reserve sleigh decode d inst table (some matcher) =
    decode_loop (match_constructor reserve matcher) (try_decode_constructor reserve sleigh decode)
      (λ (d' : Decoder) (inst' : Instruction).
        invalid (invalid_constructor sleigh) d' (record inst' { last_subtable = table }))
      d (suc (length matcher.cases)) 0 d inst

unfoldable pub decode_subtable : (ℕ → ℕ) → SleighData → ℕ → Decoder → Instruction → ℕ → Subtable
unfolding try_decode_constructor match_constructor invalid_constructor
decode_subtable reserve sleigh zero d inst table = Outcome.out_of_fuel
decode_subtable reserve sleigh (suc fuel) d inst table =
    if ltb d.max_subtables (length inst.subtables)
    then invalid (invalid_constructor sleigh) d inst
    else in_table reserve sleigh
        (λ (d' : Decoder) (inst' : Instruction) (t : ℕ).
          decode_subtable reserve sleigh fuel d' inst' t)
        d inst table (get_elem? sleigh.matchers table)
