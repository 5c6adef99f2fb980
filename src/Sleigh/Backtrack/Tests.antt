-- ===== src/Sleigh/Backtrack/Tests.antt =====
-- Decoding an instruction whose first alternative fails.
use icicle_emu.Base.{zero, suc, arith, ℕ, ◌≡◌, refl, Bool, true, false, Option, none, some, [], ◌∷◌}
use icicle_emu.Mem.Mmu.{Outcome}
use icicle_emu.Sleigh.Decoder.{Decoder, new, set_inst, get_raw_token}
use icicle_emu.Sleigh.Matcher.{Pattern, MatchCase, match_constructor, matches_case, matches_pattern}
use icicle_emu.Sleigh.Instruction.{
  DecodeAction, SleighData, DecodedConstructor, Instruction, invalid_constructor, alloc_constructor,
}
use icicle_emu.Sleigh.Decode.{Subtable}
use icicle_emu.Sleigh.Backtrack.{decode_subtable, try_decode_constructor}
use icicle_emu.Sleigh.Backtrack.Kept.{IsDecoded}
use icicle_emu.Sleigh.Backtrack.Attempts.{reserves}
use icicle_emu.Sleigh.Backtrack.Restored.{decode_subtable-IsDecoded}

abbrev same_size : ℕ → ℕ
same_size n = n

abbrev any_value : Pattern
any_value = record { bits = 0; mask = 0 }

abbrev always : ℕ → MatchCase
always id = record {
  constructor_id = id;
  rank = 0;
  token = any_value;
  context = any_value;
  constraints = [];
}

-- Constructor 0 has a delay slot and a subtable that no constructor matches; constructor 1 has neither.
abbrev two_alternatives : SleighData
two_alternatives = record {
  matchers =
      record { cases = always 0 ∷ always 1 ∷ []; token_size = 1 }
      ∷ record { cases = []; token_size = 1 }
      ∷ [];
  constructors =
      record { decode_actions = (0, 2); fields = (0, 0); delay_slot = true; subtables = 1 }
      ∷ record { decode_actions = (2, 3); fields = (0, 0); delay_slot = false; subtables = 0 }
      ∷ record { decode_actions = (0, 0); fields = (0, 0); delay_slot = false; subtables = 0 }
      ∷ [];
  decode_actions =
      DecodeAction.next_token 2 ∷ DecodeAction.subtable 0 1 ∷ DecodeAction.next_token 1 ∷ [];
  context_disasm_expr = [];
}

abbrev at_start : Decoder
at_start = set_inst (record (new) { is_valid = true }) 0x1000 (0x35 ∷ 0x80 ∷ [])

abbrev empty_inst : Instruction
empty_inst = record {
  locals = [];
  subtables = [];
  delay_slot = none;
  inst_start = 0;
  inst_next = 0;
  last_subtable = 0;
}

two_alternatives-reserves : (id : ℕ) → reserves two_alternatives id ≡ true
two_alternatives-reserves zero = refl
two_alternatives-reserves (suc zero) = refl
two_alternatives-reserves (suc (suc zero)) = refl
two_alternatives-reserves (suc (suc (suc id))) = refl

decode_subtable-IsDecoded_example :
    IsDecoded 64 0 at_start (decode_subtable same_size two_alternatives 66 at_start empty_inst 0)
decode_subtable-IsDecoded_example =
    decode_subtable-IsDecoded same_size two_alternatives 66 at_start empty_inst 0
      two_alternatives-reserves refl (omega arith)

-- The constructor, the length of the instruction, whether it is valid and has a delay slot.
abbrev summary : Subtable → Option (ℕ × ℕ × Bool × Bool)
summary (Outcome.returned (c, d, inst)) =
    some (c.id, d.next_offset, d.is_valid, has_slot inst.delay_slot)
  where
    has_slot : Option DecodedConstructor → Bool
    has_slot none = false
    has_slot (some _) = true
summary Outcome.panicked = none
summary Outcome.out_of_fuel = none

-- The delay slot of the alternative that failed stays.
slot_stays :
    summary (decode_subtable same_size two_alternatives 3 at_start empty_inst 0)
    ≡ some (1, 1, true, true)
unfolding decode_subtable try_decode_constructor alloc_constructor invalid_constructor
    match_constructor get_raw_token matches_case matches_pattern
slot_stays = refl
