-- ===== src/Sleigh/Instruction.antt =====
-- `Instruction` and `DecodedConstructor` of sleigh/sleigh-runtime/src/decoder.rs, and `Constructor`,
-- `DecodeAction` and the tables of `SleighData` that decoding reads, of lib.rs in the same folder. `none`
-- is a panic.
use icicle_emu.Base.{
  ℕ, ◌-◌, Bool, true, false, Option, none, some, ◌>>=◌, ◌⊎◌, inl, inr, List, [], ◌++◌, leb,
  if◌then◌else◌, length, get_elem?, replicate,
}
use icicle_emu.Sleigh.Expr.{PatternExprOp}
use icicle_emu.Sleigh.Field.{Field, Token}
use icicle_emu.Sleigh.Decoder.{ContextModValue}
use icicle_emu.Sleigh.Matcher.{SequentialMatcher}

pub data EvalKind : Type 0 where
  context_field : Field → EvalKind
  token_field : Token → Field → EvalKind

pub data DecodeAction : Type 0 where
  modify_context save_context : Field → ℕ × ℕ → DecodeAction
  eval : ℕ → EvalKind → DecodeAction
  subtable : ℕ → ℕ → DecodeAction
  next_token : ℕ → DecodeAction
  group_start group_end expand_start expand_end : DecodeAction

-- The fields that decoding reads.
pub record Constructor : Type 0 where
  pub decode_actions : ℕ × ℕ
  pub fields : ℕ × ℕ
  pub delay_slot : Bool
  pub subtables : ℕ

pub record SleighData : Type 0 where
  pub matchers : List SequentialMatcher
  pub constructors : List Constructor
  pub decode_actions : List DecodeAction
  pub context_disasm_expr : List (PatternExprOp ContextModValue)

pub record DecodedConstructor : Type 0 where
  pub id : ℕ
  pub locals : ℕ × ℕ
  pub subtables : ℕ × ℕ
  pub offset : ℕ
  pub len : ℕ

abbrev pub default_constructor : DecodedConstructor
default_constructor = record { id = 0; locals = (0, 0); subtables = (0, 0); offset = 0; len = 0 }

unfoldable pub invalid_constructor : SleighData → Option DecodedConstructor
invalid_constructor sleigh =
    if leb 1 (length sleigh.constructors)
    then some (record (default_constructor) { id = length sleigh.constructors - 1 })
    else none

pub record Instruction : Type 0 where
  pub locals : List ℕ
  pub subtables : List DecodedConstructor
  pub delay_slot : Option DecodedConstructor
  pub inst_start : ℕ
  pub inst_next : ℕ
  pub last_subtable : ℕ

abbrev pub reserve_locals : Instruction → ℕ → (ℕ × ℕ) × Instruction
reserve_locals inst count =
    let locals = inst.locals ++ replicate count 0 in
    ((length inst.locals, length locals), record inst { locals = locals })

abbrev pub reserve_subtables : Instruction → ℕ → (ℕ × ℕ) × Instruction
reserve_subtables inst count =
    let subtables = inst.subtables ++ replicate count default_constructor in
    ((length inst.subtables, length subtables), record inst { subtables = subtables })

-- `init`, with the index of the first subtable.
abbrev pub init : Instruction → (ℕ × ℕ) × Instruction
init inst =
    reserve_subtables
      (record inst { locals = []; subtables = []; delay_slot = none; last_subtable = 0 }) 1

-- `Err` is `inl`, with a second delay slot.
abbrev pub reserve_for :
    Instruction → ℕ → Constructor → Unit {0} ⊎ (DecodedConstructor × Instruction)
reserve_for inst id c =
    let (locals, with_locals) = reserve_locals inst (c.fields.1 - c.fields.0) in
    let (subtables, with_subtables) = reserve_subtables with_locals c.subtables in
    inr (
      record { id = id; locals = locals; subtables = subtables; offset = 0; len = 0 },
      with_subtables,
    )

abbrev pub with_delay_slot :
    Instruction
    → ℕ
    → Constructor
    → Bool
    → Option DecodedConstructor
    → Unit {0} ⊎ (DecodedConstructor × Instruction)
with_delay_slot inst id c false slot = reserve_for inst id c
with_delay_slot inst id c true none =
    reserve_for (record inst { delay_slot = some default_constructor }) id c
with_delay_slot inst id c true (some _) = inl tt

unfoldable pub alloc_constructor :
    SleighData → Instruction → ℕ → Option (Unit {0} ⊎ (DecodedConstructor × Instruction))
alloc_constructor sleigh inst id = do
  c ← get_elem? sleigh.constructors id
  if leb c.fields.0 c.fields.1
      then some (with_delay_slot inst id c c.delay_slot inst.delay_slot)
      else none
