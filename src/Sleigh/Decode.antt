-- ===== src/Sleigh/Decode.antt =====
-- The actions of a constructor, of `try_decode_constructor` and `eval_context_expr` in
-- sleigh/sleigh-runtime/src/decoder.rs. The stack of tokens has its top first. The stack for expressions is cleared
-- before each use, and stays as it is here.
use icicle_emu.Base.{
  ℕ, ◌+◌, max, Bool, true, false, not, ◌&&◌, Option, none, some, ◌>>=◌, List, [], ◌∷◌, ltb, leb,
  ◌==◌, if◌then◌else◌, length, set,
}
use icicle_emu.Mem.Mmu.{Outcome}
use icicle_emu.Sleigh.Expr.{Evaluated, eval_pattern_expr}
use icicle_emu.Sleigh.Field.{Field, extract}
use icicle_emu.Sleigh.Field
use icicle_emu.Sleigh.Decoder.{Decoder, get_range, get_token, eval_context_value}
use icicle_emu.Sleigh.Instruction.{
  EvalKind, DecodeAction, SleighData, DecodedConstructor, Instruction,
}

-- `expect` on the result of an expression.
abbrev pub expected : Evaluated → Option ℕ
expected (Evaluated.result r) = r
expected Evaluated.panicked = none
expected Evaluated.unreachable = none

unfoldable pub eval_context_expr : (ℕ → ℕ) → SleighData → Decoder → ℕ × ℕ → Option ℕ
unfolding eval_pattern_expr eval_context_value
eval_context_expr reserve sleigh d (start, end) = do
  expr ← get_range sleigh.context_disasm_expr start end
  expected (eval_pattern_expr reserve (eval_context_value d) expr)

-- `SaveContext` for another address: the value of the field is replaced, or added behind the others.
abbrev pub field_eq : Field → Field → Bool
field_eq a b =
    (a.offset == b.offset)
    && (a.num_bits == b.num_bits)
    && same a.signed b.signed
    && same a.hex b.hex
    && same_option a.attached b.attached
  where
    same : Bool → Bool → Bool
    same true b = b
    same false b = not b

    same_option : Option ℕ → Option ℕ → Bool
    same_option none none = true
    same_option none (some _) = false
    same_option (some _) none = false
    same_option (some a) (some b) = a == b

abbrev pub add_modification : List (Field × ℕ) → Field → ℕ → List (Field × ℕ)
add_modification [] field value = (field, value) ∷ []
add_modification ((existing, v) ∷ modifications) field value =
    let rest = add_modification modifications field value in
    if field_eq existing field then (existing, value) ∷ modifications else (existing, v) ∷ rest

abbrev pub save_for : List (ℕ × List (Field × ℕ)) → ℕ → Field → ℕ → List (ℕ × List (Field × ℕ))
save_for [] addr field value = (addr, (field, value) ∷ []) ∷ []
save_for ((a, modifications) ∷ entries) addr field value =
    let rest = save_for entries addr field value in
    if a == addr
    then (a, add_modification modifications field value) ∷ entries
    else (a, modifications) ∷ rest

abbrev pub save_context : Decoder → Field → ℕ → ℕ → Option Decoder
save_context d field value addr =
    if addr == d.base_addr
    then (do
      context ← Field.set field d.global_context value
      some (record d { global_context = context }))
    else if d.allow_any_addr_globalsets
    then some (record d { future_context_mods = save_for d.future_context_mods addr field value })
    else some d

abbrev pub eval_kind : Decoder → EvalKind → Option ℕ
eval_kind d (EvalKind.context_field field) = extract field d.context
eval_kind d (EvalKind.token_field token field) = do value ← get_token d token; extract field value

-- A write at an index of the part of a vector that belongs to the constructor.
abbrev pub set_within {ℓ} : {A : Type ℓ} → List A → ℕ × ℕ → ℕ → A → Option (List A)
set_within xs (start, end) idx value =
    if ltb (start + idx) end && leb end (length xs) then some (set xs (start + idx) value) else none

-- How the actions of a constructor end: with the offset of the next token, or where a subtable failed.
pub data Ran : Type 0 where
  finished : Decoder → Instruction → ℕ → Ran
  backtracked : Decoder → Instruction → Ran
  panicked out_of_fuel : Ran

abbrev pub after_decoder : Option Decoder → Instruction → ℕ → Ran
after_decoder none inst next = Ran.panicked
after_decoder (some d) inst next = Ran.finished d inst next

abbrev pub after_locals : Option (List ℕ) → Decoder → Instruction → ℕ → Ran
after_locals none d inst next = Ran.panicked
after_locals (some locals) d inst next = Ran.finished d (record inst { locals = locals }) next

abbrev pub after_subtables : Option (List DecodedConstructor) → Decoder → Instruction → ℕ → Ran
after_subtables none d inst next = Ran.panicked
after_subtables (some subtables) d inst next =
    Ran.finished d (record inst { subtables = subtables }) next

abbrev pub Subtable : Type 0
Subtable = Outcome (DecodedConstructor × Decoder × Instruction)

abbrev pub after_subtable : DecodedConstructor → ℕ → ℕ → Subtable → Ran
after_subtable ctx idx next (Outcome.returned (c, d, inst)) =
    if not d.is_valid && d.allow_backtracking
    then Ran.backtracked d inst
    else after_subtables (set_within inst.subtables ctx.subtables idx c) d inst next
after_subtable ctx idx next Outcome.panicked = Ran.panicked
after_subtable ctx idx next Outcome.out_of_fuel = Ran.out_of_fuel

abbrev pub end_group : List (ℕ × ℕ) → Decoder → Instruction → ℕ → Ran
end_group [] d inst next = Ran.panicked
end_group ((offset, next_offset) ∷ tokens) d inst next =
    Ran.finished (record d { token_stack = tokens; offset = offset; next_offset = next_offset })
      inst (max next d.next_offset)

abbrev pub run_action :
    (ℕ → ℕ)
    → SleighData
    → (Decoder → Instruction → ℕ → Subtable)
    → DecodedConstructor
    → DecodeAction
    → Decoder
    → Instruction
    → ℕ
    → Ran
run_action reserve sleigh decode ctx (DecodeAction.modify_context field expr) d inst next =
    after_decoder
      (do
        value ← eval_context_expr reserve sleigh d expr
        context ← Field.set field d.context value
        some (record d { context = context }))
      inst next
run_action reserve sleigh decode ctx (DecodeAction.save_context field expr) d inst next =
    after_decoder
      (do
        value ← extract field d.context
        addr ← eval_context_expr reserve sleigh d expr
        save_context d field value addr)
      inst next
run_action reserve sleigh decode ctx (DecodeAction.eval idx kind) d inst next =
    after_locals (do value ← eval_kind d kind; set_within inst.locals ctx.locals idx value) d inst
      next
run_action reserve sleigh decode ctx (DecodeAction.subtable idx id) d inst next =
    after_subtable ctx idx next (decode d inst id)
run_action reserve sleigh decode ctx (DecodeAction.next_token size) d inst next =
    Ran.finished (record d { next_offset = max d.next_offset (d.offset + size) }) inst
      (max next d.next_offset)
run_action reserve sleigh decode ctx DecodeAction.group_start d inst next =
    Ran.finished
      (record d { token_stack = (d.offset, d.next_offset) ∷ d.token_stack; offset = d.next_offset })
      inst next
run_action reserve sleigh decode ctx DecodeAction.group_end d inst next =
    end_group d.token_stack d inst next
run_action reserve sleigh decode ctx DecodeAction.expand_start d inst next =
    Ran.finished d inst next
run_action reserve sleigh decode ctx DecodeAction.expand_end d inst next = Ran.finished d inst next

abbrev pub then_run : Ran → (Decoder → Instruction → ℕ → Ran) → Ran
then_run (Ran.finished d inst next) f = f d inst next
then_run (Ran.backtracked d inst) f = Ran.backtracked d inst
then_run Ran.panicked f = Ran.panicked
then_run Ran.out_of_fuel f = Ran.out_of_fuel

abbrev pub run_actions :
    (DecodeAction → Decoder → Instruction → ℕ → Ran)
    → List DecodeAction
    → Decoder
    → Instruction
    → ℕ
    → Ran
run_actions run [] d inst next = Ran.finished d inst next
run_actions run (action ∷ actions) d inst next =
    then_run (run action d inst next)
      (λ (d' : Decoder) (inst' : Instruction) (next' : ℕ). run_actions run actions d' inst' next')
