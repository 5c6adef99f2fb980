-- ===== src/Sleigh/Backtrack/Attempts.antt =====
-- Decoding one constructor: what its actions keep, where every constructor with a subtable reserves one.
use icicle_emu.Base.{
  ℕ, suc, ◌+◌, ◌≤◌, ◌≡◌, refl, Bool, true, false, not, ◌||◌, Option, none, some, ◌>>=◌, List, [],
  ◌∷◌, leb, if◌then◌else◌, length-append, length-replicate, replicate, get_elem?, arith,
}
use icicle_emu.Mem.Mmu.{Outcome}
use icicle_emu.Sleigh.Field.{Field, extract}
use icicle_emu.Sleigh.Field
use icicle_emu.Sleigh.Decoder.{Decoder}
use icicle_emu.Sleigh.Instruction.{
  DecodeAction, Constructor, SleighData, DecodedConstructor, Instruction, default_constructor,
  alloc_constructor, with_delay_slot, reserve_for,
}
use icicle_emu.Sleigh.Decode.{
  Subtable, eval_context_expr, eval_kind, save_context, set_within, run_action, run_actions,
}
use icicle_emu.Sleigh.Backtrack.{
  Tried, run_constructor, try_allocated, try_decode_constructor, decode_actions,
}
use icicle_emu.Sleigh.Backtrack.Kept.{
  is_subtable, has_subtable, Keeps, RanKept, TriedKept, IsDecoded, bind-AllKept,
  after_decoder-RanKept, after_locals-RanKept, after_subtable-RanKept, end_group-RanKept,
  save_context-AllKept, then_run-RanKept, after_actions-TriedKept,
}

-- A constructor with a subtable among its actions reserves one or more.
abbrev pub reserves_for : Option Constructor → Option (List DecodeAction) → Bool
reserves_for none actions = true
reserves_for (some c) none = true
reserves_for (some c) (some actions) = not (has_subtable actions) || leb 1 c.subtables

abbrev pub reserves : SleighData → ℕ → Bool
reserves sleigh id = reserves_for (get_elem? sleigh.constructors id) (decode_actions sleigh id)

module _ (m n : ℕ) (reserve : ℕ → ℕ) (sleigh : SleighData)
    (decode : Decoder → Instruction → ℕ → Subtable)
    (decodes : (k : ℕ) (d : Decoder) (inst : Instruction) (t : ℕ)
      → suc n ≤ k
      → Keeps m k d inst
      → IsDecoded m k d (decode d inst t)) where
  run_action-RanKept :
      (k : ℕ) (ctx : DecodedConstructor) (action : DecodeAction) (d : Decoder) (inst : Instruction)
      (next : ℕ)
      → (not (is_subtable action) || leb (suc n) k) ≡ true
      → Keeps m k d inst
      → RanKept m k (run_action reserve sleigh decode ctx action d inst next)
  run_action-RanKept k ctx (DecodeAction.modify_context field expr) d inst next s h =
      after_decoder-RanKept m k _ inst next (
        bind-AllKept m k inst (eval_context_expr reserve sleigh d expr) _ (λ (v : ℕ).
          bind-AllKept m k inst (Field.set field d.context v)
            (λ (c : ℕ). some (record d { context = c })) (λ (c : ℕ). h)))
  run_action-RanKept k ctx (DecodeAction.save_context field expr) d inst next s h =
      after_decoder-RanKept m k _ inst next (
        bind-AllKept m k inst (extract field d.context) _ (λ (v : ℕ).
          bind-AllKept m k inst (eval_context_expr reserve sleigh d expr) (save_context d field v)
            (λ (a : ℕ). save_context-AllKept m k inst d field v a h)))
  run_action-RanKept k ctx (DecodeAction.eval idx kind) d inst next s h =
      after_locals-RanKept m k (eval_kind d kind >>= set_within inst.locals ctx.locals idx) d inst
        next h
  run_action-RanKept k ctx (DecodeAction.subtable idx id) d inst next s h =
      after_subtable-RanKept m k d ctx idx next (decode d inst id)
        (decodes k d inst id (ground arith) h)
  run_action-RanKept k ctx (DecodeAction.next_token size) d inst next s h = h
  run_action-RanKept k ctx DecodeAction.group_start d inst next s h = h
  run_action-RanKept k ctx DecodeAction.group_end d inst next s h =
      end_group-RanKept m k d.token_stack d inst next h
  run_action-RanKept k ctx DecodeAction.expand_start d inst next s h = h
  run_action-RanKept k ctx DecodeAction.expand_end d inst next s h = h

  run_actions-RanKept :
      (k : ℕ) (ctx : DecodedConstructor) (actions : List DecodeAction) (d : Decoder)
      (inst : Instruction) (next : ℕ)
      → (not (has_subtable actions) || leb (suc n) k) ≡ true
      → Keeps m k d inst
      → RanKept m k (run_actions (run_action reserve sleigh decode ctx) actions d inst next)
  run_actions-RanKept k ctx [] d inst next s h = h
  run_actions-RanKept k ctx (action ∷ actions) d inst next s h =
      then_run-RanKept m k (run_action reserve sleigh decode ctx action d inst next) _
        (run_action-RanKept k ctx action d inst next (ground arith) h)
        (λ (d' : Decoder) (inst' : Instruction) (next' : ℕ) (h' : _).
          run_actions-RanKept k ctx actions d' inst' next' (ground arith) h')

  run_constructor-TriedKept :
      (k : ℕ) (c : Constructor) (actions : Option (List DecodeAction)) (ctx : DecodedConstructor)
      (d : Decoder) (inst : Instruction)
      → reserves_for (some c) actions ≡ true
      → k ≡ n + c.subtables
      → Keeps m k d inst
      → TriedKept m k (run_constructor (run_action reserve sleigh decode) actions ctx d inst)
  run_constructor-TriedKept k c none ctx d inst r e h = tt
  run_constructor-TriedKept k c (some actions) ctx d inst r e h =
      after_actions-TriedKept m k ctx _ (
        run_actions-RanKept k ctx actions (record d { next_offset = d.offset }) inst d.next_offset
          (ground arith) h)

  weaker : (k : ℕ) (t : Tried) → n ≤ k → TriedKept m k t → TriedKept m n t
  weaker k (Outcome.returned (c, d, inst)) l (a, b, h) = (a, b, omega arith)
  weaker k Outcome.panicked l h = tt
  weaker k Outcome.out_of_fuel l h = absurd h

  reserved-TriedKept :
      (c : Constructor) (actions : Option (List DecodeAction)) (id : ℕ) (d : Decoder)
      (old inst : Instruction)
      → reserves_for (some c) actions ≡ true
      → Keeps m n d inst
      → TriedKept m n (
          try_allocated
            (run_action reserve sleigh decode)
            actions
            d
            old
            (some (reserve_for inst id c)))
  reserved-TriedKept c actions id d old inst r (a, b, h) =
      weaker (n + c.subtables) _ (omega arith) (
        run_constructor-TriedKept (n + c.subtables) c actions _ d _ r refl (
          a,
          b,
          omega (
            arith,
            length-append inst.subtables (replicate c.subtables default_constructor),
            length-replicate c.subtables default_constructor,
          ),
        ))

  slot-TriedKept :
      (c : Constructor) (actions : Option (List DecodeAction)) (id : ℕ) (d : Decoder)
      (inst : Instruction) (b : Bool) (slot : Option DecodedConstructor)
      → reserves_for (some c) actions ≡ true
      → Keeps m n d inst
      → TriedKept m n (
          try_allocated
            (run_action reserve sleigh decode)
            actions
            d
            inst
            (some (with_delay_slot inst id c b slot)))
  slot-TriedKept c actions id d inst false slot r h =
      reserved-TriedKept c actions id d inst inst r h
  slot-TriedKept c actions id d inst true none r h =
      reserved-TriedKept c actions id d inst (record inst { delay_slot = some default_constructor })
        r h
  slot-TriedKept c actions id d inst true (some _) r h = h

  if-TriedKept :
      (c : Constructor) (actions : Option (List DecodeAction)) (id : ℕ) (d : Decoder)
      (inst : Instruction) (b : Bool)
      → reserves_for (some c) actions ≡ true
      → Keeps m n d inst
      → TriedKept m n (
          try_allocated
            (run_action reserve sleigh decode)
            actions
            d
            inst
            (if b then some (with_delay_slot inst id c c.delay_slot inst.delay_slot) else none))
  if-TriedKept c actions id d inst true r h =
      slot-TriedKept c actions id d inst c.delay_slot inst.delay_slot r h
  if-TriedKept c actions id d inst false r h = tt

  allocated-TriedKept :
      (o : Option Constructor) (actions : Option (List DecodeAction)) (id : ℕ) (d : Decoder)
      (inst : Instruction)
      → reserves_for o actions ≡ true
      → Keeps m n d inst
      → TriedKept m n (
          try_allocated (run_action reserve sleigh decode) actions d inst (
            o >>= λ (c : Constructor).
            if leb c.fields.0 c.fields.1
            then some (with_delay_slot inst id c c.delay_slot inst.delay_slot)
            else none))
  allocated-TriedKept none actions id d inst r h = tt
  allocated-TriedKept (some c) actions id d inst r h =
      if-TriedKept c actions id d inst (leb c.fields.0 c.fields.1) r h

  pub try_decode_constructor-TriedKept :
      (d : Decoder) (inst : Instruction) (id : ℕ)
      → reserves sleigh id ≡ true
      → Keeps m n d inst
      → TriedKept m n (try_decode_constructor reserve sleigh decode d inst id)
  unfolding try_decode_constructor alloc_constructor
  try_decode_constructor-TriedKept d inst id r h =
      allocated-TriedKept (get_elem? sleigh.constructors id) (decode_actions sleigh id) id d inst r
        h
