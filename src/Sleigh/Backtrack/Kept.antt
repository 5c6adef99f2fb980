-- ===== src/Sleigh/Backtrack/Kept.antt =====
-- What decoding a subtable leaves, and that the actions of a constructor keep it so.
use icicle_emu.Base.{
  ◌+◌, ◌||◌, length, ltb, set, ◌≤◌, length-set, arith, ℕ, max, ◌≡◌, Bool, true, false, not, ◌&&◌,
  Option, none, some, ◌>>=◌, ◌⊎◌, List, [], ◌∷◌, leb, ◌==◌, if◌then◌else◌,
}
use icicle_emu.Mem.Mmu.{Outcome}
use icicle_emu.Sleigh.Field.{Field, extract}
use icicle_emu.Sleigh.Field
use icicle_emu.Sleigh.Decoder.{Decoder}
use icicle_emu.Sleigh.Instruction.{DecodeAction, DecodedConstructor, Instruction}
use icicle_emu.Sleigh.Decode.{
  Ran, Subtable, save_context, save_for, set_within, after_decoder, after_locals, after_subtables,
  after_subtable, end_group, then_run,
}
use icicle_emu.Sleigh.Backtrack.{Tried, after_actions}

-- The actions have a subtable.
abbrev pub is_subtable : DecodeAction → Bool
is_subtable (DecodeAction.subtable _ _) = true
is_subtable (DecodeAction.modify_context _ _) = false
is_subtable (DecodeAction.save_context _ _) = false
is_subtable (DecodeAction.eval _ _) = false
is_subtable (DecodeAction.next_token _) = false
is_subtable DecodeAction.group_start = false
is_subtable DecodeAction.group_end = false
is_subtable DecodeAction.expand_start = false
is_subtable DecodeAction.expand_end = false

abbrev pub has_subtable : List DecodeAction → Bool
has_subtable [] = false
has_subtable (action ∷ actions) = is_subtable action || has_subtable actions

-- The decoder is where it was, with the same context.
abbrev pub IsRestored : Decoder → Decoder → Type 0
IsRestored d d' =
    (d'.offset ≡ d.offset)
    × (d'.next_offset ≡ d.next_offset)
    × (d'.context ≡ d.context)
    × (d'.global_context ≡ d.global_context)

pub if-at {ℓ} :
    {A : Type 0} (P : A → Type ℓ) (b : Bool) (x y : A) → P x → P y → P (if b then x else y)
if-at P true x y h k = h
if-at P false x y h k = k

-- Backtracking stays allowed, the limit `m` of subtables stays, and there are `n` subtables or more.
module _ (m : ℕ) where
  abbrev pub Keeps : ℕ → Decoder → Instruction → Type 0
  Keeps n d inst =
      (d.allow_backtracking ≡ true) × (d.max_subtables ≡ m) × (n ≤ length inst.subtables)

  abbrev pub AllKept : ℕ → Instruction → Option Decoder → Type 0
  AllKept n inst none = Unit {0}
  AllKept n inst (some d) = Keeps n d inst

  abbrev pub RanKept : ℕ → Ran → Type 0
  RanKept n (Ran.finished d inst next) = Keeps n d inst
  RanKept n (Ran.backtracked d inst) = Keeps n d inst
  RanKept n Ran.panicked = Unit {0}
  RanKept n Ran.out_of_fuel = ⊥

  abbrev pub TriedKept : ℕ → Tried → Type 0
  TriedKept n (Outcome.returned (c, d, inst)) = Keeps n d inst
  TriedKept n Outcome.panicked = Unit {0}
  TriedKept n Outcome.out_of_fuel = ⊥

  -- Decoding panics, or returns and keeps this, with the decoder restored where it fails.
  abbrev pub IsDecoded : ℕ → Decoder → Subtable → Type 0
  IsDecoded n d (Outcome.returned (c, d', inst)) =
      Keeps n d' inst × ((d'.is_valid ≡ true) ⊎ IsRestored d d')
  IsDecoded n d Outcome.panicked = Unit {0}
  IsDecoded n d Outcome.out_of_fuel = ⊥

  pub bind-AllKept :
      {A : Type 0} (n : ℕ) (inst : Instruction) (o : Option A) (f : A → Option Decoder)
      → ((a : A) → AllKept n inst (f a))
      → AllKept n inst (o >>= f)
  bind-AllKept n inst none f h = tt
  bind-AllKept n inst (some a) f h = h a

  pub after_decoder-RanKept :
      (n : ℕ) (o : Option Decoder) (inst : Instruction) (next : ℕ)
      → AllKept n inst o
      → RanKept n (after_decoder o inst next)
  after_decoder-RanKept n none inst next h = tt
  after_decoder-RanKept n (some d) inst next h = h

  pub after_locals-RanKept :
      (n : ℕ) (o : Option (List ℕ)) (d : Decoder) (inst : Instruction) (next : ℕ)
      → Keeps n d inst
      → RanKept n (after_locals o d inst next)
  after_locals-RanKept n none d inst next h = tt
  after_locals-RanKept n (some l) d inst next h = h

  -- An assignment to a subtable.
  after_set-RanKept :
      (n : ℕ) (b : Bool) (i : ℕ) (c : DecodedConstructor) (d : Decoder) (inst : Instruction)
      (next : ℕ)
      → Keeps n d inst
      → RanKept n (after_subtables (if b then some (set inst.subtables i c) else none) d inst next)
  after_set-RanKept n true i c d inst next (h, l, k) =
      (h, l, omega (arith, length-set inst.subtables i c))
  after_set-RanKept n false i c d inst next h = tt

  pub after_subtable-RanKept :
      (n : ℕ) (d : Decoder) (ctx : DecodedConstructor) (idx next : ℕ) (r : Subtable)
      → IsDecoded n d r
      → RanKept n (after_subtable ctx idx next r)
  after_subtable-RanKept n d ctx idx next (Outcome.returned (c, d', inst)) h =
      if-at (RanKept n) (not d'.is_valid && d'.allow_backtracking) (Ran.backtracked d' inst)
        (after_subtables (set_within inst.subtables ctx.subtables idx c) d' inst next) h.0
        (after_set-RanKept n
          (ltb (ctx.subtables.0 + idx) ctx.subtables.1
            && leb ctx.subtables.1 (length inst.subtables))
          (ctx.subtables.0 + idx) c d' inst next h.0)
  after_subtable-RanKept n d ctx idx next Outcome.panicked h = tt
  after_subtable-RanKept n d ctx idx next Outcome.out_of_fuel h = absurd h

  pub end_group-RanKept :
      (n : ℕ) (tokens : List (ℕ × ℕ)) (d : Decoder) (inst : Instruction) (next : ℕ)
      → Keeps n d inst
      → RanKept n (end_group tokens d inst next)
  end_group-RanKept n [] d inst next h = tt
  end_group-RanKept n ((o, p) ∷ tokens) d inst next h = h

  pub save_context-AllKept :
      (n : ℕ) (inst : Instruction) (d : Decoder) (field : Field) (value addr : ℕ)
      → Keeps n d inst
      → AllKept n inst (save_context d field value addr)
  save_context-AllKept n inst d field value addr h =
      if-at (AllKept n inst) (addr == d.base_addr) _ _
        (bind-AllKept n inst (Field.set field d.global_context value)
          (λ (c : ℕ). some (record d { global_context = c })) (λ (c : ℕ). h))
        (if-at (AllKept n inst) d.allow_any_addr_globalsets
          (some
            (record d { future_context_mods = save_for d.future_context_mods addr field value }))
          (some d) h h)

  pub then_run-RanKept :
      (n : ℕ) (r : Ran) (f : Decoder → Instruction → ℕ → Ran)
      → RanKept n r
      → ((d : Decoder) (inst : Instruction) (next : ℕ) → Keeps n d inst → RanKept n (f d inst next))
      → RanKept n (then_run r f)
  then_run-RanKept n (Ran.finished d inst next) f h k = k d inst next h
  then_run-RanKept n (Ran.backtracked d inst) f h k = h
  then_run-RanKept n Ran.panicked f h k = tt
  then_run-RanKept n Ran.out_of_fuel f h k = absurd h

  pub after_actions-TriedKept :
      (n : ℕ) (ctx : DecodedConstructor) (r : Ran) → RanKept n r → TriedKept n (after_actions ctx r)
  after_actions-TriedKept n ctx (Ran.finished d inst next) h =
      if-at (TriedKept n) (leb ctx.offset (max next d.next_offset)) _ Outcome.panicked h tt
  after_actions-TriedKept n ctx (Ran.backtracked d inst) h = h
  after_actions-TriedKept n ctx Ran.panicked h = tt
  after_actions-TriedKept n ctx Ran.out_of_fuel h = absurd h
