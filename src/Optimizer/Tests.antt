-- ===== src/Optimizer/Tests.antt =====
-- Runs of the optimizer of icicle-cpu/src/lifter/optimize.rs, and its theorems at concrete inputs.
use icicle_emu.Base.{
  ◌==◌, ◌||◌, Bool, ℕ, ◌+◌, ◌≡◌, refl, arith, true, false, List, [], ◌∷◌, ◌%◌, if◌then◌else◌,
}
use icicle_emu.Pcode.Op.{Op, has_side_effects}
use icicle_emu.Pcode.Var.{VarNode}
use icicle_emu.Pcode.Block.{Instruction, Inputs, no_var, first}
use icicle_emu.Optimizer.DeadStores.{live_tmps_from, dead_store_elimination, persists}
use icicle_emu.Optimizer.DeadStores.Machine.{Vars, IsPure, Run, run}
use icicle_emu.Optimizer.DeadStores.Straight.{used, IsStraight}
use icicle_emu.Optimizer.DeadStores.Sound.{run-dead_store_elimination}

abbrev reg : ℕ → VarNode
reg id = record { id = id; offset = 0; size = 8 }

abbrev instruction : Op → Inputs → VarNode → Instruction
instruction op inputs output = record { op = op; inputs = inputs; output = output }

abbrev marker : Instruction
marker = instruction Op.instruction_marker (Inputs.const_const 4096 8 4 8) no_var

abbrev kept_part : List Instruction
kept_part =
    instruction Op.int_add (Inputs.var_const (reg 2) 1 8) (reg 1)
    ∷ instruction (Op.store 0) (Inputs.var_var (reg 2) (reg 1)) no_var
    ∷ []

-- Register 1 is written twice.
abbrev block : List Instruction
block = marker ∷ instruction Op.copy (Inputs.var_const (reg 2) 0 8) (reg 1) ∷ kept_part

dead_store_elimination_test : dead_store_elimination true (λ id. false) block ≡ marker ∷ kept_part
unfolding dead_store_elimination
dead_store_elimination_test = refl

-- The world is what the last operation with side effects had as its second operand.
abbrev last_operand : Op → List ℕ → List ℕ → List ℕ → List ℕ
last_operand op w a b = if has_side_effects op then b else w

-- An operand that starts with 255 is taken for an exception.
abbrev starts_full : List ℕ → Bool
starts_full [] = false
starts_full (x ∷ _) = x == 255

last_operand-IsPure : IsPure starts_full last_operand
last_operand-IsPure op w a b = kept (has_side_effects op) w b
  where
    kept :
        (c : Bool) (w b : List ℕ)
        → (if c || starts_full (if c then b else w) then w else (if c then b else w)) ≡ w
    kept true w b = refl
    kept false w b = ground arith

abbrev first_byte : List ℕ → ℕ
first_byte [] = 0
first_byte (x ∷ _) = x

abbrev sum_byte : Op → List ℕ → List ℕ → List ℕ → ℕ → ℕ
sum_byte op w a b k = (first_byte a + first_byte b) % 256

block-IsStraight :
    IsStraight true
      (persists (λ id. false) (live_tmps_from (λ id. false) (λ id. false) block))
      block
unfolding IsStraight used live_tmps_from first
block-IsStraight = (
  refl,
  omega arith,
  tt,
  tt,
  λ j k. ground arith,
  (
    refl,
    omega arith,
    omega arith,
    tt,
    λ j k. ground arith,
    (
      refl,
      omega arith,
      omega arith,
      tt,
      λ j k. ground arith,
      (refl, omega arith, omega arith, omega arith, λ j k. ground arith, tt),
    ),
  ),
)

abbrev registers : Vars
registers id k = (id + k) % 256

abbrev state_of : Run (List ℕ) → Vars × List ℕ
state_of (Run.completed s) = s
state_of (Run.stopped s) = s

abbrev after : Vars × List ℕ
after = state_of (run starts_full sum_byte last_operand block (registers, []))

after-completed :
    run starts_full sum_byte last_operand block (registers, []) ≡ Run.completed (after.0, after.1)
unfolding run has_side_effects
after-completed = refl

run-dead_store_elimination_example :
    (t : Vars) × (run starts_full sum_byte last_operand
        (dead_store_elimination true (λ id. false) block)
        (registers, [])
      ≡ Run.completed (t, after.1))
    × (after.0 1 3 ≡ t 1 3)
run-dead_store_elimination_example =
    run-dead_store_elimination starts_full sum_byte last_operand last_operand-IsPure true
      (λ id. false) block registers after.0 [] after.1 block-IsStraight after-completed 1 3
      (omega arith) refl
