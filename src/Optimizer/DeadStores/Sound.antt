-- ===== src/Optimizer/DeadStores/Sound.antt =====
-- What `dead_store_elimination` of icicle-cpu/src/lifter/optimize.rs preserves.
use icicle_emu.Base.{
  ℕ, suc, zero, ◌+◌, ◌≤◌, ◌<◌, ◌≡◌, refl, sym, ◌∙◌, ap, ap₂, arith, Bool, true, false, ◌&&◌, ◌||◌,
  List, [], ◌∷◌, Bool-cases, inl, inr, if◌then◌else◌,
}
use mathlib.Core.Path.{subst}
use icicle_emu.Pcode.Op.{Op, has_side_effects}
use icicle_emu.Pcode.Var.{VarNode, Value}
use icicle_emu.Pcode.Block.{Instruction, first, second, is_marker}
use icicle_emu.Optimizer.DeadStores.{
  Liveness, no_liveness, is_branch, persists, should_persist, is_live, at_boundary, scan, step,
  select, live_tmps_from, dead_store_elimination,
}
use icicle_emu.Optimizer.DeadStores.Machine.{
  Vars, IsPure, Run, unless_raised, covers, read, read_bytes, write, execute, run,
}
use icicle_emu.Optimizer.DeadStores.Steps.{bits, uses, unread-dropped, is_live-dropped}
use icicle_emu.Optimizer.DeadStores.Straight.{
  used, is_plain, Fits, IsStraight, needed, after_kept, live_reads-after_kept, needed-after_kept,
  needed_dropped,
}

-- Operands whose bytes are equal are read as equal.
read_bytes-equal :
    (s t : Vars) (id offset size : ℕ)
    → ((k : ℕ) → offset ≤ k → k < offset + size → s id k ≡ t id k)
    → read_bytes s id offset size ≡ read_bytes t id offset size
read_bytes-equal s t id offset zero h = refl
read_bytes-equal s t id offset (suc size) h =
    ap₂ (λ (x : ℕ) (l : List ℕ). x ∷ l) (h offset (omega arith) (omega arith))
      (read_bytes-equal s t id (suc offset) size (λ k p q. h k (omega arith) (omega arith)))

read-equal :
    (s t : Vars) (v : Value)
    → Fits v
    → ((j k : ℕ) → k < 64 → uses v j k ≡ true → s j k ≡ t j k)
    → read s v ≡ read t v
read-equal s t (Value.const x size) f h = refl
read-equal s t (Value.var v) f h =
    read_bytes-equal s t v.id v.offset v.size (λ k p q. h v.id k (omega arith) (ground arith))

write-equal :
    (s t : Vars) (v : VarNode) (b : ℕ → ℕ) (j k : ℕ)
    → (covers v j k ≡ false → s j k ≡ t j k)
    → write s v b j k ≡ write t v b j k
write-equal s t v b j k h = elim (Bool-cases (covers v j k)) [
  | inl c ↦ rw c refl
  | inr c ↦ rw c (h c)
]

unchanged : {A : Type 0} (c : Bool) (x y : A) → c ≡ false → (if c then x else y) ≡ x → y ≡ x
unchanged true x y h e = absurd (cc h)
unchanged false x y h e = e

module _ (additional_tmps live_tmps : ℕ → Bool) where
  abbrev persistent : ℕ → Bool
  persistent = persists additional_tmps live_tmps

  -- The states agree on what is needed.
  abbrev Agree : Liveness → Vars → Vars → Type 0
  Agree d s t = (j k : ℕ) → k < 64 → needed additional_tmps live_tmps d j k ≡ true → s j k ≡ t j k

  -- What an instruction that is kept needs: its operands, and what is needed of the rest.
  operand-Agree :
      (i : Instruction) (d : Liveness) (s t : Vars) (v : Value)
      → i.output.offset + i.output.size ≤ 64
      → Fits v
      → ((j k : ℕ)
          → uses v j k ≡ true
          → (uses (first i.inputs) j k || uses (second i.inputs) j k) ≡ true)
      → Agree (after_kept additional_tmps live_tmps i d) s t
      → read s v ≡ read t v
  operand-Agree i d s t v f g h a = read-equal s t v g (λ j k p q.
      a j k p (needed-after_kept additional_tmps live_tmps i d j k f p ∙ ground (arith, h j k q)))

  at_boundary-plain :
      (single : Bool) (op : Op) (d : Liveness)
      → is_plain op ≡ true
      → at_boundary single op d ≡ (if single && is_marker op then no_liveness else d)
  at_boundary-plain single op d h = let b : is_branch op ≡ false = ground arith in rw b refl

  -- Before a marker that separates two instructions, what persists is needed.
  needed-at_boundary :
      (single : Bool) (i : Instruction) (d : Liveness) (j k : ℕ)
      → is_plain i.op ≡ true
      → ((single && is_marker i.op) ≡ true → bits (d.live_reads j) k ≡ true → persistent j ≡ true)
      → needed additional_tmps live_tmps d j k ≡ true
      → needed additional_tmps live_tmps (at_boundary single i.op d) j k ≡ true
  needed-at_boundary single i d j k p c n =
      rw (at_boundary-plain single i.op d p) (elim (Bool-cases (single && is_marker i.op)) [
        | inl m ↦ rw m (elim (Bool-cases (bits (d.live_reads j) k)) [
          | inl b ↦ ground (arith, c m b)
          | inr b ↦ ground (arith, rw b at n)
        ])
        | inr m ↦ rw m n
      ])

  live_reads-at_boundary :
      (single : Bool) (i : Instruction) (d : Liveness) (j k : ℕ)
      → is_plain i.op ≡ true
      → bits ((at_boundary single i.op d).live_reads j) k ≡ true
      → bits (d.live_reads j) k ≡ true
  live_reads-at_boundary single i d j k p b = elim (Bool-cases (single && is_marker i.op)) [
    | inl m ↦ absurd (cc (rw m at (rw (at_boundary-plain single i.op d p) at b)))
    | inr m ↦ rw m at (rw (at_boundary-plain single i.op d p) at b)
  ]

  -- The scan knows of every byte that is used before it is set.
  scan-used :
      (single : Bool) (is : List Instruction) (j k : ℕ)
      → IsStraight single persistent is
      → k < 64
      → bits ((scan additional_tmps live_tmps single is).1.live_reads j) k ≡ true
      → used is j k ≡ true
  unfolding scan step IsStraight used
  scan-used single [] j k c h b = absurd (cc b)
  scan-used single (i ∷ is) j k (p, f, _, _, _, c) h b =
      let d = (scan additional_tmps live_tmps single is).1 in
      let d0 = at_boundary single i.op d in
      let later = scan-used single is j k c h in
      let now = live_reads-at_boundary single i d j k p in
      elim (Bool-cases
        ((is_live additional_tmps live_tmps d0 i.output).0 || has_side_effects i.op)) [
          | inl keep ↦
              let b : bits ((after_kept additional_tmps live_tmps i d0).live_reads j) k ≡ true =
                rw keep at b in
              let e = live_reads-after_kept additional_tmps live_tmps i d0 j k f h in
              elim (Bool-cases (bits (d0.live_reads j) k)) [
                | inl r ↦ ground (arith, later (now r), e, b)
                | inr r ↦ ground (arith, e, b)
              ]
          | inr drop ↦
              let gone : (is_live additional_tmps live_tmps d0 i.output).0 ≡ false = ground arith in
              let r : bits (d0.live_reads j) k ≡ true =
                ap (λ (d : Liveness). bits (d.live_reads j) k)
                  (sym (is_live-dropped additional_tmps live_tmps d0 i.output gone))
                ∙ rw drop at b in
              elim (Bool-cases (covers i.output j k)) [
                | inl c ↦
                    absurd (cc (unread-dropped additional_tmps live_tmps d0 i.output j k gone c))
                | inr c ↦ ground (arith, later (now r))
              ]
        ]

  module _ {W : Type 0} (raised : W → Bool) (result : Op → W → List ℕ → List ℕ → ℕ → ℕ)
      (effect : Op → W → List ℕ → List ℕ → W) where
    -- An instruction that is kept does the same in both states.
    execute-kept :
        (i : Instruction) (d : Liveness) (s t : Vars) (w : W)
        → i.output.offset + i.output.size ≤ 64
        → Fits (first i.inputs)
        → Fits (second i.inputs)
        → Agree (after_kept additional_tmps live_tmps i d) s t
        → ((execute raised result effect i (s, w)).1 ≡ (execute raised result effect i (t, w)).1)
          × Agree d
              (execute raised result effect i (s, w)).0
              (execute raised result effect i (t, w)).0
    unfolding execute
    execute-kept i d s t w f g1 g2 a =
        let one = operand-Agree i d s t (first i.inputs) f g1 (λ j k u. ground arith) a in
        let two = operand-Agree i d s t (second i.inputs) f g2 (λ j k u. ground arith) a in
        (
          ap₂ (λ (x y : List ℕ). effect i.op w x y) one two,
          λ j k h n.
              ap₂ (λ (x y : List ℕ). write s i.output (result i.op w x y) j k) one two
              ∙ write-equal s t i.output
                  (result i.op w (read t (first i.inputs)) (read t (second i.inputs))) j k
                  (λ c. a j k h (
                    needed-after_kept additional_tmps live_tmps i d j k f h
                    ∙ ground (arith, n, c))),
        )

    -- An instruction that is dropped changes nothing that is needed.
    execute-dropped :
        IsPure raised effect
        → (i : Instruction) (d : Liveness) (s t : Vars) (w : W)
        → (is_live additional_tmps live_tmps d i.output).0 ≡ false
        → has_side_effects i.op ≡ false
        → raised ((execute raised result effect i (s, w)).1) ≡ false
        → Agree d s t
        → ((execute raised result effect i (s, w)).1 ≡ w)
          × Agree d (execute raised result effect i (s, w)).0 t
    unfolding execute
    execute-dropped pure i d s t w e q x a = (
      unchanged (has_side_effects i.op || raised _) w _ (ap₂ (λ (b c : Bool). b || c) q x)
          (pure i.op w _ _),
      λ j k h n. elim (Bool-cases (covers i.output j k)) [
        | inl c ↦ absurd (cc (needed_dropped additional_tmps live_tmps i d j k e c))
        | inr c ↦ rw c (a j k h n)
      ],
    )

    -- The second run completes too, with the same world and the same persistent bytes.
    abbrev Ends : Vars × W → Run W → Type 0
    Ends s r =
        (t : Vars × W) × (r ≡ Run.completed t)
        × (s.1 ≡ t.1)
        × ((j k : ℕ) → k < 64 → persistent j ≡ true → s.0 j k ≡ t.0 j k)

    -- A run that completes goes on behind each operation.
    unraised :
        (b : Bool) (s : Vars × W) (rest : Run W) (r : Vars × W)
        → unless_raised b s rest ≡ Run.completed r
        → (b ≡ false) × (rest ≡ Run.completed r)
    unraised true s rest r h = absurd (cc h)
    unraised false s rest r h = (refl, h)

    Ends-unless_raised :
        (b : Bool) (s r : Vars × W) (rest : Run W)
        → b ≡ false
        → Ends r rest
        → Ends r (unless_raised b s rest)
    Ends-unless_raised true s r rest h e = absurd (cc h)
    Ends-unless_raised false s r rest h e = e

    final : {r s : Vars × W} → Run.completed s ≡ Run.completed r → s ≡ r
    final h = cc h

    scan-Agree :
        IsPure raised effect
        → (single : Bool) (is : List Instruction) (s t : Vars) (v w : W) (r : Vars × W)
        → IsStraight single persistent is
        → v ≡ w
        → Agree (scan additional_tmps live_tmps single is).1 s t
        → run raised result effect is (s, v) ≡ Run.completed r
        → Ends r (
            run raised result effect
              (select (scan additional_tmps live_tmps single is).0 is)
              (t, w))
    unfolding run scan step IsStraight
    scan-Agree pure single [] s t v w r c e a ends =
        subst (λ (r : Vars × W). Ends r (Run.completed (t, w))) (final ends)
          ((t, w), refl, e, λ j k h p. a j k h (ground arith))
    scan-Agree pure single (i ∷ is) s t v w r (p, f, g1, g2, m, c) e a ends =
        let d = (scan additional_tmps live_tmps single is).1 in
        let d0 = at_boundary single i.op d in
        let narrow : (s t : Vars) → Agree d0 s t → Agree d s t = λ s t a j k h n. a j k h (
          needed-at_boundary single i d j k p
            (λ q b. ground (arith, m j k, scan-used single is j k c h b)) n) in
        let (calm, rest) = unraised _ _ _ r (rw e at ends) in
        elim (Bool-cases
          ((is_live additional_tmps live_tmps d0 i.output).0 || has_side_effects i.op)) [
            | inl keep ↦
                let a : Agree (after_kept additional_tmps live_tmps i d0) s t = rw keep at a in
                let (x, y) = execute-kept i d0 s t w f g1 g2 a in
                let z : Agree d (execute raised result effect i (s, w)).0
                    (execute raised result effect i (t, w)).0 =
                  narrow _ _ y in
                rw keep (
                  Ends-unless_raised (raised ((execute raised result effect i (t, w)).1)) _ r _
                    (ap raised (sym x) ∙ calm) (scan-Agree pure single is _ _ _ _ r c x z rest))
            | inr drop ↦
                let gone : (is_live additional_tmps live_tmps d0 i.output).0 ≡ false =
                  ground arith in
                let a : Agree (is_live additional_tmps live_tmps d0 i.output).1 s t =
                  rw drop at a in
                let a : Agree d0 s t =
                  rw (is_live-dropped additional_tmps live_tmps d0 i.output gone) at a in
                let (x, y) = execute-dropped pure i d0 s t w gone (ground arith) calm a in
                rw drop (scan-Agree pure single is _ _ _ _ r c x (narrow _ _ y) rest)
          ]

-- For any meaning of the operations by which they read their operands and the world and write their
-- output and the world, and those without side effects change the world at most by raising an
-- exception, on blocks without branches, selects, hooks and helpers whose variables end within 64
-- bytes and, when the optimizer resets at instruction markers, where every byte that is read after
-- a marker before it is set persists: if the block runs to its end without an exception, so does
-- the block after dead store elimination, and it leaves the same world and the same persistent
-- bytes.
pub run-dead_store_elimination :
    {W : Type 0} (raised : W → Bool) (result : Op → W → List ℕ → List ℕ → ℕ → ℕ)
    (effect : Op → W → List ℕ → List ℕ → W)
    → IsPure raised effect
    → (single : Bool) (additional_tmps : ℕ → Bool) (is : List Instruction) (s s' : Vars) (w w' : W)
    → IsStraight single
        (persists additional_tmps (live_tmps_from (λ id. false) (λ id. false) is))
        is
    → run raised result effect is (s, w) ≡ Run.completed (s', w')
    → (j k : ℕ) → k < 64
    → should_persist additional_tmps j ≡ true
    → (t : Vars) × (run raised result effect
          (dead_store_elimination single additional_tmps is)
          (s, w)
        ≡ Run.completed (t, w'))
      × (s' j k ≡ t j k)
unfolding dead_store_elimination
run-dead_store_elimination raised result effect pure single additional_tmps is s s' w w' c ends j k
      h p =
    let live = live_tmps_from (λ id. false) (λ id. false) is in
    let (t, r, x, y) =
      scan-Agree additional_tmps live raised result effect pure single is s s w w (s', w') c refl
        (λ j k h n. refl) ends in
    (t.0, r ∙ ap (λ (u : _). Run.completed (t.0, u)) (sym x), y j k h (ground (arith, p)))
