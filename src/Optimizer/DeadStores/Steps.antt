-- ===== src/Optimizer/DeadStores/Steps.antt =====
-- The operations of `DeadStoreDetector` of icicle-cpu/src/lifter/optimize.rs, byte by byte.
use icicle_emu.Base.{
  ℕ, ◌+◌, ◌≤◌, ◌<◌, ◌≡◌, refl, sym, ◌∙◌, ap, arith, Bool, true, false, not, ◌&&◌, ◌||◌, Option,
  none, some, ◌==◌, ==_iff, if◌then◌else◌, Bool-cases, inl, inr,
}
use icicle_emu.Base.Bits.{bit_at, bit_at-zero}
use icicle_emu.Pcode.Var.{VarNode, Value}
use icicle_emu.Optimizer.LiveBytes
use icicle_emu.Optimizer.LiveBytes.{add, subtract, any_set}
use icicle_emu.Optimizer.LiveBytes.Laws.{
  in_range, bit_at-add_bytes, bit_at-subtract_bytes, any_bytes_none,
}
use icicle_emu.Optimizer.DeadStores.{
  Liveness, overwrite, mark_input, mark_as_read, remaining, with_read, any_read, is_none, is_live,
  by_write, persists,
}
use icicle_emu.Optimizer.DeadStores.Machine.{covers}

-- Byte `k` of an entry of a map.
abbrev pub bits : Option ℕ → ℕ → Bool
bits none k = false
bits (some set) k = bit_at set k

bit_at-new : (v : VarNode) (k : ℕ) → bit_at (LiveBytes.new v) k ≡ in_range v.size v.offset k
unfolding LiveBytes.new add
bit_at-new v k =
    bit_at-add_bytes v.size v.offset 0 k ∙ ap (λ b. b || in_range v.size v.offset k) (bit_at-zero k)

bits-with_read :
    (o : Option ℕ) (v : VarNode) (k : ℕ)
    → bits (with_read o v) k ≡ (bits o k || in_range v.size v.offset k)
unfolding LiveBytes.new add
bits-with_read none v k = bit_at-new v k
bits-with_read (some set) v k = bit_at-add_bytes v.size v.offset set k

bits_none : (set : ℕ) (k : ℕ) → bits (if set == 0 then none else some set) k ≡ bit_at set k
bits_none set k = elim (Bool-cases (set == 0)) [
  | inl e ↦ rw e (sym (bit_at-zero k) ∙ ap (λ (t : ℕ). bit_at t k) (sym ((==_iff set 0).0 e)))
  | inr e ↦ rw e refl
]

bits-remaining :
    (o : Option ℕ) (v : VarNode) (k : ℕ)
    → v.offset + v.size ≤ 64
    → k < 64
    → bits (remaining o v) k ≡ (bits o k && not (in_range v.size v.offset k))
unfolding subtract
bits-remaining none v k f h = refl
bits-remaining (some set) v k f h =
    bits_none (subtract set v) k ∙ bit_at-subtract_bytes v.size v.offset set k f h

pub bits-overwrite :
    (d : Liveness) (v : VarNode) (j k : ℕ)
    → v.offset + v.size ≤ 64
    → k < 64
    → bits ((overwrite d v).live_reads j) k ≡ (bits (d.live_reads j) k && not (covers v j k))
unfolding overwrite
bits-overwrite d v j k f h = elim (Bool-cases (j == v.id)) [
  | inl e ↦ rw e (
      bits-remaining (d.live_reads v.id) v k f h
      ∙ ap (λ (i : ℕ). bits (d.live_reads i) k && not (in_range v.size v.offset k))
          (sym ((==_iff j v.id).0 e)))
  | inr e ↦ rw e (ground arith)
]

pub bits-mark_as_read :
    (d : Liveness) (v : VarNode) (j k : ℕ)
    → bits ((mark_as_read d v).live_reads j) k ≡ (bits (d.live_reads j) k || covers v j k)
unfolding mark_as_read
bits-mark_as_read d v j k = elim (Bool-cases (j == v.id)) [
  | inl e ↦ rw e (
      bits-with_read (d.live_reads v.id) v k
      ∙ ap (λ (i : ℕ). bits (d.live_reads i) k || in_range v.size v.offset k)
          (sym ((==_iff j v.id).0 e)))
  | inr e ↦ rw e (ground arith)
]

-- The bytes that an operand reads.
abbrev pub uses : Value → ℕ → ℕ → Bool
uses (Value.var v) j k = covers v j k
uses (Value.const _ _) j k = false

pub bits-mark_input :
    (d : Liveness) (v : Value) (j k : ℕ)
    → bits ((mark_input d v).live_reads j) k ≡ (bits (d.live_reads j) k || uses v j k)
unfolding mark_input
bits-mark_input d (Value.const _ _) j k = ground arith
bits-mark_input d (Value.var v) j k = elim (Bool-cases (is_none v)) [
  | inl e ↦ rw e (ground arith)
  | inr e ↦ rw e (bits-mark_as_read d v j k)
]

pub last_write-mark_input : (d : Liveness) (v : Value) → (mark_input d v).last_write ≡ d.last_write
unfolding mark_input mark_as_read
last_write-mark_input d (Value.const _ _) = refl
last_write-mark_input d (Value.var v) = elim (Bool-cases (is_none v)) [
  | inl e ↦ rw e refl
  | inr e ↦ rw e refl
]

any_read_none :
    (o : Option ℕ) (v : VarNode) (k : ℕ)
    → any_read o v ≡ false
    → in_range v.size v.offset k ≡ true
    → bits o k ≡ false
unfolding any_set
any_read_none none v k h r = refl
any_read_none (some set) v k h r = any_bytes_none v.size v.offset set k h r

-- What `by_write` does to the bytes that are read and written later.
by_write_lem :
    (d : Liveness) (v : VarNode) (o : Option ℕ)
    → d.last_write v.id ≡ o
    → ((by_write d v o).1.live_reads ≡ d.live_reads)
      × ((j k : ℕ)
          → bits ((by_write d v o).1.last_write j) k ≡ (bits (d.last_write j) k || covers v j k))
by_write_lem d v none e = (
  refl,
  λ j k. elim (Bool-cases (j == v.id)) [
    | inl h ↦ rw h (
        bits-with_read none v k
        ∙ ap (λ o. bits o k || in_range v.size v.offset k)
            (sym (ap d.last_write ((==_iff j v.id).0 h) ∙ e)))
    | inr h ↦ rw h (ground arith)
  ],
)
by_write_lem d v (some prev) e = elim (Bool-cases (prev == add prev v)) [
  | inl same ↦ rw same (
    refl,
    λ j k. elim (Bool-cases (j == v.id)) [
      | inl h ↦ ground (
        arith,
        covered k same,
        (==_iff j v.id).0 h,
        ap (λ o. bits o k) (ap d.last_write ((==_iff j v.id).0 h) ∙ e),
      )
      | inr h ↦ rw h (ground arith)
    ],
  )
  | inr more ↦ rw more (
    refl,
    λ j k. elim (Bool-cases (j == v.id)) [
      | inl h ↦ rw h (
          bits-with_read (some prev) v k
          ∙ ap (λ o. bits o k || in_range v.size v.offset k)
              (sym (ap d.last_write ((==_iff j v.id).0 h) ∙ e)))
      | inr h ↦ rw h (ground arith)
    ],
  )
]
  where
    covered :
        (k : ℕ)
        → (prev == add prev v) ≡ true
        → bit_at prev k ≡ (bit_at prev k || in_range v.size v.offset k)
    covered k same =
        ap (λ (t : ℕ). bit_at t k) ((==_iff prev (add prev v)).0 same)
        ∙ bits-with_read (some prev) v k

-- Of an instruction that is dropped nothing changes.
by_write_dropped :
    (d : Liveness) (v : VarNode) (o : Option ℕ)
    → (by_write d v o).0 ≡ false
    → ((by_write d v o).1 ≡ d) × (any_read (d.live_reads v.id) v ≡ false)
by_write_dropped d v none e = absurd (cc e)
by_write_dropped d v (some prev) e = elim (Bool-cases (prev == add prev v)) [
  | inl same ↦ rw same (refl, rw same at e)
  | inr more ↦ absurd (cc (rw more at e))
]

module _ (additional_tmps live_tmps : ℕ → Bool) where
  pub live_reads-is_live :
      (d : Liveness) (v : VarNode)
      → (is_live additional_tmps live_tmps d v).1.live_reads ≡ d.live_reads
  unfolding is_live
  live_reads-is_live d v = elim (Bool-cases (persists additional_tmps live_tmps v.id)) [
    | inl p ↦ rw p ((by_write_lem d v (d.last_write v.id) refl).0)
    | inr p ↦ rw p refl
  ]

  pub bits-last_write-is_live :
      (d : Liveness) (v : VarNode) (j k : ℕ)
      → persists additional_tmps live_tmps j ≡ true
      → bits ((is_live additional_tmps live_tmps d v).1.last_write j) k
        ≡ (bits (d.last_write j) k || covers v j k)
  unfolding is_live
  bits-last_write-is_live d v j k h = elim (Bool-cases (persists additional_tmps live_tmps v.id)) [
    | inl p ↦ rw p ((by_write_lem d v (d.last_write v.id) refl).1 j k)
    | inr p ↦ rw p (elim (Bool-cases (j == v.id)) [
      | inl e ↦ absurd (cc (ap (persists additional_tmps live_tmps) ((==_iff j v.id).0 e)))
      | inr e ↦ rw e (ground arith)
    ])
  ]

  dropped :
      (d : Liveness) (v : VarNode)
      → (is_live additional_tmps live_tmps d v).0 ≡ false
      → ((is_live additional_tmps live_tmps d v).1 ≡ d) × (any_read (d.live_reads v.id) v ≡ false)
  unfolding is_live
  dropped d v e = elim (Bool-cases (persists additional_tmps live_tmps v.id)) [
    | inl p ↦ rw p (by_write_dropped d v (d.last_write v.id) (rw p at e))
    | inr p ↦ rw p (refl, rw p at e)
  ]

  pub is_live-dropped :
      (d : Liveness) (v : VarNode)
      → (is_live additional_tmps live_tmps d v).0 ≡ false
      → (is_live additional_tmps live_tmps d v).1 ≡ d
  is_live-dropped d v e = (dropped d v e).0

  -- A variable that is dropped is not read, and all of it is written later.
  pub unread-dropped :
      (d : Liveness) (v : VarNode) (j k : ℕ)
      → (is_live additional_tmps live_tmps d v).0 ≡ false
      → covers v j k ≡ true
      → bits (d.live_reads j) k ≡ false
  unread-dropped d v j k e c =
      let same : j ≡ v.id = ground arith in
      ap (λ i. bits (d.live_reads i) k) same
      ∙ any_read_none (d.live_reads v.id) v k ((dropped d v e).1) (ground arith)

  pub written-dropped :
      (d : Liveness) (v : VarNode) (j k : ℕ)
      → persists additional_tmps live_tmps j ≡ true
      → (is_live additional_tmps live_tmps d v).0 ≡ false
      → covers v j k ≡ true
      → bits (d.last_write j) k ≡ true
  written-dropped d v j k p e c =
      ap (λ (d : Liveness). bits (d.last_write j) k) (sym ((dropped d v e).0))
      ∙ bits-last_write-is_live d v j k p
      ∙ ground (arith, c)
