-- ===== src/Mem/Mmu/FreeMemory.antt =====
-- `find_free_memory` of icicle-mem/src/mmu.rs.
use native.Mathlib.Nat.{div-add-mod'}
use mathlib.Core.Path.{subst}
use icicle_emu.Base.{
  ℕ, zero, suc, ◌+◌, ◌-◌, ◌*◌, ◌/◌, ◌%◌, ◌^◌, ◌≤◌, ◌<◌, ◌≡◌, ◌≢◌, ◌&&◌, refl, sym, ◌∙◌, ap, arith,
  false, ◌⊎◌, inl, inr, Bool-cases, Option-cases, none, some, List, [], ◌∷◌, max, length, get_elem?,
  ltb, leb, ◌==◌, if◌then◌else◌, u64_mod, u64_max,
}
use icicle_emu.Mem.Perm.{MemError, MemResult}
use icicle_emu.Mem.RangeMap.Entries.{Entry, to_map, IsSorted, lookup}
use icicle_emu.Mem.RangeMap.Removal.Overlap.{
  get_range-IsOverlap, get_elem?-ordered, lookup-get_elem?,
}
use icicle_emu.Mem.Align.{AllocLayout, align_up, checked_next_power_of_two}
use icicle_emu.Mem.Align.Laws.{align_up-least, checked_next_power_of_two-pow}
use icicle_emu.Mem.Mmu.{
  MemoryMapping, Mmu, Outcome, find_from, find_free_memory, layout_of, preferred,
}

abbrev pub Entries : Type 0
Entries = List (Entry MemoryMapping)

-- The ranges that end at `s` or past it.
abbrev past : Entries → ℕ → ℕ
past [] s = 0
past (e ∷ es) s = (if leb s e.end then 1 else 0) + past es s

past-le : (es : Entries) (s : ℕ) → past es s ≤ length es
past-le [] s = omega arith
past-le (e ∷ es) s = ground (arith, past-le es s)

past_mono : (es : Entries) (s t : ℕ) → s ≤ t → past es t ≤ past es s
past_mono [] s t h = omega arith
past_mono (e ∷ es) s t h = ground (arith, past_mono es s t h)

some_entry : {x y : Entry MemoryMapping} → some x ≡ some y → x ≡ y
some_entry h = cc

past-less :
    (es : Entries) (i s t : ℕ) (e : Entry MemoryMapping)
    → get_elem? es i ≡ some e
    → s ≤ e.end
    → e.end < t
    → past es t < past es s
past-less [] i s t e g h l = absurd (cc g)
past-less (x ∷ es) zero s t e g h l =
    ground (
      arith,
      ap (λ (x : Entry MemoryMapping). x.end) (some_entry g),
      past_mono es s t (omega arith),
    )
past-less (x ∷ es) (suc i) s t e g h l = ground (arith, past-less es i s t e g h l)

-- Two multiples are a multiple apart.
multiples : (p a b : ℕ) → a % p ≡ 0 → b % p ≡ 0 → b < a → b + p ≤ a
multiples p a b h k l = elim (Bool-cases (ltb (b / p) (a / p))) [
  | inl c ↦ ground (
    arith,
    div-add-mod' a p,
    div-add-mod' b p,
    ap (λ (t : ℕ). t * p) {x = a / p} {y = b / p + 1 + (a / p - b / p - 1)} (ground arith),
  )
  | inr c ↦ absurd (
      ground (
        arith,
        div-add-mod' a p,
        div-add-mod' b p,
        ap (λ (t : ℕ). t * p) {x = b / p} {y = a / p + (b / p - a / p)} (ground arith),
      ))
]

-- The result: a panic, an error, or the first aligned address from `start_addr` on where `len` bytes
-- are free.
abbrev pub IsFree : Entries → ℕ → ℕ → Type 0
IsFree es len a = (k : ℕ) → (if leb a k && ltb k (a + len) then lookup es k else none) ≡ none

abbrev pub IsUsed : Entries → ℕ → ℕ → Type 0
IsUsed es len a = (k : ℕ) × (v : MemoryMapping) × (a ≤ k) × (k < a + len) × (lookup es k ≡ some v)

abbrev pub IsFirstFit : Entries → ℕ → ℕ → ℕ → Outcome (MemResult ℕ) → Type 0
IsFirstFit es len align start_addr r =
    (r ≡ Outcome.panicked)
    ⊎ (r ≡ Outcome.returned (MemResult.err MemError.out_of_memory))
    ⊎ ((a : ℕ) × (r ≡ Outcome.returned (MemResult.ok a))
        × (start_addr ≤ a)
        × (a % align ≡ 0)
        × (a + len ≤ u64_mod)
        × IsFree es len a
        × ((b : ℕ) → (b < start_addr) ⊎ (a ≤ b) ⊎ (b % align ≢ 0) ⊎ IsUsed es len b))

-- A search from a later address, where all aligned addresses before are used.
later-IsFirstFit :
    (es : Entries) (len align start_addr next : ℕ) (r : Outcome (MemResult ℕ))
    → start_addr ≤ next
    → ((b : ℕ) → start_addr ≤ b → b < next → b % align ≡ 0 → IsUsed es len b)
    → IsFirstFit es len align next r
    → IsFirstFit es len align start_addr r
later-IsFirstFit es len align start_addr next r h u (inl p) = inl p
later-IsFirstFit es len align start_addr next r h u (inr (inl e)) = inr (inl e)
later-IsFirstFit es len align start_addr next r h u (inr (inr (a, e, l, m, w, f, g))) =
    inr (inr (a, e, omega arith, m, w, f, λ b. earlier b (g b)))
  where
    earlier :
        {a : ℕ} (b : ℕ)
        → (b < next) ⊎ (a ≤ b) ⊎ (b % align ≢ 0) ⊎ IsUsed es len b
        → (b < start_addr) ⊎ (a ≤ b) ⊎ (b % align ≢ 0) ⊎ IsUsed es len b
    earlier b (inr p) = inr p
    earlier b (inl p) = elim (Bool-cases (ltb b start_addr)) [
      | inl before ↦ inl (ground arith)
      | inr after ↦ elim (Bool-cases (b % align == 0)) [
        | inl multiple ↦ inr (inr (inr (u b (ground arith) p (ground arith))))
        | inr other ↦ inr (inr (inl (ground arith)))
      ]
    ]

-- An aligned address before the end of a range that overlaps is used.
overlap-IsUsed :
    (es : Entries) (low i len p start_addr next b : ℕ) (e : Entry MemoryMapping)
    → IsSorted low es
    → get_elem? es i ≡ some e
    → 0 < len
    → e.start ≤ start_addr + (len - 1)
    → next < e.end + 1 + p
    → next % p ≡ 0
    → start_addr ≤ b
    → b < next
    → b % p ≡ 0
    → IsUsed es len b
overlap-IsUsed es low i len p start_addr next b e s g h l n m k j c =
    let (_, o) = get_elem?-ordered es low i e s g in
    let gap = multiples p next b m c j in
    (
      max b e.start,
      e.value,
      omega arith,
      omega arith,
      lookup-get_elem? es low i (max b e.start) e s g (omega arith) (omega arith),
    )

positive : (n : ℕ) → (n == 0) ≡ false → 0 < n
positive n h = ground arith

pub find_from-IsFirstFit :
    (fuel : ℕ) (es : Entries) (low len j start_addr : ℕ)
    → IsSorted low es
    → j < 64
    → start_addr % 2 ^ j ≡ 0
    → past es start_addr < fuel
    → IsFirstFit es len (2 ^ j) start_addr (find_from fuel (to_map es) len (2 ^ j) start_addr)
unfolding find_from
find_from-IsFirstFit zero es low len j start_addr s l m f = absurd (omega arith)
find_from-IsFirstFit (suc fuel) es low len j start_addr s l m f = elim (Bool-cases (len == 0)) [
  | inl z ↦ rw z (inl refl)
  | inr z ↦ rw z (elim (Bool-cases (ltb (start_addr + (len - 1)) u64_mod)) [
    | inr out ↦ rw out (inr (inl refl))
    | inl fits ↦
        rw fits
          (elim (get_range-IsOverlap es low start_addr (start_addr + (len - 1)) s (omega arith)) [
            | inl (e, free) ↦ rw e (
                inr (
                  inr (
                    start_addr,
                    refl,
                    omega arith,
                    m,
                    ground arith,
                    λ k. free_at k (free k),
                    λ b. elsewhere b,
                  )))
            | inr (i, e, r, g, p, q) ↦ rw r (elim (Bool-cases (e.end == u64_max)) [
              | inl last ↦ rw last (inl refl)
              | inr inside ↦ rw inside (elim (Option-cases (align_up (e.end + 1) (2 ^ j))) [
                | inl o ↦ rw o (inl refl)
                | inr (next, o) ↦
                    let (n, a, b, c) = align_up-least (e.end + 1) j next l o in
                    rw o (
                      later-IsFirstFit es len (2 ^ j) start_addr next
                        (find_from fuel (to_map es) len (2 ^ j) next) (omega arith)
                        (λ x h k d.
                          overlap-IsUsed es low i len (2 ^ j) start_addr next x e s g
                            (positive len z) p b n h k d)
                        (find_from-IsFirstFit fuel es low len j next s l n
                          (omega (arith, past-less es i start_addr next e g q (omega arith)))))
              ])
            ])
          ])
  ])
]
  where
    free_at :
        (k : ℕ)
        → (start_addr ≤ k → k ≤ start_addr + (len - 1) → lookup es k ≡ none)
        → (if leb start_addr k && ltb k (start_addr + len) then lookup es k else none) ≡ none
    free_at k f = ground arith

    elsewhere : (b : ℕ) → (b < start_addr) ⊎ (start_addr ≤ b) ⊎ (b % 2 ^ j ≢ 0) ⊎ IsUsed es len b
    elsewhere b = elim (Bool-cases (ltb b start_addr)) [
      | inl before ↦ inl (ground arith)
      | inr after ↦ inr (inl (ground arith))
    ]

-- `IsFirstFit` for the alignment, the padded length and the first address of a layout.
abbrev pub IsAllocated : Entries → AllocLayout → Outcome (MemResult ℕ) → Type 0
IsAllocated es layout r =
    ((r ≡ Outcome.panicked) × (layout_of layout ≡ none))
    ⊎ ((align : ℕ) × (len : ℕ) × (start_addr : ℕ) × (layout_of layout
          ≡ some (align, len, start_addr))
        × (layout.align ≤ align)
        × (layout.size ≤ len)
        × (preferred layout.addr ≤ start_addr)
        × IsFirstFit es len align start_addr r)

-- With sorted mappings and more fuel than there are ranges the search for free memory never runs
-- out of fuel: it panics, or reports that memory is exhausted, or returns the first multiple of the
-- alignment, from the first address of the layout on, where the padded length is free.
pub find_free_memory-IsAllocated :
    (fuel : ℕ) (m : Mmu) (es : Entries) (low : ℕ) (layout : AllocLayout)
    → m.mapping ≡ to_map es
    → IsSorted low es
    → length es < fuel
    → IsAllocated es layout (find_free_memory fuel m layout)
unfolding find_free_memory
find_free_memory-IsAllocated fuel m es low layout e s f =
    rw e (elim (Option-cases (checked_next_power_of_two layout.align)) [
      | inl a ↦ rw a (inl (refl, refl))
      | inr (align, a) ↦ elim (Option-cases (align_up layout.size align)) [
        | inl b ↦ rw (a, b) (inl (refl, refl))
        | inr (len, b) ↦ elim (Option-cases (align_up (preferred layout.addr) align)) [
          | inl c ↦ rw (a, b, c) (inl (refl, refl))
          | inr (start_addr, c) ↦
              let (j, p, l, h) = checked_next_power_of_two-pow layout.align align a in
              let (_, size_fits, _, _) =
                align_up-least layout.size j len l (ap (align_up layout.size) (sym p) ∙ b) in
              let (multiple, addr_fits, _, _) =
                align_up-least (preferred layout.addr) j start_addr l
                  (ap (align_up (preferred layout.addr)) (sym p) ∙ c) in
              rw (a, b, c)
                (inr (
                  align,
                  len,
                  start_addr,
                  refl,
                  h,
                  size_fits,
                  addr_fits,
                  subst
                      (λ (t : ℕ).
                        IsFirstFit es len t start_addr
                          (find_from fuel (to_map es) len t start_addr))
                      (sym p)
                      (find_from-IsFirstFit fuel es low len j start_addr s l multiple
                        (omega (arith, past-le es start_addr, f))),
                ))
        ]
      ]
    ])
