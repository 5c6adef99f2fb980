-- ===== src/Mem/Mmu/Mapping.antt =====
-- `map_memory_len` and `alloc_memory` of icicle-mem/src/mmu.rs.
use icicle_emu.Base.{
  ◌≢◌, ℕ, ◌+◌, ◌-◌, ◌%◌, ◌≤◌, ◌<◌, ◌≡◌, refl, sym, ◌∙◌, ap, ap₂, arith, Bool, true, false, ◌&&◌,
  ◌⊎◌, inl, inr, Bool-cases, Option, none, some, length, ltb, leb, ◌==◌, if◌then◌else◌, u64_mod,
}
use icicle_emu.Mem.Perm.{MemError, MemResult}
use icicle_emu.Mem.RangeMap.Entries.{to_map, IsSorted, lookup}
use icicle_emu.Mem.RangeMap.Insert.{insert-IsInsertion}
use icicle_emu.Mem.Tlb.{TranslationCache, remove_range, translate_read, translate_write}
use icicle_emu.Mem.Tlb.Laws.{translate-remove_range}
use icicle_emu.Mem.Align.{AllocLayout}
use icicle_emu.Mem.Mmu.{
  MemoryMapping, mapping_eq, Mmu, Outcome, checked_add, map_memory_len, alloc_at, alloc_memory,
  find_free_memory, preferred, layout_of,
}
use icicle_emu.Mem.Mmu.FreeMemory.{
  Entries, IsFree, IsUsed, find_free_memory-IsAllocated, IsAllocated,
}

mapping_eq_sound : (a b : MemoryMapping) → mapping_eq a b ≡ true → a ≡ b
mapping_eq_sound (MemoryMapping.physical i a) (MemoryMapping.physical j b) h =
    ap₂ MemoryMapping.physical (ground arith) (ground arith)
mapping_eq_sound (MemoryMapping.unallocated p v) (MemoryMapping.unallocated q w) h =
    ap₂ MemoryMapping.unallocated (ground arith) (ground arith)
mapping_eq_sound (MemoryMapping.io i) (MemoryMapping.io j) h = ap MemoryMapping.io (ground arith)
mapping_eq_sound (MemoryMapping.physical i a) (MemoryMapping.unallocated q w) h = absurd (cc h)
mapping_eq_sound (MemoryMapping.physical i a) (MemoryMapping.io j) h = absurd (cc h)
mapping_eq_sound (MemoryMapping.unallocated p v) (MemoryMapping.physical j b) h = absurd (cc h)
mapping_eq_sound (MemoryMapping.unallocated p v) (MemoryMapping.io j) h = absurd (cc h)
mapping_eq_sound (MemoryMapping.io i) (MemoryMapping.physical j b) h = absurd (cc h)
mapping_eq_sound (MemoryMapping.io i) (MemoryMapping.unallocated q w) h = absurd (cc h)

-- The range is mapped, and nothing else has changed.
abbrev pub IsMapped : Entries → ℕ → ℕ → MemoryMapping → Mmu → Type 0
IsMapped es start len mapping m =
    (es' : Entries) × (m.mapping ≡ to_map es')
    × IsSorted 0 es'
    × ((k : ℕ)
        → lookup es' k ≡ (if leb start k && ltb k (start + len) then some mapping else lookup es k))

-- The result: an empty range, one that passes the end of the address space or one that is used is
-- refused and changes nothing.
abbrev pub IsMapping : Entries → Mmu → ℕ → ℕ → MemoryMapping → ℕ → Option (Bool × Mmu) → Type 0
IsMapping es m start len mapping k r =
    ((r ≡ some (false, m)) × ((len ≡ 0) ⊎ (u64_mod < start + len) ⊎ IsUsed es len start))
    ⊎ ((m' : Mmu) × (r ≡ some (true, m'))
        × IsFree es len start
        × IsMapped es start len mapping m'
        × (m'.mapping_changed ≡ true)
        × ((if leb start k && ltb k (start + len) then translate_read m'.tlb k else none) ≡ none)
        × ((if leb start k && ltb k (start + len) then translate_write m'.tlb k else none) ≡ none))

-- The translation cache afterwards.
forgotten :
    (t : TranslationCache) (start len k : ℕ)
    → 0 < len
    → start + len ≤ u64_mod
    → (t' : TranslationCache) × (remove_range t start len ≡ some t')
      × ((if leb start k && ltb k (start + len) then translate_read t' k else none) ≡ none)
      × ((if leb start k && ltb k (start + len) then translate_write t' k else none) ≡ none)
forgotten t start len k n h = elim (Bool-cases (leb start k && ltb k (start + len))) [
  | inl c ↦ rw c (translate-remove_range t start len k h (ground arith) (ground arith))
  | inr c ↦ rw c (
      let (t', r, _, _) = translate-remove_range t start len start h (omega arith) (omega arith) in
      (t', r, refl, refl))
]

last : (start len k : ℕ) → (len == 0) ≡ false → leb k (start + (len - 1)) ≡ ltb k (start + len)
last start len k h = ground arith

-- Mapping a range is refused, and changes nothing, when the range is empty, passes the end of the
-- address space or meets a mapped address; otherwise the whole range was free, is now mapped, no
-- other address has changed, and no address of the range is translated by the cache.
pub map_memory_len-IsMapping :
    (m : Mmu) (es : Entries) (start len : ℕ) (mapping : MemoryMapping) (k : ℕ)
    → m.mapping ≡ to_map es
    → IsSorted 0 es
    → IsMapping es m start len mapping k (map_memory_len m start len mapping)
unfolding map_memory_len checked_add
map_memory_len-IsMapping m es start len mapping k e s = elim (Bool-cases (len == 0)) [
  | inl z ↦ rw z (inl (refl, inl (ground arith)))
  | inr z ↦ elim (Bool-cases (ltb (start + (len - 1)) u64_mod)) [
    | inr out ↦ rw (z, out) (inl (refl, inr (inl (ground arith))))
    | inl fits ↦
        elim (insert-IsInsertion mapping_eq mapping_eq_sound start (start + (len - 1)) mapping
          (omega arith) (ground arith) es 0 s (omega arith)) [
            | inr (p, q, r, a, b, (v, u)) ↦
                rw (z, fits, e, r) (inl (refl, inr (inr (p, v, a, ground arith, u))))
            | inl (es', r, sorted, found, free) ↦
                let (t, q, a, b) = forgotten m.tlb start len k (ground arith) (ground arith) in
                rw (z, fits, e, r, q)
                  (inr (
                    record m {
                      mapping = to_map es';
                      tlb = t;
                      mapping_changed = true;
                      last_io_handler = none;
                    },
                    refl,
                    λ j.
                        ap (λ c. if leb start j && c then lookup es j else none)
                          (sym (last start len j z))
                        ∙ free j,
                    (
                      es',
                      refl,
                      sorted,
                      λ j.
                          found j
                          ∙ ap (λ c. if leb start j && c then some mapping else lookup es j)
                              (last start len j z),
                    ),
                    refl,
                    a,
                    b,
                  ))
          ]
  ]
]

-- The panic or the error of the search, or the first region of the padded length, at the alignment of the layout and from
-- its first address on, that was free, of which the size asked for is now mapped.
abbrev pub IsAllocation :
    Entries
    → Mmu
    → AllocLayout
    → MemoryMapping
    → Outcome (MemResult ℕ)
    → Outcome (MemResult ℕ × Mmu)
    → Type 0
IsAllocation es m layout mapping found r =
    ((r ≡ Outcome.panicked) × (found ≡ Outcome.panicked))
    ⊎ ((r ≡ Outcome.returned (MemResult.err MemError.out_of_memory, m))
        × (found ≡ Outcome.returned (MemResult.err MemError.out_of_memory)))
    ⊎ ((align : ℕ) × (len : ℕ) × (start_addr : ℕ) × (a : ℕ) × (m' : Mmu) × (r
          ≡ Outcome.returned (MemResult.ok a, m'))
        × (found ≡ Outcome.returned (MemResult.ok a))
        × (layout_of layout ≡ some (align, len, start_addr))
        × (layout.align ≤ align)
        × (preferred layout.addr ≤ a)
        × (a % align ≡ 0)
        × IsFree es len a
        × ((b : ℕ) → (b < start_addr) ⊎ (a ≤ b) ⊎ (b % align ≢ 0) ⊎ IsUsed es len b)
        × IsMapped es a layout.size mapping m')

IsFree-part : (es : Entries) (a size len : ℕ) → size ≤ len → IsFree es len a → IsFree es size a
IsFree-part es a size len h f k = at_byte (lookup es k) (f k)
  where
    at_byte :
        (o : Option MemoryMapping)
        → (if leb a k && ltb k (a + len) then o else none) ≡ none
        → (if leb a k && ltb k (a + size) then o else none) ≡ none
    at_byte o e = ground arith

not-IsUsed : (es : Entries) (a size : ℕ) → IsFree es size a → ¬ IsUsed es size a
not-IsUsed es a size f (k, v, p, q, e) = ground (arith, e, f k)

alloc_at-IsAllocation :
    (m : Mmu) (es : Entries) (layout : AllocLayout) (mapping : MemoryMapping)
    (r : Outcome (MemResult ℕ))
    → m.mapping ≡ to_map es
    → IsSorted 0 es
    → 0 < layout.size
    → IsAllocated es layout r
    → IsAllocation es m layout mapping r (alloc_at m layout mapping r)
unfolding alloc_at
alloc_at-IsAllocation m es layout mapping r e s n (inl (p, _)) = rw p (inl (refl, refl))
alloc_at-IsAllocation m es layout mapping r e s n
      (inr (align, len, start_addr, lay, al, sz, pr, inl p)) =
    rw p (inl (refl, refl))
alloc_at-IsAllocation m es layout mapping r e s n
      (inr (align, len, start_addr, lay, al, sz, pr, inr (inl p))) =
    rw p (inr (inl (refl, refl)))
alloc_at-IsAllocation m es layout mapping r e s n
      (inr (align, len, start_addr, lay, al, sz, pr, inr (inr (a, p, l, mu, fit, free, first)))) =
    rw p (elim (map_memory_len-IsMapping m es a layout.size mapping 0 e s) [
      | inl (q, inl zero_size) ↦ absurd (omega arith)
      | inl (q, inr (inl out)) ↦ absurd (omega arith)
      | inl (q, inr (inr used)) ↦
          absurd (not-IsUsed es a layout.size (IsFree-part es a layout.size len sz free) used)
      | inr (m', q, _, mapped_now, _, _, _) ↦ rw q (
          inr (
            inr (
              align,
              len,
              start_addr,
              a,
              m',
              refl,
              refl,
              lay,
              al,
              omega arith,
              mu,
              free,
              first,
              mapped_now,
            )))
    ])

-- With sorted mappings, a layout that is not empty and more fuel than there are ranges, an
-- allocation panics where the search for free memory does, reports that memory is exhausted and
-- changes nothing where the search does, or gives the address that the search finds, the first
-- multiple of the alignment that the code uses, from its first address on, where the padded length
-- was free; it is at or after the preferred address, the alignment is at least the one asked for,
-- the size asked for is now mapped, and no other address has changed.
pub alloc_memory-IsAllocation :
    (fuel : ℕ) (m : Mmu) (es : Entries) (layout : AllocLayout) (mapping : MemoryMapping)
    → m.mapping ≡ to_map es
    → IsSorted 0 es
    → 0 < layout.size
    → length es < fuel
    → IsAllocation es m layout mapping
        (find_free_memory fuel m layout)
        (alloc_memory fuel m layout mapping)
unfolding alloc_memory
alloc_memory-IsAllocation fuel m es layout mapping e s n f =
    alloc_at-IsAllocation m es layout mapping (find_free_memory fuel m layout) e s n
      (find_free_memory-IsAllocated fuel m es 0 layout e s f)
