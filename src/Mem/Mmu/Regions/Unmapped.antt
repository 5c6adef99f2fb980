-- ===== src/Mem/Mmu/Regions/Unmapped.antt =====
-- The range that `unmap_memory_len` of icicle-mem/src/mmu.rs unmaps.
use mathlib.Core.Path.{subst}
use icicle_emu.Base.{
  ℕ, ◌+◌, ◌-◌, ◌≤◌, ◌<◌, ◌≡◌, ◌↔◌, refl, sym, ◌∙◌, ap, arith, Bool, true, false, not, ◌&&◌, ◌||◌,
  inl, inr, Option, none, some, List, [], ◌∷◌, Bool-cases, if◌then◌else◌, leb, ltb, ◌==◌, u64_mod,
}
use icicle_emu.Mem.RangeMap.{VecRangeMap}
use icicle_emu.Mem.RangeMap.Entries.{to_map, IsSorted, lookup}
use icicle_emu.Mem.RangeMap.Walk.{Item, all_items}
use icicle_emu.Mem.RangeMap.Walk.Cover.{IsCover}
use icicle_emu.Mem.RangeMap.Walk.Every.{IsEvery, all_items-IsEvery}
use icicle_emu.Mem.RangeMap.Split.{Updated, overlapping_mut}
use icicle_emu.Mem.RangeMap.Split.Visits.{Visited, visit}
use icicle_emu.Mem.RangeMap.Split.Laws.{value_after, IsUpdate, overlapping_mut-IsUpdate}
use icicle_emu.Mem.Tlb.Laws.{IsGone}
use icicle_emu.Mem.Mmu.{MemoryMapping, mapping_eq, Mmu, Outcome, checked_add}
use icicle_emu.Mem.Mmu.Regions.{Unmapping, unmap_piece, unmap_memory_len, unmapping_of, after_unmap}
use icicle_emu.Mem.Mmu.Regions.Unmap.{Entries, IsPaged, AreData, is_mapped, unmap_piece-IsTaken}

-- Every item is taken.
abbrev taken : List (Item MemoryMapping) → List (Item MemoryMapping × Option MemoryMapping)
taken [] = []
taken (x ∷ items) = (x, none) ∷ taken items

value_after-taken :
    (es : Entries) (start len : ℕ) (items : List (Item MemoryMapping)) (k : ℕ)
    → IsCover es start len items
    → value_after (taken items) es k
      ≡ (if leb start k && ltb k (start + len) then none else lookup es k)
value_after-taken es start len [] k c = ground arith
value_after-taken es start len (x ∷ items) k (p, a, b, f, c) =
    ground (arith, value_after-taken es start (x.from - start) items k c)

-- A visit takes every item, notes the gaps, and removes the pages from the cache.
abbrev IsTaking : Entries → ℕ → ℕ → List (Item MemoryMapping) → Unmapping → Type 0
IsTaking es start len items b =
    (b' : Unmapping) × (visit unmap_piece items b
      ≡ some (record { state = b'; error = none; changes = taken items }))
    × (b'.partially_unmapped ≡ (b.partially_unmapped || not (all_items is_mapped items)))
    × ((k : ℕ) → k < u64_mod → IsGone b.tlb k → IsGone b'.tlb k)
    × ((k index addr : ℕ)
        → start ≤ k
        → k < start + len
        → lookup es k ≡ some (MemoryMapping.physical index addr)
        → IsGone b'.tlb k)

visit-IsTaking :
    (es : Entries) (start len : ℕ) (items : List (Item MemoryMapping)) (b : Unmapping)
    → IsCover es start len items
    → start + len ≤ u64_mod
    → IsPaged es
    → AreData es b.physical
    → IsTaking es start len items b
unfolding visit
visit-IsTaking es start len [] b c l paged d =
    (b, refl, ground arith, (λ k m g. g), λ k i a m n e. absurd (omega (arith, c)))
visit-IsTaking es start len (x ∷ items) b (p, a, e, f, c) l paged d =
    let (b', m, (flag, d', kept, gone)) =
      unmap_piece-IsTaken es x.from x.size x.value b paged d p (omega (arith, e)) f in
    let (b'', m', flag', kept', gone') =
      visit-IsTaking es start (x.from - start) items b' c (omega (arith, e)) paged d' in
    (
      b'',
      rw (m, m') refl,
      (flag' ∙ ap (λ t. t || not (all_items is_mapped items)) flag ∙ ground arith),
      (λ k n g. kept' k n (kept k n g)),
      λ k i r n o g. elim (Bool-cases (leb x.from k)) [
        | inl in_piece ↦
            kept' k (omega arith)
              (gone k i r (omega arith) (ground arith) (omega (arith, e)) (ground (arith, f k)))
        | inr before ↦ gone' k i r n (ground arith) g
      ],
    )

-- The result of unmapping `len` addresses from `start` on.
abbrev pub IsUnmapped : Entries → ℕ → ℕ → Mmu → Outcome (Bool × Mmu) → Type 0
IsUnmapped es start len m r =
    (mapped : Bool) × (m' : Mmu) × (es' : Entries) × (r ≡ Outcome.returned (mapped, m'))
    × (m'.mapping ≡ to_map es')
    × IsSorted 0 es'
    × ((k : ℕ) → lookup es' k ≡ (if leb start k && ltb k (start + len) then none else lookup es k))
    × ((mapped ≡ true) ↔ IsEvery is_mapped es start len)
    × ((k index addr : ℕ)
        → start ≤ k
        → k < start + len
        → lookup es k ≡ some (MemoryMapping.physical index addr)
        → IsGone m'.tlb k)
    × (m'.last_io_handler ≡ m.last_io_handler)

mapping_eq-sound : (a b : MemoryMapping) → mapping_eq a b ≡ true → a ≡ b
mapping_eq-sound (MemoryMapping.physical i a) (MemoryMapping.physical j b) h = ground arith
mapping_eq-sound (MemoryMapping.unallocated i a) (MemoryMapping.unallocated j b) h = ground arith
mapping_eq-sound (MemoryMapping.io i) (MemoryMapping.io j) h = ground arith
mapping_eq-sound (MemoryMapping.physical i a) (MemoryMapping.unallocated j b) h = absurd (cc (h))
mapping_eq-sound (MemoryMapping.physical i a) (MemoryMapping.io j) h = absurd (cc (h))
mapping_eq-sound (MemoryMapping.unallocated i a) (MemoryMapping.physical j b) h = absurd (cc (h))
mapping_eq-sound (MemoryMapping.unallocated i a) (MemoryMapping.io j) h = absurd (cc (h))
mapping_eq-sound (MemoryMapping.io i) (MemoryMapping.physical j b) h = absurd (cc (h))
mapping_eq-sound (MemoryMapping.io i) (MemoryMapping.unallocated j b) h = absurd (cc (h))

not-not : (c : Bool) → not (false || not c) ≡ c
not-not true = refl
not-not false = refl

conclude :
    (es : Entries) (m : Mmu) (start len : ℕ) (items : List (Item MemoryMapping))
    (r : Updated Unmapping (Unit {0}) MemoryMapping)
    (o : Option (Visited Unmapping (Unit {0}) MemoryMapping))
    → IsCover es start len items
    → IsTaking es start len items (unmapping_of m)
    → visit unmap_piece items (unmapping_of m) ≡ o
    → IsUpdate mapping_eq mapping_eq-sound unmap_piece es o r
    → IsUnmapped es start len m (after_unmap m r)
conclude es m start len items r none c (b, v, flag, _, gone) w u = absurd (cc (v, w))
conclude es m start len items r (some visited) c (b, v, flag, _, gone) w (es', e, sorted, found) =
    let same : visited ≡ record { state = b; error = none; changes = taken items } =
      some_visited (sym w ∙ v) in
    let state : visited.state ≡ b =
      ap (λ (v : Visited Unmapping (Unit {0}) MemoryMapping). v.state) same in
    let changes : visited.changes ≡ taken items =
      ap (λ (v : Visited Unmapping (Unit {0}) MemoryMapping). v.changes) same in
    (
      all_items is_mapped items,
      record m { mapping = to_map es'; physical = b.physical; tlb = b.tlb; mapping_changed = true },
      es',
      rw e (
          ap
            (λ (b : Unmapping). Outcome.returned (
              not b.partially_unmapped,
              record m {
                mapping = to_map es';
                physical = b.physical;
                tlb = b.tlb;
                mapping_changed = true;
              },
            ))
            state
          ∙ ap
              (λ (t : Bool). Outcome.returned (
                t,
                record m {
                  mapping = to_map es';
                  physical = b.physical;
                  tlb = b.tlb;
                  mapping_changed = true;
                },
              ))
              (ap not flag ∙ not-not (all_items is_mapped items))),
      refl,
      sorted,
      (λ k.
          found k
          ∙ ap (λ (vs : List (Item MemoryMapping × Option MemoryMapping)). value_after vs es k)
              changes
          ∙ value_after-taken es start len items k c),
      all_items-IsEvery is_mapped es start len items c,
      gone,
      refl,
    )
  where
    some_visited : {x y : Visited Unmapping (Unit {0}) MemoryMapping} → some x ≡ some y → x ≡ y
    some_visited h = cc

reached :
    (fuel : ℕ) (m : Mmu) (start len : ℕ)
    → 0 < len
    → start + len ≤ u64_mod
    → unmap_memory_len fuel m start len
      ≡ after_unmap m (
          overlapping_mut mapping_eq unmap_piece fuel
            (unmapping_of m)
            m.mapping
            start
            (start + (len - 1)))
unfolding unmap_memory_len checked_add
reached fuel m start len p h =
    let z : (len == 0) ≡ false = ground arith in
    let fits : ltb (start + (len - 1)) u64_mod ≡ true = ground arith in rw (z, fits) refl

-- On sorted mappings whose pages are there, are mapped where they say and have not been executed,
-- for a region that is not empty and ends in the address space, with more fuel than it has
-- addresses, unmapping returns. It says whether every address of the region was mapped, none of
-- them is mapped afterwards, every other address is as before, no page that was mapped in the
-- region is translated for it, and the last I/O handler stays.
pub unmap_memory_len-IsUnmapped :
    (fuel : ℕ) (m : Mmu) (es : Entries) (start len : ℕ)
    → m.mapping ≡ to_map es
    → IsSorted 0 es
    → IsPaged es
    → AreData es m.physical
    → 0 < len
    → len < u64_mod
    → start + len ≤ u64_mod
    → len < fuel
    → IsUnmapped es start len m (unmap_memory_len fuel m start len)
unmap_memory_len-IsUnmapped fuel m es start len e sorted paged d p l h n =
    let size : start + (len - 1) - start + 1 ≡ len = omega arith in
    let (items, w, c', u) =
      overlapping_mut-IsUpdate mapping_eq mapping_eq-sound unmap_piece fuel (unmapping_of m) es
        start (start + (len - 1)) sorted (omega arith) (omega arith) (omega arith) (omega arith) in
    let c = subst (λ (t : ℕ). IsCover es start t items) size c' in
    subst (λ r. IsUnmapped es start len m r)
      (sym (
        reached fuel m start len p h
        ∙ ap
            (λ (mapping : VecRangeMap MemoryMapping). after_unmap m (
              overlapping_mut mapping_eq unmap_piece fuel (unmapping_of m) mapping start
                (start + (len - 1))))
            e))
      (conclude es m start len items _ _ c
        (visit-IsTaking es start len items (unmapping_of m) c h paged d) refl u)
