-- ===== src/Mem/Mmu/Queries/Laws.antt =====
-- What the answers of `Mmu` in icicle-mem/src/mmu.rs say of each address of a range.
use mathlib.Core.Path.{subst}
use icicle_emu.Base.{
  ℕ, ◌+◌, ◌-◌, ◌≤◌, ◌<◌, ◌≡◌, ◌↔◌, refl, arith, Bool, true, false, List, ltb, ◌==◌, u64_mod,
}
use icicle_emu.Mem.RangeMap.Entries.{Entry, to_map, IsSorted}
use icicle_emu.Mem.RangeMap.Walk.{all_items}
use icicle_emu.Mem.RangeMap.Walk.Cover.{IsCover, overlapping_iter-IsCovered}
use icicle_emu.Mem.RangeMap.Walk.Every.{IsEvery, all_items-IsEvery}
use icicle_emu.Mem.Mmu.{MemoryMapping, Mmu, Outcome, checked_add}
use icicle_emu.Mem.Mmu.Queries.{is_regular, is_regular_region}

-- On sorted mappings, for a region that is not empty and ends in the address space, with more fuel
-- than it has addresses, the check returns, and says that the region is regular exactly if every
-- address of it is mapped to memory.
pub is_regular_region-IsEvery :
    (fuel : ℕ) (m : Mmu) (es : List (Entry MemoryMapping)) (start len : ℕ)
    → m.mapping ≡ to_map es
    → IsSorted 0 es
    → 0 < len
    → len < u64_mod
    → start + len ≤ u64_mod
    → len < fuel
    → (r : Bool) × (is_regular_region fuel m start len ≡ Outcome.returned r)
      × ((r ≡ true) ↔ IsEvery is_regular es start len)
unfolding is_regular_region checked_add
is_regular_region-IsEvery fuel m es start len e s p l h n =
    let z : (len == 0) ≡ false = ground arith in
    let fits : ltb (start + (len - 1)) u64_mod ≡ true = ground arith in
    let size : start + (len - 1) - start + 1 ≡ len = omega arith in
    let (items, w, c) =
      overlapping_iter-IsCovered fuel es 0 start (start + (len - 1)) s (omega arith) (omega arith)
        (omega arith) in
    (
      all_items is_regular items,
      rw (z, fits, e, w) refl,
      all_items-IsEvery is_regular es start len items
          (subst (λ (t : ℕ). IsCover es start t items) size c),
    )
