-- ===== src/Mem/Mmu/Regions/Tests.antt =====
-- Regions of a small address space of icicle-mem/src/mmu.rs, and the theorems at concrete inputs.
use icicle_emu.Base.{
  ℕ, ◌≡◌, ◌↔◌, refl, arith, Bool, true, false, Option, none, some, List, [], ◌∷◌, replicate,
  get_elem?, ap,
}
use icicle_emu.Mem.Perm.{MemError, MemResult}
use icicle_emu.Mem.Page.{PageData}
use icicle_emu.Mem.Physical.{Page}
use icicle_emu.Mem.RangeMap.{insert_inclusive}
use icicle_emu.Mem.RangeMap.Cursor.{new_cursor}
use icicle_emu.Mem.RangeMap.Split.{overlapping_mut}
use icicle_emu.Mem.RangeMap.Removal.{remove_subrange, remove_all_inclusive}
use icicle_emu.Mem.RangeMap.Entries.{Entry, to_map, IsSorted}
use icicle_emu.Mem.RangeMap.Walk.Every.{IsEvery}
use icicle_emu.Mem.Tlb.{default_entry}
use icicle_emu.Mem.Mmu.{MemoryMapping, Mmu, Outcome}
use icicle_emu.Mem.Mmu.Queries.{is_regular, is_regular_region}
use icicle_emu.Mem.Mmu.Queries.Laws.{is_regular_region-IsEvery}
use icicle_emu.Mem.Mmu.Regions.{unmap_memory_len, update_perm}
use icicle_emu.Mem.Mmu.Filling.{fill_mem}
use icicle_emu.Mem.Mmu.Regions.Unmap.{IsPaged, AreData}
use icicle_emu.Mem.Mmu.Regions.Unmapped.{IsUnmapped, unmap_memory_len-IsUnmapped}

-- A page, memory without one, and a device.
abbrev regions : List (Entry MemoryMapping)
regions =
    record { start = 0x1000; end = 0x1fff; value = MemoryMapping.physical 0 0x1000 }
    ∷ record { start = 0x2000; end = 0x2fff; value = MemoryMapping.unallocated 7 0 }
    ∷ record { start = 0x4000; end = 0x4fff; value = MemoryMapping.io 1 }
    ∷ []

regions-IsSorted : IsSorted 0 regions
regions-IsSorted = (
  omega arith,
  omega arith,
  omega arith,
  (omega arith, omega arith, omega arith, (omega arith, omega arith, omega arith, tt)),
)

abbrev page : Page PageData
page = record {
  content = record { content = replicate 4096 0; perm = replicate 4096 0x17 };
  copy_on_write = false;
  modified = false;
  executed = false;
}

abbrev space : Mmu
space = record {
  mapping = to_map regions;
  tlb = record { read = λ i. default_entry; write = λ i. default_entry };
  mapping_changed = false;
  last_io_handler = some (0x4000, 0x4fff, 1);
  physical = record { capacity = 4; allocated = page ∷ []; free = [] };
  track_uninitialized = false;
  detect_self_modifying_code = false;
}

regions-IsPaged : IsPaged regions
regions-IsPaged k index addr h = ground arith

regions-AreData : AreData regions space.physical
regions-AreData k index addr h =
    let first : index ≡ 0 = ground arith in
    (page, ap (λ (i : ℕ). get_elem? {A = Page PageData} (page ∷ []) i) first, refl)

-- The first byte of page 0, the page of zeros, after an update.
abbrev byte_of : Option (Page PageData) → Option ℕ
byte_of none = none
byte_of (some p) = get_elem? p.content.content 0

abbrev zero_byte : Outcome (MemResult (Unit {0}) × Mmu) → Option ℕ
zero_byte (Outcome.returned (_, m)) = byte_of (get_elem? m.physical.allocated 0)
zero_byte Outcome.panicked = none
zero_byte Outcome.out_of_fuel = none

-- Filling an address of a page that is mapped to the page of zeros changes that page.
fill_zero_page : zero_byte (fill_mem 20 space 0x1000 8 5) ≡ some 5
unfolding fill_mem overlapping_mut insert_inclusive remove_all_inclusive new_cursor remove_subrange
fill_zero_page = refl

-- An update over a gap stops there, with what was updated before: the region from 0x2ff8 on.
abbrev error_of : Outcome (MemResult (Unit {0}) × Mmu) → Option (MemResult (Unit {0}))
error_of (Outcome.returned (r, _)) = some r
error_of Outcome.panicked = none
error_of Outcome.out_of_fuel = none

perm_over_gap : error_of (update_perm 20 space 0x2ff8 16 3) ≡ some (MemResult.err MemError.unmapped)
unfolding update_perm overlapping_mut new_cursor insert_inclusive remove_all_inclusive
    remove_subrange
perm_over_gap = refl

unmap_memory_len-IsUnmapped_example :
    IsUnmapped regions 0x1800 0x1000 space (unmap_memory_len 0x2000 space 0x1800 0x1000)
unmap_memory_len-IsUnmapped_example =
    unmap_memory_len-IsUnmapped 0x2000 space regions 0x1800 0x1000 refl regions-IsSorted
      regions-IsPaged regions-AreData (omega arith) (omega arith) (omega arith) (omega arith)

is_regular_region-IsEvery_example :
    (r : Bool) × (is_regular_region 0x2000 space 0x1800 0x1000 ≡ Outcome.returned r)
    × ((r ≡ true) ↔ IsEvery is_regular regions 0x1800 0x1000)
is_regular_region-IsEvery_example =
    is_regular_region-IsEvery 0x2000 space regions 0x1800 0x1000 refl regions-IsSorted (omega arith)
      (omega arith) (omega arith) (omega arith)
