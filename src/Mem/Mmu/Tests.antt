-- ===== src/Mem/Mmu/Tests.antt =====
-- Runs of the memory unit of icicle-mem/src/mmu.rs, and its theorems at concrete inputs.
use icicle_emu.Base.{
  ℕ, ◌≡◌, refl, arith, true, false, none, some, List, [], ◌∷◌, ◌++◌, get_elem?, leb, ltb, ◌==◌,
  if◌then◌else◌, ◌&&◌,
}
use icicle_emu.Mem.Perm.{MemResult}
use icicle_emu.Mem.RangeMap.Entries.{to_map, IsSorted}
use icicle_emu.Mem.Tlb.{default_entry}
use icicle_emu.Mem.Align.{AllocLayout}
use icicle_emu.Mem.Mmu.{MemoryMapping, Mmu, Outcome, map_memory_len, find_free_memory, alloc_memory}
use icicle_emu.Mem.Mmu.FreeMemory.{Entries, find_free_memory-IsAllocated, IsAllocated}
use icicle_emu.Mem.Mmu.Mapping.{
  map_memory_len-IsMapping, IsMapping, alloc_memory-IsAllocation, IsAllocation,
}
use icicle_emu.Mem.Mmu.Hooks.{HookEntry, add, remove, active_hooks}
use icicle_emu.Mem.Mmu.Hooks.Laws.{has_dead, active_hooks-add, active_hooks-remove}

-- Two mapped ranges, with a gap of 256 bytes.
abbrev entries : Entries
entries =
    record { start = 0; end = 0x1ff; value = MemoryMapping.unallocated 7 0 }
    ∷ record { start = 0x300; end = 0xfff; value = MemoryMapping.io 1 }
    ∷ []

entries-IsSorted : IsSorted 0 entries
entries-IsSorted =
    (omega arith, omega arith, omega arith, (omega arith, omega arith, omega arith, tt))

abbrev mmu : Mmu
mmu = record {
  mapping = to_map entries;
  tlb = record { read = λ i. default_entry; write = λ i. default_entry };
  mapping_changed = false;
  last_io_handler = none;
  physical = record { capacity = 4; allocated = []; free = [] };
  track_uninitialized = false;
  detect_self_modifying_code = false;
}

abbrev layout : AllocLayout
layout = record { addr = none; size = 0x80; align = 0x100 }

find_free_memory_test : find_free_memory 3 mmu layout ≡ Outcome.returned (MemResult.ok 0x200)
unfolding find_free_memory
find_free_memory_test = refl

find_free_memory-IsAllocated_example : IsAllocated entries layout (find_free_memory 3 mmu layout)
find_free_memory-IsAllocated_example =
    find_free_memory-IsAllocated 3 mmu entries 0 layout refl entries-IsSorted (omega arith)

map_memory_len-IsMapping_example :
    IsMapping entries mmu 0x200 0x100
      (MemoryMapping.io 2)
      0x210
      (map_memory_len mmu 0x200 0x100 (MemoryMapping.io 2))
map_memory_len-IsMapping_example =
    map_memory_len-IsMapping mmu entries 0x200 0x100 (MemoryMapping.io 2) 0x210 refl
      entries-IsSorted

alloc_memory-IsAllocation_example :
    IsAllocation entries mmu layout
      (MemoryMapping.io 2)
      (find_free_memory 3 mmu layout)
      (alloc_memory 3 mmu layout (MemoryMapping.io 2))
alloc_memory-IsAllocation_example =
    alloc_memory-IsAllocation 3 mmu entries layout (MemoryMapping.io 2) refl entries-IsSorted
      (omega arith) (omega arith)

abbrev hooks : List (HookEntry ℕ)
hooks =
    record { start = 16; end = 32; handler = some 1 }
    ∷ record { start = 0; end = 64; handler = some 2 }
    ∷ []

active_hooks-add_example :
    active_hooks (add hooks 8 24 3).1 20
    ≡ active_hooks hooks 20
      ++ (if has_dead hooks then [] else if leb 8 20 && ltb 20 24 then 3 ∷ [] else [])
active_hooks-add_example = active_hooks-add hooks 8 24 3 20

-- A hook that is added after a removal is lost.
added_after_removal_test : active_hooks (add (remove hooks 0).1 8 24 3).1 20 ≡ 2 ∷ []
unfolding active_hooks add remove
added_after_removal_test = refl

abbrev later_hooks : List (HookEntry ℕ)
later_hooks = record { start = 0; end = 64; handler = some 2 } ∷ []

active_hooks-remove_example :
    ((remove hooks 0).0 ≡ true)
    × (active_hooks (remove hooks 0).1 20 ≡ active_hooks [] 20 ++ active_hooks later_hooks 20)
    × ((if 1 == 0 then get_elem? hooks 1 else get_elem? (remove hooks 0).1 1) ≡ get_elem? hooks 1)
active_hooks-remove_example =
    active_hooks-remove [] later_hooks (record { start = 16; end = 32; handler = some 1 }) 20 1
