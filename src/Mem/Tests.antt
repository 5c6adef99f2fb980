-- ===== src/Mem/Tests.antt =====
-- Small maps, caches and permissions of icicle-mem, to which the theorems are applied.
use icicle_emu.Base.{ℕ, ◌≡◌, arith, some, none, List, [], ◌∷◌, ◌==◌, ==_iff}
use icicle_emu.Mem.Perm.{check}
use icicle_emu.Mem.Perm.{MemError, code, from_code}
use icicle_emu.Mem.Perm.Codes.{from_code-code}
use icicle_emu.Mem.Perm.Checks.{check-verdict, verdict}
use icicle_emu.Mem.Physical.{PhysicalMemory, new_memory, free_page, alloc}
use icicle_emu.Mem.Physical.Laws.{IsAllocation, alloc-IsAllocation}
use icicle_emu.Mem.RangeMap.{get, insert_inclusive}
use icicle_emu.Mem.RangeMap.Entries.{Entry, to_map, IsSorted, get-lookup}
use icicle_emu.Mem.RangeMap.Insert.{IsInsertion, insert-IsInsertion}
use icicle_emu.Mem.RangeMap.Cursor.{Cursor}
use icicle_emu.Mem.RangeMap.Walk.{overlapping_iter}
use icicle_emu.Mem.RangeMap.Walk.Cover.{IsCovered, overlapping_iter-IsCovered}
use icicle_emu.Mem.Tlb.{
  TranslationCache, default_entry, translate_read, translate_write, remove_range,
}
use icicle_emu.Mem.Tlb.Laws.{translate-remove_range}

-- Two ranges with a gap that one insertion fills.
abbrev two_ranges : List (Entry ℕ)
two_ranges =
    record { start = 16; end = 31; value = 1 } ∷ record { start = 48; end = 63; value = 1 } ∷ []

two_ranges-IsSorted : IsSorted 0 two_ranges
two_ranges-IsSorted =
    (omega arith, omega arith, omega arith, (omega arith, omega arith, omega arith, tt))

get-lookup_example : get (to_map two_ranges) 50 ≡ some 1
get-lookup_example = get-lookup two_ranges 0 50 two_ranges-IsSorted

insert-IsInsertion_example :
    IsInsertion two_ranges 0 32 47 1 (insert_inclusive ◌==◌ (to_map two_ranges) 32 47 1)
insert-IsInsertion_example =
    insert-IsInsertion ◌==◌ (λ a b. (==_iff a b).0) 32 47 1 (omega arith) (omega arith) two_ranges 0
      two_ranges-IsSorted (omega arith)

abbrev empty_cache : TranslationCache
empty_cache = record { read = λ i. default_entry; write = λ i. default_entry }

translate-remove_range_example :
    (t : TranslationCache) × (remove_range empty_cache 100 9000 ≡ some t)
    × (translate_read t 5000 ≡ none)
    × (translate_write t 5000 ≡ none)
translate-remove_range_example =
    translate-remove_range empty_cache 100 9000 5000 (omega arith) (omega arith) (omega arith)

check-verdict_example : check 0x13 0x16 ≡ verdict 0x13 0x16
check-verdict_example = check-verdict 0x13 0x16 (omega arith) (omega arith)

from_code-code_example : from_code (code MemError.unmapped_register) ≡ MemError.unknown
from_code-code_example = from_code-code MemError.unmapped_register

abbrev cursor : Cursor
cursor = record { start = 20; len = 50; i = 2 }

overlapping_iter-IsCovered_example :
    IsCovered two_ranges 20 41 (overlapping_iter 100 (to_map two_ranges) 20 60)
overlapping_iter-IsCovered_example =
    overlapping_iter-IsCovered 100 two_ranges 0 20 60 two_ranges-IsSorted (omega arith)
      (omega arith) (omega arith)

-- One page that was freed.
abbrev small_memory : PhysicalMemory ℕ
small_memory = free_page (new_memory 0 (λ perm. perm) 2) 1

alloc-IsAllocation_example :
    IsAllocation small_memory (small_memory.capacity) (alloc 0 (λ perm. perm) small_memory) 0
unfolding free_page new_memory
alloc-IsAllocation_example =
    alloc-IsAllocation 0 (λ perm. perm) small_memory 0 ((omega arith, tt), omega arith)
      (omega arith)
