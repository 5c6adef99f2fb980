-- ===== src/Mem/Mmu.antt =====
-- The address space of `Mmu` in icicle-mem/src/mmu.rs: the mapping, the translation cache and what the
-- changes of the mapping reset. `none` is a panic.
pub mod Hooks
pub mod FreeMemory
pub mod Mapping
pub mod Regions
pub mod Filling
pub mod Queries
mod Tests
use icicle_emu.Base.{
  ℕ, zero, suc, ◌+◌, ◌-◌, Bool, true, false, ◌&&◌, Option, none, some, ◌>>=◌, ltb, leb, ◌==◌,
  if◌then◌else◌, u64_mod, u64_max,
}
use icicle_emu.Mem.Perm.{MemError, MemResult}
use icicle_emu.Mem.RangeMap.{VecRangeMap, Inserted, insert_inclusive}
use icicle_emu.Mem.RangeMap.Removal.{get_range}
use icicle_emu.Mem.Tlb.{TranslationCache, remove_range, clear}
use icicle_emu.Mem.Physical.{PhysicalMemory}
use icicle_emu.Mem.Page.{PageData}
use icicle_emu.Mem.Align.{AllocLayout, align_up, checked_next_power_of_two}

-- `MemoryMapping` of icicle-mem/src/lib.rs, with the fields of `PhysicalMapping` (the index of a page and
-- an address) and of `UnallocatedMemory` (permissions and a value).
pub data MemoryMapping : Type 0 where
  physical : ℕ → ℕ → MemoryMapping
  unallocated : ℕ → ℕ → MemoryMapping
  io : ℕ → MemoryMapping

abbrev pub mapping_eq : MemoryMapping → MemoryMapping → Bool
mapping_eq (MemoryMapping.physical i a) (MemoryMapping.physical j b) = i == j && a == b
mapping_eq (MemoryMapping.unallocated p v) (MemoryMapping.unallocated q w) = p == q && v == w
mapping_eq (MemoryMapping.io i) (MemoryMapping.io j) = i == j
mapping_eq _ _ = false

pub record Mmu : Type 0 where
  pub mapping : VecRangeMap MemoryMapping
  pub tlb : TranslationCache
  pub mapping_changed : Bool
  pub last_io_handler : Option (ℕ × ℕ × ℕ)
  pub physical : PhysicalMemory PageData
  pub track_uninitialized : Bool
  pub detect_self_modifying_code : Bool

unfoldable pub checked_add : ℕ → ℕ → Option ℕ
checked_add a b = if ltb (a + b) u64_mod then some (a + b) else none

-- `map_memory_len` after the insertion.
abbrev pub mapped : Mmu → ℕ → ℕ → Inserted MemoryMapping → Option (Bool × Mmu)
mapped m start len (Inserted.overlap _ _ _) = some (false, m)
mapped m start len (Inserted.inserted mapping) = do
  tlb ← remove_range m.tlb start len
  some (
    true,
    record m { mapping = mapping; tlb = tlb; mapping_changed = true; last_io_handler = none },
  )

abbrev pub map_to : Mmu → ℕ → ℕ → MemoryMapping → Option ℕ → Option (Bool × Mmu)
map_to m start len mapping none = some (false, m)
map_to m start len mapping (some end) =
    insert_inclusive mapping_eq m.mapping start end mapping >>= mapped m start len

unfoldable pub map_memory_len : Mmu → ℕ → ℕ → MemoryMapping → Option (Bool × Mmu)
unfolding checked_add insert_inclusive remove_range
map_memory_len m start len mapping =
    if len == 0 then some (false, m) else map_to m start len mapping (checked_add start (len - 1))

-- `map_memory` takes the end that is not included.
unfoldable pub map_memory : Mmu → ℕ → ℕ → MemoryMapping → Option (Bool × Mmu)
unfolding map_memory_len
map_memory m start end mapping =
    if ltb end start then none else map_memory_len m start (end - start) mapping

unfoldable pub map_physical : Mmu → ℕ → ℕ → Option (Bool × Mmu)
unfolding map_memory_len
map_physical m addr index = map_memory_len m addr 4096 (MemoryMapping.physical index addr)

-- `Result::is_ok`
abbrev pub is_ok : MemResult (Unit {0}) → Bool
is_ok (MemResult.ok _) = true
is_ok (MemResult.err _) = false

-- What a loop on fuel leaves.
pub data Outcome {ℓ} (A : Type ℓ) : Type ℓ where
  returned : A → Outcome A
  panicked : Outcome A
  out_of_fuel : Outcome A

-- The loop of `find_free_memory`, by the range that overlaps. `next` is the rest of the loop.
abbrev pub continue_at : (ℕ → Outcome (MemResult ℕ)) → Option ℕ → Outcome (MemResult ℕ)
continue_at next none = Outcome.panicked
continue_at next (some start_addr) = next start_addr

abbrev pub past_range : (ℕ → Outcome (MemResult ℕ)) → ℕ → ℕ → Option (ℕ × ℕ) → Outcome (MemResult ℕ)
past_range next align start_addr none = Outcome.returned (MemResult.ok start_addr)
past_range next align start_addr (some (_, end)) =
    if end == u64_max then Outcome.panicked else continue_at next (align_up (end + 1) align)

abbrev pub search_at :
    (ℕ → Outcome (MemResult ℕ))
    → VecRangeMap MemoryMapping
    → ℕ
    → ℕ
    → Option ℕ
    → Outcome (MemResult ℕ)
search_at next m align start_addr none = Outcome.returned (MemResult.err MemError.out_of_memory)
search_at next m align start_addr (some last) =
    past_range next align start_addr (get_range m start_addr last)

unfoldable pub find_from : ℕ → VecRangeMap MemoryMapping → ℕ → ℕ → ℕ → Outcome (MemResult ℕ)
unfolding align_up checked_add get_range
find_from zero m aligned_length align start_addr = Outcome.out_of_fuel
find_from (suc fuel) m aligned_length align start_addr =
    if aligned_length == 0
    then Outcome.panicked
    else search_at (find_from fuel m aligned_length align) m align start_addr
        (checked_add start_addr (aligned_length - 1))

abbrev pub preferred : Option ℕ → ℕ
preferred none = 0
preferred (some addr) = addr

-- The alignment, the length with the padding and the first address.
abbrev pub layout_of : AllocLayout → Option (ℕ × ℕ × ℕ)
layout_of layout = do
  align ← checked_next_power_of_two layout.align
  aligned_length ← align_up layout.size align
  start_addr ← align_up (preferred layout.addr) align
  some (align, aligned_length, start_addr)

abbrev pub find_with : ℕ → VecRangeMap MemoryMapping → Option (ℕ × ℕ × ℕ) → Outcome (MemResult ℕ)
find_with fuel m none = Outcome.panicked
find_with fuel m (some (align, aligned_length, start_addr)) =
    find_from fuel m aligned_length align start_addr

unfoldable pub find_free_memory : ℕ → Mmu → AllocLayout → Outcome (MemResult ℕ)
unfolding find_from checked_next_power_of_two align_up
find_free_memory fuel m layout = find_with fuel m.mapping (layout_of layout)

-- `alloc_memory` after the search, which does not look at the result of the mapping.
abbrev pub allocated : ℕ → Option (Bool × Mmu) → Outcome (MemResult ℕ × Mmu)
allocated start none = Outcome.panicked
allocated start (some (_, m)) = Outcome.returned (MemResult.ok start, m)

unfoldable pub alloc_at :
    Mmu → AllocLayout → MemoryMapping → Outcome (MemResult ℕ) → Outcome (MemResult ℕ × Mmu)
unfolding map_memory_len
alloc_at m layout mapping Outcome.out_of_fuel = Outcome.out_of_fuel
alloc_at m layout mapping Outcome.panicked = Outcome.panicked
alloc_at m layout mapping (Outcome.returned (MemResult.err e)) =
    Outcome.returned (MemResult.err e, m)
alloc_at m layout mapping (Outcome.returned (MemResult.ok start)) =
    allocated start (map_memory_len m start layout.size mapping)

unfoldable pub alloc_memory : ℕ → Mmu → AllocLayout → MemoryMapping → Outcome (MemResult ℕ × Mmu)
unfolding find_free_memory alloc_at
alloc_memory fuel m layout mapping = alloc_at m layout mapping (find_free_memory fuel m layout)
