-- ===== src/Mem/Mmu/Regions.antt =====
-- The operations of `Mmu` in icicle-mem/src/mmu.rs on the pieces of a range: unmapping and permissions.
-- `none` is a panic; a write to the contents of a page makes
-- them its own, so that a page is changed at its index only.
pub mod Unmap
pub mod Unmapped
mod Tests
use icicle_emu.Base.{
  ℕ, zero, suc, ◌+◌, ◌-◌, Bool, true, false, not, ◌&&◌, ◌||◌, ◌⊎◌, inl, inr, Option, none, some,
  ◌>>=◌, List, [], ◌∷◌, ltb, leb, ◌==◌, if◌then◌else◌, get_elem?, set, drop, replicate, bit_or,
  bit_and,
}
use icicle_emu.Mem.Perm.{MemError, MemResult, check}
use icicle_emu.Mem.Perm.Flags
use icicle_emu.Mem.Physical.{PhysicalMemory, Page, is_zero_page, get_zero_page, address_of}
use icicle_emu.Mem.Page.{
  PageData, copy_at, offset_in_page, add_perm, get_perm_unchecked, add_perm_unchecked,
}
use icicle_emu.Mem.RangeMap.{VecRangeMap, get}
use icicle_emu.Mem.RangeMap.Walk.{Item, Walk, overlapping_iter}
use icicle_emu.Mem.RangeMap.Split.{Updated, overlapping_mut}
use icicle_emu.Mem.Tlb.{TranslationCache, remove_range, remove_write}
use icicle_emu.Mem.Mmu.{MemoryMapping, mapping_eq, Mmu, Outcome, checked_add, is_ok}

-- `fill` of a part of an array of 4096 bytes.
abbrev pub fill : List ℕ → ℕ → ℕ → ℕ → Option (List ℕ)
fill bytes offset len value =
    if leb (offset + len) 4096 then some (copy_at bytes offset (replicate len value)) else none

-- `get_mut` of a page, and a change of it.
abbrev pub change_page :
    PhysicalMemory PageData
    → ℕ
    → (Page PageData → Option (Page PageData))
    → Option (PhysicalMemory PageData)
change_page m index f = do
  page ← get_elem? m.allocated index
  page' ← f page
  some (record m { allocated = set m.allocated index page' })

-- `page.data_mut().perm[offset..offset + len].fill(perm)`
abbrev pub fill_perm : ℕ → ℕ → ℕ → Page PageData → Option (Page PageData)
fill_perm offset len value page = do
  filled ← fill page.content.perm offset len value
  some (record page { content = record (page.content) { perm = filled } })

-- What the closures borrow from the memory unit.
pub record Backing : Type 0 where
  pub physical : PhysicalMemory PageData
  pub tlb : TranslationCache

pub record Unmapping : Type 0 where
  pub physical : PhysicalMemory PageData
  pub tlb : TranslationCache
  pub partially_unmapped : Bool

-- The closure of `unmap_memory_len`, which takes the entry of each piece.
abbrev pub unless_executed :
    (Page PageData → Option (Page PageData)) → Page PageData → Option (Page PageData)
unless_executed f page = if page.executed then none else f page

unfoldable pub unmap_piece :
    Unmapping
    → ℕ
    → ℕ
    → Option MemoryMapping
    → Option (Unmapping × (Unit {0} ⊎ Option MemoryMapping))
unfolding remove_range offset_in_page
unmap_piece b start len none = some (record b { partially_unmapped = true }, inr none)
unmap_piece b start len (some (MemoryMapping.physical index addr)) = do
  tlb ← remove_range b.tlb start len
  physical ←
      if len == 4096
      then some b.physical
      else change_page b.physical index (unless_executed (fill_perm (offset_in_page start) len 0))
  some (record b { tlb = tlb; physical = physical }, inr none)
unmap_piece b start len (some (MemoryMapping.unallocated perm value)) = some (b, inr none)
unmap_piece b start len (some (MemoryMapping.io id)) = some (b, inr none)

abbrev pub unmapping_of : Mmu → Unmapping
unmapping_of m = record { physical = m.physical; tlb = m.tlb; partially_unmapped = false }

abbrev pub after_unmap : Mmu → Updated Unmapping (Unit {0}) MemoryMapping → Outcome (Bool × Mmu)
after_unmap m (Updated.updated b mapping _) = Outcome.returned (
  not b.partially_unmapped,
  record m { mapping = mapping; physical = b.physical; tlb = b.tlb; mapping_changed = true },
)
after_unmap m Updated.panicked = Outcome.panicked
after_unmap m Updated.out_of_fuel = Outcome.out_of_fuel

abbrev pub unmap_to : ℕ → Mmu → ℕ → Option ℕ → Outcome (Bool × Mmu)
unmap_to fuel m start none = Outcome.returned (false, m)
unmap_to fuel m start (some end) =
    after_unmap m (overlapping_mut mapping_eq unmap_piece fuel (unmapping_of m) m.mapping start end)

unfoldable pub unmap_memory_len : ℕ → Mmu → ℕ → ℕ → Outcome (Bool × Mmu)
unfolding checked_add overlapping_mut unmap_piece
unmap_memory_len fuel m start len =
    if len == 0
    then Outcome.returned (false, m)
    else unmap_to fuel m start (checked_add start (len - 1))

-- An update that may fail: what is updated before the error stays.
abbrev pub backing_of : Mmu → Backing
backing_of m = record { physical = m.physical; tlb = m.tlb }

abbrev pub result_of : Option MemError → MemResult (Unit {0})
result_of none = MemResult.ok tt
result_of (some error) = MemResult.err error

abbrev pub after_update :
    Mmu → Updated Backing MemError MemoryMapping → Outcome (MemResult (Unit {0}) × Mmu)
after_update m (Updated.updated b mapping error) =
    Outcome.returned
      (result_of error, record m { mapping = mapping; physical = b.physical; tlb = b.tlb })
after_update m Updated.panicked = Outcome.panicked
after_update m Updated.out_of_fuel = Outcome.out_of_fuel

abbrev pub Piece : Type 0
Piece = Backing × (MemError ⊎ Option MemoryMapping)

-- The closure of `update_perm`: a whole page of zeros may become the other page of zeros.
abbrev pub perm_of_page : ℕ → Backing → ℕ → ℕ → ℕ → ℕ → Option ℕ → Option Piece
perm_of_page perm b start len index addr (some zero_page) =
    some (b, inr (some (MemoryMapping.physical zero_page addr)))
perm_of_page perm b start len index addr none = do
  physical ← change_page b.physical index (fill_perm (offset_in_page start) len perm)
  some (record b { physical = physical }, inr (some (MemoryMapping.physical index addr)))

unfoldable pub perm_piece : ℕ → Backing → ℕ → ℕ → Option MemoryMapping → Option Piece
unfolding remove_range offset_in_page get_zero_page
perm_piece perm b start len none = some (b, inl MemError.unmapped)
perm_piece perm b start len (some (MemoryMapping.physical index addr)) = do
  tlb ← remove_range b.tlb start len
  perm_of_page perm (record b { tlb = tlb }) start len index addr
      (if offset_in_page start == 0 && len == 4096 && is_zero_page index
        then get_zero_page perm
        else none)
perm_piece perm b start len (some (MemoryMapping.unallocated _ value)) =
    some (b, inr (some (MemoryMapping.unallocated perm value)))
perm_piece perm b start len (some (MemoryMapping.io id)) = none

abbrev pub full_perm : Mmu → ℕ → ℕ
full_perm m perm =
    bit_or (bit_or perm Flags.mapped) (if m.track_uninitialized then 0 else Flags.init)

abbrev pub update_to : ℕ → Mmu → ℕ → ℕ → Option ℕ → Outcome (MemResult (Unit {0}) × Mmu)
update_to fuel m addr perm none = Outcome.returned (MemResult.err MemError.address_overflow, m)
update_to fuel m addr perm (some end) =
    after_update (record m { mapping_changed = true })
      (overlapping_mut mapping_eq (perm_piece (full_perm m perm)) fuel (backing_of m) m.mapping addr
        end)

unfoldable pub update_perm : ℕ → Mmu → ℕ → ℕ → ℕ → Outcome (MemResult (Unit {0}) × Mmu)
unfolding checked_add overlapping_mut perm_piece
update_perm fuel m addr count perm =
    if count == 0
    then Outcome.panicked
    else update_to fuel m addr perm (checked_add addr (count - 1))
