-- ===== src/Mem/Mmu/Queries.antt =====
-- The questions about what is mapped in `Mmu` of icicle-mem/src/mmu.rs. `none` is a panic.
pub mod Laws
use icicle_emu.Base.{
  ℕ, zero, suc, ◌+◌, ◌-◌, Bool, true, false, not, ◌&&◌, Option, none, some, ◌>>=◌, List, [], ◌∷◌,
  ◌==◌, if◌then◌else◌, get_elem?, bit_or,
}
use icicle_emu.Mem.Perm.{MemError, MemResult, check}
use icicle_emu.Mem.Perm.Flags
use icicle_emu.Mem.Physical.{PhysicalMemory, Page, get_zero_page, address_of}
use icicle_emu.Mem.Page.{PageData, offset_in_page}
use icicle_emu.Mem.RangeMap.{get}
use icicle_emu.Mem.RangeMap.Walk.{Item, Walk, all_items, overlapping_iter}
use icicle_emu.Mem.Mmu.{MemoryMapping, Mmu, Outcome, checked_add, is_ok}

-- `get_perm`
abbrev pub perm_at : PhysicalMemory PageData → ℕ → Option MemoryMapping → Option ℕ
perm_at physical addr none = some 0
perm_at physical addr (some (MemoryMapping.physical index _)) = do
  page ← get_elem? physical.allocated index
  get_elem? page.content.perm (offset_in_page addr)
perm_at physical addr (some (MemoryMapping.unallocated perm _)) = some perm
perm_at physical addr (some (MemoryMapping.io _)) = some 0

unfoldable pub get_perm : Mmu → ℕ → Option ℕ
unfolding get offset_in_page
get_perm m addr = perm_at m.physical addr (get m.mapping addr)

-- `resolve_vaddr` and `get_physical_index`, where `none` is the answer.
abbrev pub index_of : Option MemoryMapping → Option ℕ
index_of (some (MemoryMapping.physical index _)) = some index
index_of (some (MemoryMapping.unallocated _ _)) = none
index_of (some (MemoryMapping.io _)) = none
index_of none = none

unfoldable pub get_physical_index : Mmu → ℕ → Option ℕ
unfolding get
get_physical_index m addr = index_of (get m.mapping addr)

unfoldable pub resolve_vaddr : Mmu → ℕ → Option (ℕ × ℕ)
unfolding get address_of
resolve_vaddr m vaddr =
    index_of (get m.mapping vaddr) >>= λ index. some (vaddr, address_of vaddr index)

unfoldable pub get_physical_addr : Mmu → ℕ → Option ℕ
unfolding resolve_vaddr
get_physical_addr m addr = resolve_vaddr m addr >>= λ entry. some entry.1

-- The loops over the items of a range.
abbrev pub over_items {ℓ} :
    {A : Type ℓ} → (List (Item MemoryMapping) → A) → Walk MemoryMapping → Outcome A
over_items f (Walk.finished items) = Outcome.returned (f items)
over_items f Walk.panicked = Outcome.panicked
over_items f Walk.out_of_fuel = Outcome.out_of_fuel

abbrev pub is_regular : Option MemoryMapping → Bool
is_regular (some (MemoryMapping.physical _ _)) = true
is_regular (some (MemoryMapping.unallocated _ _)) = true
is_regular (some (MemoryMapping.io _)) = false
is_regular none = false

abbrev pub regular_to : ℕ → Mmu → ℕ → Option ℕ → Outcome Bool
regular_to fuel m start none = Outcome.returned false
regular_to fuel m start (some end) =
    over_items (all_items is_regular) (overlapping_iter fuel m.mapping start end)

unfoldable pub is_regular_region : ℕ → Mmu → ℕ → ℕ → Outcome Bool
unfolding checked_add overlapping_iter
is_regular_region fuel m start len =
    if len == 0 then Outcome.panicked else regular_to fuel m start (checked_add start (len - 1))

-- `UnallocatedMemory::is_zero`
unfoldable pub is_zero : ℕ → ℕ → Bool
unfolding check
is_zero perm value =
    value == 0 && is_ok (check (bit_or perm Flags.mapped) (bit_or Flags.read Flags.init))

-- The permissions of the zeros so far, and whether those of one more piece fit.
abbrev pub fits : Option ℕ → ℕ → Bool
fits none perm = true
fits (some before) perm = perm == before

abbrev pub zero_perm : Option ℕ → Option MemoryMapping → Option ℕ
zero_perm before (some (MemoryMapping.unallocated perm value)) =
    if is_zero perm value && fits before perm then some perm else none
zero_perm before (some (MemoryMapping.physical _ _)) = none
zero_perm before (some (MemoryMapping.io _)) = none
zero_perm before none = none

-- The outer `none` is the early return.
abbrev pub zero_perms : Option ℕ → List (Item MemoryMapping) → Option (Option ℕ)
zero_perms before [] = some before
zero_perms before (x ∷ items) = zero_perm before x.value >>= λ perm. zero_perms (some perm) items

abbrev pub zero_page_of : Option (Option ℕ) → Option ℕ
zero_page_of none = none
zero_page_of (some none) = none
zero_page_of (some (some perm)) = get_zero_page perm

abbrev pub zero_to : ℕ → Mmu → ℕ → Option ℕ → Outcome (Option ℕ)
zero_to fuel m start none = Outcome.returned none
zero_to fuel m start (some end) =
    over_items (λ items. zero_page_of (zero_perms none items))
      (overlapping_iter fuel m.mapping start end)

-- `Mmu::get_zero_page`
unfoldable pub find_zero_page : ℕ → Mmu → ℕ → ℕ → Outcome (Option ℕ)
unfolding checked_add overlapping_iter get_zero_page is_zero
find_zero_page fuel m start len =
    if len == 0 then Outcome.panicked else zero_to fuel m start (checked_add start (len - 1))
