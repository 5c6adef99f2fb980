-- ===== src/Mem/Mmu/Filling.antt =====
-- Filling memory and marking it as executed, of `Mmu` in icicle-mem/src/mmu.rs: the operations whose
-- pieces write the contents of pages.
use icicle_emu.Base.{
  ℕ, zero, suc, ◌-◌, Bool, true, false, ◌&&◌, ◌||◌, inl, inr, Option, none, some, ◌>>=◌, List, [],
  ◌∷◌, ◌==◌, if◌then◌else◌, get_elem?, drop, bit_or, bit_and,
}
use icicle_emu.Mem.Perm.{MemError, MemResult, check}
use icicle_emu.Mem.Perm.Flags
use icicle_emu.Mem.Physical.{Page, is_zero_page}
use icicle_emu.Mem.Page.{PageData, offset_in_page, add_perm, get_perm_unchecked, add_perm_unchecked}
use icicle_emu.Mem.RangeMap.Split.{overlapping_mut}
use icicle_emu.Mem.Tlb.{remove_range, remove_write}
use icicle_emu.Mem.Mmu.{MemoryMapping, mapping_eq, Mmu, Outcome, checked_add, is_ok}
use icicle_emu.Mem.Mmu.Regions.{Backing, Piece, backing_of, after_update, change_page, fill}

-- `check_self_modifying_memset` from an offset on: whether a byte of cached code would change.
abbrev pub code_changes : List ℕ → List ℕ → ℕ → ℕ → Option Bool
code_changes perm content zero value = some false
code_changes [] content (suc len) value = none
code_changes (p ∷ perm) [] (suc len) value = none
code_changes (p ∷ perm) (d ∷ content) (suc len) value =
    let rest = code_changes perm content len value in
    if (bit_and p Flags.in_code_cache == 0) || (d == value) then rest else some true

-- `add_perm`, whose assertion may fail.
abbrev pub fill_page : ℕ → ℕ → ℕ → Page PageData → Option (Page PageData)
fill_page offset len value page = do
  content ← fill page.content.content offset len value
  filled ← add_perm (record (page.content) { content = content }) offset len Flags.init
  some (record page { content = filled })

abbrev pub fill_unless_code : ℕ → Backing → ℕ → ℕ → ℕ → ℕ → Bool → Option Piece
fill_unless_code value b start len index addr true = some (b, inl MemError.self_modifying_code)
fill_unless_code value b start len index addr false = do
  physical ←
      if value == 0 && offset_in_page start == 0 && len == 4096 && is_zero_page index
      then some b.physical
      else change_page b.physical index (fill_page (offset_in_page start) len value)
  some (record b { physical = physical }, inr (some (MemoryMapping.physical index addr)))

unfoldable pub fill_piece : Bool → ℕ → Backing → ℕ → ℕ → Option MemoryMapping → Option Piece
unfolding remove_range offset_in_page add_perm
fill_piece detect value b start len none = some (b, inl MemError.unmapped)
fill_piece detect value b start len (some (MemoryMapping.physical index addr)) = do
  tlb ← remove_range b.tlb start len
  page ← get_elem? b.physical.allocated index
  changes ←
      if page.executed && detect
      then code_changes (drop (offset_in_page start) page.content.perm)
          (drop (offset_in_page start) page.content.content) len value
      else some false
  fill_unless_code value (record b { tlb = tlb }) start len index addr changes
fill_piece detect value b start len (some (MemoryMapping.unallocated perm _)) =
    some (b, inr (some (MemoryMapping.unallocated (bit_or perm Flags.init) value)))
fill_piece detect value b start len (some (MemoryMapping.io id)) = none

abbrev pub fill_to : ℕ → Mmu → ℕ → ℕ → Option ℕ → Outcome (MemResult (Unit {0}) × Mmu)
fill_to fuel m addr value none = Outcome.returned (MemResult.err MemError.address_overflow, m)
fill_to fuel m addr value (some end) = after_update m (
    overlapping_mut mapping_eq (fill_piece m.detect_self_modifying_code value) fuel (backing_of m)
      m.mapping addr end)

unfoldable pub fill_mem : ℕ → Mmu → ℕ → ℕ → ℕ → Outcome (MemResult (Unit {0}) × Mmu)
unfolding checked_add overlapping_mut fill_piece
fill_mem fuel m addr count value =
    if count == 0
    then Outcome.returned (MemResult.ok tt, m)
    else fill_to fuel m addr value (checked_add addr (count - 1))

-- The closure of `ensure_executable`.
abbrev pub mark_executed : Bool → ℕ → ℕ → Page PageData → Page PageData
mark_executed detect offset len page = record page {
  executed = true;
  content =
      if detect
      then add_perm_unchecked page.content offset len Flags.in_code_cache
      else page.content;
}

abbrev pub executed_piece : Bool → Backing → ℕ → ℕ → ℕ → ℕ → MemResult (Unit {0}) → Option Piece
executed_piece detect b start len index addr (MemResult.err error) = some (b, inl error)
executed_piece detect b start len index addr (MemResult.ok _) = do
  physical ←
      change_page b.physical index
        (λ page. some (mark_executed detect (offset_in_page start) len page))
  some (
    record { physical = physical; tlb = remove_write b.tlb addr },
    inr (some (MemoryMapping.physical index addr)),
  )

unfoldable pub exec_piece : Bool → Backing → ℕ → ℕ → Option MemoryMapping → Option Piece
unfolding remove_write offset_in_page add_perm_unchecked get_perm_unchecked check
exec_piece detect b start len none = some (b, inl MemError.exec_violation)
exec_piece detect b start len (some (MemoryMapping.physical index addr)) = do
  page ← get_elem? b.physical.allocated index
  executed_piece detect b start len index addr (
      check (get_perm_unchecked page.content (offset_in_page start) len)
        (bit_or Flags.init Flags.exec))
exec_piece detect b start len (some (MemoryMapping.unallocated _ _)) =
    some (b, inl MemError.exec_violation)
exec_piece detect b start len (some (MemoryMapping.io id)) = some (b, inl MemError.exec_violation)

abbrev pub was_ok : Outcome (MemResult (Unit {0}) × Mmu) → Outcome (Bool × Mmu)
was_ok (Outcome.returned (r, m)) = Outcome.returned (is_ok r, m)
was_ok Outcome.panicked = Outcome.panicked
was_ok Outcome.out_of_fuel = Outcome.out_of_fuel

abbrev pub exec_to : ℕ → Mmu → ℕ → Option ℕ → Outcome (Bool × Mmu)
exec_to fuel m start none = Outcome.returned (false, m)
exec_to fuel m start (some end) = was_ok (
    after_update m (
      overlapping_mut mapping_eq (exec_piece m.detect_self_modifying_code) fuel (backing_of m)
        m.mapping start end))

unfoldable pub ensure_executable : ℕ → Mmu → ℕ → ℕ → Outcome (Bool × Mmu)
unfolding checked_add overlapping_mut exec_piece
ensure_executable fuel m start len =
    if len == 0 then Outcome.panicked else exec_to fuel m start (checked_add start (len - 1))
