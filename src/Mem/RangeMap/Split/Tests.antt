-- ===== src/Mem/RangeMap/Split/Tests.antt =====
-- Runs of `remove_all` and `overlapping_mut` of icicle-mem/src/range_map.rs, and their theorems at concrete
-- inputs.
use icicle_emu.Base.{
  ℕ, ◌+◌, ◌≡◌, refl, arith, ◌==◌, ==_iff, ◌⊎◌, inl, inr, Option, none, some, List, [], ◌∷◌,
  if◌then◌else◌,
}
use icicle_emu.Mem.RangeMap.{insert_inclusive}
use icicle_emu.Mem.RangeMap.Cursor.{new_cursor}
use icicle_emu.Mem.RangeMap.Entries.{Entry, to_map, IsSorted}
use icicle_emu.Mem.RangeMap.Removal.{remove_all_inclusive, remove_subrange}
use icicle_emu.Mem.RangeMap.Removal.All.{IsFreed, remove_all_inclusive-IsFreed}
use icicle_emu.Mem.RangeMap.Walk.{Item, Walk, overlapping_iter}
use icicle_emu.Mem.RangeMap.Walk.Cover.{IsCover}
use icicle_emu.Mem.RangeMap.Split.{Updated, overlapping_mut}
use icicle_emu.Mem.RangeMap.Split.Visits.{visit}
use icicle_emu.Mem.RangeMap.Split.Laws.{IsUpdate, overlapping_mut-IsUpdate}

abbrev three_ranges : List (Entry ℕ)
three_ranges =
    record { start = 16; end = 31; value = 1 }
    ∷ record { start = 32; end = 47; value = 2 }
    ∷ record { start = 64; end = 79; value = 3 }
    ∷ []

three_ranges-IsSorted : IsSorted 0 three_ranges
three_ranges-IsSorted = (omega arith, omega arith, omega arith, omega arith)

remove_all_inclusive-IsFreed_example :
    IsFreed three_ranges 0 20 70 (remove_all_inclusive (to_map three_ranges) 20 70)
remove_all_inclusive-IsFreed_example =
    remove_all_inclusive-IsFreed three_ranges 0 20 70 three_ranges-IsSorted (omega arith)

-- Counts the pieces and adds ten to those that have a value; a piece of value 1 is an error.
abbrev add_ten : ℕ → ℕ → ℕ → Option ℕ → Option (ℕ × (ℕ ⊎ Option ℕ))
add_ten n start size none = some (n + 1, inr (some 7))
add_ten n start size (some v) =
    if v == 1 then some (n + 1, inl start) else some (n + 1, inr (some (v + 10)))

updated_pieces :
    overlapping_mut ◌==◌ add_ten 60 0 (to_map three_ranges) 40 70
    ≡ Updated.updated 3
        (to_map (
          record { start = 16; end = 31; value = 1 }
          ∷ record { start = 32; end = 39; value = 2 }
          ∷ record { start = 40; end = 47; value = 12 }
          ∷ record { start = 48; end = 63; value = 7 }
          ∷ record { start = 64; end = 70; value = 13 }
          ∷ record { start = 71; end = 79; value = 3 }
          ∷ []))
        none
unfolding overlapping_mut remove_all_inclusive new_cursor remove_subrange insert_inclusive
updated_pieces = refl

overlapping_mut-IsUpdate_example :
    (items : List (Item ℕ)) × (overlapping_iter 60 (to_map three_ranges) 24 70
      ≡ Walk.finished items)
    × IsCover three_ranges 24 47 items
    × IsUpdate ◌==◌
        (λ a b. (==_iff a b).0)
        add_ten
        three_ranges
        (visit add_ten items 0)
        (overlapping_mut ◌==◌ add_ten 60 0 (to_map three_ranges) 24 70)
overlapping_mut-IsUpdate_example =
    overlapping_mut-IsUpdate ◌==◌ (λ a b. (==_iff a b).0) add_ten 60 0 three_ranges 24 70
      three_ranges-IsSorted (omega arith) (omega arith) (omega arith) (omega arith)
