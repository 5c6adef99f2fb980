-- ===== src/Mem/RangeMap/Walk.antt =====
-- `overlapping_iter` of icicle-mem/src/range_map.rs: the entries and the gaps of a range, the last first.
pub mod Places
pub mod Cover
pub mod Every
use icicle_emu.Base.{
  Bool, true, false, if◌then◌else◌, ℕ, zero, suc, Option, none, some, ◌>>=◌, List, [], ◌∷◌,
  get_elem?,
}
use icicle_emu.Mem.RangeMap.{VecRangeMap}
use icicle_emu.Mem.RangeMap.Cursor.{Cursor, Piece, new_cursor, next}

-- An item: the start, the length, and the value of the entry.
pub record Item (T : Type 0) : Type 0 where
  pub from : ℕ
  pub size : ℕ
  pub value : Option T

pub data Walk (T : Type 0) : Type 0 where
  finished : List (Item T) → Walk T
  panicked out_of_fuel : Walk T

module _ {T : Type 0} where
  abbrev pub with_item : Item T → Walk T → Walk T
  with_item x (Walk.finished items) = Walk.finished (x ∷ items)
  with_item x Walk.panicked = Walk.panicked
  with_item x Walk.out_of_fuel = Walk.out_of_fuel

  abbrev pub value_of : VecRangeMap T → Option ℕ → Option (Option T)
  value_of m none = some none
  value_of m (some i) = get_elem? m.values i >>= λ v. some (some v.1)

  abbrev pub item_of : Piece → Option (Option T) → Walk T → Walk T
  item_of p none rest = Walk.panicked
  item_of p (some value) rest =
      with_item (record { from = p.from; size = p.size; value = value }) rest

  abbrev pub collect : VecRangeMap T → (Cursor → Walk T) → Option (Option Piece × Cursor) → Walk T
  collect m rest none = Walk.panicked
  collect m rest (some (none, c)) = Walk.finished []
  collect m rest (some (some p, c)) = item_of p (value_of m p.slot) (rest c)

  unfoldable pub walk : ℕ → VecRangeMap T → Cursor → Walk T
  unfolding next
  walk zero m c = Walk.out_of_fuel
  walk (suc fuel) m c = collect m (walk fuel m) (next m c)

  abbrev pub walk_from : ℕ → VecRangeMap T → Option Cursor → Walk T
  walk_from fuel m none = Walk.panicked
  walk_from fuel m (some c) = walk fuel m c

  unfoldable pub overlapping_iter : ℕ → VecRangeMap T → ℕ → ℕ → Walk T
  unfolding walk new_cursor
  overlapping_iter fuel m start end = walk_from fuel m (new_cursor m start end)

  -- A loop over the items that stops where a value fails a test.
  abbrev pub all_items : (Option T → Bool) → List (Item T) → Bool
  all_items good [] = true
  all_items good (x ∷ items) =
      let rest = all_items good items in if good x.value then rest else false
