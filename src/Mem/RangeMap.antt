-- ===== src/Mem/RangeMap.antt =====
-- `VecRangeMap` of icicle-mem/src/range_map.rs: ranges of 64-bit addresses, both ends included, with a
-- value each, in two vectors. The field `data` of the source is `values` here. `none` is a panic,
-- where the result of the operation is not an `Option` in the source.
pub mod Entries
pub mod Frame
pub mod Insert
pub mod Removal
pub mod Cursor
pub mod Split
pub mod Walk
use icicle_emu.Base.{
  ℕ, zero, suc, ◌+◌, ◌-◌, Bool, true, false, ◌&&◌, ◌||◌, Option, none, some, List, [], ◌∷◌, ◌++◌,
  min, max,
}
use icicle_emu.Base.{
  ltb, leb, ◌==◌, if◌then◌else◌, map, length, get_elem?, set, take, drop, insert_at, remove_at,
  u64_max, ◌>>=◌,
}

-- The result of `slice::binary_search` on a sorted slice: the index of the element, or the index
-- where it would be inserted.
pub data Search : Type 0 where
  found missing : ℕ → Search

abbrev pub after_first : Search → Search
after_first (Search.found i) = Search.found (suc i)
after_first (Search.missing i) = Search.missing (suc i)

abbrev pub binary_search : List ℕ → ℕ → Search
binary_search [] index = Search.missing 0
binary_search (x ∷ xs) index =
    if x == index
    then Search.found 0
    else if ltb index x
    then Search.missing 0
    else after_first (binary_search xs index)

-- The two uses of it: the position in either case, or the position before.
abbrev pub position : Search → ℕ
position (Search.found i) = i
position (Search.missing i) = i

abbrev pub position_before : Search → Option ℕ
position_before (Search.found i) = some i
position_before (Search.missing zero) = none
position_before (Search.missing (suc i)) = some i

-- `RangeOverlap`, and the overlap of range `a` with range `b`.
pub data RangeOverlap : Type 0 where
  part : ℕ → ℕ → RangeOverlap
  full : RangeOverlap

unfoldable pub get_overlapping_range_inclusive : ℕ → ℕ → ℕ → ℕ → Option RangeOverlap
get_overlapping_range_inclusive a_start a_end b_start b_end =
    if ltb a_end b_start || ltb b_end a_start
    then none
    else if leb a_end b_end && leb b_start a_start
    then some RangeOverlap.full
    else some (RangeOverlap.part (max a_start b_start) (min a_end b_end))

pub record VecRangeMap {ℓ} (T : Type ℓ) : Type ℓ where
  pub starts : List ℕ
  pub values : List (ℕ × T)

-- `Result<(), OverlapError<T>>` with the map that is left. `overlap` gives the range reported.
pub data Inserted {ℓ} (T : Type ℓ) : Type ℓ where
  inserted : VecRangeMap T → Inserted T
  overlap : T → ℕ → ℕ → Inserted T

-- `Vec::drain` of the elements from `lower` to `upper`.
abbrev pub drain {ℓ} : {A : Type ℓ} → List A → ℕ → ℕ → List A
drain xs lower upper = take lower xs ++ drop upper xs

unfoldable pub upper_bound : List ℕ → ℕ → ℕ
upper_bound starts index = position (binary_search starts index)

unfoldable pub find_range_before : List ℕ → ℕ → Option ℕ
find_range_before starts index = position_before (binary_search starts index)

module _ {ℓ} {T : Type ℓ} where
  abbrev pub set_end : List (ℕ × T) → ℕ → ℕ → List (ℕ × T)
  set_end [] i e = []
  set_end ((_, d) ∷ r) zero e = (e, d) ∷ r
  set_end (x ∷ r) (suc i) e = x ∷ set_end r i e

  unfoldable pub lower_bound : List (ℕ × T) → ℕ → ℕ
  lower_bound values index = position (binary_search (map (λ (v : ℕ × T). v.0) values) index)

  -- `get_with_range` from the position of the last range that starts before `index`.
  abbrev pub entry_at : VecRangeMap T → ℕ → ℕ → Option (ℕ × ℕ × T)
  entry_at m index i = do
    start ← get_elem? m.starts i
    (e, d) ← get_elem? m.values i
    if ltb e index then none else some (start, e, d)

  unfoldable pub get_with_range : VecRangeMap T → ℕ → Option (ℕ × ℕ × T)
  unfolding find_range_before
  get_with_range m index = find_range_before m.starts index >>= entry_at m index

  unfoldable pub get : VecRangeMap T → ℕ → Option T
  unfolding get_with_range
  get m index = get_with_range m index >>= λ r. some r.2

  -- `insert_inclusive` past the check of the range before, which has index `i` and was extended if
  -- `merged`. The sums are of numbers below a `u64`.
  module _ (eq : T → T → Bool) where
    abbrev pub next_index : Option ℕ → ℕ
    next_index none = 0
    next_index (some i) = suc i

    abbrev pub place : VecRangeMap T → ℕ → Bool → ℕ → ℕ → T → VecRangeMap T
    place m next_i merged start end d = if merged then m else record {
      starts = insert_at m.starts next_i start;
      values = insert_at m.values next_i (end, d);
    }

    abbrev pub join : VecRangeMap T → Option ℕ → Bool → ℕ → ℕ → Option (VecRangeMap T)
    join m none true start next_end = none
    join m (some i) true start next_end = some (record {
      starts = remove_at m.starts (suc i);
      values = remove_at (set_end m.values i next_end) (suc i);
    })
    join m i false start next_end = some (record m { starts = set m.starts (next_index i) start })

    -- With what is read at the next index.
    abbrev pub insert_with :
        VecRangeMap T
        → Option ℕ
        → Bool
        → ℕ
        → ℕ
        → T
        → Option ℕ
        → Option (ℕ × T)
        → Option (Inserted T)
    insert_with m i merged start end d none _ =
        some (Inserted.inserted (place m (next_index i) merged start end d))
    insert_with m i merged start end d (some next_start) none = none
    insert_with m i merged start end d (some next_start) (some (next_end, next_data)) =
        if leb next_start end
        then some (Inserted.overlap d next_start end)
        else if next_start == end + 1 && eq next_data d
        then (join m i merged start next_end >>= λ m. some (Inserted.inserted m))
        else some (Inserted.inserted (place m (next_index i) merged start end d))

    unfoldable pub insert_next : VecRangeMap T → Option ℕ → Bool → ℕ → ℕ → T → Option (Inserted T)
    insert_next m i merged start end d =
        insert_with m i merged start end d (get_elem? m.starts (next_index i))
          (get_elem? m.values (next_index i))

    abbrev pub fits_before : Option ℕ → ℕ → Bool
    fits_before none end = true
    fits_before (some next_start) end = ltb end next_start

    -- With what is read of the range before, which has index `i`.
    unfoldable pub insert_after :
        VecRangeMap T → ℕ → ℕ → ℕ → T → Option (ℕ × T) → Option (Inserted T)
    unfolding insert_next
    insert_after m i start end d none = none
    insert_after m i start end d (some (prev_end, prev_data)) =
        if leb start prev_end
        then some (Inserted.overlap d start prev_end)
        else if start == prev_end + 1
            && eq prev_data d
            && fits_before (get_elem? m.starts (suc i)) end
        then insert_next (record m { values = set_end m.values i end }) (some i) true start end d
        else insert_next m (some i) false start end d

    unfoldable pub insert_from : VecRangeMap T → ℕ → ℕ → T → Option ℕ → Option (Inserted T)
    unfolding insert_next insert_after
    insert_from m start end d none = insert_next m none false start end d
    insert_from m start end d (some i) = insert_after m i start end d (get_elem? m.values i)

    unfoldable pub insert_inclusive : VecRangeMap T → ℕ → ℕ → T → Option (Inserted T)
    unfolding insert_from find_range_before
    insert_inclusive m start end d = insert_from m start end d (find_range_before m.starts start)
