-- ===== src/Mem/RangeMap/Removal.antt =====
-- The removals of `VecRangeMap` in icicle-mem/src/range_map.rs. Indices are in bounds where the source
-- reads without a check; `none` is a panic, or in `remove_last` the absence of an overlap.
pub mod Laws
pub mod Overlap
pub mod Bounds
pub mod Clear
pub mod All
use icicle_emu.Base.{ℕ, zero, suc, ◌+◌, ◌-◌, Bool, Option, none, some, List, ◌>>=◌}
use icicle_emu.Base.{
  ltb, ◌==◌, if◌then◌else◌, length, get_elem?, set, insert_at, remove_at, u64_max,
}
use icicle_emu.Mem.RangeMap.{
  VecRangeMap, RangeOverlap, get_overlapping_range_inclusive, set_end, drain, lower_bound,
  upper_bound, find_range_before,
}

module _ {ℓ} {T : Type ℓ} where
  -- The part of range `i`, which is `start` to `end`, that is left.
  abbrev pub cut : VecRangeMap T → ℕ → ℕ → ℕ → T → ℕ → ℕ → VecRangeMap T
  cut m i start end d overlap_start overlap_end =
      if start == overlap_start
      then record m { starts = set m.starts i (overlap_end + 1) }
      else if end == overlap_end
      then record m { values = set_end m.values i (overlap_start - 1) }
      else record {
        starts = insert_at m.starts (suc i) (overlap_end + 1);
        values = insert_at (set_end m.values i (overlap_start - 1)) (suc i) (end, d);
      }

  unfoldable pub remove_subrange :
      VecRangeMap T → ℕ → RangeOverlap → Option ((T × ℕ × ℕ) × VecRangeMap T)
  remove_subrange m i (RangeOverlap.part overlap_start overlap_end) = do
    start ← get_elem? m.starts i
    (end, d) ← get_elem? m.values i
    some ((d, overlap_start, overlap_end), cut m i start end d overlap_start overlap_end)
  remove_subrange m i RangeOverlap.full = do
    start ← get_elem? m.starts i
    (end, d) ← get_elem? m.values i
    some ((d, start, end), record { starts = remove_at m.starts i; values = remove_at m.values i })

  unfoldable pub get_overlap : VecRangeMap T → ℕ → ℕ → Option (ℕ × RangeOverlap)
  unfolding find_range_before get_overlapping_range_inclusive
  get_overlap m target_start target_end = do
    i ← find_range_before m.starts target_end
    start ← get_elem? m.starts i
    (end, _) ← get_elem? m.values i
    overlapping ← get_overlapping_range_inclusive start end target_start target_end
    some (i, overlapping)

  unfoldable pub get_range : VecRangeMap T → ℕ → ℕ → Option (ℕ × ℕ)
  unfolding get_overlap
  get_range m target_start target_end = do
    (i, _) ← get_overlap m target_start target_end
    start ← get_elem? m.starts i
    (end, _) ← get_elem? m.values i
    some (start, end)

  unfoldable pub remove_last : VecRangeMap T → ℕ → ℕ → Option ((T × ℕ × ℕ) × VecRangeMap T)
  unfolding get_overlap remove_subrange
  remove_last m target_start target_end = do
    (i, overlap) ← get_overlap m target_start target_end
    remove_subrange m i overlap

  -- The ranges at the two ends of those that overlap, where they stick out.
  abbrev pub trim_first : VecRangeMap T → ℕ → ℕ → Option ℕ → VecRangeMap T × ℕ
  trim_first m lower target_start none = (m, lower)
  trim_first m lower target_start (some start) =
      if ltb start target_start
      then (record m { values = set_end m.values lower (target_start - 1) }, lower + 1)
      else (m, lower)

  -- `last` is the index before `upper`.
  abbrev pub trim_last : VecRangeMap T → ℕ → ℕ → ℕ → Option (ℕ × T) → VecRangeMap T × ℕ
  trim_last m upper last target_end none = (m, upper)
  trim_last m upper last target_end (some (end, _)) =
      if ltb target_end end
      then (record m { starts = set m.starts last (target_end + 1) }, last)
      else (m, upper)

  abbrev pub drop_between : VecRangeMap T → ℕ → ℕ → VecRangeMap T
  drop_between m lower upper =
      if ltb lower upper
      then record { starts = drain m.starts lower upper; values = drain m.values lower upper }
      else m

  -- The last range is trimmed, and those from `lower` on are dropped.
  abbrev pub finish : VecRangeMap T → ℕ → ℕ → ℕ → ℕ → VecRangeMap T
  finish m lower upper last target_end =
      let (m, upper) = trim_last m upper last target_end (get_elem? m.values last) in
      drop_between m lower upper

  -- The case of one overlapping range.
  abbrev pub remove_overlap : VecRangeMap T → ℕ → Option RangeOverlap → Option (VecRangeMap T)
  remove_overlap m lower none = some m
  remove_overlap m lower (some overlap) = remove_subrange m lower overlap >>= λ r. some r.1

  unfoldable pub remove_single : VecRangeMap T → ℕ → ℕ → ℕ → Option (VecRangeMap T)
  unfolding get_overlapping_range_inclusive
  remove_single m lower target_start target_end = do
    start ← get_elem? m.starts lower
    (end, _) ← get_elem? m.values lower
    remove_overlap m lower (get_overlapping_range_inclusive start end target_start target_end)

  -- With the ranges to work on, from index `lower` to `upper`.
  unfoldable pub remove_between : VecRangeMap T → ℕ → ℕ → ℕ → ℕ → Option (VecRangeMap T)
  unfolding remove_single
  remove_between m lower upper target_start target_end =
      if lower == upper
      then some m
      else if lower + 1 == upper
      then remove_single m lower target_start target_end
      else let (m, lower) = trim_first m lower target_start (get_elem? m.starts lower) in
        some (finish m lower upper (upper - 1) target_end)

  unfoldable pub remove_all_inclusive : VecRangeMap T → ℕ → ℕ → Option (VecRangeMap T)
  unfolding remove_between lower_bound upper_bound
  remove_all_inclusive m target_start target_end =
      let upper : ℕ =
        if target_end == u64_max then length m.starts else upper_bound m.starts (target_end + 1) in
      remove_between m (lower_bound m.values target_start) upper target_start target_end
