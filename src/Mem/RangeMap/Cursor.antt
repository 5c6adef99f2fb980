-- ===== src/Mem/RangeMap/Cursor.antt =====
-- `VecRangeMapCursor` of icicle-mem/src/range_map.rs, which walks down from the end of a range through
-- the entries and the gaps between them. The outer `none` is a panic.
pub mod Pieces
use icicle_emu.Base.{
  ltb, ◌||◌, ℕ, zero, suc, ◌+◌, ◌-◌, Option, none, some, ◌>>=◌, ◌==◌, if◌then◌else◌, leb, length,
  get_elem?, u64_max, u64_mod,
}
use icicle_emu.Mem.RangeMap.{
  VecRangeMap, RangeOverlap, get_overlapping_range_inclusive, upper_bound,
}

pub record Cursor : Type 0 where
  pub start : ℕ
  pub len : ℕ
  pub i : ℕ

-- A piece of the range: its start, its length, and the index of its entry.
pub record Piece : Type 0 where
  pub from : ℕ
  pub size : ℕ
  pub slot : Option ℕ

-- `RangeOverlap::get_with_len`, and the start without a length where nothing overlaps.
abbrev pub overlap_or_start : ℕ → ℕ → Option RangeOverlap → ℕ × ℕ
overlap_or_start start end (some (RangeOverlap.part s e)) = (s, e - s + 1)
overlap_or_start start end (some RangeOverlap.full) = (start, end - start + 1)
overlap_or_start start end none = (start, 0)

-- The end of `next`: the gap after the overlap, or else the overlap.
abbrev pub piece_at : Cursor → ℕ → ℕ → ℕ → Piece × Cursor
piece_at c i overlap_start overlap_len =
    let region_len = c.start + (c.len - 1) - overlap_start + 1 in
    let gap_len = region_len - overlap_len in
    if gap_len == 0
    then (
      record { from = overlap_start; size = region_len; slot = some i },
      record c { len = c.len - region_len; i = i },
    )
    else (
      record { from = overlap_start + overlap_len; size = gap_len; slot = none },
      record c { len = c.len - gap_len },
    )

-- `next` past the check of the length, at the entry of index `i`.
unfoldable pub next_at : Cursor → ℕ → ℕ → ℕ → Piece × Cursor
unfolding get_overlapping_range_inclusive
next_at c i entry_start entry_end =
    let current_end = c.start + (c.len - 1) in
    let overlap =
      overlap_or_start c.start current_end
        (get_overlapping_range_inclusive c.start current_end entry_start entry_end) in
    piece_at c i overlap.0 overlap.1

module _ {ℓ} {T : Type ℓ} where
  unfoldable pub new_cursor : VecRangeMap T → ℕ → ℕ → Option Cursor
  unfolding upper_bound
  new_cursor m start end =
      let i : ℕ = if end == u64_max then length m.starts else upper_bound m.starts (end + 1) in
      if ltb end start || leb u64_mod (end - start + 1)
      then none
      else some (record { start = start; len = end - start + 1; i = i })

  abbrev pub next_from : VecRangeMap T → Cursor → ℕ → Option (Option Piece × Cursor)
  next_from m c zero =
      some (some (record { from = c.start; size = c.len; slot = none }), record c { len = 0 })
  next_from m c (suc i) = do
    entry_start ← get_elem? m.starts i
    (entry_end, _) ← get_elem? m.values i
    let (piece, c') = next_at c i entry_start entry_end
    some (some piece, c')

  unfoldable pub next : VecRangeMap T → Cursor → Option (Option Piece × Cursor)
  unfolding next_at
  next m c = if c.len == 0 then some (none, c) else next_from m c c.i
