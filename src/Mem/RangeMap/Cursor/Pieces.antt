-- ===== src/Mem/RangeMap/Cursor/Pieces.antt =====
-- The pieces that the cursor of icicle-mem/src/range_map.rs yields.
use icicle_emu.Base.{
  ℕ, ◌+◌, ◌-◌, ◌≤◌, ◌<◌, ◌≡◌, refl, arith, Bool-cases, inl, inr, none, some, ◌==◌, ltb, leb, ◌&&◌,
  ◌||◌, ◌⊎◌, min, max,
}
use icicle_emu.Mem.RangeMap.{get_overlapping_range_inclusive}
use icicle_emu.Mem.RangeMap.Cursor.{Cursor, Piece, next_at, piece_at}

-- A piece is not empty, ends where the rest of the range ends, and is taken off it. It lies in the
-- entry, which is then passed, or it does not meet the entry.
abbrev pub IsPiece : Cursor → ℕ → ℕ → ℕ → Piece → Cursor → Type 0
IsPiece c i entry_start entry_end p c' =
    (0 < p.size)
    × (c.start ≤ p.from)
    × (p.from + p.size ≡ c.start + c.len)
    × (c'.start ≡ c.start)
    × (c'.len + p.size ≡ c.len)
    × (((p.slot ≡ some i)
          × (c'.i ≡ i)
          × (entry_start ≤ p.from)
          × (p.from + p.size ≤ entry_end + 1)
          × ((p.from ≡ c.start) ⊎ (p.from ≡ entry_start)))
        ⊎ ((p.slot ≡ none)
            × (c'.i ≡ c.i)
            × ((entry_end < p.from) ⊎ (p.from + p.size ≤ entry_start))))

module _ (c : Cursor) (i entry_start entry_end : ℕ) where
  piece_at-IsPiece :
      (from len : ℕ)
      → c.start ≤ from
      → from < c.start + c.len
      → from + len ≤ c.start + c.len
      → (0 < len
          → (entry_start ≤ from)
            × (from + len ≤ entry_end + 1)
            × ((from ≡ c.start) ⊎ (from ≡ entry_start)))
      → (from + len < c.start + c.len → (entry_end < from + len) ⊎ (c.start + c.len ≤ entry_start))
      → IsPiece c i entry_start entry_end (piece_at c i from len).0 (piece_at c i from len).1
  piece_at-IsPiece from len low high fits inside after =
      elim (Bool-cases (c.start + (c.len - 1) - from + 1 - len == 0)) [
        | inl whole ↦
            let (p, q, t) = inside (ground arith) in
            rw whole (
              omega arith,
              low,
              omega arith,
              refl,
              omega arith,
              inl (refl, refl, p, ground arith, t),
            )
        | inr gap ↦ rw gap (
          ground arith,
          omega arith,
          ground arith,
          refl,
          ground arith,
          inr (refl, refl, ground (arith, after)),
        )
      ]

  -- Where some of the range is left, a step of the cursor at an entry takes a piece off its end
  -- that is not empty, and the piece either lies in the entry, which is then passed, or does not
  -- meet it.
  pub next_at-IsPiece :
      0 < c.len
      → entry_start ≤ entry_end
      → IsPiece c i entry_start entry_end
          (next_at c i entry_start entry_end).0
          (next_at c i entry_start entry_end).1
  unfolding next_at get_overlapping_range_inclusive
  next_at-IsPiece h k =
      elim (Bool-cases (ltb (c.start + (c.len - 1)) entry_start || ltb entry_end c.start)) [
        | inl apart ↦ rw apart (
            piece_at-IsPiece c.start 0 (omega arith) (omega arith) (omega arith)
              (λ z. absurd (omega arith)) (λ z. ground arith))
        | inr meets ↦
            elim (Bool-cases (leb (c.start + (c.len - 1)) entry_end && leb entry_start c.start)) [
              | inl inner ↦
                  rw (meets, inner)
                    (piece_at-IsPiece c.start (c.start + (c.len - 1) - c.start + 1) (omega arith)
                      (omega arith) (omega arith) (λ z. (ground arith, ground arith, inl refl))
                      (λ z. absurd (omega arith)))
              | inr outer ↦
                  rw (meets, outer)
                    (piece_at-IsPiece (max c.start entry_start)
                      (min (c.start + (c.len - 1)) entry_end - max c.start entry_start + 1)
                      (omega arith) (ground arith) (ground arith)
                      (λ z. (omega arith, ground arith, ground arith)) (λ z. inl (ground arith)))
            ]
      ]
