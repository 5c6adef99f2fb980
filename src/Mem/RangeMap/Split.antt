-- ===== src/Mem/RangeMap/Split.antt =====
-- `VecRangeSplitIterMut` and `overlapping_mut` of icicle-mem/src/range_map.rs: the changes that a function
-- makes to the pieces of a range are collected, and applied at the end. The function has a state of its
-- own, and may panic; `none` is a panic.
pub mod Visits
pub mod Updates
pub mod Laws
mod Tests
use icicle_emu.Base.{
  ℕ, zero, suc, ◌+◌, ◌-◌, Bool, true, false, ◌⊎◌, inl, inr, Option, none, some, ◌>>=◌, List, [],
  ◌∷◌, ◌++◌, if◌then◌else◌,
}
use icicle_emu.Mem.RangeMap.{VecRangeMap, Inserted, insert_inclusive}
use icicle_emu.Mem.RangeMap.Removal.{remove_all_inclusive}
use icicle_emu.Mem.RangeMap.Cursor.{Cursor, Piece, new_cursor, next}
use icicle_emu.Mem.RangeMap.Walk.{value_of}

pub record SplitIter (T : Type 0) : Type 0 where
  pub cursor : Cursor
  pub range_map : VecRangeMap T
  pub removals : List (ℕ × ℕ)
  pub additions : List (ℕ × ℕ × T)

-- The loop of `overlapping_mut`: the state of the function, the iterator, and the error.
pub data Loop (S E T : Type 0) : Type 0 where
  ended : S → SplitIter T → Option E → Loop S E T
  panicked out_of_fuel : Loop S E T

-- The result: the state of the function, the map, and the error.
pub data Updated (S E T : Type 0) : Type 0 where
  updated : S → VecRangeMap T → Option E → Updated S E T
  panicked out_of_fuel : Updated S E T

module _ {T : Type 0} where
  unfoldable pub new_split : VecRangeMap T → ℕ → ℕ → Option (SplitIter T)
  new_split m start end = do
    cursor ← new_cursor m start end
    some (record { cursor = cursor; range_map = m; removals = []; additions = [] })

  abbrev pub add_piece : SplitIter T → ℕ → ℕ → Option T → SplitIter T
  add_piece iter from size none = iter
  add_piece iter from size (some d) = record iter {
    additions = iter.additions ++ (from, size, d) ∷ [];
  }

  abbrev pub apply_removals : VecRangeMap T → List (ℕ × ℕ) → Option (VecRangeMap T)
  apply_removals m [] = some m
  apply_removals m ((start, len) ∷ r) =
      remove_all_inclusive m start (start + (len - 1)) >>= λ m. apply_removals m r

  module _ (eq : T → T → Bool) where
    -- The value after the function differs from the one before.
    abbrev pub changed : T → Option T → Bool
    changed before none = true
    changed before (some after) = if eq after before then false else true

    -- The end of `step`, for an entry and for a gap.
    abbrev pub register : SplitIter T → ℕ → ℕ → Option T → Option T → SplitIter T
    register iter from size (some before) after =
        if changed before after
        then add_piece (record iter { removals = iter.removals ++ (from, size) ∷ [] }) from size
            after
        else iter
    register iter from size none after = add_piece iter from size after

    -- An insertion that is refused is a panic.
    abbrev pub accepted : Inserted T → Option (VecRangeMap T)
    accepted (Inserted.inserted m) = some m
    accepted (Inserted.overlap _ _ _) = none

    abbrev pub apply_additions : VecRangeMap T → List (ℕ × ℕ × T) → Option (VecRangeMap T)
    apply_additions m [] = some m
    apply_additions m ((start, len, d) ∷ r) =
        insert_inclusive eq m start (start + (len - 1)) d >>= accepted >>= λ m. apply_additions m r

    unfoldable pub apply_updates : SplitIter T → Option (VecRangeMap T)
    apply_updates iter = do
      m ← apply_removals iter.range_map iter.removals
      apply_additions m iter.additions

-- The function is given its state, the start and the length of a piece, and its value.
module _ {S E T : Type 0} (eq : T → T → Bool)
    (modify : S → ℕ → ℕ → Option T → Option (S × (E ⊎ Option T))) where
  abbrev pub step_after :
      SplitIter T → Piece → Option T → S × (E ⊎ Option T) → S × SplitIter T × (E ⊎ Bool)
  step_after iter p before (s, inl error) = (s, iter, inl error)
  step_after iter p before (s, inr after) =
      (s, register eq iter p.from p.size before after, inr true)

  abbrev pub step_at : S → SplitIter T → Option Piece → Option (S × SplitIter T × (E ⊎ Bool))
  step_at s iter none = some (s, iter, inr false)
  step_at s iter (some p) = do
    before ← value_of iter.range_map p.slot
    r ← modify s p.from p.size before
    some (step_after iter p before r)

  unfoldable pub step : S → SplitIter T → Option (S × SplitIter T × (E ⊎ Bool))
  unfolding next
  step s iter = do
    (piece, cursor) ← next iter.range_map iter.cursor
    step_at s (record iter { cursor = cursor }) piece

  abbrev pub continue :
      (S → SplitIter T → Loop S E T) → Option (S × SplitIter T × (E ⊎ Bool)) → Loop S E T
  continue rest none = Loop.panicked
  continue rest (some (s, iter, inl error)) = Loop.ended s iter (some error)
  continue rest (some (s, iter, inr false)) = Loop.ended s iter none
  continue rest (some (s, iter, inr true)) = rest s iter

  unfoldable pub loop : ℕ → S → SplitIter T → Loop S E T
  unfolding step
  loop zero s iter = Loop.out_of_fuel
  loop (suc fuel) s iter = continue (loop fuel) (step s iter)

  abbrev pub with_map : S → Option E → Option (VecRangeMap T) → Updated S E T
  with_map s error none = Updated.panicked
  with_map s error (some m) = Updated.updated s m error

  abbrev pub after_loop : Loop S E T → Updated S E T
  after_loop (Loop.ended s iter error) = with_map s error (apply_updates eq iter)
  after_loop Loop.panicked = Updated.panicked
  after_loop Loop.out_of_fuel = Updated.out_of_fuel

  abbrev pub loop_from : ℕ → S → Option (SplitIter T) → Updated S E T
  loop_from fuel s none = Updated.panicked
  loop_from fuel s (some iter) = after_loop (loop fuel s iter)

  unfoldable pub overlapping_mut : ℕ → S → VecRangeMap T → ℕ → ℕ → Updated S E T
  unfolding loop new_split apply_updates
  overlapping_mut fuel s m start end = loop_from fuel s (new_split m start end)
