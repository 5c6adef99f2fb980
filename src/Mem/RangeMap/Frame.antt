-- ===== src/Mem/RangeMap/Frame.antt =====
-- Insertion into a map with one more range in front, which the range does not reach:
-- `insert_inclusive` of icicle-mem/src/range_map.rs.
use icicle_emu.Base.{ℕ, suc, ◌+◌, ◌≡◌, refl, arith, Bool, true, false, ◌&&◌, Option, none, some}
use icicle_emu.Base.{◌∷◌, get_elem?, leb, ◌==◌, if◌then◌else◌}
use icicle_emu.Mem.RangeMap.{
  VecRangeMap, Inserted, insert_next, insert_after, insert_with, fits_before, set_end,
}
use icicle_emu.Mem.RangeMap.Entries.{Entry}

module _ {T : Type 0} where
  -- The same with one more range in front.
  abbrev pub in_front : Entry T → VecRangeMap T → VecRangeMap T
  in_front e m = record { starts = e.start ∷ m.starts; values = (e.end, e.value) ∷ m.values }

  abbrev pub lift : Entry T → Option (Inserted T) → Option (Inserted T)
  lift e none = none
  lift e (some (Inserted.inserted m)) = some (Inserted.inserted (in_front e m))
  lift e (some (Inserted.overlap d p q)) = some (Inserted.overlap d p q)

  lift-if :
      (e : Entry T) (c c' : Bool) (x y y' z z' : Option (Inserted T))
      → y ≡ lift e y'
      → z ≡ lift e z'
      → (if c then lift e x else if c' then y else z)
        ≡ lift e (if c then x else if c' then y' else z')
  lift-if e true c' x y y' z z' p q = refl
  lift-if e false true x y y' z z' p q = p
  lift-if e false false x y y' z z' p q = q

module _ {T : Type 0} (eq : T → T → Bool) (e : Entry T) (m : VecRangeMap T) (start end : ℕ)
    (d : T) where
  insert_with_frame :
      (i : ℕ) (merged : Bool) (o : Option ℕ) (v : Option (ℕ × T))
      → insert_with eq (in_front e m) (some (suc i)) merged start end d o v
        ≡ lift e (insert_with eq m (some i) merged start end d o v)
  insert_with_frame i true none v = refl
  insert_with_frame i false none v = refl
  insert_with_frame i merged (some s) none = refl
  insert_with_frame i true (some s) (some (t, u)) = ground arith
  insert_with_frame i false (some s) (some (t, u)) = ground arith

  -- Nothing is merged with the range in front.
  pub insert_unmerged_frame :
      (o : Option ℕ) (v : Option (ℕ × T))
      → insert_with eq (in_front e m) (some 0) false start end d o v
        ≡ lift e (insert_with eq m none false start end d o v)
  insert_unmerged_frame none v = refl
  insert_unmerged_frame (some s) none = refl
  insert_unmerged_frame (some s) (some (t, u)) = ground arith

module _ {T : Type 0} (eq : T → T → Bool) (e : Entry T) (m : VecRangeMap T) (start end : ℕ)
    (d : T) where
  merged_frame :
      (i : ℕ)
      → insert_next eq
          (record (in_front e m) { values = (e.end, e.value) ∷ set_end m.values i end })
          (some (suc i))
          true
          start
          end
          d
        ≡ lift e (
            insert_next eq (record m { values = set_end m.values i end }) (some i) true start end d)
  unfolding insert_next
  merged_frame i =
      insert_with_frame eq e (record m { values = set_end m.values i end }) start end d i true _ _

  pub insert_after_frame :
      (i : ℕ) (v : Option (ℕ × T))
      → insert_after eq (in_front e m) (suc i) start end d v
        ≡ lift e (insert_after eq m i start end d v)
  unfolding insert_after insert_next
  insert_after_frame i none = refl
  insert_after_frame i (some (t, u)) =
      lift-if e (leb start t)
        (start == t + 1 && eq u d && fits_before eq (get_elem? m.starts (suc i)) end)
        (some (Inserted.overlap d start t)) _
        (insert_next eq (record m { values = set_end m.values i end }) (some i) true start end d) _
        (insert_next eq m (some i) false start end d) (merged_frame i)
        (insert_with_frame eq e m start end d i false (get_elem? m.starts (suc i))
          (get_elem? m.values (suc i)))
