-- ===== src/Linux/FileTable/Laws.antt =====
-- What the operations of icicle-linux/src/fs/file.rs do with the descriptors.
use icicle_emu.Base.{
  ℕ, suc, ◌+◌, ◌-◌, ◌<◌, ◌≡◌, ◌≢◌, refl, sym, ap, ◌∙◌, Option, none, some, List, [], ◌∷◌, ◌++◌,
  Bool, true, false, ◌||◌, leb, ◌==◌, ==_iff, length, get_elem?, set, replicate, length-append,
  length-replicate, get_elem?-set_self, get_elem?-set_ne, arith, Bool-cases, Option-cases, inl, inr,
  if◌then◌else◌,
}
use mathlib.Core.Path.{subst}
use icicle_emu.Linux.FileTable.{
  ActiveFile, FileTable, Event, file_at, ready_events, fill_slot, grow, add, close, set_file,
}
use icicle_emu.Linux.FileTable.Numbers.{
  has, remove, IsAscending, has_below, insert-IsAscending, has-insert, remove-IsAscending,
  has-remove, extend-IsAscending, has-extend, IsAscending-weaken,
}
use icicle_emu.Linux.FileTable.Slots.{
  is_empty, inside, append_same, append_other, out_none, empty_slot, empty_or_file, file_inside,
  slot-set, file_at-set, is_empty-set, file_at-grown, is_empty-grown,
}

-- The free descriptors are, in ascending order, those of the slots without a file.
abbrev pub IsWellFormed : FileTable → Type 0
IsWellFormed t =
    IsAscending 0 t.free_files × ((j : ℕ) → has t.free_files j ≡ is_empty (get_elem? t.files j))

abbrev pub IsAdded : FileTable → ActiveFile → Option (FileTable × ℕ) → Type 0
IsAdded t file none = ⊥
IsAdded t file (some (t', fd)) =
    IsWellFormed t'
    × file_at t'.files fd ≡ some file
    × ((j : ℕ) → j ≢ fd → file_at t'.files j ≡ file_at t.files j)
    × file_at t.files fd ≡ none
    × ((j : ℕ) → j < fd → file_at t.files j ≢ none)

fill_first :
    (t : FileTable) (file : ActiveFile) (fd : ℕ) (rest : List ℕ)
    → IsAscending 0 (fd ∷ rest)
    → ((j : ℕ) → has (fd ∷ rest) j ≡ is_empty (get_elem? t.files j))
    → IsAdded t file (fill_slot t file (fd ∷ rest))
fill_first t file fd rest (a, s) h =
    let e = empty_slot (get_elem? t.files fd) (sym (h fd) ∙ (ground arith)) in
    let l = inside t.files fd (sym (h fd) ∙ (ground arith)) in
    let f : leb (length t.files) fd ≡ false = ground arith in
    rw f (
      (IsAscending-weaken 0 (suc fd) rest (omega arith) s, λ j. rest_empty j l),
      rw (get_elem?-set_self t.files fd (some file) l) refl,
      (λ j n. rw (get_elem?-set_ne t.files {i = fd} {j = j} (some file) (λ q. n (sym q))) refl),
      rw e refl,
      (λ j m.
          empty_or_file t j (omega (arith, l))
            (sym (h j) ∙ has_below fd (fd ∷ rest) j (omega arith, s) m)),
    )
  where
    rest_empty :
        (j : ℕ)
        → fd < length t.files
        → has rest j ≡ is_empty (get_elem? (set t.files fd (some file)) j)
    rest_empty j l = elim (Bool-cases (fd == j)) [
      | inl q ↦
          rw (slot-set t.files fd j (some file) l, q) (has_below (suc fd) rest j s (ground arith))
      | inr q ↦
          rw (slot-set t.files fd j (some file) l, q)
            (subst (λ b. (b || has rest j) ≡ is_empty (get_elem? t.files j)) q (h j))
    ]

fill_last :
    (t : FileTable) (file : ActiveFile)
    → ((j : ℕ) → has [] j ≡ is_empty (get_elem? t.files j))
    → IsAdded t file (fill_slot t file [])
fill_last t file h = (
  (
    tt,
    λ j. elim (Bool-cases (length t.files == j)) [
      | inl q ↦
          subst (λ k. false ≡ is_empty (get_elem? (t.files ++ (some file ∷ [])) k))
            ((==_iff (length t.files) j).0 q) (rw (append_same t.files (some file)) refl)
      | inr q ↦ rw (append_other t.files (some file) j (λ r. absurd (ground arith))) (h j)
    ],
  ),
  rw (append_same t.files (some file)) refl,
  (λ j n. rw (append_other t.files (some file) j n) refl),
  rw (out_none t.files) refl,
  (λ j m. empty_or_file t j m (sym (h j))),
)

fill-IsAdded :
    (t : FileTable) (file : ActiveFile) (free : List ℕ)
    → IsAscending 0 free
    → ((j : ℕ) → has free j ≡ is_empty (get_elem? t.files j))
    → IsAdded t file (fill_slot t file free)
fill-IsAdded t file [] s h = fill_last t file h
fill-IsAdded t file (fd ∷ rest) s h = fill_first t file fd rest s h

-- On a well-formed table a new file gets the lowest descriptor that has no file, the others stay as
-- they are, and the table stays well-formed.
pub add-IsAdded : (t : FileTable) (file : ActiveFile) → IsWellFormed t → IsAdded t file (add t file)
unfolding add
add-IsAdded t file (s, h) = fill-IsAdded t file t.free_files s h

abbrev pub IsClosed : FileTable → ℕ → Option (FileTable × List Event) → Type 0
IsClosed t fd none = file_at t.files fd ≡ none
IsClosed t fd (some (t', events)) =
    IsWellFormed t'
    × file_at t.files fd ≢ none
    × ((j : ℕ) → file_at t'.files j ≡ (if fd == j then none else file_at t.files j))
    × events ≡ ready_events fd (file_at t.files fd)

-- On a well-formed table a descriptor is closed exactly where it has a file: then the descriptor
-- has none, the others stay as they are, the table stays well-formed, and the listeners of the file
-- are woken.
pub close-IsClosed : (t : FileTable) (fd : ℕ) → IsWellFormed t → IsClosed t fd (close t fd)
unfolding close
close-IsClosed t fd (s, h) = elim (Option-cases (file_at t.files fd)) [
  | inl e ↦ rw e e
  | inr (file, e) ↦
      let l = file_inside t.files fd file e in
      rw e (
        (
          insert-IsAscending 0 t.free_files fd s (omega arith),
          λ j.
              rw (has-insert t.free_files fd j, is_empty-set t.files fd j none l, h j)
                (either (fd == j) (is_empty (get_elem? t.files j))),
        ),
        (λ g. cc (e, g)),
        (λ j. file_at-set t.files fd j none l),
        rw e refl,
      )
]
  where
    either : (b c : Bool) → (b || c) ≡ (if b then true else c)
    either true c = refl
    either false c = refl

-- A table with a slot for a descriptor: every other free one is listed.
abbrev IsGrown : FileTable → ℕ → FileTable → Type 0
IsGrown t fd t' =
    IsAscending 0 t'.free_files
    × ((j : ℕ) → fd ≢ j → has t'.free_files j ≡ is_empty (get_elem? t'.files j))
    × ((j : ℕ) → file_at t'.files j ≡ file_at t.files j)
    × fd < length t'.files

grow-IsGrown : (t : FileTable) (fd : ℕ) → IsWellFormed t → IsGrown t fd (grow t fd)
grow-IsGrown t fd (s, h) = elim (Bool-cases (leb (length t.files) fd)) [
  | inl e ↦ rw e (
    extend-IsAscending t.free_files (length t.files) (fd - length t.files) s,
    (λ j n.
        rw
          (
            has-extend t.free_files (length t.files) (fd - length t.files) j,
            is_empty-grown t.files (fd + 1 - length t.files) j,
            h j,
          )
          (ap (λ b. is_empty (get_elem? t.files j) || b) (ground arith))),
    (λ j. file_at-grown t.files (fd + 1 - length t.files) j),
    rw
        (
          length-append t.files (replicate (fd + 1 - length t.files) none),
          length-replicate {A = Option ActiveFile} (fd + 1 - length t.files) none,
        )
        (ground arith),
  )
  | inr e ↦ rw e (s, (λ j n. h j), (λ j. refl), ground arith)
]

abbrev pub IsAssigned : FileTable → ℕ → ActiveFile → FileTable × List Event → Type 0
IsAssigned t fd file (t', events) =
    IsWellFormed t'
    × ((j : ℕ) → file_at t'.files j ≡ (if fd == j then some file else file_at t.files j))
    × events ≡ ready_events fd (file_at t.files fd)

-- On a well-formed table any descriptor may be assigned, also one past the last slot: then it has
-- the file, the others stay as they are, the table stays well-formed, and the listeners of the file
-- that the descriptor had before are woken.
pub set_file-IsAssigned :
    (t : FileTable) (fd : ℕ) (file : ActiveFile)
    → IsWellFormed t
    → IsAssigned t fd file (set_file t fd file)
unfolding set_file
set_file-IsAssigned t fd file w = assign (grow t fd) (grow-IsGrown t fd w)
  where
    free :
        (g : FileTable) (j : ℕ)
        → IsGrown t fd g
        → has (remove g.free_files fd) j ≡ is_empty (get_elem? (set g.files fd (some file)) j)
    free g j (s, h, f, l) = elim (Bool-cases (fd == j)) [
      | inl q ↦
          rw (has-remove 0 g.free_files fd j s, is_empty-set g.files fd j (some file) l, q) refl
      | inr q ↦
          rw (has-remove 0 g.free_files fd j s, is_empty-set g.files fd j (some file) l, q)
            (h j (λ r. absurd (ground arith)))
    ]

    assign :
        (g : FileTable)
        → IsGrown t fd g
        → IsAssigned t fd file (
          record { files = set g.files fd (some file); free_files = remove g.free_files fd },
          ready_events fd (file_at g.files fd),
        )
    assign g (s, h, f, l) = (
      (remove-IsAscending 0 g.free_files fd s, λ j. free g j (s, h, f, l)),
      (λ j. rw (sym (f j)) (file_at-set g.files fd j (some file) l)),
      ap (ready_events fd) (f fd),
    )
