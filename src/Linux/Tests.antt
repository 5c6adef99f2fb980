-- ===== src/Linux/Tests.antt =====
-- A table with a closed descriptor, to which the theorems on icicle-linux are applied.
use icicle_emu.Base.{ℕ, zero, suc, refl, ◌≡◌, arith, none, some, [], ◌∷◌, get_elem?, ◌>>=◌}
use icicle_emu.Linux.FileTable.Numbers.{has}
use icicle_emu.Linux.FileTable.Slots.{is_empty}
use icicle_emu.Linux.FileTable.{ActiveFile, FileTable, get, add, close, set_file}
use icicle_emu.Linux.FileTable.Laws.{
  IsWellFormed, IsAdded, IsClosed, IsAssigned, add-IsAdded, close-IsClosed, set_file-IsAssigned,
}

abbrev pipe : ActiveFile
pipe = record { path = 0x70 ∷ []; inode = 5; pos = 0; flags = 0; listeners = 3334 ∷ 3335 ∷ [] }

-- Descriptor 1 was closed.
abbrev table : FileTable
table = record { files = some pipe ∷ none ∷ some pipe ∷ []; free_files = 1 ∷ [] }

slots : (j : ℕ) → has table.free_files j ≡ is_empty (get_elem? table.files j)
slots zero = refl
slots (suc zero) = refl
slots (suc (suc zero)) = refl
slots (suc (suc (suc j))) = ground arith

table-IsWellFormed : IsWellFormed table
table-IsWellFormed = ((omega arith, tt), slots)

add_twice : (add table pipe >>= λ r. add r.0 pipe >>= λ q. some q.1) ≡ some 3
unfolding add
add_twice = refl

set_past : (set_file table 6 pipe).0.free_files ≡ 1 ∷ 3 ∷ 4 ∷ 5 ∷ []
unfolding set_file
set_past = refl

close_wakes :
    (close table 2 >>= λ r. some r.1)
    ≡ some (record { pid = 3334; fd = 2 } ∷ record { pid = 3335; fd = 2 } ∷ [])
unfolding close
close_wakes = refl

close_twice : (close table 1) ≡ none
unfolding close
close_twice = refl

get_closed : (get table 1).0 ≡ none
unfolding get
get_closed = refl

add-IsAdded_example : IsAdded table pipe (add table pipe)
add-IsAdded_example = add-IsAdded table pipe table-IsWellFormed

close-IsClosed_example : IsClosed table 2 (close table 2)
close-IsClosed_example = close-IsClosed table 2 table-IsWellFormed

set_file-IsAssigned_example : IsAssigned table 6 pipe (set_file table 6 pipe)
set_file-IsAssigned_example = set_file-IsAssigned table 6 pipe table-IsWellFormed
