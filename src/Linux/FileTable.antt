-- ===== src/Linux/FileTable.antt =====
-- `FileTable` of icicle-linux/src/fs/file.rs: the open files and the free file descriptors. A call of
-- `ProcessManager::file_ready_event` is an event in the result, and `Err(EBADF)` is `none`.
pub mod Numbers
pub mod Slots
pub mod Laws
use icicle_emu.Base.{
  ℕ, zero, suc, ◌-◌, ◌+◌, Option, none, some, ◌>>=◌, List, [], ◌∷◌, ◌++◌, map, Bool, if◌then◌else◌,
  leb, length, get_elem?, set, replicate,
}
use icicle_emu.Linux.FileTable.Numbers.{insert, remove, extend}

-- `ActiveFileData`, which the table shares by reference and never changes.
pub record ActiveFile : Type 0 where
  pub path : List ℕ
  pub inode : ℕ
  pub pos : ℕ
  pub flags : ℕ
  pub listeners : List ℕ

pub record FileTable : Type 0 where
  pub files : List (Option ActiveFile)
  pub free_files : List ℕ

-- The process to wake, and the descriptor.
pub record Event : Type 0 where
  pub pid : ℕ
  pub fd : ℕ

unfoldable pub new : FileTable
new = record { files = []; free_files = [] }

-- `files.get(fd).and_then(...)`.
abbrev pub file_at : List (Option ActiveFile) → ℕ → Option ActiveFile
file_at files fd = get_elem? files fd >>= λ slot. slot

abbrev pub ready_events : ℕ → Option ActiveFile → List Event
ready_events fd none = []
ready_events fd (some file) = map (λ pid. record { pid = pid; fd = fd }) file.listeners

unfoldable pub get : FileTable → ℕ → Option ActiveFile × List Event
get t fd = (file_at t.files fd, ready_events fd (file_at t.files fd))

-- The table with a slot for `fd`: the new slots before it are free.
abbrev pub grow : FileTable → ℕ → FileTable
grow t fd =
    if leb (length t.files) fd
    then record {
      files = t.files ++ replicate (fd + 1 - length t.files) none;
      free_files = extend t.free_files (length t.files) (fd - length t.files);
    }
    else t

unfoldable pub set_file : FileTable → ℕ → ActiveFile → FileTable × List Event
set_file t fd file =
    let grown = grow t fd in
    (
      record { files = set grown.files fd (some file); free_files = remove grown.free_files fd },
      ready_events fd (file_at grown.files fd),
    )

abbrev pub close_slot : FileTable → ℕ → Option ActiveFile → Option (FileTable × List Event)
close_slot t fd none = none
close_slot t fd (some file) = some (
  record { files = set t.files fd none; free_files = insert t.free_files fd },
  ready_events fd (some file),
)

unfoldable pub close : FileTable → ℕ → Option (FileTable × List Event)
close t fd = close_slot t fd (file_at t.files fd)

-- `none` is the panic where the free descriptor has no slot.
abbrev pub fill_slot : FileTable → ActiveFile → List ℕ → Option (FileTable × ℕ)
fill_slot t file (fd ∷ rest) =
    if leb (length t.files) fd
    then none
    else some (record { files = set t.files fd (some file); free_files = rest }, fd)
fill_slot t file [] =
    some (record { files = t.files ++ (some file ∷ []); free_files = [] }, length t.files)

unfoldable pub add : FileTable → ActiveFile → Option (FileTable × ℕ)
add t file = fill_slot t file t.free_files
