-- ===== src/Mem/Page.antt =====
-- `PageData` of icicle-mem/src/physical.rs: the bytes of a page and their permissions, which are lists
-- of 4096 bytes. The outer `none` is a failed assertion. The host is little-endian.
pub mod Bytes
pub mod Alignment
pub mod Permissions
pub mod Accesses
pub mod Checks
mod Tests
use icicle_emu.Base.{
  ℕ, zero, suc, ◌+◌, ◌-◌, ◌*◌, ◌/◌, ◌%◌, ◌^◌, Bool, ◌||◌, Option, none, some, List, [], ◌∷◌, ◌++◌,
  map, bit_and, bit_or, ◌==◌, leb, if◌then◌else◌, length, take, drop, replicate,
}
use icicle_emu.Mem.Perm.{MemError, MemResult, check_bytes, meet}
use icicle_emu.Mem.Perm.Flags

pub record PageData : Type 0 where
  pub content : List ℕ
  pub perm : List ℕ

unfoldable pub default : PageData
default = record { content = replicate 4096 0; perm = replicate 4096 0 }

-- The `len` bytes from `offset` on, and `copy_from_slice` to them.
abbrev pub slice : List ℕ → ℕ → ℕ → List ℕ
slice bytes offset len = take len (drop offset bytes)

abbrev pub overlay : List ℕ → List ℕ → List ℕ
overlay [] value = []
overlay (x ∷ bytes) [] = x ∷ bytes
overlay (x ∷ bytes) (y ∷ value) = y ∷ overlay bytes value

abbrev pub copy_at : List ℕ → ℕ → List ℕ → List ℕ
copy_at bytes zero value = overlay bytes value
copy_at [] (suc offset) value = []
copy_at (x ∷ bytes) (suc offset) value = x ∷ copy_at bytes offset value

unfoldable pub from_bytes : List ℕ → Option PageData
from_bytes bytes =
    if length bytes == 2 * 4096
    then some (record { content = slice bytes 0 4096; perm = slice bytes 4096 4096 })
    else none

unfoldable pub as_bytes : PageData → List ℕ
as_bytes d = d.content ++ slice d.perm 0 4096

unfoldable pub get_perm_unchecked : PageData → ℕ → ℕ → ℕ
get_perm_unchecked d offset len = meet Flags.all (slice d.perm offset len)

-- `from_le_bytes`, and the bytes of a word of `n` bytes.
abbrev pub from_le_bytes : List ℕ → ℕ
from_le_bytes [] = 0
from_le_bytes (x ∷ bytes) = x + 256 * from_le_bytes bytes

abbrev pub to_le_bytes : ℕ → ℕ → List ℕ
to_le_bytes zero x = []
to_le_bytes (suc n) x = x % 256 ∷ to_le_bytes n (x / 256)

-- `slow`, and the access of one word.
abbrev pub or_bytes : List ℕ → ℕ → List ℕ
or_bytes bytes perm = map (λ (byte : ℕ). bit_or byte perm) bytes

abbrev pub or_word : List ℕ → ℕ → ℕ → List ℕ
or_word bytes len perm =
    to_le_bytes len (bit_or (from_le_bytes bytes) (from_le_bytes (replicate len perm)))

unfoldable pub add_perm_unchecked : PageData → ℕ → ℕ → ℕ → PageData
add_perm_unchecked d offset len perm =
    let old = slice d.perm offset len in
    let updated =
      if len == 2 || len == 4 || len == 8 then or_word old len perm else or_bytes old perm in
    record d { perm = copy_at d.perm offset updated }

unfoldable pub add_perm : PageData → ℕ → ℕ → ℕ → Option PageData
unfolding add_perm_unchecked
add_perm d offset len perm =
    if leb (offset + len) 4096 then some (add_perm_unchecked d offset len perm) else none

-- `PageData::offset`
unfoldable pub offset_in_page : ℕ → ℕ
offset_in_page addr = bit_and addr (2 ^ 12 - 1)

-- The length is that of `u64` numbers with `start` no larger than `end`.
unfoldable pub offset_and_len : ℕ → ℕ → ℕ × ℕ
unfolding offset_in_page
offset_and_len start end = (offset_in_page start, end - start)

unfoldable pub is_aligned : ℕ → ℕ → Bool
is_aligned n value = bit_and value (n - 1) == 0

abbrev pub is_access_size : ℕ → Bool
is_access_size n = n == 1 || n == 2 || n == 4 || n == 8 || n == 16

-- What follows the check of the permissions.
abbrev pub checked {ℓ} : {A : Type ℓ} → MemResult (Unit {0}) → A → MemResult A
checked (MemResult.ok _) a = MemResult.ok a
checked (MemResult.err e) a = MemResult.err e

unfoldable pub read : ℕ → PageData → ℕ → ℕ → Option (MemResult (List ℕ))
unfolding is_aligned offset_in_page check_bytes
read n d addr perm =
    if is_access_size n
    then some (
        if is_aligned n addr
        then (let offset = offset_in_page addr in
            checked (check_bytes (slice d.perm offset n) (bit_or perm Flags.mapped))
              (slice d.content offset n))
        else MemResult.err MemError.unaligned)
    else none

-- The page afterwards, which an error leaves as it was.
unfoldable pub write : ℕ → PageData → ℕ → List ℕ → ℕ → Option (MemResult PageData)
unfolding is_aligned offset_in_page check_bytes add_perm_unchecked
write n d addr value perm =
    if is_access_size n
    then some (
        if is_aligned n addr
        then (let offset = offset_in_page addr in
            let d' = add_perm_unchecked d offset n Flags.init in
            checked (check_bytes (slice d.perm offset n) (bit_or perm Flags.mapped))
              (record d' { content = copy_at d'.content offset value }))
        else MemResult.err MemError.unaligned)
    else none
