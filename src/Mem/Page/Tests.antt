-- ===== src/Mem/Page/Tests.antt =====
-- Runs of the page accesses of icicle-mem/src/physical.rs, and their theorems at concrete inputs.
use icicle_emu.Base.{
  ℕ, zero, suc, ◌<◌, ◌≡◌, refl, arith, some, List, [], ◌∷◌, bit_or, ◌==◌, inl, replicate, get_or,
  length-replicate, if◌then◌else◌, ◌%◌, ◌+◌,
}
use icicle_emu.Mem.Perm.{MemError, MemResult, check}
use icicle_emu.Mem.Perm.Flags
use icicle_emu.Mem.Page.{
  PageData, slice, copy_at, or_bytes, add_perm_unchecked, get_perm_unchecked, offset_in_page,
  checked, read, write,
}
use icicle_emu.Mem.Page.Permissions.{IsPage, add_perm_unchecked-or_bytes}
use icicle_emu.Mem.Page.Accesses.{read-write, read-write_other}
use icicle_emu.Mem.Page.Checks.{read-check}

-- A page that may be read and written, with bytes that are not initialised.
abbrev page : PageData
page = record { content = replicate 4096 0; perm = replicate 4096 0x16 }

get_or-replicate : (n a k : ℕ) → a < 256 → get_or (replicate n a) k 0 < 256
get_or-replicate zero a k h = omega arith
get_or-replicate (suc n) a zero h = h
get_or-replicate (suc n) a (suc k) h = get_or-replicate n a k h

page-IsPage : IsPage page
page-IsPage = (
  length-replicate {A = ℕ} 4096 0,
  length-replicate {A = ℕ} 4096 0x16,
  λ k. get_or-replicate 4096 0x16 k (omega arith),
)

abbrev value : List ℕ
value = 0x11 ∷ 0x22 ∷ 0x33 ∷ 0x44 ∷ []

abbrev after : PageData
after = record {
  content = copy_at page.content 8 value;
  perm = copy_at page.perm 8 (0x17 ∷ 0x17 ∷ 0x17 ∷ 0x17 ∷ []);
}

write_test : write 4 page 0x1008 value Flags.write ≡ some (MemResult.ok after)
unfolding write
write_test = refl

uninitalized_test :
    read 4 page 0x1008 (Flags.read + Flags.init) ≡ some (MemResult.err MemError.uninitalized)
unfolding read
uninitalized_test = refl

add_perm_unchecked-or_bytes_example :
    add_perm_unchecked page 4094 2 1
    ≡ record page { perm = copy_at page.perm 4094 (or_bytes (slice page.perm 4094 2) 1) }
add_perm_unchecked-or_bytes_example =
    add_perm_unchecked-or_bytes page 4094 2 1 page-IsPage (omega arith) (omega arith)

read-write_example : read 4 after 0x1008 Flags.write ≡ some (MemResult.ok value)
read-write_example = read-write 4 page after 0x1008 value Flags.write page-IsPage refl write_test

read-write_other_example : read 8 after 0x1010 Flags.read ≡ read 8 page 0x1010 Flags.read
unfolding offset_in_page
read-write_other_example =
    read-write_other 4 8 page after 0x1008 0x1010 value Flags.write Flags.read page-IsPage refl
      write_test (inl (omega arith))

read-check_example :
    read 2 page 0x1007 Flags.read
    ≡ some (
        if 0x1007 % 2 == 0
        then checked
            (check
              (get_perm_unchecked page (offset_in_page 0x1007) 2)
              (bit_or Flags.read Flags.mapped))
            (slice page.content (offset_in_page 0x1007) 2)
        else MemResult.err MemError.unaligned)
unfolding offset_in_page
read-check_example =
    read-check 2 page 0x1007 Flags.read refl
      (omega arith, refl, refl, (omega arith, refl, refl, tt)) (omega arith)
