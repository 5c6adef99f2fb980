-- ===== src/Mem/Tlb.antt =====
-- The software address translation cache: icicle-mem/src/tlb.rs. An array of entries is a function of
-- the index, a `PageRef` is the address of the page in the host, and a `u64` is a number below 2 ^ 64.
-- Masks are written as quotients and remainders by powers of two: a page has 2 ^ 12 bytes, a cache
-- 2 ^ 10 entries.
pub mod Entries
pub mod Laws
use icicle_emu.Base.{
  ℕ, zero, suc, ◌+◌, ◌-◌, ◌*◌, ◌/◌, ◌%◌, Bool, Option, none, some, ◌==◌, ltb, leb, if◌then◌else◌,
  u64_mod, u64_max, ◌>>=◌,
}

abbrev pub page_size : ℕ
page_size = 4096

abbrev pub tlb_entries : ℕ
tlb_entries = 1024

pub record TlbEntry : Type 0 where
  pub tag : ℕ
  pub guest_to_host_offset : ℕ

abbrev pub default_entry : TlbEntry
default_entry = record { tag = u64_max; guest_to_host_offset = 0 }

pub record TranslationCache : Type 0 where
  pub read : ℕ → TlbEntry
  pub write : ℕ → TlbEntry

-- The index of an address, its tag, and the address of its page.
abbrev pub index : ℕ → ℕ
index addr = addr / page_size % tlb_entries

abbrev pub tag_of : ℕ → ℕ
tag_of addr = addr / (page_size * tlb_entries) * (page_size * tlb_entries)

abbrev pub base_of : ℕ → ℕ
base_of addr = addr / page_size * page_size

-- The methods of `TLBEntry`. `NonNull::new` refuses 0.
unfoldable pub clear_entry : TlbEntry → ℕ → TlbEntry
clear_entry entry addr = if tag_of addr == entry.tag then default_entry else entry

unfoldable pub set_entry : TlbEntry → ℕ → ℕ → TlbEntry
set_entry entry addr page = record {
  tag = tag_of addr;
  guest_to_host_offset = (page + u64_mod - base_of addr) % u64_mod;
}

abbrev pub non_null : ℕ → Option ℕ
non_null p = if p == 0 then none else some p

unfoldable pub get_page : TlbEntry → ℕ → Option ℕ
get_page entry addr =
    if tag_of addr == entry.tag
    then non_null ((base_of addr + entry.guest_to_host_offset) % u64_mod)
    else none

-- An assignment to one entry of an array.
abbrev pub update : (ℕ → TlbEntry) → ℕ → TlbEntry → ℕ → TlbEntry
update entries i entry j = if j == i then entry else entries j

-- The methods of `TranslationCache`.
unfoldable pub new_cache : TranslationCache
new_cache = record { read = λ i. default_entry; write = λ i. default_entry }

unfoldable pub clear : TranslationCache → TranslationCache
clear t = record { read = λ i. default_entry; write = λ i. default_entry }

unfoldable pub clear_write : TranslationCache → TranslationCache
clear_write t = record t { write = λ i. default_entry }

unfoldable pub remove_read : TranslationCache → ℕ → TranslationCache
unfolding clear_entry
remove_read t addr = record t {
  read = update t.read (index addr) (clear_entry (t.read (index addr)) addr);
}

unfoldable pub remove_write : TranslationCache → ℕ → TranslationCache
unfolding clear_entry
remove_write t addr = record t {
  write = update t.write (index addr) (clear_entry (t.write (index addr)) addr);
}

unfoldable pub remove : TranslationCache → ℕ → TranslationCache
unfolding remove_read remove_write
remove t addr = remove_write (remove_read t addr) addr

unfoldable pub insert_read : TranslationCache → ℕ → ℕ → TranslationCache
unfolding set_entry
insert_read t addr page = record t {
  read = update t.read (index addr) (set_entry (t.read (index addr)) addr page);
}

unfoldable pub insert_write : TranslationCache → ℕ → ℕ → TranslationCache
unfolding set_entry
insert_write t addr page = record t {
  write = update t.write (index addr) (set_entry (t.write (index addr)) addr page);
}

unfoldable pub translate_read : TranslationCache → ℕ → Option ℕ
unfolding get_page
translate_read t addr = get_page (t.read (index addr)) addr

unfoldable pub translate_write : TranslationCache → ℕ → Option ℕ
unfolding get_page
translate_write t addr = get_page (t.write (index addr)) addr

-- The loop of `remove_range` over `n` pages.
unfoldable pub remove_pages : ℕ → TranslationCache → ℕ → TranslationCache
unfolding remove
remove_pages zero t addr = t
remove_pages (suc n) t addr = remove_pages n (remove t addr) (addr + page_size)

-- `none` is the panic on an end that is past the address space.
unfoldable pub remove_range : TranslationCache → ℕ → ℕ → Option TranslationCache
unfolding clear remove_pages
remove_range t start len =
    if len == 0
    then some t
    else if leb u64_mod (start + (len - 1))
    then none
    else if ltb tlb_entries (len / page_size)
    then some (clear t)
    else let end = start + (len - 1) in
      some (remove_pages (suc ((end - base_of start) / page_size)) t (base_of start))
