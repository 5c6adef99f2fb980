-- ===== src/Mem/Tlb/Entries.antt =====
-- Single entries of the cache of icicle-mem/src/tlb.rs, and arrays of them.
use icicle_emu.Base.{
  ℕ, ◌+◌, ◌-◌, ◌*◌, ◌/◌, ◌%◌, ◌<◌, ◌≡◌, refl, sym, ◌∙◌, ap, arith, Bool, true, false, Bool-cases,
  inl, inr, none, some, ◌==◌, ==_iff, if◌then◌else◌, u64_mod, u64_max,
}
use icicle_emu.Mem.Tlb.{
  TlbEntry, page_size, tlb_entries, index, tag_of, base_of, clear_entry, set_entry, get_page,
  update,
}

-- Two addresses lie in the same page.
abbrev pub same_page : ℕ → ℕ → Bool
same_page a b = a / page_size == b / page_size

host_address :
    (base page : ℕ)
    → base < u64_mod
    → page < u64_mod
    → (base + (page + u64_mod - base) % u64_mod) % u64_mod ≡ page
host_address base page h k = omega arith

pub index_page : (a b : ℕ) → same_page a b ≡ true → (index a == index b) ≡ true
index_page a b h =
    (==_iff (index a) (index b)).1 (ap (λ (t : ℕ). t % tlb_entries) ((==_iff _ _).0 h))

-- Where the indices agree the tags tell the pages apart.
pub tag_page : (a b : ℕ) → index a ≡ index b → (tag_of a == tag_of b) ≡ same_page a b
tag_page a b h = ground arith

pub base_page : (a b : ℕ) → same_page a b ≡ true → base_of a ≡ base_of b
base_page a b h = ap (λ (t : ℕ). t * page_size) ((==_iff _ _).0 h)

pub tag_default : (a : ℕ) → a < u64_mod → (tag_of a == u64_max) ≡ false
tag_default a h = ground arith

different_page : (a b : ℕ) → (index a == index b) ≡ false → same_page a b ≡ false
different_page a b h = ground (arith, index_page a b)

-- One entry.
get_page-set_entry :
    (e : TlbEntry) (addr page other : ℕ)
    → addr < u64_mod
    → 0 < page
    → page < u64_mod
    → index other ≡ index addr
    → get_page (set_entry e addr page) other ≡ (if same_page other addr then some page else none)
unfolding get_page set_entry
get_page-set_entry e addr page other h p q i = elim (Bool-cases (same_page other addr)) [
  | inl hit ↦
      rw
        (
          tag_page other addr i,
          hit,
          base_page other addr hit,
          host_address (base_of addr) page (ground arith) q,
        )
        (ground arith)
  | inr miss ↦ rw (tag_page other addr i, miss) refl
]

get_page-clear_entry :
    (e : TlbEntry) (addr other : ℕ)
    → other < u64_mod
    → index other ≡ index addr
    → get_page (clear_entry e addr) other
      ≡ (if same_page other addr then none else get_page e other)
unfolding get_page clear_entry
get_page-clear_entry e addr other h i = ground (arith, tag_page other addr i, tag_default other h)

-- An array of entries.
update_hit :
    (entries : ℕ → TlbEntry) (i j : ℕ) (e : TlbEntry) → (j == i) ≡ true → update entries i e j ≡ e
update_hit entries i j e h = ap (λ (c : Bool). if c then e else entries j) h

update_miss :
    (entries : ℕ → TlbEntry) (i j : ℕ) (e : TlbEntry)
    → (j == i) ≡ false
    → update entries i e j ≡ entries j
update_miss entries i j e h = ap (λ (c : Bool). if c then e else entries j) h

pub set_lookup :
    (entries : ℕ → TlbEntry) (e : TlbEntry) (addr page other : ℕ)
    → addr < u64_mod
    → 0 < page
    → page < u64_mod
    → get_page (update entries (index addr) (set_entry e addr page) (index other)) other ≡ (
        if same_page other addr
        then some page
        else if index other == index addr
        then none
        else get_page (entries (index other)) other)
set_lookup entries e addr page other h p q = elim (Bool-cases (index other == index addr)) [
  | inl same ↦
      ap (λ (e : TlbEntry). get_page e other) (update_hit entries (index addr) (index other) _ same)
      ∙ get_page-set_entry e addr page other h p q ((==_iff (index other) (index addr)).0 same)
      ∙ rw same refl
  | inr apart ↦
      ap (λ (e : TlbEntry). get_page e other)
        (update_miss entries (index addr) (index other) _ apart)
      ∙ rw (different_page other addr apart, apart) refl
]

pub clear_lookup :
    (entries : ℕ → TlbEntry) (addr other : ℕ)
    → other < u64_mod
    → get_page
        (update entries (index addr) (clear_entry (entries (index addr)) addr) (index other))
        other
      ≡ (if same_page other addr then none else get_page (entries (index other)) other)
clear_lookup entries addr other h = elim (Bool-cases (index other == index addr)) [
  | inl same ↦
      let i = (==_iff (index other) (index addr)).0 same in
      ap (λ (e : TlbEntry). get_page e other) (update_hit entries (index addr) (index other) _ same)
      ∙ get_page-clear_entry (entries (index addr)) addr other h i
      ∙ ap (λ (j : ℕ). if same_page other addr then none else get_page (entries j) other) (sym i)
  | inr apart ↦
      ap (λ (e : TlbEntry). get_page e other)
        (update_miss entries (index addr) (index other) _ apart)
      ∙ rw (different_page other addr apart) refl
]
