-- ===== src/Mem/Tlb/Laws.antt =====
-- What a lookup in the cache of icicle-mem/src/tlb.rs finds after each operation.
use icicle_emu.Base.{
  ℕ, zero, suc, ◌+◌, ◌-◌, ◌/◌, ◌<◌, ◌≤◌, ◌≡◌, refl, ◌∙◌, ap, arith, Bool, true, false, ◌&&◌, ◌||◌,
  Bool-cases, inl, inr, Option, none, some, ◌==◌, ltb, leb, if◌then◌else◌, u64_mod,
}
use icicle_emu.Mem.Tlb.{
  TranslationCache, page_size, tlb_entries, index, base_of, get_page, remove_read, remove_write,
  remove, insert_read, insert_write, translate_read, translate_write, clear, remove_pages,
  remove_range,
}
use icicle_emu.Mem.Tlb.Entries.{same_page, tag_default, set_lookup, clear_lookup}

-- What a lookup finds after a page is set: the page, and nothing for the pages that share its index.
abbrev pub after_insert : Option ℕ → ℕ → ℕ → ℕ → Option ℕ
after_insert before addr page other =
    if same_page other addr then some page else if index other == index addr then none else before

-- After a page is set it is found for every address of the page, no page that shares its index is,
-- and other indices are as before.
pub translate-insert :
    (t : TranslationCache) (addr page other : ℕ)
    → addr < u64_mod
    → 0 < page
    → page < u64_mod
    → (translate_read (insert_read t addr page) other
        ≡ after_insert (translate_read t other) addr page other)
      × (translate_write (insert_write t addr page) other
          ≡ after_insert (translate_write t other) addr page other)
unfolding translate_read insert_read translate_write insert_write
translate-insert t addr page other h p q = (
  set_lookup t.read (t.read (index addr)) addr page other h p q,
  set_lookup t.write (t.write (index addr)) addr page other h p q,
)

abbrev pub unless : Bool → Option ℕ → Option ℕ
unless gone before = if gone then none else before

-- After a removal the page of the address is not found for reads or writes, and every other page is
-- as before.
pub translate-remove :
    (t : TranslationCache) (addr other : ℕ)
    → other < u64_mod
    → (translate_read (remove t addr) other
        ≡ unless (same_page other addr) (translate_read t other))
      × (translate_write (remove t addr) other
          ≡ unless (same_page other addr) (translate_write t other))
unfolding translate_read translate_write remove remove_read remove_write
translate-remove t addr other h =
    (clear_lookup t.read addr other h, clear_lookup t.write addr other h)

-- The loop of `remove_range`: `n` pages from that of `addr` on.
abbrev pub in_pages : ℕ → ℕ → ℕ → Bool
in_pages addr n other =
    leb (addr / page_size) (other / page_size) && ltb (other / page_size) (addr / page_size + n)

in_pages-suc :
    (addr n other : ℕ)
    → (in_pages (addr + page_size) n other || same_page other addr) ≡ in_pages addr (suc n) other
in_pages-suc addr n other = ground arith

unless_twice : (a b : Bool) (o : Option ℕ) → unless a (unless b o) ≡ unless (a || b) o
unless_twice true b o = refl
unless_twice false b o = refl

pub translate-remove_pages :
    (n : ℕ) (t : TranslationCache) (addr other : ℕ)
    → other < u64_mod
    → (translate_read (remove_pages n t addr) other
        ≡ unless (in_pages addr n other) (translate_read t other))
      × (translate_write (remove_pages n t addr) other
          ≡ unless (in_pages addr n other) (translate_write t other))
unfolding remove_pages
translate-remove_pages zero t addr other h =
    let nothing : in_pages addr 0 other ≡ false = ground arith in rw nothing (refl, refl)
translate-remove_pages (suc n) t addr other h =
    let (p, q) = translate-remove_pages n (remove t addr) (addr + page_size) other h in
    let (r, s) = translate-remove t addr other h in
    let step = λ (o : Option ℕ).
      unless_twice (in_pages (addr + page_size) n other) (same_page other addr) o
      ∙ ap (λ (c : Bool). unless c o) (in_pages-suc addr n other) in
    (
      p
          ∙ ap (λ o. unless (in_pages (addr + page_size) n other) o) r
          ∙ step (translate_read t other),
      q
          ∙ ap (λ o. unless (in_pages (addr + page_size) n other) o) s
          ∙ step (translate_write t other),
    )

pub translate-clear :
    (t : TranslationCache) (other : ℕ)
    → other < u64_mod
    → (translate_read (clear t) other ≡ none) × (translate_write (clear t) other ≡ none)
unfolding translate_read translate_write clear get_page
translate-clear t other h = rw (tag_default other h) (refl, refl)

covered :
    (start len other : ℕ)
    → start ≤ other
    → other < start + len
    → in_pages (base_of start) (suc ((start + (len - 1) - base_of start) / page_size)) other ≡ true
covered start len other a b = ground arith

-- An address is not translated.
abbrev pub IsGone : TranslationCache → ℕ → Type 0
IsGone t k = (translate_read t k ≡ none) × (translate_write t k ≡ none)

unless_gone : (c : Bool) (o : Option ℕ) → o ≡ none → unless c o ≡ none
unless_gone true o e = refl
unless_gone false o e = e

-- What was not translated before is not translated after.
pub remove_range-IsGone :
    (t : TranslationCache) (start len : ℕ)
    → 0 < len
    → start + len ≤ u64_mod
    → (t' : TranslationCache) × (remove_range t start len ≡ some t')
      × ((k : ℕ) → k < u64_mod → start ≤ k → k < start + len → IsGone t' k)
      × ((k : ℕ) → k < u64_mod → IsGone t k → IsGone t' k)
unfolding remove_range
remove_range-IsGone t start len p h =
    let bytes : (len == 0) ≡ false = ground arith in
    let inside : leb u64_mod (start + (len - 1)) ≡ false = ground arith in
    let n = suc ((start + (len - 1) - base_of start) / page_size) in
    elim (Bool-cases (ltb tlb_entries (len / page_size))) [
      | inl large ↦ (
        clear t,
        rw (bytes, inside, large) refl,
        (λ k l a b. translate-clear t k l),
        λ k l g. translate-clear t k l,
      )
      | inr small ↦ (
        remove_pages n t (base_of start),
        rw (bytes, inside, small) refl,
        (λ k l a b.
            let (r, w) = translate-remove_pages n t (base_of start) k l in
            let c = covered start len k a b in
            (
              r ∙ ap (λ (c : Bool). unless c (translate_read t k)) c,
              w ∙ ap (λ (c : Bool). unless c (translate_write t k)) c,
            )),
        λ k l g.
            let (r, w) = translate-remove_pages n t (base_of start) k l in
            (
              r ∙ unless_gone (in_pages (base_of start) n k) (translate_read t k) g.0,
              w ∙ unless_gone (in_pages (base_of start) n k) (translate_write t k) g.1,
            ),
      )
    ]

-- Removing a range that ends in the address space returns, and no address of the range is then
-- translated, for reads or for writes.
pub translate-remove_range :
    (t : TranslationCache) (start len other : ℕ)
    → start + len ≤ u64_mod
    → start ≤ other
    → other < start + len
    → (t' : TranslationCache) × (remove_range t start len ≡ some t')
      × (translate_read t' other ≡ none)
      × (translate_write t' other ≡ none)
translate-remove_range t start len other h a b =
    let (t', e, gone, _) = remove_range-IsGone t start len (omega arith) h in
    let (r, w) = gone other (omega arith) a b in (t', e, r, w)
