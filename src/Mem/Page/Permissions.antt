-- ===== src/Mem/Page/Permissions.antt =====
-- `add_perm_unchecked` of icicle-mem/src/physical.rs, and the checks of initialised bytes.
use native.Mathlib.Nat.{pow-suc}
use icicle_emu.Base.{
  ℕ, zero, suc, ◌+◌, ◌-◌, ◌/◌, ◌^◌, ◌≤◌, ◌<◌, ◌≡◌, inl, inr, refl, sym, ◌∙◌, ap, ap₂, arith, true,
  ◌||◌, Bool-cases, List, [], ◌∷◌, map, bit_and, bit_or, length, take, drop, get_or, ◌==◌,
  length-take, length-drop,
}
use icicle_emu.Base.Bits.{or_step}
use icicle_emu.Mem.Perm.{MemResult, check_bytes, all_equal}
use icicle_emu.Mem.Perm.Flags
use icicle_emu.Mem.Page.{PageData, slice, copy_at, or_bytes, or_word, add_perm_unchecked}
use icicle_emu.Mem.Page.Bytes.{or_word-or_bytes}
use icicle_emu.Mem.Page.Alignment.{and_bound}

-- Pages of 4096 bytes, and of as many permissions.
abbrev pub IsPage : PageData → Type 0
IsPage d = (length d.content ≡ 4096) × (length d.perm ≡ 4096) × ((k : ℕ) → get_or d.perm k 0 < 256)

pub length-slice :
    (bytes : List ℕ) (offset len : ℕ)
    → offset + len ≤ length bytes
    → length (slice bytes offset len) ≡ len
length-slice bytes offset len h =
    omega (arith, length-take len (drop offset bytes), length-drop offset bytes)

get_or-drop : (bytes : List ℕ) (o k : ℕ) → get_or (drop o bytes) k 0 ≡ get_or bytes (k + o) 0
get_or-drop bytes zero k = ap (λ (t : ℕ). get_or bytes t 0) (omega arith)
get_or-drop [] (suc o) k = refl
get_or-drop (x ∷ bytes) (suc o) k =
    get_or-drop bytes o k ∙ ap (λ (t : ℕ). get_or (x ∷ bytes) t 0) {x = suc (k + o)} (omega arith)

get_or-take :
    (bytes : List ℕ) (n k : ℕ)
    → ((j : ℕ) → get_or bytes j 0 < 256)
    → get_or (take n bytes) k 0 < 256
get_or-take bytes zero k h = omega arith
get_or-take [] (suc n) k h = omega arith
get_or-take (x ∷ bytes) (suc n) zero h = h 0
get_or-take (x ∷ bytes) (suc n) (suc k) h = get_or-take bytes n k (λ j. h (suc j))

pub get_or-slice :
    (bytes : List ℕ) (o n k : ℕ)
    → ((j : ℕ) → get_or bytes j 0 < 256)
    → get_or (slice bytes o n) k 0 < 256
get_or-slice bytes o n k h =
    get_or-take (drop o bytes) n k (λ j. omega (arith, get_or-drop bytes o j, h (j + o)))

-- Adding permissions within a page by one access of a word of 2, 4 or 8 bytes is the loop over the
-- bytes.
pub add_perm_unchecked-or_bytes :
    (d : PageData) (offset len perm : ℕ)
    → IsPage d
    → offset + len ≤ 4096
    → perm < 256
    → add_perm_unchecked d offset len perm
      ≡ record d { perm = copy_at d.perm offset (or_bytes (slice d.perm offset len) perm) }
unfolding add_perm_unchecked
add_perm_unchecked-or_bytes d offset len perm (_, l, b) h p =
    elim (Bool-cases (len == 2 || len == 4 || len == 8)) [
      | inl c ↦ rw c (
          ap (λ (bytes : List ℕ). record d { perm = copy_at d.perm offset bytes })
            (ap (λ (t : ℕ). or_word (slice d.perm offset len) t perm)
                (sym (length-slice d.perm offset len (omega (arith, l))))
              ∙ or_word-or_bytes (slice d.perm offset len) perm
                  (λ k. get_or-slice d.perm offset len k b) p))
      | inr c ↦ rw c refl
    ]

-- `|` is associative and commutative.
or_swap :
    (n a b c : ℕ)
    → a < 2 ^ n
    → b < 2 ^ n
    → c < 2 ^ n
    → bit_or (bit_or a b) c ≡ bit_or (bit_or a c) b
or_swap zero a b c ha hb hc =
    ap₂ (λ (s t : ℕ). bit_or s t) (ap (bit_or a) (omega arith)) (omega arith)
or_swap (suc n) a b c ha hb hc =
    or_step (bit_or a b) c
    ∙ omega (
      arith,
      or_step a b,
      or_step a c,
      or_step (bit_or a c) b,
      or_swap n (a / 2) (b / 2) (c / 2) (omega (arith, pow-suc 2 n)) (omega (arith, pow-suc 2 n))
          (omega (arith, pow-suc 2 n)),
      ap (λ (t : ℕ). bit_or t (c / 2)) {x = bit_or a b / 2} {y = bit_or (a / 2) (b / 2)}
          (omega (arith, or_step a b)),
      ap (λ (t : ℕ). bit_or t (b / 2)) {x = bit_or a c / 2} {y = bit_or (a / 2) (c / 2)}
          (omega (arith, or_step a c)),
    )

-- Initialised bytes pass the checks that they passed before.
all_equal-or :
    (bytes : List ℕ) (m : ℕ)
    → ((k : ℕ) → get_or bytes k 0 < 256)
    → m < 256
    → all_equal Flags.all (map (λ (byte : ℕ). bit_or byte m) bytes) ≡ true
    → all_equal Flags.all (map (λ (byte : ℕ). bit_or byte m) (or_bytes bytes Flags.init)) ≡ true
all_equal-or [] m h l e = refl
all_equal-or (x ∷ bytes) m h l e =
    let here : bit_or x m ≡ 159 = ground arith in
    let now : bit_or (bit_or x 1) m ≡ 159 =
      or_swap 8 x 1 m (h 0) (omega arith) l ∙ ap (λ (t : ℕ). bit_or t 1) here in
    ground (arith, all_equal-or bytes m (λ k. h (suc k)) l (ground arith))

pub check_bytes-init :
    (bytes : List ℕ) (mask : ℕ)
    → ((k : ℕ) → get_or bytes k 0 < 256)
    → check_bytes bytes mask ≡ MemResult.ok tt
    → check_bytes (or_bytes bytes Flags.init) mask ≡ MemResult.ok tt
unfolding check_bytes
check_bytes-init bytes mask h e =
    let m = bit_and (255 - mask) Flags.all in
    elim (Bool-cases (all_equal Flags.all (map (λ (byte : ℕ). bit_or byte m) bytes))) [
      | inl c ↦ rw (all_equal-or bytes m h (and_bound 8 (255 - mask) 159 (omega arith)) c) refl
      | inr c ↦ absurd (cc (rw c at e))
    ]
