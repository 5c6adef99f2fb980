-- ===== src/Mem/Page/Alignment.antt =====
-- `is_aligned` and `PageData::offset` of icicle-mem/src/physical.rs.
use native.Mathlib.Nat.{pow-suc, one-le-pow}
use icicle_emu.Base.{
  ℕ, zero, suc, ◌+◌, ◌-◌, ◌/◌, ◌%◌, ◌^◌, ◌≤◌, ◌<◌, ◌≡◌, ◌⊎◌, inl, inr, refl, sym, ◌∙◌, ap, arith,
  true, bit_and, ◌==◌, ==_iff,
}
use icicle_emu.Base.Bits.{and_step}
use icicle_emu.Base.Powers.{mod-pow-suc}
use icicle_emu.Mem.Page.{offset_in_page, is_aligned, is_access_size}

and-zero : (n x : ℕ) → x ≤ n → bit_and x 0 ≡ 0
and-zero zero x h = ap (λ (t : ℕ). bit_and t 0) {x = x} {y = 0} (omega arith)
and-zero (suc n) zero h = refl
and-zero (suc n) (suc x) h = omega (arith, and_step (suc x) 0, and-zero n (suc x / 2) (omega arith))

-- `&` with a mask of the lowest bits.
pub and-mask : (k x : ℕ) → bit_and x (2 ^ k - 1) ≡ x % 2 ^ k
and-mask zero x = and-zero x x (omega arith) ∙ omega arith
and-mask (suc k) x =
    and_step x (2 ^ suc k - 1)
    ∙ omega (
      arith,
      pow-suc 2 k,
      one-le-pow k 2 (omega arith),
      mod-pow-suc x k,
      and-mask k (x / 2),
      ap (bit_and (x / 2)) {x = (2 ^ suc k - 1) / 2} {y = 2 ^ k - 1}
          (omega (arith, pow-suc 2 k, one-le-pow k 2 (omega arith))),
    )

-- An access size is a power of two up to 16.
access_size-cases :
    (n : ℕ) → is_access_size n ≡ true → (n ≡ 1) ⊎ (n ≡ 2) ⊎ (n ≡ 4) ⊎ (n ≡ 8) ⊎ (n ≡ 16)
access_size-cases n h = ground arith

access_size-pow : (n : ℕ) → is_access_size n ≡ true → (k : ℕ) × (n ≡ 2 ^ k)
access_size-pow n h = elim (access_size-cases n h) [
  | inl c ↦ (0, c)
  | inr (inl c) ↦ (1, c)
  | inr (inr (inl c)) ↦ (2, c)
  | inr (inr (inr (inl c))) ↦ (3, c)
  | inr (inr (inr (inr c))) ↦ (4, c)
]

pub is_aligned-remainder :
    (n addr : ℕ) → is_access_size n ≡ true → is_aligned n addr ≡ (addr % n == 0)
unfolding is_aligned
is_aligned-remainder n addr h =
    let (k, e) = access_size-pow n h in
    ap (λ (t : ℕ). t == 0)
      (ap (λ (t : ℕ). bit_and addr (t - 1)) e ∙ and-mask k addr ∙ ap (λ (t : ℕ). addr % t) (sym e))

-- An aligned access of 1, 2, 4, 8 or 16 bytes ends within the page, as the unchecked accesses of a
-- page need.
pub is_aligned-fits :
    (n addr : ℕ)
    → is_access_size n ≡ true
    → is_aligned n addr ≡ true
    → offset_in_page addr + n ≤ 4096
unfolding offset_in_page
is_aligned-fits n addr h a =
    let e : offset_in_page addr ≡ addr % 4096 = and-mask 12 addr in
    let m : addr % n ≡ 0 = (==_iff (addr % n) 0).0 (sym (is_aligned-remainder n addr h) ∙ a) in
    elim (access_size-cases n h) [
      | inl c ↦ omega (arith, e, rw c at m)
      | inr (inl c) ↦ omega (arith, e, rw c at m)
      | inr (inr (inl c)) ↦ omega (arith, e, rw c at m)
      | inr (inr (inr (inl c))) ↦ omega (arith, e, rw c at m)
      | inr (inr (inr (inr c))) ↦ omega (arith, e, rw c at m)
    ]

pub and_bound : (n a b : ℕ) → b < 2 ^ n → bit_and a b < 2 ^ n
and_bound zero a b h =
    omega (arith, ap (bit_and a) {x = b} {y = 0} (omega arith), and-zero a a (omega arith))
and_bound (suc n) a b h =
    omega
      (arith, and_step a b, and_bound n (a / 2) (b / 2) (omega (arith, pow-suc 2 n)), pow-suc 2 n)
