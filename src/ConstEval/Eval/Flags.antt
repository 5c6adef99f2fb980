-- ===== src/ConstEval/Eval/Flags.antt =====
-- The Boolean outputs of icicle-cpu/src/exec/const_eval.rs, and what its flags `add_overflow` and
-- `sub_overflow` denote.
use mathlib.Core.Path.{subst}
use native.Mathlib.Nat.{pow-suc, mod-eq_of_lt, add-mod_right}
use icicle_emu.Base.{ℕ, suc, ◌+◌, ◌-◌, ◌%◌, ◌^◌, ◌≤◌, ◌<◌, ◌≡◌, refl, ◌∙◌, ap, arith, some}
use icicle_emu.Base.{List, [], ◌∷◌, ◌/◌, ◌*◌, Bool, not, ◌&&◌, ◌||◌, length, leb}
use icicle_emu.ConstEval.Bit.{Bit, Denotes, Valuation, differs}
use icicle_emu.ConstEval.Bit.Sound.{inverse-Denotes, or-Denotes, and-Denotes, xor-Denotes}
use icicle_emu.ConstEval.BitVec.{last?, set_bool, fill, sub, add}
use icicle_emu.ConstEval.BitVec.Sound.{IsValue, IsValue-cons, IsValue-lt, to_ℕ}
use icicle_emu.ConstEval.BitVec.Constant.{recast}
use icicle_emu.ConstEval.BitVec.Arith.{add-IsValue, sub-IsValue, length-add_from, length-sub_from}
use icicle_emu.ConstEval.Eval.Binary.{Evaluates}
use icicle_emu.ConstEval.Shift.{sub_overflow, add_overflow}
use icicle_emu.ConstEval.Shift.Sound.{zeros-IsValue, deref-from_bits}

module _ (ρ : Valuation) where
  -- A Boolean output: the bit, then zeros.
  pub set_bool-Evaluates :
      (out : List Bit) (b : Bit) (c : Bool)
      → 0 < length out
      → Denotes ρ b c
      → Evaluates ρ (set_bool out b) (to_ℕ c)
  unfolding set_bool
  set_bool-Evaluates [] b c h d = absurd (omega arith)
  set_bool-Evaluates (_ ∷ out) b c h d = (
    _,
    refl,
    recast ρ (b ∷ fill out Bit.zero) _ (to_ℕ c) (omega arith)
        (IsValue-cons ρ b _ c 0 d (zeros-IsValue ρ (length out))),
  )

-- The sign of a number is its highest bit.
pub last-Denotes :
    (ρ : Valuation) (bits : List Bit) (v : ℕ)
    → 0 < length bits
    → IsValue ρ bits v
    → (s : Bit) × (last? bits ≡ some s) × Denotes ρ s (leb (2 ^ (length bits - 1)) v)
last-Denotes ρ [] v h e = absurd (omega arith)
last-Denotes ρ (b ∷ []) v h e = (b, refl, subst (Denotes ρ b) (ground (arith, e.1)) e.0)
last-Denotes ρ (b ∷ c ∷ bits) v h e =
    let (s, p, d) = last-Denotes ρ (c ∷ bits) (v / 2) (omega arith) e.1 in
    (s, p, subst (Denotes ρ s) (ground (arith, pow-suc 2 (length bits))) d)

module _ (ρ : Valuation) (a b : List Bit) (x y : ℕ) (hx : IsValue ρ a x) (hy : IsValue ρ b y)
    (same : length a ≡ length b) (limit : length a ≤ 128) (some_bits : 0 < length a) where
  abbrev pub half : ℕ
  half = 2 ^ (length a - 1)

  abbrev pub difference : ℕ
  difference = (x + 2 ^ length a - y) % 2 ^ length a

  abbrev pub total : ℕ
  total = (x + y) % 2 ^ length a

  -- The difference with its sign, and the borrow flag.
  pub sub_overflow-Denotes :
      (r : List Bit) × (o s : Bit) × (sub_overflow a b ≡ some (r, o))
      × (last? r ≡ some s)
      × Denotes ρ s (leb half difference)
      × Denotes ρ o
          (differs (leb half x) (leb half y) && differs (leb half difference) (leb half x))
  unfolding sub_overflow
  sub_overflow-Denotes =
      let r = (sub a b).0 in
      let size = length-sub_from a b Bit.zero in
      let (sa, pa, da) = last-Denotes ρ a x some_bits hx in
      let (sb, pb, db) = last-Denotes ρ b y (omega arith) hy in
      let (sr, pr, dr) =
        last-Denotes ρ r difference (omega (arith, size)) (sub-IsValue ρ a b x y same hx hy).0 in
      let db' : Denotes ρ sb (leb half y) = rw (← same) at db in
      let dr' : Denotes ρ sr (leb half difference) = rw size at dr in
      (
        r,
        _,
        sr,
        rw (deref-from_bits a limit, pa, pb, pr) refl,
        pr,
        dr',
        and-Denotes ρ _ _ _ _ (xor-Denotes ρ sa sb _ _ da db') (xor-Denotes ρ sr sa _ _ dr' da),
      )

  -- The sum with its sign, and the carry flag.
  pub add_overflow-Denotes :
      (r : List Bit) × (o : Bit) × (add_overflow a b ≡ some (r, o))
      × Denotes ρ o (
          not (leb half x || leb half y) && leb half total
          || (leb half x && leb half y) && not (leb half total))
  unfolding add_overflow
  add_overflow-Denotes =
      let r = (add a b).0 in
      let size = length-add_from a b Bit.zero in
      let (sa, pa, da) = last-Denotes ρ a x some_bits hx in
      let (sb, pb, db) = last-Denotes ρ b y (omega arith) hy in
      let (sr, pr, dr) =
        last-Denotes ρ r total (omega (arith, size)) (add-IsValue ρ a b x y same hx hy).0 in
      let db' : Denotes ρ sb (leb half y) = rw (← same) at db in
      let dr' : Denotes ρ sr (leb half total) = rw size at dr in
      (
        r,
        _,
        rw (deref-from_bits a limit, pa, pb, pr) refl,
        or-Denotes ρ _ _ _ _
            (and-Denotes ρ _ _ _ _ (inverse-Denotes ρ _ _ (or-Denotes ρ sa sb _ _ da db')) dr')
            (and-Denotes ρ _ _ _ _ (and-Denotes ρ sa sb _ _ da db') (inverse-Denotes ρ sr _ dr')),
      )

  pub two_halves : 2 ^ length a ≡ 2 * half
  two_halves = omega (
    arith,
    pow-suc 2 (length a - 1),
    ap (λ (t : ℕ). 2 ^ t) {x = length a} {y = suc (length a - 1)} (omega arith),
  )

  pub x_bound : x < 2 * half
  x_bound = omega (arith, two_halves, IsValue-lt ρ a x hx)

  pub y_bound : y < 2 * half
  y_bound = rw (← two_halves, same) (IsValue-lt ρ b y hy)

  pub difference_less : x < y → difference ≡ x + 2 * half - y
  difference_less h =
      mod-eq_of_lt (omega (arith, two_halves, x_bound, y_bound))
      ∙ ap (λ (t : ℕ). x + t - y) two_halves

  pub difference_more : y ≤ x → difference ≡ x - y
  difference_more h =
      ap (λ (t : ℕ). t % 2 ^ length a) {x = x + 2 ^ length a - y} (omega arith)
      ∙ add-mod_right (x - y) (2 ^ length a)
      ∙ mod-eq_of_lt (omega (arith, two_halves, x_bound))

  pub total_few : x + y < 2 * half → total ≡ x + y
  total_few h = mod-eq_of_lt (omega (arith, two_halves))

  pub total_many : 2 * half ≤ x + y → total + 2 * half ≡ x + y
  total_many h =
      let e =
        ap (λ (t : ℕ). t % 2 ^ length a) {x = x + y} {y = x + y - 2 ^ length a + 2 ^ length a}
          (omega (arith, two_halves)) in
      let r = add-mod_right (x + y - 2 ^ length a) (2 ^ length a) in
      let l =
        mod-eq_of_lt {n = x + y - 2 ^ length a} {m = 2 ^ length a}
          (omega (arith, two_halves, x_bound, y_bound)) in
      omega (arith, e ∙ r ∙ l, two_halves)
