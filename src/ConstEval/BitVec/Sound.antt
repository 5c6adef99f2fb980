-- ===== src/ConstEval/BitVec/Sound.antt =====
-- What a vector of symbolic bits says of a number, and that the additions and the bitwise methods of
-- `BitVecExt` in icicle-cpu/src/exec/const_eval.rs compute on those numbers.
use mathlib.Core.Path.{subst}
use native.Mathlib.Nat.{pow-suc}
use icicle_emu.Base.{ℕ, suc, ◌+◌, ◌*◌, ◌/◌, ◌%◌, ◌^◌, ◌<◌, ◌≡◌, refl, ap, arith, List, [], ◌∷◌}
use icicle_emu.Base.{Bool, not, ◌&&◌, ◌||◌, ◌==◌, length, if◌then◌else◌}
use icicle_emu.ConstEval.Bit
use icicle_emu.ConstEval.Bit.{Bit, Denotes, Valuation, differs}
use icicle_emu.ConstEval.Bit.Sound.{xor-Denotes, and-Denotes, or-Denotes, inverse-Denotes}
use icicle_emu.ConstEval.BitVec.{add_from, sub_from}

-- The bits, lowest first, may be those of `v`, which fits them.
abbrev pub IsValue : Valuation → List Bit → ℕ → Type 0
IsValue ρ [] v = v ≡ 0
IsValue ρ (b ∷ bits) v = Denotes ρ b (v % 2 == 1) × IsValue ρ bits (v / 2)

abbrev pub to_ℕ : Bool → ℕ
to_ℕ b = if b then 1 else 0

module _ (ρ : Valuation) where
  pub IsValue-lt : (bits : List Bit) (v : ℕ) → IsValue ρ bits v → v < 2 ^ length bits
  IsValue-lt [] v h = omega arith
  IsValue-lt (b ∷ bits) v h = omega (arith, IsValue-lt bits (v / 2) h.1, pow-suc 2 (length bits))

  pub IsValue-cons :
      (b : Bit) (bits : List Bit) (low : Bool) (v : ℕ)
      → Denotes ρ b low
      → IsValue ρ bits v
      → IsValue ρ (b ∷ bits) (v * 2 + to_ℕ low)
  IsValue-cons b bits low v hb h =
      (subst (Denotes ρ b) (ground arith) hb, subst (IsValue ρ bits) (ground arith) h)

  -- `n` bits and a bit above them, which together stand for `t`.
  abbrev pub Total : ℕ → List Bit × Bit → ℕ → Type 0
  Total n out t =
      (v : ℕ) × (k : Bool) × IsValue ρ out.0 v × Denotes ρ out.1 k × (v + to_ℕ k * 2 ^ n ≡ t)

  Total-cons :
      (n : ℕ) (b : Bit) (out : List Bit × Bit) (low : Bool) (t : ℕ)
      → Denotes ρ b low
      → Total n out t
      → Total (suc n) (b ∷ out.0, out.1) (t * 2 + to_ℕ low)
  Total-cons n b out low t hb (v, k, hv, hk, e) = (
    v * 2 + to_ℕ low,
    k,
    IsValue-cons b out.0 low v hb hv,
    hk,
    ground (arith, pow-suc 2 n, ap (λ (z : ℕ). z * 2) e),
  )

  sum_bits :
      (x y : ℕ) (c : Bool)
      → let p : Bool = x % 2 == 1 in
        let q : Bool = y % 2 == 1 in
        (x / 2 + y / 2 + to_ℕ (p && q || differs p q && c)) * 2 + to_ℕ (differs (differs p q) c)
        ≡ x + y + to_ℕ c
  sum_bits x y c = ground arith

  -- From a carry `c`, the loop of `add` stands for x + y + c, the carry out being its highest bit.
  pub add_from-Total :
      (us vs : List Bit) (carry : Bit) (x y : ℕ) (c : Bool)
      → length us ≡ length vs
      → IsValue ρ us x
      → IsValue ρ vs y
      → Denotes ρ carry c
      → Total (length us) (add_from carry us vs) (x + y + to_ℕ c)
  unfolding add_from
  add_from-Total [] [] carry x y c e hx hy hc = (0, c, refl, hc, ground arith)
  add_from-Total [] (b ∷ vs) carry x y c e hx hy hc = absurd (omega arith)
  add_from-Total (a ∷ us) [] carry x y c e hx hy hc = absurd (omega arith)
  add_from-Total (a ∷ us) (b ∷ vs) carry x y c e hx hy hc =
      let half = xor-Denotes ρ a b _ _ hx.0 hy.0 in
      let both = and-Denotes ρ a b _ _ hx.0 hy.0 in
      let full = and-Denotes ρ (Bit.xor a b) carry _ c half hc in
      subst (Total (suc (length us)) (add_from carry (a ∷ us) (b ∷ vs))) (sum_bits x y c) (
        Total-cons (length us) _ _ _ _ (xor-Denotes ρ (Bit.xor a b) carry _ c half hc) (
          add_from-Total us vs _ (x / 2) (y / 2) _ (omega arith) hx.1 hy.1
            (or-Denotes ρ _ _ _ _ both full)))

  -- `n` bits and a borrow, which together stand for x - y.
  abbrev pub Difference : ℕ → List Bit × Bit → ℕ → ℕ → Type 0
  Difference n out x y =
      (v : ℕ) × (k : Bool) × IsValue ρ out.0 v × Denotes ρ out.1 k × (v + y ≡ x + to_ℕ k * 2 ^ n)

  diff_bits :
      (n v x y : ℕ) (c k : Bool)
      → let p : Bool = x % 2 == 1 in
        let q : Bool = y % 2 == 1 in
        v + (y / 2 + to_ℕ (not p && q || not (differs p q) && c)) ≡ x / 2 + to_ℕ k * 2 ^ n
        → v * 2 + to_ℕ (differs (differs p q) c) + (y + to_ℕ c) ≡ x + to_ℕ k * 2 ^ suc n
  diff_bits n v x y c k e = ground (arith, pow-suc 2 n, ap (λ (z : ℕ). z * 2) e)

  -- From a borrow `c`, the loop of `sub` stands for x - (y + c).
  pub sub_from-Difference :
      (us vs : List Bit) (borrow : Bit) (x y : ℕ) (c : Bool)
      → length us ≡ length vs
      → IsValue ρ us x
      → IsValue ρ vs y
      → Denotes ρ borrow c
      → Difference (length us) (sub_from borrow us vs) x (y + to_ℕ c)
  unfolding sub_from
  sub_from-Difference [] [] borrow x y c e hx hy hc = (0, c, refl, hc, ground arith)
  sub_from-Difference [] (b ∷ vs) borrow x y c e hx hy hc = absurd (omega arith)
  sub_from-Difference (a ∷ us) [] borrow x y c e hx hy hc = absurd (omega arith)
  sub_from-Difference (a ∷ us) (b ∷ vs) borrow x y c e hx hy hc =
      let half = xor-Denotes ρ a b _ _ hx.0 hy.0 in
      let low = and-Denotes ρ _ b _ _ (inverse-Denotes ρ a _ hx.0) hy.0 in
      let high = and-Denotes ρ _ borrow _ c (inverse-Denotes ρ _ _ half) hc in
      let (v, k, hv, hk, rest) =
        sub_from-Difference us vs _ (x / 2) (y / 2) _ (omega arith) hx.1 hy.1
          (or-Denotes ρ _ _ _ _ low high) in
      (
        _,
        k,
        IsValue-cons _ _ _ v (xor-Denotes ρ (Bit.xor a b) borrow _ c half hc) hv,
        hk,
        diff_bits (length us) v x y c k rest,
      )
