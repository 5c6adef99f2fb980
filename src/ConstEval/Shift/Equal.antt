-- ===== src/ConstEval/Shift/Equal.antt =====
-- The equality test `is_eq` of `BitVecExt` in icicle-cpu/src/exec/const_eval.rs compute on
-- every number that the bits may stand for.
use mathlib.Core.Path.{subst}
use mathlib.Core.Bool.{beq}
use icicle_emu.Base.{ℕ, ◌+◌, ◌/◌, ◌%◌, ◌≤◌, ◌≡◌, refl, arith}
use icicle_emu.Base.{List, [], ◌∷◌, Bool, true, false, ◌&&◌, ◌==◌, leb}
use icicle_emu.Base.{length, Bool-cases, ◌⊎◌, inl, inr, leb→le}
use icicle_emu.ConstEval.Bit
use icicle_emu.ConstEval.Bit.{Bit, Expr, Denotes, Valuation, const_value}
use icicle_emu.ConstEval.Bit.Sound.{is_eq-Denotes}
use icicle_emu.ConstEval.BitVec.Sound.{IsValue}
use icicle_emu.ConstEval.Shift.{is_eq_from, is_eq}

Bit-cases :
    (b : Bit)
    → (b ≡ Bit.zero) ⊎ ((b ≡ Bit.one) ⊎ ((b ≡ Bit.unknown) ⊎ ((e : Expr) × (b ≡ Bit.expr e))))
Bit-cases Bit.zero = inl refl
Bit-cases Bit.one = inr (inl refl)
Bit-cases Bit.unknown = inr (inr (inl refl))
Bit-cases (Bit.expr e) = inr (inr (inr (e, refl)))

-- The equality of two numbers from that of their lowest bits and of the rest.
zero_case : (x y : ℕ) (c : Bool) → beq (x % 2 == 1) (y % 2 == 1) ≡ false → (c && x == y) ≡ false
zero_case x y c h = ground arith

one_case :
    (x y : ℕ) (c : Bool)
    → beq (x % 2 == 1) (y % 2 == 1) ≡ true
    → (c && x / 2 == y / 2) ≡ (c && x == y)
one_case x y c h = ground arith

more_case :
    (x y : ℕ) (c : Bool) → ((c && beq (x % 2 == 1) (y % 2 == 1)) && x / 2 == y / 2) ≡ (c && x == y)
more_case x y c = ground arith

first_case : (c d : Bool) → c ≡ true → d ≡ (c && d)
first_case c d h = ground arith

module _ (ρ : Valuation) where
  recast_bit : (b : Bit) (x y : Bool) → x ≡ y → Denotes ρ b x → Denotes ρ b y
  recast_bit b x y e h = subst (Denotes ρ b) e h

  -- Up to one unknown bit the result is kept; past that it is unknown, or 0 at a bit that differs.
  is_eq_from-Denotes :
      (us vs : List Bit) (count : ℕ) (cmp : Bit) (c : Bool) (x y : ℕ)
      → length us ≡ length vs
      → IsValue ρ us x
      → IsValue ρ vs y
      → (count ≡ 0 → c ≡ true)
      → (count ≤ 1 → Denotes ρ cmp c)
      → Denotes ρ (is_eq_from count cmp us vs) (c && (x == y))
  unfolding is_eq_from
  is_eq_from-Denotes [] [] count cmp c x y e hx hy none_yet kept = elim (Bool-cases (leb count 1)) [
    | inl few ↦ rw (few, is_eq_from) (recast_bit cmp _ _ (ground arith) (kept (leb→le count 1 few)))
    | inr many ↦ rw (many, is_eq_from) tt
  ]
  is_eq_from-Denotes [] (b ∷ vs) count cmp c x y e hx hy none_yet kept = absurd (omega arith)
  is_eq_from-Denotes (a ∷ us) [] count cmp c x y e hx hy none_yet kept = absurd (omega arith)
  is_eq_from-Denotes (a ∷ us) (b ∷ vs) count cmp c x y e hx hy none_yet kept =
      let same : Bool = beq (x % 2 == 1) (y % 2 == 1) in
      let low = is_eq-Denotes ρ a b _ _ hx.0 hy.0 in
      let rest = λ (n : ℕ) (q : Bit) (d : Bool) (p : n ≡ 0 → d ≡ true) (r : n ≤ 1 → Denotes ρ q d).
        is_eq_from-Denotes us vs n q d (x / 2) (y / 2) (omega arith) hx.1 hy.1 p r in
      elim (Bit-cases (Bit.is_eq a b)) [
        | inl q ↦ rw (q, is_eq_from) (zero_case x y c (rw q at low))
        | inr (inl q) ↦
            rw (q, is_eq_from)
              (recast_bit _ _ _ (one_case x y c (rw q at low)) (rest count cmp c none_yet kept))
        | inr (inr (inl q)) ↦
            rw (q, is_eq_from)
              (recast_bit _ _ _ (more_case x y c)
                (rest (count + 1) Bit.unknown (c && same) (λ z. absurd (omega arith)) (λ z. tt)))
        | inr (inr (inr (z, q))) ↦
            rw (q, is_eq_from)
              (recast_bit _ _ _ (more_case x y c) (
                rest (count + 1) (Bit.expr z) (c && same) (λ n. absurd (omega arith))
                  (λ n.
                    recast_bit (Bit.expr z) _ _ (first_case c same (none_yet (omega arith)))
                      (rw q at low))))
      ]

  -- The equality bit of two vectors of one length may stand for whether two numbers that they may
  -- stand for are equal.
  pub is_eq-Denotes_values :
      (us vs : List Bit) (x y : ℕ)
      → length us ≡ length vs
      → IsValue ρ us x
      → IsValue ρ vs y
      → Denotes ρ (is_eq us vs) (x == y)
  unfolding is_eq
  is_eq-Denotes_values us vs x y e hx hy =
      is_eq_from-Denotes us vs 0 Bit.one true x y e hx hy (λ _. refl) (λ _. refl)
