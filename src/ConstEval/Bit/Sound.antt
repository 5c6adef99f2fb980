-- ===== src/ConstEval/Bit/Sound.antt =====
-- Every operation on symbolic bits stands for the Boolean operation: Bit::xor, and, or, not and
-- is_eq of icicle-cpu/src/exec/const_eval.rs.
use mathlib.Core.Bool.{beq}
use mathlib.Core.Path.{subst}
use icicle_emu.Base.{◌≡◌, refl, Bool, true, false, not, ◌&&◌, ◌||◌, if◌then◌else◌, arith}
use icicle_emu.ConstEval.Bit.{Bit, Expr, Denotes, Valuation, differs, expr, zero, one, unknown}
use icicle_emu.ConstEval.Bit.{is_same, is_different, inverse, xor, and, or, is_eq}

module _ (ρ : Valuation) where
  abbrev value : Expr → Bool
  value e = differs (ρ e.id e.offset) e.invert

  is_same_sound : (a b : Expr) → is_same a b ≡ true → value a ≡ value b
  unfolding is_same
  is_same_sound a b h = ground arith

  is_different_sound : (a b : Expr) → is_different a b ≡ true → value a ≡ not (value b)
  unfolding is_different
  is_different_sound a b h = ground arith

  pub inverse-Denotes : (a : Bit) (x : Bool) → Denotes ρ a x → Denotes ρ (inverse a) (not x)
  unfolding inverse
  inverse-Denotes zero x h = ground arith
  inverse-Denotes one x h = ground arith
  inverse-Denotes (expr e) x h = ground arith
  inverse-Denotes unknown x h = tt

  recast : (a : Bit) (x y : Bool) → x ≡ y → Denotes ρ a x → Denotes ρ a y
  recast a x y e h = subst (Denotes ρ a) e h

  -- The shape of every operation on two expressions.
  Denotes-if :
      (c d : Bool) (p q : Bit) (x : Bool)
      → (c ≡ true → Denotes ρ p x)
      → (d ≡ true → Denotes ρ q x)
      → Denotes ρ (if c then p else if d then q else unknown) x
  Denotes-if true d p q x hp hq = hp refl
  Denotes-if false true p q x hp hq = hq refl
  Denotes-if false false p q x hp hq = tt

  pub xor-Denotes :
      (a b : Bit) (x y : Bool) → Denotes ρ a x → Denotes ρ b y → Denotes ρ (xor a b) (differs x y)
  unfolding xor
  xor-Denotes zero b x y ha hb = recast b y (differs x y) (ground arith) hb
  xor-Denotes one one x y ha hb = ground arith
  xor-Denotes one b x y ha hb =
      recast (inverse b) (not y) (differs x y) (ground arith) (inverse-Denotes b y hb)
  xor-Denotes a zero x y ha hb = recast a x (differs x y) (ground arith) ha
  xor-Denotes a one x y ha hb =
      recast (inverse a) (not x) (differs x y) (ground arith) (inverse-Denotes a x ha)
  xor-Denotes (expr a) (expr b) x y ha hb =
      Denotes-if (is_same a b) (is_different a b) zero one (differs x y)
        (λ h. ground (arith, is_same_sound a b h)) (λ h. ground (arith, is_different_sound a b h))
  xor-Denotes _ _ x y ha hb = tt

  pub and-Denotes :
      (a b : Bit) (x y : Bool) → Denotes ρ a x → Denotes ρ b y → Denotes ρ (and a b) (x && y)
  unfolding and
  and-Denotes zero b x y ha hb = ground arith
  and-Denotes one zero x y ha hb = ground arith
  and-Denotes one b x y ha hb = recast b y (x && y) (ground arith) hb
  and-Denotes a zero x y ha hb = ground arith
  and-Denotes a one x y ha hb = recast a x (x && y) (ground arith) ha
  and-Denotes (expr a) (expr b) x y ha hb =
      Denotes-if (is_same a b) (is_different a b) (expr a) zero (x && y)
        (λ h. ground (arith, is_same_sound a b h)) (λ h. ground (arith, is_different_sound a b h))
  and-Denotes _ _ x y ha hb = tt

  pub or-Denotes :
      (a b : Bit) (x y : Bool) → Denotes ρ a x → Denotes ρ b y → Denotes ρ (or a b) (x || y)
  unfolding or
  or-Denotes one b x y ha hb = ground arith
  or-Denotes zero one x y ha hb = ground arith
  or-Denotes zero b x y ha hb = recast b y (x || y) (ground arith) hb
  or-Denotes a one x y ha hb = ground arith
  or-Denotes a zero x y ha hb = recast a x (x || y) (ground arith) ha
  or-Denotes (expr a) (expr b) x y ha hb =
      Denotes-if (is_same a b) (is_different a b) (expr a) one (x || y)
        (λ h. ground (arith, is_same_sound a b h)) (λ h. ground (arith, is_different_sound a b h))
  or-Denotes _ _ x y ha hb = tt

  pub is_eq-Denotes :
      (a b : Bit) (x y : Bool) → Denotes ρ a x → Denotes ρ b y → Denotes ρ (is_eq a b) (beq x y)
  unfolding is_eq
  is_eq-Denotes zero b x y ha hb =
      recast (inverse b) (not y) (beq x y) (ground arith) (inverse-Denotes b y hb)
  is_eq-Denotes one zero x y ha hb = ground arith
  is_eq-Denotes one b x y ha hb = recast b y (beq x y) (ground arith) hb
  is_eq-Denotes a zero x y ha hb =
      recast (inverse a) (not x) (beq x y) (ground arith) (inverse-Denotes a x ha)
  is_eq-Denotes a one x y ha hb = recast a x (beq x y) (ground arith) ha
  is_eq-Denotes (expr a) (expr b) x y ha hb =
      Denotes-if (is_same a b) (is_different a b) one zero (beq x y)
        (λ h. ground (arith, is_same_sound a b h)) (λ h. ground (arith, is_different_sound a b h))
  is_eq-Denotes _ _ x y ha hb = tt
