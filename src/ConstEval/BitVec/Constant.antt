-- ===== src/ConstEval/BitVec/Constant.antt =====
-- Constants read from and written to vectors of bits, their bounds, and parts of vectors: `set_const`,
-- `get_const`, `min`, `count_ones` and the slices of icicle-cpu/src/exec/const_eval.rs.
use mathlib.Core.Path.{subst}
use native.Mathlib.Nat.{pow-suc, zero-mod, zero-div}
use icicle_emu.Base.{ℕ, zero, suc, ◌+◌, ◌*◌, ◌/◌, ◌%◌, ◌^◌, ◌≡◌, refl, sym, ap, arith}
use icicle_emu.Base.{List, [], ◌∷◌, ◌++◌, Bool, true, false, ◌==◌, if◌then◌else◌}
use icicle_emu.Base.{length, take, drop}
use icicle_emu.Base.Powers.{mod-pow-suc, div-pow-suc}
use icicle_emu.ConstEval.Bit.{Bit, Denotes, Valuation}
use icicle_emu.ConstEval.BitVec.{set_const}
use icicle_emu.ConstEval.BitVec.Sound.{IsValue, IsValue-cons}

module _ (ρ : Valuation) where
  pub recast : (bits : List Bit) (v w : ℕ) → v ≡ w → IsValue ρ bits v → IsValue ρ bits w
  recast bits v w e h = subst (IsValue ρ bits) e h

  IsValue-cons' :
      (b : Bit) (bits : List Bit) (x w : ℕ)
      → Denotes ρ b (x % 2 == 1)
      → IsValue ρ bits w
      → IsValue ρ (b ∷ bits) (w * 2 + x % 2)
  IsValue-cons' b bits x w hb h =
      recast (b ∷ bits) _ _ (ground arith) (IsValue-cons ρ b bits (x % 2 == 1) w hb h)

  const_bit : (c : Bool) → Denotes ρ (if c then Bit.one else Bit.zero) c
  const_bit true = refl
  const_bit false = refl

  pub set_const-IsValue :
      (bits : List Bit) (v : ℕ) → IsValue ρ (set_const bits v) (v % 2 ^ length bits)
  unfolding set_const
  set_const-IsValue [] v = omega arith
  set_const-IsValue (b ∷ bits) v =
      recast (set_const (b ∷ bits) v) _ _ (sym (mod-pow-suc v (length bits)))
        (IsValue-cons' _ _ v _ (const_bit (v % 2 == 1)) (set_const-IsValue bits (v / 2)))

  pub take-IsValue :
      (k : ℕ) (bits : List Bit) (v : ℕ) → IsValue ρ bits v → IsValue ρ (take k bits) (v % 2 ^ k)
  take-IsValue zero bits v h = omega arith
  take-IsValue (suc k) [] v h = rw h (zero-mod (2 ^ suc k))
  take-IsValue (suc k) (b ∷ bits) v h =
      recast (take (suc k) (b ∷ bits)) _ _ (sym (mod-pow-suc v k))
        (IsValue-cons' _ _ v _ h.0 (take-IsValue k bits (v / 2) h.1))

  pub drop-IsValue :
      (k : ℕ) (bits : List Bit) (v : ℕ) → IsValue ρ bits v → IsValue ρ (drop k bits) (v / 2 ^ k)
  drop-IsValue zero bits v h = recast bits _ _ (omega arith) h
  drop-IsValue (suc k) [] v h = rw h (zero-div (2 ^ suc k))
  drop-IsValue (suc k) (b ∷ bits) v h =
      recast (drop k bits) _ _ (sym (div-pow-suc v k)) (drop-IsValue k bits (v / 2) h.1)

  pub append-IsValue :
      (us vs : List Bit) (x y : ℕ)
      → IsValue ρ us x
      → IsValue ρ vs y
      → IsValue ρ (us ++ vs) (x + y * 2 ^ length us)
  append-IsValue [] vs x y hx hy = recast vs _ _ (ground arith) hy
  append-IsValue (b ∷ us) vs x y hx hy =
      recast (b ∷ us ++ vs) _ _ (ground (arith, ap (λ (t : ℕ). y * t) (pow-suc 2 (length us))))
        (IsValue-cons' _ _ x _ hx.0 (append-IsValue us vs (x / 2) y hx.1 hy))
