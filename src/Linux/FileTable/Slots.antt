-- ===== src/Linux/FileTable/Slots.antt =====
-- Slots of the file table of icicle-linux/src/fs/file.rs after a write and after a growth.
use icicle_emu.Base.{
  ℕ, zero, suc, ◌+◌, ◌<◌, ◌≡◌, ◌≢◌, refl, ap, Option, none, some, List, [], ◌∷◌, ◌++◌, Bool, true,
  false, ◌||◌, ◌&&◌, leb, ltb, ◌==◌, ==_iff, length, get_elem?, set, replicate, get_elem?-set_self,
  get_elem?-set_ne, arith, Bool-cases, Option-cases, inl, inr, if◌then◌else◌,
}
use mathlib.Core.Path.{subst}
use icicle_emu.Linux.FileTable.{ActiveFile, FileTable, file_at}
use icicle_emu.Linux.FileTable.Numbers.{}

-- Whether a slot is there and has no file.
abbrev pub is_empty : Option (Option ActiveFile) → Bool
is_empty none = false
is_empty (some none) = true
is_empty (some (some file)) = false

pub inside :
    (xs : List (Option ActiveFile)) (j : ℕ) → is_empty (get_elem? xs j) ≡ true → j < length xs
inside [] j h = cc (h)
inside (x ∷ xs) zero h = omega arith
inside (x ∷ xs) (suc j) h = omega (arith, inside xs j h)

pub get_elem?-in : (xs : List (Option ActiveFile)) (j : ℕ) → j < length xs → get_elem? xs j ≢ none
get_elem?-in [] j h e = absurd (omega arith)
get_elem?-in (x ∷ xs) zero h e = cc (e)
get_elem?-in (x ∷ xs) (suc j) h e = get_elem?-in xs j (omega arith) e

pub append_same :
    (xs : List (Option ActiveFile)) (v : Option ActiveFile)
    → get_elem? (xs ++ (v ∷ [])) (length xs) ≡ some v
append_same [] v = refl
append_same (x ∷ xs) v = append_same xs v

pub append_other :
    (xs : List (Option ActiveFile)) (v : Option ActiveFile) (j : ℕ)
    → j ≢ length xs
    → get_elem? (xs ++ (v ∷ [])) j ≡ get_elem? xs j
append_other [] v zero h = absurd (h refl)
append_other [] v (suc j) h = refl
append_other (x ∷ xs) v zero h = refl
append_other (x ∷ xs) v (suc j) h = append_other xs v j (λ e. h (ap suc e))

pub out_none : (xs : List (Option ActiveFile)) → get_elem? xs (length xs) ≡ none
out_none [] = refl
out_none (x ∷ xs) = out_none xs

pub empty_slot : (o : Option (Option ActiveFile)) → is_empty o ≡ true → o ≡ some none
empty_slot none e = cc (e)
empty_slot (some none) e = refl
empty_slot (some (some file)) e = cc (e)

pub empty_or_file :
    (t : FileTable) (j : ℕ)
    → j < length t.files
    → is_empty (get_elem? t.files j) ≡ false
    → file_at t.files j ≢ none
empty_or_file t j h e = elim (Option-cases (get_elem? t.files j)) [
  | inl g ↦ absurd (get_elem?-in t.files j h g)
  | inr (o, g) ↦ rw g (slot o (cc (ap is_empty g, e)))
]
  where
    slot : (o : Option ActiveFile) → is_empty (some o) ≡ false → o ≢ none
    slot none e f = cc (e)
    slot (some file) e f = cc (f)

pub file_inside :
    (xs : List (Option ActiveFile)) (j : ℕ) (file : ActiveFile)
    → file_at xs j ≡ some file
    → j < length xs
file_inside [] j file e = cc (e)
file_inside (x ∷ xs) zero file e = omega arith
file_inside (x ∷ xs) (suc j) file e = omega (arith, file_inside xs j file e)

-- A slot after a write.
pub slot-set :
    (xs : List (Option ActiveFile)) (i j : ℕ) (v : Option ActiveFile)
    → i < length xs
    → get_elem? (set xs i v) j ≡ (if i == j then some v else get_elem? xs j)
slot-set xs i j v l = elim (Bool-cases (i == j)) [
  | inl q ↦ rw q (
      subst (λ k. get_elem? (set xs i v) k ≡ some v) ((==_iff i j).0 q)
        (get_elem?-set_self xs i v l))
  | inr q ↦ rw q (get_elem?-set_ne xs {i = i} {j = j} v (λ r. absurd (ground arith)))
]

pub file_at-set :
    (xs : List (Option ActiveFile)) (i j : ℕ) (v : Option ActiveFile)
    → i < length xs
    → file_at (set xs i v) j ≡ (if i == j then v else file_at xs j)
file_at-set xs i j v l = elim (Bool-cases (i == j)) [
  | inl q ↦ rw (slot-set xs i j v l, q) refl
  | inr q ↦ rw (slot-set xs i j v l, q) refl
]

pub is_empty-set :
    (xs : List (Option ActiveFile)) (i j : ℕ) (v : Option ActiveFile)
    → i < length xs
    → is_empty (get_elem? (set xs i v) j)
      ≡ (if i == j then is_empty (some v) else is_empty (get_elem? xs j))
is_empty-set xs i j v l = elim (Bool-cases (i == j)) [
  | inl q ↦ rw (slot-set xs i j v l, q) refl
  | inr q ↦ rw (slot-set xs i j v l, q) refl
]

pub file_at-grown :
    (xs : List (Option ActiveFile)) (n j : ℕ) → file_at (xs ++ replicate n none) j ≡ file_at xs j
file_at-grown [] zero j = refl
file_at-grown [] (suc n) zero = refl
file_at-grown [] (suc n) (suc j) = file_at-grown [] n j
file_at-grown (x ∷ xs) n zero = refl
file_at-grown (x ∷ xs) n (suc j) = file_at-grown xs n j

pub is_empty-grown :
    (xs : List (Option ActiveFile)) (n j : ℕ)
    → is_empty (get_elem? (xs ++ replicate n none) j)
      ≡ (is_empty (get_elem? xs j) || (leb (length xs) j && ltb j (length xs + n)))
is_empty-grown [] zero j = ground arith
is_empty-grown [] (suc n) zero = ground arith
is_empty-grown [] (suc n) (suc j) = rw (is_empty-grown [] n j) (ground arith)
is_empty-grown (none ∷ xs) n zero = ground arith
is_empty-grown (some file ∷ xs) n zero = ground arith
is_empty-grown (x ∷ xs) n (suc j) = rw (is_empty-grown xs n j) (ground arith)
