-- ===== src/Prelude/Distinct.antt =====
-- Lists without repetition, and how the loops over a `BTreeSet` find a repeated number.
use Prim.Native.Nat.{ℕ}
use mathlib.Core.Path.{◌≡◌, refl}
use mathlib.Core.Bool.{false}
use mathlib.Core.List.{List, [], ◌∷◌}
use native.Mathlib.Omega.{arith}
use dkgkit.Prelude.Lists.{All, contains}

abbrev pub IsDistinct : List ℕ → Type 0
IsDistinct [] = Unit
IsDistinct (x ∷ xs) = (contains xs x ≡ false) × IsDistinct xs

-- No element of `xs` has been seen.
abbrev pub IsFresh : List ℕ → List ℕ → Type 0
IsFresh seen = All λ x. contains seen x ≡ false

pub IsFresh-cons :
    (x : ℕ) (seen xs : List ℕ) → IsFresh seen xs → contains xs x ≡ false → IsFresh (x ∷ seen) xs
IsFresh-cons x seen [] f h = tt
IsFresh-cons x seen (y ∷ ys) f h = ground (arith, IsFresh-cons x seen ys f.1)

pub IsFresh-uncons :
    (x : ℕ) (seen xs : List ℕ) → IsFresh (x ∷ seen) xs → IsFresh seen xs × (contains xs x ≡ false)
IsFresh-uncons x seen [] f = (tt, refl)
IsFresh-uncons x seen (y ∷ ys) f = ground (arith, IsFresh-uncons x seen ys f.1)

pub IsFresh-nil : (xs : List ℕ) → IsFresh [] xs
IsFresh-nil [] = tt
IsFresh-nil (x ∷ xs) = (refl, IsFresh-nil xs)
