-- ===== src/Birkhoff/Coefficients.antt =====
-- The linear system behind `birkhoff_interpolation_coefficients`.
use native.Mathlib.Nat.{zero-add}
use dkgkit.Prelude.{
  ℕ, zero, suc, ◌+◌, ◌<◌, ◌≤◌, ◌≡◌, refl, sym, ap, ◌∙◌, List, [], arith, ◌==◌, if◌then◌else◌,
  length, get_or, tabulate, get_or-tabulate, length-tabulate,
}
use dkgkit.Core.Error.{ok, ◌>>=◌, >>=-eq-ok, fail_if->>-eq-ok, get_or-collect}
use dkgkit.Core.Threshold.{as_u16}
use dkgkit.Scalar.{Field, ◌⊗◌, scalar_zero, scalar_one}
use dkgkit.Scalar.Sum.{sum, sum_congr}
use dkgkit.Birkhoff.Solver.{entry, at, solve_scalar_system}
use dkgkit.Birkhoff.{
  BirkhoffPoint, range_from, derivative_basis, derivative_basis_scalar, birkhoff_matrix,
  transpose_of, solve_points, is_empty,
}
use dkgkit.Birkhoff.Elimination.{solve_scalar_system_sound}
use dkgkit.Birkhoff.Lengths.{length-solve_scalar_system}

-- What a read beyond the points would give.
abbrev pub no_point : BirkhoffPoint
no_point = record { participant_id = 0; x = 0; derivative_order = 0 }

abbrev pub point : List BirkhoffPoint → ℕ → BirkhoffPoint
point points i = get_or points i no_point

length-range_from : (s n : ℕ) → length (range_from s n) ≡ n
length-range_from s zero = refl
length-range_from s (suc n) = ap suc (length-range_from (suc s) n)

get_or-range_from : (s n i : ℕ) → i < n → get_or (range_from s n) i 0 ≡ s + i
get_or-range_from s zero i h = elim h [ ]
get_or-range_from s (suc n) zero h = omega arith
get_or-range_from s (suc n) (suc i) h = get_or-range_from (suc s) n i (omega arith) ∙ omega arith

module _ {S : Type 0} ⦃F : Field S⦄ where
  -- The condition of a point on the coefficient of a degree.
  abbrev pub condition : BirkhoffPoint → ℕ → S
  condition p degree = derivative_basis degree p.derivative_order p.x

  birkhoff_matrix-entry :
      (points : List BirkhoffPoint) (m : List (List S)) (i d : ℕ)
      → length points ≤ 65535
      → birkhoff_matrix points ≡ ok m
      → i < length points
      → d < length points
      → entry m i d ≡ condition (point points i) d
  unfolding birkhoff_matrix derivative_basis_scalar
  birkhoff_matrix-entry points m i d small h li ld =
      let n = length points in
      let row = get_or-collect _ points no_point [] i h li in
      let in_range : d < length (range_from 0 n) = omega (arith, length-range_from 0 n) in
      let cell =
        get_or-collect
          (λ k.
            derivative_basis_scalar {S = S} (as_u16 k) (point points i).derivative_order
              (point points i).x)
          (range_from 0 n) 0 scalar_zero d row in_range in
      sym (cc cell)
      ∙ ap (λ k. condition (point points i) k)
          (ap as_u16 (get_or-range_from 0 n d ld ∙ zero-add d) ∙ omega arith)

  -- The coefficients solve the transposed system: for each degree the conditions weighted by the
  -- coefficients sum to 1 at degree 0 and to 0 above.
  pub solve_points-solves :
      (points : List BirkhoffPoint) (cs : List S) (d : ℕ)
      → length points ≤ 65535
      → solve_points points ≡ ok cs
      → d < length points
      → sum (length points) (λ i. condition (point points i) d ⊗ at cs i)
        ≡ (if d == 0 then scalar_one else scalar_zero)
  unfolding solve_points transpose_of
  solve_points-solves points cs d small h ld =
      let n = length points in
      let e0 = tabulate n (λ i. if i == 0 then scalar_one else scalar_zero) in
      let (_, h1) =
        fail_if->>-eq-ok (is_empty points) _
          (birkhoff_matrix points >>= λ m. solve_scalar_system (transpose_of n m) e0) h in
      let (m, em, h2) = >>=-eq-ok (birkhoff_matrix points) _ h1 in
      let size : length (transpose_of n m) ≡ n = length-tabulate n _ in
      let solved = solve_scalar_system_sound (transpose_of n m) e0 cs h2 d (omega (arith, size)) in
      sum_congr n _ _ (λ i li.
        ap (λ t. t ⊗ at cs i)
          (sym (
            ap (λ r. get_or r i scalar_zero) (get_or-tabulate n _ d [] ld)
            ∙ get_or-tabulate n _ i scalar_zero li
            ∙ birkhoff_matrix-entry points m i d small em li ld)))
      ∙ ap (λ k. sum k (λ i. entry (transpose_of n m) d i ⊗ at cs i)) (sym size)
      ∙ solved
      ∙ get_or-tabulate n _ d scalar_zero ld

  -- There is one coefficient for each point.
  pub length-solve_points :
      (points : List BirkhoffPoint) (cs : List S)
      → solve_points points ≡ ok cs
      → length cs ≡ length points
  unfolding solve_points transpose_of
  length-solve_points points cs h =
      let n = length points in
      let e0 = tabulate n (λ i. if i == 0 then scalar_one else scalar_zero) in
      let (_, h1) =
        fail_if->>-eq-ok (is_empty points) _
          (birkhoff_matrix points >>= λ m. solve_scalar_system (transpose_of n m) e0) h in
      let (m, em, h2) = >>=-eq-ok (birkhoff_matrix points) _ h1 in
      let size : length (transpose_of n m) ≡ n = length-tabulate n _ in
      length-solve_scalar_system (transpose_of n m) e0 cs (length-tabulate n _ ∙ sym size) h2 ∙ size
