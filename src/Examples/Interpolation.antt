-- ===== src/Examples/Interpolation.antt =====
-- Birkhoff interpolation over the field of five elements: the value at 1 and the derivative at 2.
use dkgkit.Prelude.{◌≤◌, ◌≡◌, refl, List, [], ◌∷◌, arith, length}
use dkgkit.Core.Error.{ok}
use dkgkit.Scalar.{◌⊗◌, scalar_from_u32, scalar_pow, pow_loop}
use dkgkit.Scalar.Sum.{sum}
use dkgkit.Scalar.Five.{Five, f0, f1, f2, f4, five}
use dkgkit.Birkhoff.Solver.{
  entry, at, solve_scalar_system, eliminate_from, eliminate_column, find_pivot, swap_rows,
  scale_row, clear_column,
}
use dkgkit.Birkhoff.{
  BirkhoffPoint, BirkhoffCoefficient, birkhoff_interpolation_coefficients, zip_coefficients,
  solve_points, birkhoff_matrix, transpose_of, derivative_basis_scalar, derivative_basis,
  factor_loop, polynomial_derivative_value,
}
use dkgkit.Birkhoff.Elimination.{solve_scalar_system_sound}
use dkgkit.Birkhoff.Derivative.{eval, derivatives, polynomial_derivative_value-eval}
use dkgkit.Birkhoff.Coefficients.{point}
use dkgkit.Birkhoff.Interpolation.{observed, birkhoff_interpolation_sound}

abbrev pub two_points : List BirkhoffPoint
two_points =
    record { participant_id = 1; x = 1; derivative_order = 0 }
    ∷ record { participant_id = 2; x = 2; derivative_order = 1 }
    ∷ []

abbrev pub two_coefficients : List BirkhoffCoefficient
two_coefficients =
    record { participant_id = 1; derivative_order = 0; coefficient_bytes = 1 ∷ [] }
    ∷ record { participant_id = 2; derivative_order = 1; coefficient_bytes = 4 ∷ [] }
    ∷ []

pub two_points-coefficients :
    birkhoff_interpolation_coefficients Five two_points ≡ ok two_coefficients
unfolding birkhoff_interpolation_coefficients zip_coefficients solve_points birkhoff_matrix
    transpose_of derivative_basis_scalar derivative_basis factor_loop scalar_pow pow_loop
    solve_scalar_system eliminate_from eliminate_column find_pivot swap_rows scale_row clear_column
two_points-coefficients = refl

birkhoff_interpolation_sound_example :
    (cs : List Five) × (two_coefficients ≡ zip_coefficients two_points cs)
    × ((f : List Five)
        → length f ≤ 2
        → sum 2 (λ i. at cs i ⊗ observed f (point two_points i)) ≡ eval f f0)
birkhoff_interpolation_sound_example =
    birkhoff_interpolation_sound two_points two_coefficients (omega arith) two_points-coefficients

-- A matrix whose first pivot is in its second row.
abbrev matrix : List (List Five)
matrix = (f0 ∷ f2 ∷ []) ∷ (f1 ∷ f1 ∷ []) ∷ []

matrix_solution : solve_scalar_system matrix (f4 ∷ f0 ∷ []) ≡ ok (scalar_from_u32 3 ∷ f2 ∷ [])
unfolding solve_scalar_system eliminate_from eliminate_column find_pivot swap_rows scale_row
    clear_column
matrix_solution = refl

solve_scalar_system_sound_example :
    sum 2 (λ j. entry matrix 1 j ⊗ at (scalar_from_u32 3 ∷ f2 ∷ []) j) ≡ f0
solve_scalar_system_sound_example =
    solve_scalar_system_sound matrix (f4 ∷ f0 ∷ []) (scalar_from_u32 3 ∷ f2 ∷ []) matrix_solution 1
      (omega arith)

polynomial_derivative_value-eval_example :
    polynomial_derivative_value (f1 ∷ f2 ∷ f4 ∷ []) 2 1
    ≡ eval (derivatives 1 (f1 ∷ f2 ∷ f4 ∷ [])) (scalar_from_u32 2)
polynomial_derivative_value-eval_example =
    polynomial_derivative_value-eval (f1 ∷ f2 ∷ f4 ∷ []) 2 1 (omega arith)
