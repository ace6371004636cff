-- ===== src/Birkhoff.antt =====
-- crates/dkgkit-frost/src/lib.rs: the derivative basis, the Birkhoff matrix and its coefficients. An
-- array is a list; a loop that fills an array builds it anew, index by index.
pub mod Solver
pub mod Pivot
pub mod Columns
pub mod Steps
pub mod Elimination
pub mod Lengths
pub mod Derivative
pub mod Coefficients
pub mod Interpolation
use dkgkit.Prelude.{
  ℕ, zero, suc, ◌+◌, ◌-◌, Bool, true, false, not, ◌||◌, List, [], ◌∷◌, ltb, ◌==◌, if◌then◌else◌,
  length, tabulate,
}
use dkgkit.Core.Error.{DkgKitError, Arg, protocol, Result, ok, err, ◌>>=◌, ◌>>◌, fail_if, collect}
use dkgkit.Core.Ids.{ParticipantId}
use dkgkit.Core.Threshold.{as_u16}
use dkgkit.Scalar.{
  Bytes, Field, ◌⊕◌, ◌⊗◌, scalar_zero, scalar_one, scalar_from_u32, pow_loop, scalar_pow,
}
use Solver.{entry, solve_scalar_system}

pub record BirkhoffPoint : Type 0 where
  pub participant_id : ParticipantId
  pub x : ℕ
  pub derivative_order : ℕ

unfoldable pub new_birkhoff_point : ParticipantId → ℕ → ℕ → Result BirkhoffPoint
new_birkhoff_point participant_id x derivative_order =
    if x == 0
    then err (protocol "Birkhoff x-coordinate cannot be zero" [])
    else ok (record { participant_id = participant_id; x = x; derivative_order = derivative_order })

pub record BirkhoffCoefficient : Type 0 where
  pub participant_id : ParticipantId
  pub derivative_order : ℕ
  pub coefficient_bytes : Bytes

-- `0..n`, from an offset.
abbrev pub range_from : ℕ → ℕ → List ℕ
range_from start zero = []
range_from start (suc n) = start ∷ range_from (suc start) n

abbrev is_empty {ℓ} : {A : Type ℓ} → List A → Bool
is_empty [] = true
is_empty (x ∷ xs) = false

module _ {S : Type 0} ⦃F : Field S⦄ where
  -- `for factor in start..=end { coefficient = scalar_mul(coefficient, factor) }`, by the number of
  -- rounds.
  unfoldable pub factor_loop : ℕ → ℕ → S → S
  factor_loop start zero coefficient = coefficient
  factor_loop start (suc n) coefficient =
      factor_loop (suc start) n (coefficient ⊗ scalar_from_u32 start)

  -- The value of `derivative_basis_scalar`, which never takes its error type: `degree`,
  -- `derivative_order` and `x` are 16-bit numbers.
  unfoldable pub derivative_basis : ℕ → ℕ → ℕ → S
  unfolding factor_loop scalar_pow pow_loop
  derivative_basis degree derivative_order x =
      if ltb degree derivative_order
      then scalar_zero
      else (let start = as_u16 (degree - derivative_order + 1) in
          factor_loop start (suc degree - start) scalar_one
          ⊗ scalar_pow (scalar_from_u32 x) (degree - derivative_order))

  unfoldable pub derivative_basis_scalar : ℕ → ℕ → ℕ → Result S
  derivative_basis_scalar degree derivative_order x =
      ok (derivative_basis degree derivative_order x)

  -- The fold of `polynomial_derivative_value` over the enumerated coefficients.
  unfoldable pub value_loop : ℕ → S → List S → ℕ → ℕ → S
  unfolding derivative_basis
  value_loop degree acc [] x derivative_order = acc
  value_loop degree acc (c ∷ cs) x derivative_order =
      value_loop (suc degree) (acc ⊕ c ⊗ derivative_basis (as_u16 degree) derivative_order x) cs x
        derivative_order

  unfoldable pub polynomial_derivative_value : List S → ℕ → ℕ → S
  unfolding value_loop
  polynomial_derivative_value coefficients x derivative_order =
      value_loop 0 scalar_zero coefficients x derivative_order

  unfoldable pub birkhoff_matrix : List BirkhoffPoint → Result (List (List S))
  unfolding derivative_basis_scalar derivative_basis
  birkhoff_matrix points =
      collect
        (λ p.
          collect (λ degree. derivative_basis_scalar (as_u16 degree) p.derivative_order p.x)
            (range_from 0 (length points)))
        points

  unfoldable pub transpose_of : ℕ → List (List S) → List (List S)
  transpose_of n matrix = tabulate n λ col. tabulate n λ row. entry matrix row col

  -- `points.iter().zip(coefficients).map(..).collect()`
  unfoldable pub zip_coefficients : List BirkhoffPoint → List S → List BirkhoffCoefficient
  zip_coefficients [] cs = []
  zip_coefficients (p ∷ ps) [] = []
  zip_coefficients (p ∷ ps) (c ∷ cs) =
      record {
        participant_id = p.participant_id;
        derivative_order = p.derivative_order;
        coefficient_bytes = F.to_bytes c;
      }
      ∷ zip_coefficients ps cs

  -- The coefficients as scalars, before they are written as bytes.
  unfoldable pub solve_points : List BirkhoffPoint → Result (List S)
  unfolding birkhoff_matrix transpose_of
  solve_points points = do
    fail_if (is_empty points) (protocol "Birkhoff point set cannot be empty" [])
    matrix ← birkhoff_matrix points
    solve_scalar_system (transpose_of (length points) matrix)
        (tabulate (length points) (λ i. if i == 0 then scalar_one else scalar_zero))

module _ (S : Type 0) ⦃F : Field S⦄ where
  unfoldable pub birkhoff_interpolation_coefficients :
      List BirkhoffPoint → Result (List BirkhoffCoefficient)
  unfolding solve_points zip_coefficients
  birkhoff_interpolation_coefficients points =
      solve_points {S = S} points >>= λ coefficients. ok (zip_coefficients points coefficients)
