-- ===== src/Birkhoff/Interpolation.antt =====
-- The contract of `birkhoff_interpolation_coefficients`: f(0) from the derivatives at the points.
use dkgkit.Prelude.{
  ℕ, suc, ◌≤◌, ◌≡◌, refl, sym, ap, ◌∙◌, false, List, [], ◌∷◌, arith, ◌==◌, if◌then◌else◌, length,
}
use dkgkit.Core.Error.{ok, >>=-eq-ok}
use dkgkit.Scalar.{Field, ◌⊕◌, ◌⊗◌, scalar_zero, scalar_one}
use dkgkit.Scalar.Laws.{mul-one, mul-zero, zero-mul, mul_left_comm}
use dkgkit.Scalar.Sum.{sum, sum_congr, sum-zero, sum_comm, mul-sum}
use dkgkit.Birkhoff.Solver.{at}
use dkgkit.Birkhoff.{
  BirkhoffPoint, BirkhoffCoefficient, polynomial_derivative_value, zip_coefficients, solve_points,
  birkhoff_interpolation_coefficients,
}
use dkgkit.Birkhoff.Derivative.{eval, polynomial-sum}
use dkgkit.Birkhoff.Coefficients.{point, condition, solve_points-solves}

module _ {S : Type 0} ⦃F : Field S⦄ where
  -- The value of the polynomial that a point asks for.
  abbrev pub observed : List S → BirkhoffPoint → S
  observed f p = polynomial_derivative_value f p.x p.derivative_order

  constant_term :
      (f : List S)
      → sum (length f) (λ d. at f d ⊗ (if d == 0 then scalar_one else scalar_zero))
        ≡ eval f scalar_zero
  unfolding eval sum
  constant_term [] = refl
  constant_term (c ∷ cs) =
      ap
        (λ t. t ⊕ sum (length cs) (λ d. at cs d ⊗ (if suc d == 0 then scalar_one else scalar_zero)))
        (mul-one c)
      ∙ ap (λ t. c ⊕ t)
          (sum_congr (length cs) _ (λ _. scalar_zero)
              (λ d _.
                ap (λ b. at cs d ⊗ (if b then scalar_one else scalar_zero)) (not_zero d)
                ∙ mul-zero (at cs d))
            ∙ sum-zero (length cs)
            ∙ sym (zero-mul (eval cs scalar_zero)))
    where
      not_zero : (d : ℕ) → (suc d == 0) ≡ false
      not_zero d = ground arith

  pub solve_points-interpolates :
      (points : List BirkhoffPoint) (cs f : List S)
      → length points ≤ 65535
      → solve_points points ≡ ok cs
      → length f ≤ length points
      → sum (length points) (λ i. at cs i ⊗ observed f (point points i)) ≡ eval f scalar_zero
  solve_points-interpolates points cs f small h fits =
      let n = length points in
      let m = length f in
      sum_congr n _ _ (λ i _.
        ap (λ t. at cs i ⊗ t) (polynomial-sum f _ _ (omega arith))
        ∙ mul-sum m (at cs i) (λ d. at f d ⊗ condition (point points i) d))
      ∙ sum_comm n m (λ i d. at cs i ⊗ (at f d ⊗ condition (point points i) d))
      ∙ sum_congr m _ _ (λ d ld.
        sum_congr n _ _
          (λ i _. mul_left_comm (at cs i) (at f d) _ ∙ ap (λ t. at f d ⊗ t) (F.mul_comm _ _))
        ∙ sym (mul-sum n (at f d) (λ i. condition (point points i) d ⊗ at cs i))
        ∙ ap (λ t. at f d ⊗ t) (solve_points-solves points cs d small h (omega arith)))
      ∙ constant_term f

-- The coefficients that `birkhoff_interpolation_coefficients` returns for at most 65535 points are
-- scalars written as bytes, and they reconstruct f(0): for every polynomial with no more
-- coefficients than there are points, the derivative values at the points, weighted by the scalars,
-- sum to its value at 0.
pub birkhoff_interpolation_sound :
    {S : Type 0} ⦃F : Field S⦄ (points : List BirkhoffPoint) (out : List BirkhoffCoefficient)
    → length points ≤ 65535
    → birkhoff_interpolation_coefficients S points ≡ ok out
    → (cs : List S) × (out ≡ zip_coefficients points cs)
      × ((f : List S)
          → length f ≤ length points
          → sum (length points) (λ i. at cs i ⊗ observed f (point points i)) ≡ eval f scalar_zero)
unfolding birkhoff_interpolation_coefficients
birkhoff_interpolation_sound {S} points out small h =
    let (cs, ec, e) = >>=-eq-ok (solve_points {S = S} points) _ h in
    (cs, cc e, λ f fits. solve_points-interpolates points cs f small ec fits)
