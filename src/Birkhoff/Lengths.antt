-- ===== src/Birkhoff/Lengths.antt =====
-- The number of coefficients that `solve_scalar_system` returns.
use dkgkit.Prelude.{
  ℕ, zero, suc, ◌-◌, ◌≡◌, ap, ◌∙◌, not, List, ◌==◌, length, length-tabulate, any, ◌||◌,
}
use dkgkit.Core.Error.{ok, ◌>>=◌, >>=-eq-ok, fail_if->>-eq-ok}
use dkgkit.Scalar.{Field}
use dkgkit.Birkhoff.Solver.{
  System, entry, find_pivot, or_singular, swap_rows, scale_row, clear_column, eliminate_column,
  eliminate_from, solve_scalar_system,
}

module _ {S : Type 0} ⦃F : Field S⦄ where
  eliminate_from-length :
      (n col count : ℕ) (s s' : System S)
      → length s.target ≡ n
      → eliminate_from n col count s ≡ ok s'
      → length s'.target ≡ n
  unfolding eliminate_from eliminate_column clear_column
  eliminate_from-length n col zero s s' l h = ap (λ t. length t.target) {x = s'} {y = s} (cc h) ∙ l
  eliminate_from-length n col (suc count) s s' l h =
      let (s1, e1, h1) = >>=-eq-ok (eliminate_column n col s) _ h in
      let (p, _, h2) = >>=-eq-ok (or_singular (find_pivot s.matrix col col (n - col))) _ e1 in
      let s2 = swap_rows n p col s in
      let s3 = scale_row n col (F.invert (entry s2.matrix col col)) s2 in
      let (_, e) =
        fail_if->>-eq-ok (F.is_zero (entry s2.matrix col col)) _ (ok (clear_column n col s3)) h2 in
      eliminate_from-length n (suc col) count s1 s'
        (ap (λ t. length t.target) {x = s1} {y = clear_column n col s3} (cc e)
          ∙ length-tabulate n _)
        h1

  -- The result has as many entries as the system has rows.
  pub length-solve_scalar_system :
      (matrix : List (List S)) (target xs : List S)
      → length target ≡ length matrix
      → solve_scalar_system matrix target ≡ ok xs
      → length xs ≡ length matrix
  unfolding solve_scalar_system
  length-solve_scalar_system matrix target xs l h =
      let n = length matrix in
      let start : System S = record { matrix = matrix; target = target } in
      let (_, h1) =
        fail_if->>-eq-ok (not (length target == n) || any (λ row. not (length row == n)) matrix) _
          (eliminate_from n 0 n start >>= λ s. ok s.target) h in
      let (s', es, e) = >>=-eq-ok (eliminate_from n 0 n start) _ h1 in
      ap length {x = xs} {y = s'.target} (cc e) ∙ eliminate_from-length n 0 n start s' l es
