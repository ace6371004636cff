-- ===== src/Birkhoff/Solver.antt =====
-- crates/dkgkit-frost/src/lib.rs: `solve_scalar_system`, Gauss-Jordan elimination over the scalars.
-- One column is a step from a matrix and a target to the next.
use dkgkit.Prelude.{
  ℕ, zero, suc, ◌-◌, not, ◌||◌, List, [], Option, none, some, leb, ◌==◌, if◌then◌else◌, length,
  get_or, tabulate, any,
}
use dkgkit.Core.Error.{protocol, Result, ok, err, ◌>>=◌, ◌>>◌, fail_if}
use dkgkit.Scalar.{Field, ◌⊖◌, ◌⊗◌, scalar_zero}

-- `v.swap(a, b)` on a vector of `n` elements.
abbrev pub swapped : ℕ → ℕ → ℕ → ℕ
swapped a b i = if i == a then b else if i == b then a else i

abbrev pub swap {ℓ} : {A : Type ℓ} → ℕ → ℕ → ℕ → A → List A → List A
swap n a b d xs = tabulate n λ i. get_or xs (swapped a b i) d

abbrev pub or_singular : Option ℕ → Result ℕ
or_singular none = err (protocol "singular Birkhoff interpolation system" [])
or_singular (some row) = ok row

pub record System (S : Type 0) : Type 0 where
  pub matrix : List (List S)
  pub target : List S

module _ {S : Type 0} ⦃F : Field S⦄ where
  -- `matrix[row][col]`, within the bounds.
  abbrev pub entry : List (List S) → ℕ → ℕ → S
  entry m row col = get_or (get_or m row []) col scalar_zero

  abbrev pub at : List S → ℕ → S
  at t row = get_or t row scalar_zero

  -- `(col..n).find(|row| !matrix[*row][col].is_zero())`, with `count` rows left.
  unfoldable pub find_pivot : List (List S) → ℕ → ℕ → ℕ → Option ℕ
  find_pivot m col row zero = none
  find_pivot m col row (suc count) =
      let rest = find_pivot m col (suc row) count in
      if F.is_zero (entry m row col) then rest else some row

  unfoldable pub swap_rows : ℕ → ℕ → ℕ → System S → System S
  swap_rows n pivot col s = if pivot == col then s else record {
    matrix = swap n pivot col [] s.matrix;
    target = swap n pivot col scalar_zero s.target;
  }

  -- `for entry in matrix[col].iter_mut().skip(col)`, and `target[col]`.
  unfoldable pub scale_row : ℕ → ℕ → S → System S → System S
  scale_row n col pivot_inverse s = record {
    matrix = tabulate n (λ row.
        if row == col
        then tabulate n
            (λ c. if leb col c then entry s.matrix row c ⊗ pivot_inverse else entry s.matrix row c)
        else get_or s.matrix row []);
    target =
        tabulate n (λ row. if row == col then at s.target row ⊗ pivot_inverse else at s.target row);
  }

  -- The loop over the other rows. Each reads its own row and row `col`, which it does not change.
  unfoldable pub clear_column : ℕ → ℕ → System S → System S
  clear_column n col s = record {
    matrix = tabulate n (λ row.
        if row == col || F.is_zero (entry s.matrix row col)
        then get_or s.matrix row []
        else tabulate n (λ c.
          if leb col c
          then entry s.matrix row c ⊖ entry s.matrix row col ⊗ entry s.matrix col c
          else entry s.matrix row c));
    target = tabulate n (λ row.
        if row == col || F.is_zero (entry s.matrix row col)
        then at s.target row
        else at s.target row ⊖ entry s.matrix row col ⊗ at s.target col);
  }

  unfoldable pub eliminate_column : ℕ → ℕ → System S → Result (System S)
  unfolding find_pivot swap_rows scale_row clear_column
  eliminate_column n col s = do
    pivot ← or_singular (find_pivot s.matrix col col (n - col))
    let s' = swap_rows n pivot col s
    fail_if (F.is_zero (entry s'.matrix col col))
        (protocol "singular Birkhoff interpolation pivot" [])
    ok (clear_column n col (scale_row n col (F.invert (entry s'.matrix col col)) s'))

  -- `for col in 0..n`, with `count` columns left.
  unfoldable pub eliminate_from : ℕ → ℕ → ℕ → System S → Result (System S)
  unfolding eliminate_column
  eliminate_from n col zero s = ok s
  eliminate_from n col (suc count) s =
      eliminate_column n col s >>= λ s'. eliminate_from n (suc col) count s'

  unfoldable pub solve_scalar_system : List (List S) → List S → Result (List S)
  unfolding eliminate_from
  solve_scalar_system matrix target = do
    fail_if
        (not (length target == length matrix)
          || any (λ row. not (length row == length matrix)) matrix)
        (protocol "Birkhoff linear system must be square" [])
    s ←
        eliminate_from (length matrix) 0 (length matrix)
          (record { matrix = matrix; target = target })
    ok s.target
