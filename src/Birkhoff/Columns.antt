-- ===== src/Birkhoff/Columns.antt =====
-- The scaling of the pivot row and the clearing of its column in `solve_scalar_system`.
use dkgkit.Prelude.{
  ℕ, ◌<◌, ◌≡◌, sym, ap, ◌∙◌, true, false, [], arith, leb, ◌==◌, ==_refl, if◌then◌else◌, get_or,
  get_or-tabulate, Bool-cases, inl, inr, ◌⊎◌,
}
use dkgkit.Scalar.{Field, ◌⊖◌, ◌⊗◌, scalar_zero, scalar_one}
use dkgkit.Scalar.Laws.{zero-mul, mul-zero, sub-zero}
use dkgkit.Birkhoff.Solver.{System, entry, at, scale_row, clear_column}
use dkgkit.Birkhoff.Pivot.{IsReduced}

module _ {S : Type 0} ⦃F : Field S⦄ (n col : ℕ) (s : System S) (reduced : IsReduced n col s)
    (inside : col < n) where
  pub left_of_pivot : (j : ℕ) → j < col → entry s.matrix col j ≡ scalar_zero
  left_of_pivot j lt = reduced col j inside lt ∙ ap (λ b. if b then scalar_one else scalar_zero) off
    where
      off : (col == j) ≡ false
      off = ground arith

  module _ (v : S) where
    pub scale_row-pivot :
        (j : ℕ) → j < n → entry (scale_row n col v s).matrix col j ≡ entry s.matrix col j ⊗ v
    unfolding scale_row
    scale_row-pivot j lj =
        ap (λ r. get_or r j scalar_zero) (get_or-tabulate n _ col [] inside)
        ∙ rw (==_refl col) (get_or-tabulate n _ j scalar_zero lj ∙ split (Bool-cases (leb col j)))
      where
        split :
            ((leb col j ≡ true) ⊎ (leb col j ≡ false))
            → (if leb col j then entry s.matrix col j ⊗ v else entry s.matrix col j)
              ≡ entry s.matrix col j ⊗ v
        split (inl e) = rw e
        split (inr e) = rw (e, left_of_pivot j (ground arith)) (sym (zero-mul v))

    pub scale_row-other :
        (i j : ℕ)
        → i < n
        → (i == col) ≡ false
        → entry (scale_row n col v s).matrix i j ≡ entry s.matrix i j
    unfolding scale_row
    scale_row-other i j li ne =
        ap (λ r. get_or r j scalar_zero) (get_or-tabulate n _ i [] li) ∙ rw ne

    pub scale_row-at_pivot : at (scale_row n col v s).target col ≡ at s.target col ⊗ v
    unfolding scale_row
    scale_row-at_pivot = get_or-tabulate n _ col scalar_zero inside ∙ rw (==_refl col)

    pub scale_row-at_other :
        (i : ℕ) → i < n → (i == col) ≡ false → at (scale_row n col v s).target i ≡ at s.target i
    unfolding scale_row
    scale_row-at_other i li ne = get_or-tabulate n _ i scalar_zero li ∙ rw ne

  -- A row is eliminated by the same expression on both sides of its pivot column.
  pub clear_column-entry :
      (i j : ℕ)
      → i < n
      → j < n
      → (i == col) ≡ false
      → entry (clear_column n col s).matrix i j
        ≡ entry s.matrix i j ⊖ entry s.matrix i col ⊗ entry s.matrix col j
  unfolding clear_column
  clear_column-entry i j li lj ne =
      ap (λ r. get_or r j scalar_zero) (get_or-tabulate n _ i [] li)
      ∙ rw ne (elim (Bool-cases (F.is_zero (entry s.matrix i col))) [
        | inl z ↦ rw (z, (F.is_zero_iff _).0 z, zero-mul (entry s.matrix col j)) (sym (sub-zero _))
        | inr z ↦ rw z (get_or-tabulate n _ j scalar_zero lj ∙ split (Bool-cases (leb col j)))
      ])
    where
      split :
          ((leb col j ≡ true) ⊎ (leb col j ≡ false))
          → (if leb col j
              then entry s.matrix i j ⊖ entry s.matrix i col ⊗ entry s.matrix col j
              else entry s.matrix i j)
            ≡ entry s.matrix i j ⊖ entry s.matrix i col ⊗ entry s.matrix col j
      split (inl e) = rw e
      split (inr e) = rw (e, left_of_pivot j (ground arith), mul-zero _) (sym (sub-zero _))

  pub clear_column-pivot :
      (j : ℕ) → entry (clear_column n col s).matrix col j ≡ entry s.matrix col j
  unfolding clear_column
  clear_column-pivot j =
      ap (λ r. get_or r j scalar_zero) (get_or-tabulate n _ col [] inside) ∙ rw (==_refl col)

  pub clear_column-at :
      (i : ℕ)
      → i < n
      → (i == col) ≡ false
      → at (clear_column n col s).target i ≡ at s.target i ⊖ entry s.matrix i col ⊗ at s.target col
  unfolding clear_column
  clear_column-at i li ne =
      get_or-tabulate n _ i scalar_zero li
      ∙ rw ne (elim (Bool-cases (F.is_zero (entry s.matrix i col))) [
        | inl z ↦ rw (z, (F.is_zero_iff _).0 z, zero-mul (at s.target col)) (sym (sub-zero _))
        | inr z ↦ rw z
      ])

  pub clear_column-at_pivot : at (clear_column n col s).target col ≡ at s.target col
  unfolding clear_column
  clear_column-at_pivot = get_or-tabulate n _ col scalar_zero inside ∙ rw (==_refl col)
