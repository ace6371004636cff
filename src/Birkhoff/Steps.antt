-- ===== src/Birkhoff/Steps.antt =====
-- The steps of one round of `solve_scalar_system`: scaling the pivot row and clearing its column.
use dkgkit.Prelude.{
  ℕ, suc, ◌<◌, ◌≡◌, sym, ap, ◌∙◌, false, arith, ◌==◌, if◌then◌else◌, Bool-cases, inl, inr,
}
use dkgkit.Scalar.{Field, ◌⊕◌, ◌⊖◌, ◌⊗◌, scalar_zero, scalar_one}
use dkgkit.Scalar.Laws.{mul-one, zero-mul, mul-zero, sub-zero, sub-mul, mul_right_comm, sub_self}
use dkgkit.Scalar.Sum.{sum, sum_congr, mul-sum, sum-sub}
use dkgkit.Birkhoff.Solver.{System, entry, at, scale_row, clear_column}
use dkgkit.Birkhoff.Pivot.{IsReduced, Solves}
use dkgkit.Birkhoff.Columns.{
  left_of_pivot, scale_row-pivot, scale_row-other, scale_row-at_pivot, scale_row-at_other,
  clear_column-entry, clear_column-pivot, clear_column-at, clear_column-at_pivot,
}

module _ {S : Type 0} ⦃F : Field S⦄ where
  -- A common factor with an inverse cancels.
  factor_cancel : (a b v p : S) → p ⊗ v ≡ scalar_one → a ⊗ v ≡ b ⊗ v → a ≡ b
  factor_cancel a b v p h e = sym (undo a) ∙ ap (λ t. t ⊗ p) e ∙ undo b
    where
      undo : (c : S) → c ⊗ v ⊗ p ≡ c
      undo c = F.mul_assoc c v p ∙ ap (λ t. c ⊗ t) (F.mul_comm v p ∙ h) ∙ mul-one c

  sub_cancel : (a b k : S) → a ⊖ k ≡ b ⊖ k → a ≡ b
  sub_cancel a b k h = sym (F.sub-add a k) ∙ ap (λ t. t ⊕ k) h ∙ F.sub-add b k

  module _ (n col : ℕ) (s : System S) (reduced : IsReduced n col s) (inside : col < n) where
    pub scale_row-IsReduced : (v : S) → IsReduced n col (scale_row n col v s)
    scale_row-IsReduced v i j li lj = elim (Bool-cases (i == col)) [
      | inl e ↦ on_pivot (ground arith)
      | inr e ↦ scale_row-other n col s reduced inside v i j li e ∙ reduced i j li lj
    ]
      where
        on_pivot :
            i ≡ col
            → entry (scale_row n col v s).matrix i j ≡ (if i == j then scalar_one else scalar_zero)
        on_pivot e = rw e (
            scale_row-pivot n col s reduced inside v j (omega arith)
            ∙ ap (λ t. t ⊗ v) (left_of_pivot n col s reduced inside j lj)
            ∙ zero-mul v
            ∙ sym (left_of_pivot n col s reduced inside j lj)
            ∙ reduced col j inside lj)

    pub scale_row-Solves :
        (v p : S) (x : ℕ → S) → p ⊗ v ≡ scalar_one → Solves n (scale_row n col v s) x → Solves n s x
    scale_row-Solves v p x h sol i li = elim (Bool-cases (i == col)) [
      | inl e ↦ on_pivot (ground arith)
      | inr e ↦
          sum_congr n _ _
            (λ j _. ap (λ t. t ⊗ x j) (sym (scale_row-other n col s reduced inside v i j li e)))
          ∙ sol i li
          ∙ scale_row-at_other n col s reduced inside v i li e
    ]
      where
        scaled :
            sum n (λ j. entry s.matrix col j ⊗ x j) ⊗ v
            ≡ sum n (λ j. entry (scale_row n col v s).matrix col j ⊗ x j)
        scaled =
            F.mul_comm _ v
            ∙ mul-sum n v (λ j. entry s.matrix col j ⊗ x j)
            ∙ sum_congr n _ _ (λ j lj.
              F.mul_comm v _
              ∙ mul_right_comm _ (x j) v
              ∙ ap (λ t. t ⊗ x j) (sym (scale_row-pivot n col s reduced inside v j lj)))

        on_pivot : i ≡ col → sum n (λ j. entry s.matrix i j ⊗ x j) ≡ at s.target i
        on_pivot e = rw e (
            factor_cancel _ _ v p h
              (scaled ∙ sol col inside ∙ scale_row-at_pivot n col s reduced inside v))

    module _ (unit : entry s.matrix col col ≡ scalar_one) where
      pub clear_column-IsReduced : IsReduced n (suc col) (clear_column n col s)
      clear_column-IsReduced i j li lj = elim (Bool-cases (i == col)) [
        | inl e ↦ on_pivot (ground arith)
        | inr e ↦ clear_column-entry n col s reduced inside i j li (omega arith) e ∙ off_pivot e
      ]
        where
          pivot_row :
              (k : ℕ)
              → k < suc col
              → entry s.matrix col k ≡ (if col == k then scalar_one else scalar_zero)
          pivot_row k lk = elim (Bool-cases (col == k)) [
            | inl e ↦ rw e (ap (λ c. entry s.matrix col c) (ground arith) ∙ unit)
            | inr e ↦ rw e (left_of_pivot n col s reduced inside k (ground arith))
          ]

          on_pivot :
              i ≡ col
              → entry (clear_column n col s).matrix i j
                ≡ (if i == j then scalar_one else scalar_zero)
          on_pivot e = rw e (clear_column-pivot n col s reduced inside j ∙ pivot_row j lj)

          off_pivot :
              (i == col) ≡ false
              → entry s.matrix i j ⊖ entry s.matrix i col ⊗ entry s.matrix col j
                ≡ (if i == j then scalar_one else scalar_zero)
          off_pivot e = elim (Bool-cases (col == j)) [
            | inl at_col ↦ on_column (ground arith)
            | inr left ↦
                rw
                  (
                    left_of_pivot n col s reduced inside j (ground arith),
                    mul-zero (entry s.matrix i col),
                  )
                  (sub-zero _ ∙ reduced i j li (ground arith))
          ]
            where
              on_column :
                  col ≡ j
                  → entry s.matrix i j ⊖ entry s.matrix i col ⊗ entry s.matrix col j
                    ≡ (if i == j then scalar_one else scalar_zero)
              on_column p = rw (← p, unit, e, mul-one) (sub_self _)

      pub clear_column-Solves : (x : ℕ → S) → Solves n (clear_column n col s) x → Solves n s x
      clear_column-Solves x sol i li = elim (Bool-cases (i == col)) [
        | inl e ↦ on_pivot_row (ground arith)
        | inr e ↦ off_pivot_row e
      ]
        where
          pivot_solved : sum n (λ j. entry s.matrix col j ⊗ x j) ≡ at s.target col
          pivot_solved =
              sum_congr n _ _
                (λ j _. ap (λ t. t ⊗ x j) (sym (clear_column-pivot n col s reduced inside j)))
              ∙ sol col inside
              ∙ clear_column-at_pivot n col s reduced inside

          on_pivot_row : i ≡ col → sum n (λ j. entry s.matrix i j ⊗ x j) ≡ at s.target i
          on_pivot_row e = rw e pivot_solved

          off_pivot_row : (i == col) ≡ false → sum n (λ j. entry s.matrix i j ⊗ x j) ≡ at s.target i
          off_pivot_row e =
              let f = entry s.matrix i col in
              sub_cancel _ _ (f ⊗ at s.target col) (
                ap (λ t. sum n (λ j. entry s.matrix i j ⊗ x j) ⊖ t)
                  (ap (λ t. f ⊗ t) (sym pivot_solved)
                    ∙ mul-sum n f (λ j. entry s.matrix col j ⊗ x j))
                ∙ sym (
                    sum-sub n (λ j. entry s.matrix i j ⊗ x j)
                      (λ j. f ⊗ (entry s.matrix col j ⊗ x j)))
                ∙ sum_congr n _ _ (λ j lj.
                  ap (λ t. entry s.matrix i j ⊗ x j ⊖ t) (sym (F.mul_assoc f _ (x j)))
                  ∙ sym (sub-mul (entry s.matrix i j) (f ⊗ entry s.matrix col j) (x j))
                  ∙ ap (λ t. t ⊗ x j) (sym (clear_column-entry n col s reduced inside i j li lj e)))
                ∙ sol i li
                ∙ clear_column-at n col s reduced inside i li e)
