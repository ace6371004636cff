-- ===== src/Birkhoff/Elimination.antt =====
-- `solve_scalar_system` is sound: what it returns solves the system that it was given.
use dkgkit.Prelude.{
  ℕ, zero, suc, ◌+◌, ◌-◌, ◌<◌, ◌≤◌, ◌≡◌, ap, subst, ◌∙◌, false, not, List, Option, some, arith,
  ◌==◌, if◌then◌else◌, length, any, ◌||◌, Bool-cases, inl, inr,
}
use dkgkit.Core.Error.{ok, ◌>>=◌, >>=-eq-ok, fail_if->>-eq-ok}
use dkgkit.Scalar.{Field, ◌⊗◌, scalar_zero, scalar_one}
use dkgkit.Scalar.Laws.{zero-mul}
use dkgkit.Scalar.Sum.{sum, sum_congr, sum_single}
use dkgkit.Birkhoff.Solver.{
  System, entry, at, find_pivot, or_singular, swap_rows, scale_row, clear_column, eliminate_column,
  eliminate_from, solve_scalar_system,
}
use dkgkit.Birkhoff.Pivot.{IsReduced, Solves, swap_rows-IsReduced, swap_rows-Solves}
use dkgkit.Birkhoff.Columns.{scale_row-pivot}
use dkgkit.Birkhoff.Steps.{
  scale_row-IsReduced, scale_row-Solves, clear_column-IsReduced, clear_column-Solves,
}

module _ {S : Type 0} ⦃F : Field S⦄ where
  find_pivot_range :
      (m : List (List S)) (col row count : ℕ) {p : ℕ}
      → find_pivot m col row count ≡ some p
      → (row ≤ p) × (p < row + count)
  unfolding find_pivot
  find_pivot_range m col row zero h = cc
  find_pivot_range m col row (suc count) {p} h =
      ground (arith, find_pivot_range m col (suc row) count {p = p})

  -- One column: one more column is reduced, and every solution of the result solved the start.
  Advances : ℕ → ℕ → ℕ → System S → System S → Type 0
  Advances n col col' s s' =
      IsReduced n col s → IsReduced n col' s' × ((x : ℕ → S) → Solves n s' x → Solves n s x)

  -- Scaling by the inverse of a nonzero pivot, then clearing its column.
  pivot_step :
      (n col : ℕ) (s : System S)
      → IsReduced n col s
      → col < n
      → F.is_zero (entry s.matrix col col) ≡ false
      → let s' = clear_column n col (scale_row n col (F.invert (entry s.matrix col col)) s) in
        IsReduced n (suc col) s' × ((x : ℕ → S) → Solves n s' x → Solves n s x)
  pivot_step n col s r inside z =
      let v = F.invert (entry s.matrix col col) in
      let s2 = scale_row n col v s in
      let r2 = scale_row-IsReduced n col s r inside v in
      let one = F.mul-invert _ z in
      let unit = scale_row-pivot n col s r inside v col inside ∙ one in
      (
        clear_column-IsReduced n col s2 r2 inside unit,
        λ x sol.
            scale_row-Solves n col s r inside v _ x one
              (clear_column-Solves n col s2 r2 inside unit x sol),
      )

  eliminate_column-Advances :
      (n col : ℕ) (s s' : System S)
      → col < n
      → eliminate_column n col s ≡ ok s'
      → Advances n col (suc col) s s'
  unfolding eliminate_column Advances
  eliminate_column-Advances n col s s' inside h r0 =
      let (p, ep, h1) = >>=-eq-ok (or_singular (find_pivot s.matrix col col (n - col))) _ h in
      let range = find_pivot_range s.matrix col col (n - col) (found ep) in
      let s1 = swap_rows n p col s in
      let r1 = swap_rows-IsReduced n p col s (omega (arith, range)) inside range.0 r0 in
      let (z, e1) =
        fail_if->>-eq-ok (F.is_zero (entry s1.matrix col col)) _
          (ok (clear_column n col (scale_row n col (F.invert (entry s1.matrix col col)) s1))) h1 in
      let e : clear_column n col (scale_row n col (F.invert (entry s1.matrix col col)) s1) ≡ s' =
        cc e1 in
      let (r', back) = pivot_step n col s1 r1 inside z in
      subst (λ t. IsReduced n (suc col) t × ((x : ℕ → S) → Solves n t x → Solves n s x)) e
        (r', λ x sol. swap_rows-Solves n p col s x (omega (arith, range)) inside (back x sol))
    where
      found : {o : Option ℕ} {p : ℕ} → or_singular o ≡ ok p → o ≡ some p
      found {o} h = ground arith

  reduced-Solves : (n : ℕ) (s : System S) → IsReduced n n s → Solves n s (at s.target)
  reduced-Solves n s r i li =
      sum_congr n _ _ (λ j lj. ap (λ t. t ⊗ at s.target j) (r i j li lj) ∙ pick j)
      ∙ sum_single n i (at s.target) li
    where
      pick :
          (j : ℕ)
          → (if i == j then scalar_one else scalar_zero) ⊗ at s.target j
            ≡ (if i == j then at s.target j else scalar_zero)
      pick j = elim (Bool-cases (i == j)) [ inl e ↦ rw e (F.one-mul _) | inr e ↦ rw e (zero-mul _) ]

  eliminate_from-Advances :
      (n col count : ℕ) (s s' : System S)
      → col + count ≡ n
      → eliminate_from n col count s ≡ ok s'
      → Advances n col n s s'
  unfolding eliminate_from Advances
  eliminate_from-Advances n col zero s s' e h r =
      subst (λ t. IsReduced n n t × ((x : ℕ → S) → Solves n t x → Solves n s x)) (cc h)
        (subst (λ k. IsReduced n k s) (omega arith) r, λ x sol. sol)
  eliminate_from-Advances n col (suc count) s s' e h r =
      let (s1, e1, h1) = >>=-eq-ok (eliminate_column n col s) _ h in
      let (r1, back1) = eliminate_column-Advances n col s s1 (omega arith) e1 r in
      let (r2, back2) = eliminate_from-Advances n (suc col) count s1 s' (omega arith) h1 r1 in
      (r2, λ x sol. back1 x (back2 x sol))

  -- When `solve_scalar_system` succeeds, its result solves every equation of the system: the product
  -- of each row of the matrix with the result is the target's entry.
  pub solve_scalar_system_sound :
      (matrix : List (List S)) (target xs : List S)
      → solve_scalar_system matrix target ≡ ok xs
      → (i : ℕ) → i < length matrix
      → sum (length matrix) (λ j. entry matrix i j ⊗ at xs j) ≡ at target i
  unfolding solve_scalar_system Advances
  solve_scalar_system_sound matrix target xs h =
      let n = length matrix in
      let start : System S = record { matrix = matrix; target = target } in
      let (_, h1) =
        fail_if->>-eq-ok (not (length target == n) || any (λ row. not (length row == n)) matrix) _
          (eliminate_from n 0 n start >>= λ s. ok s.target) h in
      let (s', es, e) = >>=-eq-ok (eliminate_from n 0 n start) _ h1 in
      let (r, back) =
        eliminate_from-Advances n 0 n start s' (omega arith) es
          (λ i j li lj. absurd (omega arith)) in
      subst (λ t. Solves n start (at t)) (cc e) (back (at s'.target) (reduced-Solves n s' r))
