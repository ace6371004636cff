-- ===== src/Birkhoff/Pivot.antt =====
-- Reduced columns, solutions, and the exchange of two rows in `solve_scalar_system`.
use dkgkit.Prelude.{
  ℕ, ◌<◌, ◌≤◌, ◌≡◌, sym, ap, ◌∙◌, true, [], arith, ◌==◌, if◌then◌else◌, get_or, get_or-tabulate,
  Bool-cases, inl, inr,
}
use dkgkit.Scalar.{Field, ◌⊗◌, scalar_zero, scalar_one}
use dkgkit.Scalar.Sum.{sum, sum_congr}
use dkgkit.Birkhoff.Solver.{System, entry, at, swapped, swap_rows}

swapped_self : (a b i : ℕ) → (a == b) ≡ true → swapped a b i ≡ i
swapped_self a b i h = ground arith

swapped_twice : (a b i : ℕ) → swapped a b (swapped a b i) ≡ i
swapped_twice a b i = ground arith

swapped-lt : (a b i n : ℕ) → a < n → b < n → i < n → swapped a b i < n
swapped-lt a b i n ha hb hi = ground arith

module _ {S : Type 0} ⦃F : Field S⦄ where
  -- The columns left of `col` are those of the identity matrix.
  abbrev pub IsReduced : ℕ → ℕ → System S → Type 0
  IsReduced n col s =
      (i j : ℕ)
      → i < n
      → j < col
      → entry s.matrix i j ≡ (if i == j then scalar_one else scalar_zero)

  -- `x` solves the first `n` equations.
  abbrev pub Solves : ℕ → System S → (ℕ → S) → Type 0
  Solves n s x = (i : ℕ) → i < n → sum n (λ j. entry s.matrix i j ⊗ x j) ≡ at s.target i

  swap_rows-entry :
      (n p col : ℕ) (s : System S) (i j : ℕ)
      → i < n
      → entry (swap_rows n p col s).matrix i j ≡ entry s.matrix (swapped p col i) j
  unfolding swap_rows
  swap_rows-entry n p col s i j lt = elim (Bool-cases (p == col)) [
    | inl e ↦ rw e (ap (λ k. entry s.matrix k j) (sym (swapped_self p col i e)))
    | inr e ↦ rw e (
        ap (λ r. get_or r j scalar_zero)
          (get_or-tabulate n (λ i. get_or s.matrix (swapped p col i) []) i [] lt))
  ]

  swap_rows-at :
      (n p col : ℕ) (s : System S) (i : ℕ)
      → i < n
      → at (swap_rows n p col s).target i ≡ at s.target (swapped p col i)
  unfolding swap_rows
  swap_rows-at n p col s i lt = elim (Bool-cases (p == col)) [
    | inl e ↦ rw e (ap (at s.target) (sym (swapped_self p col i e)))
    | inr e ↦ rw e (get_or-tabulate n (λ i. at s.target (swapped p col i)) i scalar_zero lt)
  ]

  pub swap_rows-IsReduced :
      (n p col : ℕ) (s : System S)
      → p < n
      → col < n
      → col ≤ p
      → IsReduced n col s
      → IsReduced n col (swap_rows n p col s)
  swap_rows-IsReduced n p col s hp hc le h i j li lj =
      swap_rows-entry n p col s i j li
      ∙ h (swapped p col i) j (swapped-lt p col i n hp hc li) lj
      ∙ ap (λ b. if b then scalar_one else scalar_zero) same
    where
      same : (swapped p col i == j) ≡ (i == j)
      same = ground arith

  pub swap_rows-Solves :
      (n p col : ℕ) (s : System S) (x : ℕ → S)
      → p < n
      → col < n
      → Solves n (swap_rows n p col s) x
      → Solves n s x
  swap_rows-Solves n p col s x hp hc h i lt = rw (← swapped_twice p col i) (
      sum_congr n _ _ (λ j _. ap (λ t. t ⊗ x j) (sym (swap_rows-entry n p col s _ j small)))
      ∙ h (swapped p col i) small
      ∙ swap_rows-at n p col s _ small)
    where
      small : swapped p col i < n
      small = swapped-lt p col i n hp hc lt
