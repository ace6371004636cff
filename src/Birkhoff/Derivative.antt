-- ===== src/Birkhoff/Derivative.antt =====
-- `polynomial_derivative_value` against the formal derivative of a polynomial.
use native.Mathlib.Nat.{zero-add}
use dkgkit.Prelude.{
  ℕ, zero, suc, ◌+◌, ◌-◌, ◌<◌, ◌≤◌, ◌≡◌, refl, sym, ap, ◌∙◌, true, false, List, [], ◌∷◌, arith, ltb,
  length, Bool-cases, inl, inr,
}
use dkgkit.Core.Threshold.{as_u16}
use dkgkit.Scalar.{Field, ◌⊕◌, ◌⊗◌, scalar_zero, scalar_one, scalar_from_u32, scalar_pow}
use dkgkit.Scalar.Laws.{add-zero, mul-one, mul-zero, mul_left_comm, scalar_pow-suc, scalar_pow-zero}
use dkgkit.Scalar.Sum.{sum, sum_congr, mul-sum}
use dkgkit.Birkhoff.Solver.{at}
use dkgkit.Birkhoff.{factor_loop, derivative_basis, value_loop, polynomial_derivative_value}

module _ {S : Type 0} ⦃F : Field S⦄ where
  -- The value of a polynomial by Horner's rule, its constant term first.
  unfoldable pub eval : List S → S → S
  eval [] x = scalar_zero
  eval (c ∷ cs) x = c ⊕ x ⊗ eval cs x

  unfoldable pub scaled_from : ℕ → List S → List S
  scaled_from k [] = []
  scaled_from k (c ∷ cs) = scalar_from_u32 k ⊗ c ∷ scaled_from (suc k) cs

  -- The formal derivative: the coefficient of degree `k` is multiplied by `k`, one degree lower.
  unfoldable pub derivative : List S → List S
  unfolding scaled_from
  derivative [] = []
  derivative (c ∷ cs) = scaled_from 1 cs

  unfoldable pub derivatives : ℕ → List S → List S
  unfolding derivative
  derivatives zero cs = cs
  derivatives (suc r) cs = derivatives r (derivative cs)

  factor_loop-last :
      (start n : ℕ) (c : S)
      → factor_loop start (suc n) c ≡ scalar_from_u32 (start + n) ⊗ factor_loop start n c
  unfolding factor_loop
  factor_loop-last start zero c = F.mul_comm c _ ∙ ap (λ k. scalar_from_u32 k ⊗ c) (omega arith)
  factor_loop-last start (suc n) c =
      factor_loop-last (suc start) n (c ⊗ scalar_from_u32 start)
      ∙ ap (λ k. scalar_from_u32 k ⊗ factor_loop start (suc n) c) (omega arith)

  pub basis-suc-suc :
      (d r x : ℕ)
      → d < 65535
      → derivative_basis {S = S} (suc d) (suc r) x
        ≡ scalar_from_u32 (suc d) ⊗ derivative_basis d r x
  unfolding derivative_basis
  basis-suc-suc d r x h = elim (Bool-cases (ltb d r)) [
    | inl e ↦ let e' : ltb (suc d) (suc r) ≡ true = ground arith in rw (e, e') (sym (mul-zero _))
    | inr e ↦
        let e' : ltb (suc d) (suc r) ≡ false = ground arith in
        let le : r ≤ d = ground arith in
        let start = as_u16 (d - r + 1) in
        let same : as_u16 (suc d - suc r + 1) ≡ start = omega arith in
        let count : suc (suc d) - start ≡ suc (suc d - start) = omega arith in
        let power : suc d - suc r ≡ d - r = omega arith in
        let last : start + (suc d - start) ≡ suc d = omega arith in
        rw (e, e', same, count, power)
          (ap (λ t. t ⊗ scalar_pow (scalar_from_u32 x) (d - r))
              (factor_loop-last start (suc d - start) scalar_one
                ∙ ap (λ k. scalar_from_u32 k ⊗ factor_loop start (suc d - start) scalar_one) last)
            ∙ F.mul_assoc _ _ _)
  ]

  pub basis-zero-suc : (r x : ℕ) → derivative_basis {S = S} 0 (suc r) x ≡ scalar_zero
  unfolding derivative_basis
  basis-zero-suc r x = let e : ltb 0 (suc r) ≡ true = ground arith in rw e

  pub basis-zero :
      (d x : ℕ) → d < 65535 → derivative_basis {S = S} d 0 x ≡ scalar_pow (scalar_from_u32 x) d
  unfolding derivative_basis factor_loop
  basis-zero d x h =
      let e : ltb d 0 ≡ false = ground arith in
      let start : as_u16 (d - 0 + 1) ≡ suc d = omega arith in
      let count : suc d - suc d ≡ 0 = omega arith in
      let power : d - 0 ≡ d = omega arith in rw (e, start, count, power) (F.one-mul _)

  value_loop-sum :
      (k : ℕ) (acc : S) (cs : List S) (x r : ℕ)
      → k + length cs ≤ 65535
      → value_loop k acc cs x r
        ≡ acc ⊕ sum (length cs) (λ i. at cs i ⊗ derivative_basis (k + i) r x)
  unfolding value_loop sum
  value_loop-sum k acc [] x r h = sym (add-zero acc)
  value_loop-sum k acc (c ∷ cs) x r h =
      let here : as_u16 k ≡ k + 0 = omega arith in
      value_loop-sum (suc k) _ cs x r (omega arith)
      ∙ F.add_assoc acc _ _
      ∙ ap
          (λ d.
            acc
            ⊕ (c ⊗ derivative_basis d r x
                ⊕ sum (length cs) (λ i. at cs i ⊗ derivative_basis (suc k + i) r x)))
          here
      ∙ ap (λ t. acc ⊕ (c ⊗ derivative_basis (k + 0) r x ⊕ t))
          (sum_congr (length cs) _ _
            (λ i _. ap (λ d. at cs i ⊗ derivative_basis d r x) (omega arith)))

  -- The value is the sum of the coefficients times the basis at their degrees.
  pub polynomial-sum :
      (cs : List S) (x r : ℕ)
      → length cs ≤ 65535
      → polynomial_derivative_value cs x r ≡ sum (length cs) (λ i. at cs i ⊗ derivative_basis i r x)
  unfolding polynomial_derivative_value
  polynomial-sum cs x r h =
      value_loop-sum 0 scalar_zero cs x r (omega arith)
      ∙ F.zero-add _
      ∙ sum_congr (length cs) _ _ (λ i _. ap (λ d. at cs i ⊗ derivative_basis d r x) (zero-add i))

  length-scaled_from : (k : ℕ) (cs : List S) → length (scaled_from k cs) ≡ length cs
  unfolding scaled_from
  length-scaled_from k [] = refl
  length-scaled_from k (c ∷ cs) = ap suc (length-scaled_from (suc k) cs)

  at-scaled_from :
      (k : ℕ) (cs : List S) (i : ℕ)
      → i < length cs
      → at (scaled_from k cs) i ≡ scalar_from_u32 (k + i) ⊗ at cs i
  unfolding scaled_from
  at-scaled_from k [] i h = elim h [ ]
  at-scaled_from k (c ∷ cs) zero h = ap (λ d. scalar_from_u32 d ⊗ c) (omega arith)
  at-scaled_from k (c ∷ cs) (suc i) h =
      at-scaled_from (suc k) cs i (omega arith)
      ∙ ap (λ d. scalar_from_u32 d ⊗ at cs i) (omega arith)

  eval-sum : (cs : List S) (x : S) → eval cs x ≡ sum (length cs) (λ i. at cs i ⊗ scalar_pow x i)
  unfolding eval sum
  eval-sum [] x = refl
  eval-sum (c ∷ cs) x =
      ap (λ t. t ⊕ x ⊗ eval cs x) (sym (mul-one c) ∙ ap (λ t. c ⊗ t) (sym (scalar_pow-zero x)))
      ∙ ap (λ t. c ⊗ scalar_pow x 0 ⊕ t)
          (ap (λ t. x ⊗ t) (eval-sum cs x)
            ∙ mul-sum (length cs) x (λ i. at cs i ⊗ scalar_pow x i)
            ∙ sum_congr (length cs) _ _ (λ i _.
              mul_left_comm x (at cs i) _ ∙ ap (λ t. at cs i ⊗ t) (sym (scalar_pow-suc x i))))

  eval-nil : (r : ℕ) (x : S) → eval (derivatives r []) x ≡ scalar_zero
  unfolding eval derivatives
  eval-nil zero x = refl
  eval-nil (suc r) x = eval-nil r x

  sum-derivatives :
      (r : ℕ) (cs : List S) (x : ℕ)
      → length cs ≤ 65535
      → sum (length cs) (λ i. at cs i ⊗ derivative_basis i r x)
        ≡ eval (derivatives r cs) (scalar_from_u32 x)
  unfolding derivatives sum
  sum-derivatives zero cs x h =
      sum_congr (length cs) _ _ (λ i li. ap (λ t. at cs i ⊗ t) (basis-zero i x (omega arith)))
      ∙ sym (eval-sum cs (scalar_from_u32 x))
  sum-derivatives (suc r) [] x h = sym (eval-nil r _)
  sum-derivatives (suc r) (c ∷ cs) x h =
      ap (λ t. t ⊕ sum (length cs) (λ i. at cs i ⊗ derivative_basis (suc i) (suc r) x))
        (ap (λ t. c ⊗ t) (basis-zero-suc r x) ∙ mul-zero c)
      ∙ F.zero-add _
      ∙ sum_congr (length cs) _ _ (λ i li.
        ap (λ t. at cs i ⊗ t) (basis-suc-suc i r x (omega arith))
        ∙ sym (F.mul_assoc _ _ _)
        ∙ ap (λ t. t ⊗ derivative_basis i r x)
            (F.mul_comm _ _
              ∙ sym
                  (at-scaled_from 1 cs i li ∙ ap (λ d. scalar_from_u32 d ⊗ at cs i) (omega arith))))
      ∙ ap (λ n. sum n (λ i. at (scaled_from 1 cs) i ⊗ derivative_basis i r x))
          (sym (length-scaled_from 1 cs))
      ∙ sum-derivatives r (scaled_from 1 cs) x (omega (arith, length-scaled_from 1 cs))

  -- For at most 65535 coefficients `polynomial_derivative_value` is the value at `x` of the formal
  -- derivative of that order.
  pub polynomial_derivative_value-eval :
      (cs : List S) (x r : ℕ)
      → length cs ≤ 65535
      → polynomial_derivative_value cs x r ≡ eval (derivatives r cs) (scalar_from_u32 x)
  polynomial_derivative_value-eval cs x r h = polynomial-sum cs x r h ∙ sum-derivatives r cs x h
