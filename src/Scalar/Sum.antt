-- ===== src/Scalar/Sum.antt =====
-- Finite sums of scalars.
use dkgkit.Prelude.{ℕ, zero, suc, ◌<◌, ◌≡◌, refl, sym, ap, ◌∙◌, arith, ◌==◌, if◌then◌else◌}
use dkgkit.Scalar.{Field, ◌⊕◌, ◌⊖◌, ◌⊗◌, scalar_zero}
use dkgkit.Scalar.Laws.{add-zero, mul-zero, sub_of_add, add_interchange}

module _ {S : Type 0} ⦃F : Field S⦄ where
  unfoldable pub sum : ℕ → (ℕ → S) → S
  sum zero f = scalar_zero
  sum (suc n) f = f 0 ⊕ sum n (λ i. f (suc i))

  pub sum_congr : (n : ℕ) (f g : ℕ → S) → ((i : ℕ) → i < n → f i ≡ g i) → sum n f ≡ sum n g
  unfolding sum
  sum_congr zero f g h = refl
  sum_congr (suc n) f g h =
      let rest = sum_congr n (λ i. f (suc i)) (λ i. g (suc i)) (λ i lt. h (suc i) (omega arith)) in
      rw (h 0 (omega arith), rest)

  pub sum-add : (n : ℕ) (a b : ℕ → S) → sum n (λ i. a i ⊕ b i) ≡ sum n a ⊕ sum n b
  unfolding sum
  sum-add zero a b = sym (F.zero-add _)
  sum-add (suc n) a b =
      ap (λ t. a 0 ⊕ b 0 ⊕ t) (sum-add n (λ i. a (suc i)) (λ i. b (suc i)))
      ∙ add_interchange _ _ _ _

  pub mul-sum : (n : ℕ) (a : S) (f : ℕ → S) → a ⊗ sum n f ≡ sum n (λ i. a ⊗ f i)
  unfolding sum
  mul-sum zero a f = mul-zero a
  mul-sum (suc n) a f = F.mul-add a _ _ ∙ ap (λ t. a ⊗ f 0 ⊕ t) (mul-sum n a (λ i. f (suc i)))

  pub sum-zero : (count : ℕ) → ◌≡◌ {A = S} (sum count (λ _. scalar_zero)) scalar_zero
  unfolding sum
  sum-zero zero = refl
  sum-zero (suc count) = F.zero-add _ ∙ sum-zero count

  pub sum-sub : (n : ℕ) (f g : ℕ → S) → sum n (λ i. f i ⊖ g i) ≡ sum n f ⊖ sum n g
  sum-sub n f g = sym (
      sub_of_add _ _ _ (
        sym (sum-add n (λ i. f i ⊖ g i) g)
        ∙ sum_congr n (λ i. f i ⊖ g i ⊕ g i) f (λ i _. F.sub-add (f i) (g i))))

  pub sum_comm :
      (rows cols : ℕ) (cell : ℕ → ℕ → S)
      → sum rows (λ row. sum cols (λ col. cell row col))
        ≡ sum cols (λ col. sum rows (λ row. cell row col))
  unfolding sum
  sum_comm zero cols cell = sym (sum-zero cols)
  sum_comm (suc rows) cols cell =
      ap (λ rest. sum cols (λ col. cell 0 col) ⊕ rest) (sum_comm rows cols (λ row. cell (suc row)))
      ∙ sym (sum-add cols (cell 0) (λ col. sum rows (λ row. cell (suc row) col)))

  -- Only the term at `k` survives.
  pub sum_single :
      (n k : ℕ) (f : ℕ → S) → k < n → sum n (λ i. if k == i then f i else scalar_zero) ≡ f k
  unfolding sum
  sum_single zero k f h = elim h [ ]
  sum_single (suc n) zero f h = ap (λ t. f 0 ⊕ t) (blank ∙ sum-zero n) ∙ add-zero (f 0)
    where
      blank : sum n (λ i. if 0 == suc i then f (suc i) else scalar_zero) ≡ sum n (λ _. scalar_zero)
      blank = sum_congr n _ _ (λ i _. ground arith)
  sum_single (suc n) (suc k) f h =
      ap (λ t. t ⊕ sum n (λ i. if suc k == suc i then f (suc i) else scalar_zero)) first
      ∙ F.zero-add _
      ∙ shifted
      ∙ sum_single n k (λ i. f (suc i)) (omega arith)
    where
      first : (if suc k == 0 then f 0 else scalar_zero) ≡ scalar_zero
      first = ground arith

      shifted :
          sum n (λ i. if suc k == suc i then f (suc i) else scalar_zero)
          ≡ sum n (λ i. if k == i then f (suc i) else scalar_zero)
      shifted = sum_congr n _ _ (λ i _. ground arith)
