-- ===== src/Scalar/Laws.antt =====
-- Laws that follow from those of a field.
use dkgkit.Prelude.{ℕ, zero, suc, ◌≡◌, refl, sym, ap, ◌∙◌, ◌≡⟨◌⟩◌, ◌∎}
use dkgkit.Scalar.{Field, ◌⊕◌, ◌⊖◌, ◌⊗◌, scalar_zero, scalar_one, pow_loop, scalar_pow}

module _ {S : Type 0} ⦃F : Field S⦄ where
  pub add-zero : (a : S) → a ⊕ scalar_zero ≡ a
  add-zero a = F.add_comm a _ ∙ F.zero-add a

  pub mul-one : (a : S) → a ⊗ scalar_one ≡ a
  mul-one a = F.mul_comm a _ ∙ F.one-mul a

  pub add-mul : (a b c : S) → (a ⊕ b) ⊗ c ≡ a ⊗ c ⊕ b ⊗ c
  add-mul a b c = rw (F.mul_comm (a ⊕ b) c, F.mul_comm a c, F.mul_comm b c) (F.mul-add c a b)

  pub add_cancel : (a b c : S) → a ⊕ c ≡ b ⊕ c → a ≡ b
  add_cancel a b c h = sym (F.add-sub a c) ∙ ap (λ (t : S). t ⊖ c) h ∙ F.add-sub b c

  pub mul-zero : (a : S) → a ⊗ scalar_zero ≡ scalar_zero
  mul-zero a =
      add_cancel _ _ (a ⊗ scalar_zero)
        (sym (F.mul-add a _ _) ∙ ap (λ t. a ⊗ t) (F.zero-add _) ∙ sym (F.zero-add _))

  pub zero-mul : (a : S) → scalar_zero ⊗ a ≡ scalar_zero
  zero-mul a = F.mul_comm _ a ∙ mul-zero a

  pub sub_self : (a : S) → a ⊖ a ≡ scalar_zero
  sub_self a = add_cancel _ _ a (F.sub-add a a ∙ sym (F.zero-add a))

  pub sub-zero : (a : S) → a ⊖ scalar_zero ≡ a
  sub-zero a = add_cancel _ _ scalar_zero (F.sub-add a _ ∙ sym (add-zero a))

  -- The rule for moving a subtrahend.
  pub sub_of_add : (a b c : S) → c ⊕ b ≡ a → a ⊖ b ≡ c
  sub_of_add a b c h = ap (λ t. t ⊖ b) (sym h) ∙ F.add-sub c b

  pub sub-mul : (a b c : S) → (a ⊖ b) ⊗ c ≡ a ⊗ c ⊖ b ⊗ c
  sub-mul a b c =
      sym (sub_of_add _ _ _ (sym (add-mul (a ⊖ b) b c) ∙ ap (λ t. t ⊗ c) (F.sub-add a b)))

  pub add_interchange : (a b c d : S) → (a ⊕ b) ⊕ (c ⊕ d) ≡ (a ⊕ c) ⊕ (b ⊕ d)
  add_interchange a b c d =
      (a ⊕ b) ⊕ (c ⊕ d)
      ≡⟨ F.add_assoc a b (c ⊕ d) ⟩ a ⊕ (b ⊕ (c ⊕ d))
      ≡⟨ ap (λ t. a ⊕ t) (sym (F.add_assoc b c d)) ⟩ a ⊕ ((b ⊕ c) ⊕ d)
      ≡⟨ ap (λ t. a ⊕ (t ⊕ d)) (F.add_comm b c) ⟩ a ⊕ ((c ⊕ b) ⊕ d)
      ≡⟨ ap (λ t. a ⊕ t) (F.add_assoc c b d) ⟩ a ⊕ (c ⊕ (b ⊕ d))
      ≡⟨ sym (F.add_assoc a c (b ⊕ d)) ⟩ (a ⊕ c) ⊕ (b ⊕ d) ∎

  pub mul_left_comm : (a b c : S) → a ⊗ (b ⊗ c) ≡ b ⊗ (a ⊗ c)
  mul_left_comm a b c =
      sym (F.mul_assoc a b c) ∙ ap (λ t. t ⊗ c) (F.mul_comm a b) ∙ F.mul_assoc b a c

  pub mul_right_comm : (a b c : S) → a ⊗ b ⊗ c ≡ a ⊗ c ⊗ b
  mul_right_comm a b c =
      F.mul_assoc a b c ∙ ap (λ t. a ⊗ t) (F.mul_comm b c) ∙ sym (F.mul_assoc a c b)

  pub sub_add_cancel : (a b : S) → (a ⊕ b) ⊖ b ≡ a
  sub_add_cancel a b = F.add-sub a b

  -- The accumulator of the power loop is a factor.
  pub pow_loop-mul : (v b : S) (n : ℕ) → pow_loop v b n ≡ v ⊗ scalar_pow b n
  unfolding scalar_pow pow_loop
  pow_loop-mul v b zero = sym (mul-one v)
  pow_loop-mul v b (suc n) =
      pow_loop-mul (v ⊗ b) b n
      ∙ F.mul_assoc v b _
      ∙ ap (λ t. v ⊗ t)
          (sym (pow_loop-mul (scalar_one ⊗ b) b n ∙ ap (λ t. t ⊗ scalar_pow b n) (F.one-mul b)))

  pub scalar_pow-suc : (b : S) (n : ℕ) → scalar_pow b (suc n) ≡ b ⊗ scalar_pow b n
  unfolding scalar_pow pow_loop
  scalar_pow-suc b n =
      pow_loop-mul (scalar_one ⊗ b) b n ∙ ap (λ t. t ⊗ scalar_pow b n) (F.one-mul b)

  pub scalar_pow-zero : (b : S) → scalar_pow b zero ≡ scalar_one
  unfolding scalar_pow pow_loop
  scalar_pow-zero b = refl
