-- ===== src/Scalar/Signs.antt =====
-- A scalar or its negation, as a Boolean says, and sums over lists.
use dkgkit.Prelude.{◌≡◌, refl, sym, ap, ◌∙◌, Bool, true, false, List, [], ◌∷◌, map, if◌then◌else◌}
use dkgkit.Scalar.{Field, ◌⊕◌, ◌⊖◌, ◌⊗◌, scalar_zero}
use dkgkit.Scalar.Laws.{zero-mul, mul-zero, sub_of_add, sub_self, sub-mul, add_interchange}

module _ {S : Type 0} ⦃F : Field S⦄ where
  abbrev pub signed : Bool → S → S
  signed negative x = if negative then scalar_zero ⊖ x else x

  pub signed-add : (b : Bool) (x y : S) → signed b (x ⊕ y) ≡ signed b x ⊕ signed b y
  signed-add false x y = refl
  signed-add true x y = sub_of_add _ _ _ (
      add_interchange _ _ x y
      ∙ ap (λ t. t ⊕ (scalar_zero ⊖ y ⊕ y)) (F.sub-add scalar_zero x)
      ∙ ap (λ t. scalar_zero ⊕ t) (F.sub-add scalar_zero y)
      ∙ F.zero-add scalar_zero)

  pub signed-zero : (b : Bool) → ◌≡◌ {A = S} (signed b scalar_zero) scalar_zero
  signed-zero false = refl
  signed-zero true = sub_self scalar_zero

  pub signed-mul : (b : Bool) (x y : S) → signed b x ⊗ y ≡ signed b (x ⊗ y)
  signed-mul false x y = refl
  signed-mul true x y = sub-mul scalar_zero x y ∙ ap (λ t. t ⊖ x ⊗ y) (zero-mul y)

  pub mul-signed : (b : Bool) (x y : S) → x ⊗ signed b y ≡ signed b (x ⊗ y)
  mul-signed b x y = F.mul_comm x _ ∙ signed-mul b y x ∙ ap (signed b) (F.mul_comm y x)

  unfoldable pub total : List S → S
  total [] = scalar_zero
  total (x ∷ xs) = x ⊕ total xs

  module _ {κ} {A : Type κ} where
    pub total-signed :
        (b : Bool) (f : A → S) (xs : List A)
        → total (map (λ x. signed b (f x)) xs) ≡ signed b (total (map f xs))
    unfolding total
    total-signed b f [] = sym (signed-zero b)
    total-signed b f (x ∷ xs) =
        ap (λ t. signed b (f x) ⊕ t) (total-signed b f xs) ∙ sym (signed-add b _ _)

    pub total-add :
        (f g : A → S) (xs : List A)
        → total (map (λ x. f x ⊕ g x) xs) ≡ total (map f xs) ⊕ total (map g xs)
    unfolding total
    total-add f g [] = sym (F.zero-add _)
    total-add f g (x ∷ xs) = ap (λ t. (f x ⊕ g x) ⊕ t) (total-add f g xs) ∙ add_interchange _ _ _ _

    pub mul-total :
        (a : S) (f : A → S) (xs : List A) → total (map (λ x. a ⊗ f x) xs) ≡ a ⊗ total (map f xs)
    unfolding total
    mul-total a f [] = sym (mul-zero a)
    mul-total a f (x ∷ xs) = ap (λ t. a ⊗ f x ⊕ t) (mul-total a f xs) ∙ sym (F.mul-add a _ _)
