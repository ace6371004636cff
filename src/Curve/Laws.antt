-- ===== src/Curve/Laws.antt =====
-- Laws that follow from those of a curve.
use dkgkit.Prelude.{◌≡◌, sym, ap, ◌∙◌, false}
use dkgkit.Scalar.{Field, scalar_zero}
use dkgkit.Curve.{Curve}

module _ (S P : Type 0) ⦃F : Field S⦄ ⦃C : Curve S P⦄ where
  pub base_mul-zero : C.base_mul scalar_zero ≡ C.zero
  base_mul-zero =
      C.add_cancel _ _ (C.base_mul scalar_zero)
        (sym (C.base_mul-add _ _) ∙ ap C.base_mul (F.zero-add _) ∙ sym (C.zero-add _))

  -- A key pair's public key is the multiple of the generator by its secret.
  pub new_keypair-public :
      (s : S) → F.is_zero s ≡ false → C.point (C.new_keypair s).1 ≡ C.base_mul (C.new_keypair s).0
  new_keypair-public s nonzero =
      ap (λ k. C.point k.1) (C.new_keypair_lem s nonzero)
      ∙ C.into_even_y_lem s (C.base_mul_nonzero s nonzero)
      ∙ ap C.base_mul (sym (C.conditional_negate_lem _ s))
      ∙ ap (λ k. C.base_mul k.0) (sym (C.new_keypair_lem s nonzero))
