-- ===== src/Htss/Commitments.antt =====
-- crates/dkgkit-frost/src/lib.rs: `verify_htss_dkg_derivative_share` against honest commitments.
use dkgkit.Prelude.{
  ℕ, suc, ◌≡◌, refl, sym, ap, ◌∙◌, true, false, not, ◌↔◌, List, [], ◌∷◌, map, arith, ==_refl, All,
  Bool-cases, inl, inr,
}
use dkgkit.Core.Error.{DkgKitError, num, ok, fail_if, protocol}
use dkgkit.Core.Ids.{ParticipantId}
use dkgkit.Core.Threshold.{as_u16}
use dkgkit.Scalar.{Bytes, Field, ◌⊕◌, ◌⊗◌, scalar_zero}
use dkgkit.Scalar.Laws.{add-zero, mul-zero}
use dkgkit.Birkhoff.{
  derivative_basis, derivative_basis_scalar, value_loop, polynomial_derivative_value,
}
use dkgkit.Curve.{Curve}
use dkgkit.Curve.Laws.{base_mul-zero}
use dkgkit.Htss.Keys.{bytes_eq}
use dkgkit.Htss.Reshare.{bytes_eq_sound}
use dkgkit.Htss.Dkg.{htss_dkg_commitment_point, expected_loop, verify_htss_dkg_derivative_share}

bytes_eq_refl : (b : Bytes) → bytes_eq b b ≡ true
unfolding bytes_eq
bytes_eq_refl [] = refl
bytes_eq_refl (a ∷ as') = rw (==_refl a, bytes_eq) (bytes_eq_refl as')

passes_iff : (a b : Bytes) (e : DkgKitError) → (fail_if (not (bytes_eq a b)) e ≡ ok tt) ↔ (a ≡ b)
passes_iff a b e =
    (λ h. bytes_eq_sound a b (ground arith), λ h. rw (ap (bytes_eq a) (sym h) ∙ bytes_eq_refl a))

module _ (S P : Type 0) ⦃F : Field S⦄ ⦃C : Curve S P⦄ where
  -- What a participant commits to for its coefficients.
  abbrev pub commitments : List S → List Bytes
  commitments = map (λ c. C.to_bytes (C.base_mul c))

  abbrev pub AreNonzero : List S → Type 0
  AreNonzero = All (λ c. F.is_zero c ≡ false)

  commitment_point-to_bytes :
      (c : S)
      → F.is_zero c ≡ false
      → htss_dkg_commitment_point S P (C.to_bytes (C.base_mul c)) ≡ ok (C.base_mul c)
  unfolding htss_dkg_commitment_point
  commitment_point-to_bytes c h =
      let proper = C.base_mul_nonzero c h in
      rw (C.length-to_bytes (C.base_mul c) proper)
        (rw (C.from_bytes-to_bytes (C.base_mul c) proper))

  add_term :
      (acc basis c : S)
      → C.add (C.base_mul acc) (C.point_mul basis (C.base_mul c)) ≡ C.base_mul (acc ⊕ c ⊗ basis)
  add_term acc basis c =
      ap (λ q. C.add (C.base_mul acc) q) (C.point_mul-base_mul basis c)
      ∙ sym (C.base_mul-add acc (basis ⊗ c))
      ∙ ap (λ t. C.base_mul (acc ⊕ t)) (F.mul_comm basis c)

  expected_loop-commitments :
      (degree order x : ℕ) (acc : S) (cs : List S)
      → AreNonzero cs
      → expected_loop S P degree order x (C.base_mul acc) (commitments cs)
        ≡ ok (C.base_mul (value_loop degree acc cs x order))
  unfolding expected_loop value_loop derivative_basis_scalar
  expected_loop-commitments degree order x acc [] nonzero = refl
  expected_loop-commitments degree order x acc (c ∷ cs) nonzero =
      let basis : S = derivative_basis (as_u16 degree) order x in
      let rest = expected_loop-commitments (suc degree) order x (acc ⊕ c ⊗ basis) cs nonzero.1 in
      elim (Bool-cases (F.is_zero basis)) [
        | inl e ↦
            let same : acc ⊕ c ⊗ basis ≡ acc =
              ap (λ b. acc ⊕ c ⊗ b) ((F.is_zero_iff basis).0 e)
              ∙ ap (λ b. acc ⊕ b) (mul-zero c)
              ∙ add-zero acc in
            rw e (
              ap (λ t. expected_loop S P (suc degree) order x (C.base_mul t) (commitments cs))
                (sym same)
              ∙ rest)
        | inr e ↦ rw e (
            rw (commitment_point-to_bytes c nonzero.0) (
              ap (λ q. expected_loop S P (suc degree) order x q (commitments cs))
                (add_term acc basis c)
              ∙ rest))
      ]

  -- All that the verification of a share depends on is the last comparison.
  verify-outcome :
      (f : List S) (sender recipient : ParticipantId) (sender_rank rank : ℕ) (v : S)
      → AreNonzero f
      → verify_htss_dkg_derivative_share S P
          (record {
            sender = sender;
            recipient = recipient;
            recipient_rank = rank;
            share_value_bytes = F.to_bytes v;
          })
          (record { participant_id = sender; rank = sender_rank; commitment_bytes = commitments f })
        ≡ fail_if
            (not (
              bytes_eq
                (C.to_bytes (C.base_mul v))
                (C.to_bytes (C.base_mul (polynomial_derivative_value f recipient rank)))))
            (protocol "HTSS DKG derivative share from participant {} failed commitment verification"
              (num sender ∷ []))
  unfolding verify_htss_dkg_derivative_share polynomial_derivative_value
  verify-outcome f sender recipient sender_rank rank v nonzero =
      let expected =
        ap (λ q. expected_loop S P 0 rank recipient q (commitments f)) (sym (base_mul-zero S P))
        ∙ expected_loop-commitments 0 rank recipient scalar_zero f nonzero in
      rw (==_refl sender) (rw (F.from_bytes-to_bytes v) (rw expected))

  -- When a sender has committed to the coefficients of a polynomial, none of them zero, a share
  -- passes the verification exactly when its public point is that of the derivative of the
  -- polynomial at the recipient.
  pub verify_htss_dkg_derivative_share-ok_iff :
      (f : List S) (sender recipient : ParticipantId) (sender_rank rank : ℕ) (v : S)
      → AreNonzero f
      → (verify_htss_dkg_derivative_share S P
            (record {
              sender = sender;
              recipient = recipient;
              recipient_rank = rank;
              share_value_bytes = F.to_bytes v;
            })
            (record {
              participant_id = sender;
              rank = sender_rank;
              commitment_bytes = commitments f;
            })
          ≡ ok tt)
        ↔ (C.base_mul v ≡ C.base_mul (polynomial_derivative_value f recipient rank))
  verify_htss_dkg_derivative_share-ok_iff f sender recipient sender_rank rank v nonzero =
      let w = polynomial_derivative_value f recipient rank in
      let outcome = verify-outcome f sender recipient sender_rank rank v nonzero in
      (
        λ h.
            let same = passes_iff (C.to_bytes (C.base_mul v)) (C.to_bytes (C.base_mul w)) _ in
            C.to_bytes_injective _ _ (same.0 (sym outcome ∙ h)),
        λ h.
            let same = passes_iff (C.to_bytes (C.base_mul v)) (C.to_bytes (C.base_mul w)) _ in
            outcome ∙ same.1 (ap C.to_bytes h),
      )
