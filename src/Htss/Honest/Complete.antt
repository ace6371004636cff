-- ===== src/Htss/Honest/Complete.antt =====
-- crates/dkgkit-frost/src/lib.rs: local signing with honest shares, to its end.
use dkgkit.Prelude.{ℕ, ◌≡◌, refl, sym, ap, ◌∙◌, Bool, List, [], ◌∷◌, map, some}
use dkgkit.Core.Error.{ok}
use dkgkit.Core.Ids.{ParticipantId, SessionId, new_session_id}
use dkgkit.Core.Threshold.{HierarchicalThresholdConfig}
use dkgkit.Scalar.{Bytes, Field, ◌⊕◌, scalar_zero}
use dkgkit.Scalar.Signs.{signed, total}
use dkgkit.Birkhoff.Derivative.{eval}
use dkgkit.Curve.{Curve}
use dkgkit.Htss.{GroupKey, HtssLocalKeyShare}
use dkgkit.Htss.Nonces.{HtssLocalNonce}
use dkgkit.Htss.Local.{
  sign_digest_with_local_htss_threshold_shares,
  sign_digest_with_local_htss_threshold_shares_for_output,
}
use dkgkit.Htss.Honest.{Seat, share_at}
use dkgkit.Htss.Honest.Nonces.{local_nonce, packages}
use dkgkit.Htss.Honest.Shares.{contribution}
use dkgkit.Htss.Honest.Signing.{collect-htss_sign_share, collect-htss_sign_share_for_output}
use dkgkit.Htss.Honest.Signature.{signature_of, aggregate-seats, aggregate_for_output-seats}
use dkgkit.Htss.Honest.Local.{IsLocalSeating}

threshold_session :
    new_session_id "local-htss-threshold-signing" ≡ ok "local-htss-threshold-signing"
unfolding new_session_id dkgkit.Core.Ids.is_blank
threshold_session = refl

output_session :
    new_session_id "local-htss-threshold-output-signing" ≡ ok "local-htss-threshold-output-signing"
unfolding new_session_id dkgkit.Core.Ids.is_blank
output_session = refl

module _ (S P : Type 0) ⦃F : Field S⦄ ⦃C : Curve S P⦄ (c : HierarchicalThresholdConfig) (f : List S)
    (draws : ℕ → S) (shares : List HtssLocalKeyShare) (signers : List ParticipantId) where
  public-pairs :
      (session : SessionId) (seats : List (Seat S))
      → map
          (λ ((share, nonce) : HtssLocalKeyShare × HtssLocalNonce). nonce.public_package)
          (map (λ s. (share_at f s.point, local_nonce S P session s)) seats)
        ≡ packages S P session seats
  public-pairs session [] = refl
  public-pairs session (s ∷ seats) =
      ap (λ t. (local_nonce S P session s).public_package ∷ t) (public-pairs session seats)

  -- Signing at seats.
  pub sign-seats :
      (seats : List (Seat S)) (v : IsLocalSeating S P c f draws shares signers seats)
      (key : GroupKey) (pk : C.EvenPoint) (digest : Bytes)
      → C.from_xonly_bytes key.xonly_public_key ≡ some pk
      → C.point pk ≡ C.base_mul (eval f scalar_zero)
      → sign_digest_with_local_htss_threshold_shares S P draws key digest shares signers c
        ≡ ok (record {
          signature_bytes = signature_of S P c seats v.seating "" f digest pk (eval f scalar_zero);
        })
  unfolding sign_digest_with_local_htss_threshold_shares
  sign-seats seats v key pk digest parsed public =
      let session : SessionId = "local-htss-threshold-signing" in
      let known : C.point pk ≡ C.base_mul (total (map (contribution f) seats)) =
        public ∙ ap C.base_mul (sym v.secret_lem) in
      rw v.selected (
        rw threshold_session (
          rw (v.pairs session) (
            rw (public-pairs session seats) (
              rw v.signing (
                rw (collect-htss_sign_share S P c seats v.seating session f key _ digest parsed) (
                  rw (aggregate-seats S P c seats v.seating session f key pk digest parsed known)
                    (rw v.secret_lem)))))))

  pub sign_for_output-seats :
      (seats : List (Seat S)) (v : IsLocalSeating S P c f draws shares signers seats)
      (key : GroupKey) (digest output tweak_bytes : Bytes) (negate_key : Bool) (tweak : S)
      (pk : C.EvenPoint)
      → C.from_xonly_bytes output ≡ some pk
      → C.point pk ≡ C.base_mul (signed negate_key (eval f scalar_zero) ⊕ tweak)
      → F.from_bytes tweak_bytes ≡ some tweak
      → sign_digest_with_local_htss_threshold_shares_for_output S P draws key digest output
          tweak_bytes negate_key shares signers c
        ≡ ok (record {
          signature_bytes =
              signature_of S P c seats v.seating "" f digest pk
                (signed negate_key (eval f scalar_zero) ⊕ tweak);
        })
  unfolding sign_digest_with_local_htss_threshold_shares_for_output
  sign_for_output-seats seats v key digest output tweak_bytes negate_key tweak pk parsed public
        tweaked =
      let session : SessionId = "local-htss-threshold-output-signing" in
      let known : C.point pk
          ≡ C.base_mul (signed negate_key (total (map (contribution f) seats)) ⊕ tweak) =
        public ∙ ap (λ t. C.base_mul (signed negate_key t ⊕ tweak)) (sym v.secret_lem) in
      rw v.selected (
        rw output_session (
          rw (v.pairs session) (
            rw (public-pairs session seats) (
              rw v.signing (
                rw
                  (collect-htss_sign_share_for_output S P c seats v.seating session f key _ digest
                    output negate_key parsed)
                  (rw
                    (aggregate_for_output-seats S P c seats v.seating session f digest output
                      tweak_bytes negate_key tweak pk parsed known tweaked)
                    (rw v.secret_lem)))))))
