-- ===== src/Htss/Sign.antt =====
-- crates/dkgkit-frost/src/lib.rs: HTSS threshold signing, under the group key and under a tweaked
-- Taproot output key. The two signers and the two aggregations share their steps as functions here.
use dkgkit.Prelude.{Bool, not, List, [], ◌∷◌, ◌==◌, str_eq, contains, find}
use dkgkit.Core.Error.{
  num, missing_ranked_participant, protocol, Result, ok, ◌>>=◌, ◌>>◌, fail_if, ok_or,
}
use dkgkit.Core.Ids.{ParticipantId}
use dkgkit.Core.Threshold.{HierarchicalThresholdConfig}
use dkgkit.Policy.{validate_hierarchical_signer_set}
use dkgkit.Scalar.{Bytes, Field, ◌⊕◌, ◌⊗◌, scalar_zero}
use dkgkit.Birkhoff.{BirkhoffCoefficient, birkhoff_interpolation_coefficients}
use dkgkit.Curve.{Curve}
use dkgkit.Htss.{
  GroupKey, HtssLocalKeyShare, AggregateSignature, birkhoff_points_from_hierarchical_signer_set,
}
use dkgkit.Htss.Keys.{new_aggregate_signature}
use dkgkit.Htss.Nonces.{
  HtssNoncePackage, HtssLocalNonce, HtssSignatureSharePackage, AggregateHtssNonce,
  validate_htss_nonce_set, validate_htss_signature_share_set, aggregate_htss_public_nonce,
}

module _ (S : Type 0) ⦃F : Field S⦄ where
  -- The first checks of a signer, up to its coefficient.
  unfoldable pub signer_coefficient :
      HtssLocalKeyShare
      → HtssLocalNonce
      → List ParticipantId
      → HierarchicalThresholdConfig
      → Result BirkhoffCoefficient
  signer_coefficient local_share nonce signer_set config = do
    fail_if (not (local_share.participant_id == nonce.public_package.participant_id)) (
        protocol "HTSS nonce participant mismatch: share {}, nonce {}"
          (num local_share.participant_id ∷ num nonce.public_package.participant_id ∷ []))
    fail_if (not (contains signer_set local_share.participant_id))
        (protocol "participant {} is not in HTSS signer set" (num local_share.participant_id ∷ []))
    points ← birkhoff_points_from_hierarchical_signer_set signer_set config
    coefficients ← birkhoff_interpolation_coefficients S points
    coefficient ←
        ok_or (find (λ k. k.participant_id == local_share.participant_id) coefficients)
          (missing_ranked_participant local_share.participant_id)
    fail_if (not (local_share.rank == coefficient.derivative_order)) (
        protocol "HTSS share rank mismatch for participant {}: share rank {}, coefficient rank {}" (
          num local_share.participant_id
          ∷ num local_share.rank
          ∷ num coefficient.derivative_order
          ∷ []))
    ok coefficient

  -- `for share in shares { .. s = scalar_add(s, share_value) }`
  unfoldable pub sum_shares : S → List HtssSignatureSharePackage → Result S
  sum_shares s [] = ok s
  sum_shares s (share ∷ shares) =
      ok_or (F.from_bytes share.signature_share_bytes) (
        protocol "invalid HTSS signature share scalar for participant {}"
          (num share.participant_id ∷ []))
      >>= λ share_value. sum_shares (s ⊕ share_value) shares

module _ (S P : Type 0) ⦃F : Field S⦄ ⦃C : Curve S P⦄ where
  -- The aggregate nonce of the signer's own session.
  unfoldable pub own_aggregate_nonce :
      HtssLocalNonce
      → List HtssNoncePackage
      → List ParticipantId
      → Result (AggregateHtssNonce C.EvenPoint)
  unfolding aggregate_htss_public_nonce
  own_aggregate_nonce nonce nonces signer_set = do
    aggregate ← aggregate_htss_public_nonce S P nonces signer_set
    fail_if (not (str_eq aggregate.signing_session_id nonce.public_package.signing_session_id))
        (protocol "HTSS aggregate nonce session mismatch" [])
    ok aggregate

  -- The last steps of a signer: its share for a challenge, which already has the key's sign.
  unfoldable pub answer :
      HtssLocalKeyShare
      → HtssLocalNonce
      → BirkhoffCoefficient
      → Bool
      → S
      → Result HtssSignatureSharePackage
  answer local_share nonce coefficient negated key_challenge = do
    nonce_value ← ok_or (F.from_bytes nonce.secret_nonce_bytes) (
        protocol "invalid HTSS secret nonce scalar for participant {}"
          (num nonce.public_package.participant_id ∷ []))
    coefficient_value ← ok_or (F.from_bytes coefficient.coefficient_bytes) (
        protocol "invalid Birkhoff coefficient scalar for participant {}"
          (num coefficient.participant_id ∷ []))
    share_value ← ok_or (F.from_bytes local_share.share_value_bytes) (
        protocol "invalid HTSS share scalar for participant {}"
          (num local_share.participant_id ∷ []))
    let secret_nonce = C.conditional_negate negated nonce_value
    ok (record {
      participant_id = local_share.participant_id;
      signing_session_id = nonce.public_package.signing_session_id;
      signature_share_bytes =
          F.to_bytes (secret_nonce ⊕ key_challenge ⊗ (coefficient_value ⊗ share_value));
    })

  unfoldable pub htss_sign_share :
      GroupKey
      → Bytes
      → HtssLocalKeyShare
      → HtssLocalNonce
      → List HtssNoncePackage
      → List ParticipantId
      → HierarchicalThresholdConfig
      → Result HtssSignatureSharePackage
  unfolding signer_coefficient own_aggregate_nonce answer
  htss_sign_share group_key digest local_share nonce nonces signer_set config = do
    coefficient ← signer_coefficient S local_share nonce signer_set config
    aggregate ← own_aggregate_nonce nonce nonces signer_set
    key ←
        ok_or (C.from_xonly_bytes group_key.xonly_public_key)
          (protocol "invalid HTSS group x-only public key" [])
    answer local_share nonce coefficient aggregate.negated
        (C.challenge aggregate.even_public_nonce key digest)

  unfoldable pub htss_sign_share_for_output :
      GroupKey
      → Bytes
      → Bytes
      → Bool
      → HtssLocalKeyShare
      → HtssLocalNonce
      → List HtssNoncePackage
      → List ParticipantId
      → HierarchicalThresholdConfig
      → Result HtssSignatureSharePackage
  unfolding signer_coefficient own_aggregate_nonce answer
  htss_sign_share_for_output group_key digest output_xonly negate_key local_share nonce nonces
        signer_set config =
      do
        coefficient ← signer_coefficient S local_share nonce signer_set config
        aggregate ← own_aggregate_nonce nonce nonces signer_set
        key ←
            ok_or (C.from_xonly_bytes output_xonly)
              (protocol "invalid HTSS output x-only public key" [])
        answer local_share nonce coefficient aggregate.negated
            (C.conditional_negate negate_key (C.challenge aggregate.even_public_nonce key digest))

  -- The checks with which both aggregations begin.
  unfoldable pub check_aggregation :
      List HtssNoncePackage
      → List HtssSignatureSharePackage
      → List ParticipantId
      → HierarchicalThresholdConfig
      → Result (AggregateHtssNonce C.EvenPoint × S)
  unfolding validate_htss_nonce_set validate_htss_signature_share_set aggregate_htss_public_nonce
      sum_shares
  check_aggregation nonces shares signer_set config = do
    validate_hierarchical_signer_set signer_set config
    validate_htss_nonce_set nonces signer_set
    validate_htss_signature_share_set shares signer_set
    aggregate ← aggregate_htss_public_nonce S P nonces signer_set
    s ← sum_shares S scalar_zero shares
    ok (aggregate, s)

  unfoldable pub aggregate_htss_signature_shares :
      GroupKey
      → Bytes
      → List HtssNoncePackage
      → List HtssSignatureSharePackage
      → List ParticipantId
      → HierarchicalThresholdConfig
      → Result AggregateSignature
  unfolding check_aggregation new_aggregate_signature
  aggregate_htss_signature_shares group_key digest nonces shares signer_set config = do
    checked ← check_aggregation nonces shares signer_set config
    key ←
        ok_or (C.from_xonly_bytes group_key.xonly_public_key)
          (protocol "invalid HTSS group x-only public key" [])
    fail_if (not (C.verify key digest (checked.0).even_public_nonce checked.1))
        (protocol "HTSS aggregate signature verification failed" [])
    new_aggregate_signature (C.signature_to_bytes (checked.0).even_public_nonce checked.1)

  unfoldable pub aggregate_htss_signature_shares_for_output :
      Bytes
      → Bytes
      → Bytes
      → List HtssNoncePackage
      → List HtssSignatureSharePackage
      → List ParticipantId
      → HierarchicalThresholdConfig
      → Result AggregateSignature
  unfolding check_aggregation new_aggregate_signature
  aggregate_htss_signature_shares_for_output digest output_xonly tweak nonces shares signer_set
        config =
      do
        checked ← check_aggregation nonces shares signer_set config
        key ←
            ok_or (C.from_xonly_bytes output_xonly)
              (protocol "invalid HTSS output x-only public key" [])
        let nonce = (checked.0).even_public_nonce
        tweak_scalar ← ok_or (F.from_bytes tweak) (protocol "invalid Taproot tweak scalar" [])
        let s = checked.1 ⊕ C.challenge nonce key digest ⊗ tweak_scalar
        fail_if (not (C.verify key digest nonce s))
            (protocol "HTSS tweaked aggregate signature verification failed" [])
        new_aggregate_signature (C.signature_to_bytes nonce s)
