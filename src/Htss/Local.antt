-- ===== src/Htss/Local.antt =====
-- crates/dkgkit-frost/src/lib.rs: the functions that hold every share in one process and run all
-- rounds of HTSS signing, and their grouped forms. The nonces are a stream of draws.
use dkgkit.Prelude.{ℕ, Bool, List, [], ◌∷◌, map, ◌==◌, length, find, tabulate}
use dkgkit.Core.Error.{missing_ranked_participant, Result, ok, ◌>>=◌, ◌>>◌, ok_or, collect}
use dkgkit.Core.Ids.{ParticipantId, SessionId, new_session_id}
use dkgkit.Core.Threshold.{
  HierarchicalThresholdConfig, GroupedThresholdConfig, new_hierarchical_config,
  required_signer_count,
}
use dkgkit.Policy.{validate_grouped_threshold_signer_set}
use dkgkit.Scalar.{Bytes, Field}
use dkgkit.Curve.{Curve}
use dkgkit.Htss.{GroupKey, HtssLocalKeyShare, HtssLocalKeySet, AggregateSignature}
use dkgkit.Htss.Keys.{run_local_htss_keygen}
use dkgkit.Htss.Nonces.{HtssLocalNonce, htss_nonce}
use dkgkit.Htss.Sign.{
  htss_sign_share, htss_sign_share_for_output, aggregate_htss_signature_shares,
  aggregate_htss_signature_shares_for_output,
}

unfoldable pub hierarchical_config_from_grouped_threshold :
    GroupedThresholdConfig → Result HierarchicalThresholdConfig
hierarchical_config_from_grouped_threshold c =
    new_hierarchical_config (required_signer_count c) c.participants

-- `shares.iter().find(|share| share.participant_id == *participant_id)` for each signer.
unfoldable pub select_shares :
    List HtssLocalKeyShare → List ParticipantId → Result (List HtssLocalKeyShare)
select_shares shares signer_set =
    collect (λ p. ok_or (find (λ s. s.participant_id == p) shares) (missing_ranked_participant p))
      signer_set

-- `Iterator::zip`
abbrev pub zip {ℓ κ} : {A : Type ℓ} {B : Type κ} → List A → List B → List (A × B)
zip [] bs = []
zip (a ∷ as') [] = []
zip (a ∷ as') (b ∷ bs) = (a, b) ∷ zip as' bs

module _ (S P : Type 0) ⦃F : Field S⦄ ⦃C : Curve S P⦄ where
  -- Each selected share with its nonce.
  unfoldable pub local_nonces :
      (ℕ → S)
      → SessionId
      → List HtssLocalKeyShare
      → Result (List (HtssLocalKeyShare × HtssLocalNonce))
  unfolding htss_nonce
  local_nonces draws session selected =
      collect (λ (share, draw). htss_nonce S P session share draw >>= λ nonce. ok (share, nonce))
        (zip selected (tabulate (length selected) draws))

  unfoldable pub sign_digest_with_local_htss_threshold_shares :
      (ℕ → S)
      → GroupKey
      → Bytes
      → List HtssLocalKeyShare
      → List ParticipantId
      → HierarchicalThresholdConfig
      → Result AggregateSignature
  unfolding select_shares local_nonces htss_sign_share aggregate_htss_signature_shares
  sign_digest_with_local_htss_threshold_shares draws group_key digest shares signer_set config = do
    selected ← select_shares shares signer_set
    session ← new_session_id "local-htss-threshold-signing"
    signers ← local_nonces draws session selected
    let nonces = map (λ (_, nonce). nonce.public_package) signers
    signature_shares ←
        collect
          (λ (share, nonce).
            htss_sign_share S P group_key digest share nonce nonces signer_set config)
          signers
    aggregate_htss_signature_shares S P group_key digest nonces signature_shares signer_set config

  unfoldable pub sign_digest_with_local_htss_threshold_shares_for_output :
      (ℕ → S)
      → GroupKey
      → Bytes
      → Bytes
      → Bytes
      → Bool
      → List HtssLocalKeyShare
      → List ParticipantId
      → HierarchicalThresholdConfig
      → Result AggregateSignature
  unfolding select_shares local_nonces htss_sign_share_for_output
      aggregate_htss_signature_shares_for_output
  sign_digest_with_local_htss_threshold_shares_for_output draws group_key digest output_xonly tweak
        negate_key shares signer_set config =
      do
        selected ← select_shares shares signer_set
        session ← new_session_id "local-htss-threshold-output-signing"
        signers ← local_nonces draws session selected
        let nonces = map (λ (_, nonce). nonce.public_package) signers
        signature_shares ←
            collect
              (λ (share, nonce).
                htss_sign_share_for_output S P group_key digest output_xonly negate_key share nonce
                  nonces signer_set config)
              signers
        aggregate_htss_signature_shares_for_output S P digest output_xonly tweak nonces
            signature_shares signer_set config

  unfoldable pub run_local_grouped_htss_keygen :
      (ℕ → S) → GroupedThresholdConfig → Result HtssLocalKeySet
  unfolding hierarchical_config_from_grouped_threshold run_local_htss_keygen
  run_local_grouped_htss_keygen draws config = do
    hierarchical ← hierarchical_config_from_grouped_threshold config
    run_local_htss_keygen S P draws hierarchical

  unfoldable pub sign_digest_with_local_grouped_htss_threshold_shares :
      (ℕ → S)
      → GroupKey
      → Bytes
      → List HtssLocalKeyShare
      → List ParticipantId
      → GroupedThresholdConfig
      → Result AggregateSignature
  unfolding hierarchical_config_from_grouped_threshold sign_digest_with_local_htss_threshold_shares
  sign_digest_with_local_grouped_htss_threshold_shares draws group_key digest shares signer_set
        config =
      do
        validate_grouped_threshold_signer_set signer_set config
        hierarchical ← hierarchical_config_from_grouped_threshold config
        sign_digest_with_local_htss_threshold_shares draws group_key digest shares signer_set
            hierarchical

  unfoldable pub sign_digest_with_local_grouped_htss_threshold_shares_for_output :
      (ℕ → S)
      → GroupKey
      → Bytes
      → Bytes
      → Bytes
      → Bool
      → List HtssLocalKeyShare
      → List ParticipantId
      → GroupedThresholdConfig
      → Result AggregateSignature
  unfolding hierarchical_config_from_grouped_threshold
      sign_digest_with_local_htss_threshold_shares_for_output
  sign_digest_with_local_grouped_htss_threshold_shares_for_output draws group_key digest
        output_xonly tweak negate_key shares signer_set config =
      do
        validate_grouped_threshold_signer_set signer_set config
        hierarchical ← hierarchical_config_from_grouped_threshold config
        sign_digest_with_local_htss_threshold_shares_for_output draws group_key digest output_xonly
            tweak negate_key shares signer_set hierarchical
