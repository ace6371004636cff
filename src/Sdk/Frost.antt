-- ===== src/Sdk/Frost.antt =====
-- crates/dkgkit-sdk/src/lib.rs: the functions that run FROST sessions in one process. The i-th session
-- draws the i-th randomness.
use dkgkit.Prelude.{ℕ, suc, List, [], ◌∷◌, ◌++◌, String, Option, ◌==◌, find, tabulate}
use dkgkit.Core.Error.{num, protocol, Result, ok, ◌>>=◌, ◌>>◌, ok_or, collect}
use dkgkit.Core.Ids.{ParticipantId, new_session_id, new_participant_id}
use dkgkit.Core.Threshold.{ThresholdConfig, SigningPolicy, new_threshold_config}
use dkgkit.Policy.{validate_signer_set, validate_signer_set_with_policy}
use dkgkit.Scalar.{Bytes, Field}
use dkgkit.Htss.{GroupKey, AggregateSignature}
use dkgkit.Htss.Dkg.Rounds.{flatten}
use dkgkit.Htss.Local.{zip}
use dkgkit.Messages.Frost.{Round1Package, Round2Package, NoncePackage}
use dkgkit.Frost.{
  Schnorr, LocalKeyShare, SigningRequest, new_signing_request, new_signing_request_with_policy,
}
use dkgkit.Frost.Dkg.{FrostDkgSession, new_dkg_session, round1, round2, finalize}
use dkgkit.Frost.Signing.{FrostSigningSession, new_signing_session, nonce, sign_share, aggregate}
use dkgkit.Sdk.{DkgKitSessionBuilder, build_manifest, unwrap_or}

unfoldable pub build_frost_session : DkgKitSessionBuilder → Result FrostDkgSession
unfolding build_manifest new_participant_id
build_frost_session b = do
  id ← new_participant_id (unwrap_or b.local_participant_id 0)
  manifest ← build_manifest b
  ok (
      new_dkg_session (record {
        session_id = (manifest.config).session_id;
        threshold = (manifest.config).threshold;
        participant_id = id;
      }))

unfoldable pub create_frost_session : String → ℕ → ℕ → ℕ → Result FrostDkgSession
unfolding new_session_id new_threshold_config new_participant_id
create_frost_session session_id threshold participants participant_id = do
  session ← new_session_id session_id
  config ← new_threshold_config threshold participants
  id ← new_participant_id participant_id
  ok (new_dkg_session (record { session_id = session; threshold = config; participant_id = id }))

module _ {S : Type 0} ⦃F : Field S⦄ (X : Schnorr S) where
  unfoldable pub run_round1 :
      (ℕ → X.Rng) → ℕ → List FrostDkgSession → Result (List Round1Package × List FrostDkgSession)
  unfolding round1
  run_round1 rngs i [] = ok ([], [])
  run_round1 rngs i (s ∷ ss) =
      let (r, next) = round1 X (rngs i) s in
      r >>= λ own.
      run_round1 rngs (suc i) ss >>= λ (packages, nexts). ok (own ∷ packages, next ∷ nexts)

  unfoldable pub run_round2 :
      List Round1Package
      → List FrostDkgSession
      → Result (List (List Round2Package) × List FrostDkgSession)
  unfolding round2
  run_round2 packages [] = ok ([], [])
  run_round2 packages (s ∷ ss) =
      let (r, next) = round2 X packages s in
      r >>= λ sent. run_round2 packages ss >>= λ (sents, nexts). ok (sent ∷ sents, next ∷ nexts)

  unfoldable pub run_local_frost_dkg : (ℕ → X.Rng) → String → ℕ → ℕ → Result (List LocalKeyShare)
  unfolding create_frost_session run_round1 run_round2 finalize
  run_local_frost_dkg rngs session_id threshold participants = do
    sessions ←
        collect (λ id. create_frost_session session_id threshold participants id)
          (tabulate participants suc)
    first ← run_round1 rngs 0 sessions
    second ← run_round2 first.0 first.1
    collect (λ s. finalize X (flatten second.0) s) second.1

  unfoldable pub run_nonces :
      (ℕ → X.Rng)
      → ℕ
      → List (FrostSigningSession X × LocalKeyShare)
      → Result (List NoncePackage × List (FrostSigningSession X × LocalKeyShare))
  unfolding nonce
  run_nonces rngs i [] = ok ([], [])
  run_nonces rngs i ((s, share) ∷ rest) =
      let (r, next) = nonce X (rngs i) share s in
      r >>= λ own. run_nonces rngs (suc i) rest >>= λ (packages, nexts).
      ok (own ∷ packages, (next, share) ∷ nexts)

  -- The steps that both signing functions take with a request.
  unfoldable pub sign_request :
      (ℕ → X.Rng)
      → SigningRequest
      → List LocalKeyShare
      → List ParticipantId
      → Result AggregateSignature
  unfolding run_nonces sign_share aggregate
  sign_request rngs request local_shares signer_set = do
    selected ←
        collect
          (λ id.
            ok_or (find (λ (share : LocalKeyShare). share.participant_id == id) local_shares)
              (protocol "missing local share for signer {}" (num id ∷ [])))
          signer_set
    let sessions =
        tabulate (dkgkit.Prelude.Lists.length selected) (λ _. new_signing_session X request)
    generated ← run_nonces rngs 0 (zip sessions selected)
    shares ← collect (λ (s, share). (sign_share X share generated.0 s).0) generated.1
    aggregate X shares (new_signing_session X request)

  unfoldable pub sign_digest_with_shares :
      (ℕ → X.Rng)
      → String
      → ThresholdConfig
      → GroupKey
      → Bytes
      → List LocalKeyShare
      → List ParticipantId
      → Result AggregateSignature
  unfolding validate_signer_set new_session_id new_signing_request sign_request
  sign_digest_with_shares rngs signing_session_id threshold group_key digest local_shares
        signer_set =
      do
        validate_signer_set signer_set threshold
        session ← new_session_id signing_session_id
        request ← new_signing_request session group_key digest signer_set threshold
        sign_request rngs request local_shares signer_set

  unfoldable pub sign_digest_with_shares_and_policy :
      (ℕ → X.Rng)
      → String
      → SigningPolicy
      → GroupKey
      → Bytes
      → List LocalKeyShare
      → List ParticipantId
      → Result AggregateSignature
  unfolding validate_signer_set_with_policy new_session_id new_signing_request_with_policy
      sign_request
  sign_digest_with_shares_and_policy rngs signing_session_id policy group_key digest local_shares
        signer_set =
      do
        validate_signer_set_with_policy signer_set policy
        session ← new_session_id signing_session_id
        request ← new_signing_request_with_policy session group_key digest signer_set policy
        sign_request rngs request local_shares signer_set
