-- ===== src/Frost.antt =====
-- crates/dkgkit-frost/src/lib.rs: what FROST sessions use of `schnorr_fun`, as an interface, and the
-- data of sessions and signing requests. The Frost instances of the library carry no state, so its
-- functions take none.
pub mod Dkg
pub mod Signing
pub mod Rounds
pub mod Nonces
use dkgkit.Prelude.{ℕ, ◌⊎◌, Bool, ◌&&◌, List, String, Option}
use dkgkit.Core.Error.{Result, ok, ◌>>=◌, ◌>>◌}
use dkgkit.Core.Ids.{ParticipantId, SessionId}
use dkgkit.Core.Threshold.{
  ThresholdConfig, HierarchicalThresholdConfig, GroupedThresholdConfig, SigningPolicy,
  hierarchical_policy, grouped_policy,
}
use dkgkit.Policy.{validate_signer_set, validate_signer_set_with_policy}
use dkgkit.Scalar.{Bytes, Field}
use dkgkit.Birkhoff.{BirkhoffPoint, BirkhoffCoefficient, birkhoff_interpolation_coefficients}
use dkgkit.Htss.{GroupKey, birkhoff_points_from_hierarchical_signer_set}
use dkgkit.Htss.Keys.{bytes_eq}
use dkgkit.Messages.{Codec}

pub record Schnorr (S : Type 0) : Type 1 where
  pub Rng : Type 0
  pub KeygenInput : Type 0
  pub Coordinator : Type 0
  pub AggKeygenInput : Type 0
  pub SecretShare : Type 0
  pub PairedSecretShare : Type 0
  pub SharedKey : Type 0
  -- The forms with an even public key.
  pub EvenPairedShare : Type 0
  pub EvenSharedKey : Type 0
  pub NonceKeyPair : Type 0
  pub Nonce : Type 0
  pub CoordinatorSession : Type 0
  pub Signature : Type 0
  pub keygen_input_codec : Codec KeygenInput
  pub scalar_codec : Codec S
  pub paired_share_codec : Codec EvenPairedShare
  pub shared_key_codec : Codec EvenSharedKey
  pub nonce_codec : Codec Nonce
  pub signature_codec : Codec Signature
  -- `Contributor::gen_keygen_input`: threshold, share indices, own index, randomness.
  pub gen_keygen_input : ℕ → List S → ℕ → Rng → KeygenInput × List (S × S)
  pub new_coordinator : ℕ → ℕ → Coordinator
  -- An error is its text.
  pub add_input : ℕ → KeygenInput → Coordinator → String ⊎ Coordinator
  pub finish : Coordinator → Option AggKeygenInput
  pub collect_secret_inputs : S → List S → SecretShare
  pub receive_secret_share : AggKeygenInput → SecretShare → String ⊎ PairedSecretShare
  pub shared_key : AggKeygenInput → SharedKey
  -- `non_zero()` and `into_xonly()`
  pub even_paired_share : PairedSecretShare → Option EvenPairedShare
  pub even_shared_key : SharedKey → Option EvenSharedKey
  pub xonly_public_key : EvenSharedKey → Bytes
  -- `seed_nonce_rng` and `gen_nonce`
  pub gen_nonce : EvenPairedShare → SessionId → Rng → NonceKeyPair
  pub public_nonce : NonceKeyPair → Nonce
  pub coordinator_sign_session : EvenSharedKey → List (S × Nonce) → Bytes → CoordinatorSession
  -- `party_sign_session` from the coordinator's session, and `sign`
  pub party_sign : EvenSharedKey → CoordinatorSession → Bytes → EvenPairedShare → NonceKeyPair → S
  pub verify_and_combine : CoordinatorSession → EvenSharedKey → List (S × S) → String ⊎ Signature

pub record DkgSessionConfig : Type 0 where
  pub session_id : SessionId
  pub threshold : ThresholdConfig
  pub participant_id : ParticipantId

pub record LocalKeyShare : Type 0 where
  pub participant_id : ParticipantId
  pub group_key : GroupKey
  pub secret_share_bytes : Bytes

-- The derived equality of group keys.
unfoldable pub group_key_eq : GroupKey → GroupKey → Bool
unfolding bytes_eq
group_key_eq a b =
    bytes_eq a.xonly_public_key b.xonly_public_key
    && bytes_eq a.verification_key_bytes b.verification_key_bytes

pub record SigningRequest : Type 0 where
  pub session_id : SessionId
  pub group_key : GroupKey
  pub message_digest : Bytes
  pub signer_set : List ParticipantId

unfoldable pub new_signing_request :
    SessionId → GroupKey → Bytes → List ParticipantId → ThresholdConfig → Result SigningRequest
unfolding validate_signer_set
new_signing_request session_id group_key message_digest signer_set threshold =
    validate_signer_set signer_set threshold
    >> ok (record {
      session_id = session_id;
      group_key = group_key;
      message_digest = message_digest;
      signer_set = signer_set;
    })

unfoldable pub new_signing_request_with_policy :
    SessionId → GroupKey → Bytes → List ParticipantId → SigningPolicy → Result SigningRequest
unfolding validate_signer_set_with_policy
new_signing_request_with_policy session_id group_key message_digest signer_set policy =
    validate_signer_set_with_policy signer_set policy
    >> ok (record {
      session_id = session_id;
      group_key = group_key;
      message_digest = message_digest;
      signer_set = signer_set;
    })

pub record HierarchicalSigningRequest : Type 0 where
  pub request : SigningRequest
  pub points : List BirkhoffPoint
  pub coefficients : List BirkhoffCoefficient

unfoldable pub new_hierarchical_signing_request :
    (S : Type 0)
    → ⦃F : Field S⦄ → SessionId
    → GroupKey
    → Bytes
    → List ParticipantId
    → HierarchicalThresholdConfig
    → Result HierarchicalSigningRequest
unfolding new_signing_request_with_policy
new_hierarchical_signing_request S session_id group_key message_digest signer_set config = do
  points ← birkhoff_points_from_hierarchical_signer_set signer_set config
  coefficients ← birkhoff_interpolation_coefficients S points
  request ←
      new_signing_request_with_policy session_id group_key message_digest signer_set
        (hierarchical_policy config)
  ok (record { request = request; points = points; coefficients = coefficients })

pub record GroupedSigningRequest : Type 0 where
  pub request : SigningRequest
  pub config : GroupedThresholdConfig

unfoldable pub new_grouped_signing_request :
    SessionId
    → GroupKey
    → Bytes
    → List ParticipantId
    → GroupedThresholdConfig
    → Result GroupedSigningRequest
unfolding new_signing_request_with_policy
new_grouped_signing_request session_id group_key message_digest signer_set config = do
  request ←
      new_signing_request_with_policy session_id group_key message_digest signer_set
        (grouped_policy config)
  ok (record { request = request; config = config })
