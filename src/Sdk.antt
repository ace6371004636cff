-- ===== src/Sdk.antt =====
-- crates/dkgkit-sdk/src/lib.rs: the session builder and the HTSS key generation service.
pub mod Coordinator
pub mod Frost
pub mod Delivery
pub mod Exchange
pub mod Failure
use dkgkit.Prelude.{ℕ, List, [], ◌∷◌, ◌++◌, String, Option, none, some}
use dkgkit.Core.Error.{Result, ok, ◌>>=◌}
use dkgkit.Core.Ids.{
  SessionId, ParticipantId, Participant, new_session_id, new_participant_id, new_participant,
}
use dkgkit.Core.Threshold.{ThresholdConfig, HierarchicalThresholdConfig, new_threshold_config}
use dkgkit.Core.Session.{SessionConfig, SessionManifest, new_session_config, frost_v1}
use dkgkit.Core.Message.{ProtocolMessage}
use dkgkit.Scalar.{Field}
use dkgkit.Curve.{Curve}
use dkgkit.Htss.{GroupKey, HtssLocalKeyShare, HtssLocalKeySet}
use dkgkit.Htss.Dkg.{HtssDkgRound1Package, HtssDkgRound1State, HtssDkgRound2Package}
use dkgkit.Htss.Dkg.Rounds.{
  htss_dkg_round1, htss_dkg_round2, finalize_htss_dkg, run_distributed_htss_keygen,
}
use dkgkit.Messages.{Codec}
use dkgkit.Messages.Htss.{htss_round1_to_protocol_message, htss_round2_to_protocol_message}

pub record DkgKitSessionBuilder : Type 0 where
  pub session_id : Option String
  pub threshold : Option ℕ
  pub participant_count : Option ℕ
  pub participants : List Participant
  pub local_participant_id : Option ℕ

abbrev pub new_builder : DkgKitSessionBuilder
new_builder = record {
  session_id = none;
  threshold = none;
  participant_count = none;
  participants = [];
  local_participant_id = none;
}

abbrev pub with_session_id : String → DkgKitSessionBuilder → DkgKitSessionBuilder
with_session_id value b = record b { session_id = some value }

abbrev pub with_threshold : ℕ → ℕ → DkgKitSessionBuilder → DkgKitSessionBuilder
with_threshold threshold participant_count b = record b {
  threshold = some threshold;
  participant_count = some participant_count;
}

unfoldable pub with_participant :
    ℕ → Option String → DkgKitSessionBuilder → Result DkgKitSessionBuilder
unfolding new_participant
with_participant id label b = do
  participant ← new_participant id label
  ok (record b { participants = b.participants ++ participant ∷ [] })

abbrev pub with_local_participant : ℕ → DkgKitSessionBuilder → DkgKitSessionBuilder
with_local_participant id b = record b { local_participant_id = some id }

-- `Option::unwrap_or`
abbrev pub unwrap_or {ℓ} : {A : Type ℓ} → Option A → A → A
unwrap_or none d = d
unwrap_or (some a) d = a

unfoldable pub build_manifest : DkgKitSessionBuilder → Result SessionManifest
unfolding new_session_config frost_v1
build_manifest b = do
  config ←
      new_session_config (unwrap_or b.session_id "default") (unwrap_or b.threshold 0)
        (unwrap_or b.participant_count 0) b.participants
  ok (frost_v1 config)

pub record HtssDkgService : Type 0 where
  pub session_id : SessionId
  pub config : HierarchicalThresholdConfig

unfoldable pub new_htss_dkg_service : String → HierarchicalThresholdConfig → Result HtssDkgService
unfolding new_session_id
new_htss_dkg_service session_id config = do
  ok (record { session_id = (← new_session_id session_id); config = config })

module _ ⦃J : Codec HtssDkgRound1Package⦄ where
  unfoldable pub round1_message : HtssDkgService → HtssDkgRound1Package → Result ProtocolMessage
  unfolding htss_round1_to_protocol_message
  round1_message service own = htss_round1_to_protocol_message service.session_id own

module _ ⦃J : Codec HtssDkgRound2Package⦄ where
  unfoldable pub round2_message : HtssDkgService → HtssDkgRound2Package → Result ProtocolMessage
  unfolding htss_round2_to_protocol_message
  round2_message service own = htss_round2_to_protocol_message service.session_id own

module _ (S P : Type 0) ⦃F : Field S⦄ ⦃C : Curve S P⦄ where
  unfoldable pub begin_round1 : (ℕ → S) → HtssDkgService → ParticipantId → Result HtssDkgRound1State
  unfolding htss_dkg_round1
  begin_round1 draws service participant_id =
      htss_dkg_round1 S P draws participant_id service.config

  unfoldable pub create_round2_packages :
      HtssDkgService
      → HtssDkgRound1State
      → List HtssDkgRound1Package
      → Result (List HtssDkgRound2Package)
  unfolding htss_dkg_round2
  create_round2_packages service state round1_packages =
      htss_dkg_round2 S P state round1_packages service.config

  unfoldable pub finalize_participant :
      HtssDkgService
      → ParticipantId
      → List HtssDkgRound1Package
      → List HtssDkgRound2Package
      → Result (GroupKey × HtssLocalKeyShare)
  unfolding finalize_htss_dkg
  finalize_participant service participant_id round1_packages round2_packages =
      finalize_htss_dkg S P participant_id round1_packages round2_packages service.config

  unfoldable pub run_local_rehearsal : (ℕ → ℕ → S) → HtssDkgService → Result HtssLocalKeySet
  unfolding run_distributed_htss_keygen
  run_local_rehearsal draws service = run_distributed_htss_keygen S P draws service.config
