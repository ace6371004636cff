-- ===== src/Core/Session.antt =====
-- crates/dkgkit-core/src/lib.rs: the session configuration and its manifest.
pub mod Accepted
use dkgkit.Prelude.{ℕ, not, List, [], ◌∷◌, String, Option, ltb, ◌==◌, length, find, contains}
use dkgkit.Core.Error.{
  participant_count_mismatch, participant_out_of_range, duplicate_participant_id, Result, ok, ◌>>=◌,
  ◌>>◌, fail_if,
}
use dkgkit.Core.Ids.{SessionId, ParticipantId, Participant, new_session_id}
use dkgkit.Core.Threshold.{ThresholdConfig, new_threshold_config}

pub record SessionConfig : Type 0 where
  pub session_id : SessionId
  pub threshold : ThresholdConfig
  pub participants : List Participant

-- The loop over the participants of `SessionConfig::new`.
unfoldable pub check_participants : ℕ → List ℕ → List Participant → Result (Unit {0})
check_participants participant_count seen [] = ok tt
check_participants participant_count seen (p ∷ ps) =
    fail_if (ltb participant_count p.id) (participant_out_of_range p.id participant_count)
    >> fail_if (contains seen p.id) (duplicate_participant_id p.id)
    >> check_participants participant_count (p.id ∷ seen) ps

unfoldable pub new_session_config : String → ℕ → ℕ → List Participant → Result SessionConfig
unfolding new_threshold_config check_participants new_session_id
new_session_config session_id threshold participant_count participants = do
  threshold_config ← new_threshold_config threshold participant_count
  fail_if (not (length participants == participant_count))
      (participant_count_mismatch participant_count (length participants))
  check_participants participant_count [] participants
  id ← new_session_id session_id
  ok (record { session_id = id; threshold = threshold_config; participants = participants })

unfoldable pub participant : SessionConfig → ParticipantId → Option Participant
participant c id = find (λ p. p.id == id) c.participants

pub data SessionPhase : Type 0 where
  created round1 round2 finalized signing complete failed : SessionPhase

pub record SessionManifest : Type 0 where
  pub config : SessionConfig
  pub protocol_name : String
  pub protocol_version : String
  pub phase : SessionPhase

unfoldable pub frost_v1 : SessionConfig → SessionManifest
frost_v1 config = record {
  config = config;
  protocol_name = "frost";
  protocol_version = "0.1";
  phase = created;
}
