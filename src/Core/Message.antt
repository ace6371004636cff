-- ===== src/Core/Message.antt =====
-- crates/dkgkit-core/src/lib.rs: the kinds of protocol messages and the messages.
pub mod Kinds
use dkgkit.Prelude.{
  ℕ, Bool, true, false, List, [], ◌∷◌, String, Option, none, some, ◌==◌, str_eq, if◌then◌else◌,
  find,
}
use dkgkit.Core.Error.{DkgKitError, empty_message_kind, Result, ok, err}
use dkgkit.Core.Ids.{SessionId, ParticipantId, is_blank}

pub data ProtocolMessageKind : Type 0 where
  session_manifest frost_dkg_round1 frost_dkg_round2 htss_dkg_round1 htss_dkg_round2 :
      ProtocolMessageKind
  frost_signing_nonce frost_signature_share : ProtocolMessageKind
  htss_signing_nonce htss_signature_share : ProtocolMessageKind
  custom : String → ProtocolMessageKind

unfoldable pub new_custom_kind : String → Result ProtocolMessageKind
unfolding is_blank
new_custom_kind value = if is_blank value then err empty_message_kind else ok (custom value)

unfoldable pub as_str : ProtocolMessageKind → String
as_str session_manifest = "session_manifest"
as_str frost_dkg_round1 = "frost_dkg_round1"
as_str frost_dkg_round2 = "frost_dkg_round2"
as_str htss_dkg_round1 = "htss_dkg_round1"
as_str htss_dkg_round2 = "htss_dkg_round2"
as_str frost_signing_nonce = "frost_signing_nonce"
as_str frost_signature_share = "frost_signature_share"
as_str htss_signing_nonce = "htss_signing_nonce"
as_str htss_signature_share = "htss_signature_share"
as_str (custom value) = value

-- The arms of the `match` of `From<&str>`, an arm with two patterns as two rows.
abbrev pub kind_names : List (String × ProtocolMessageKind)
kind_names =
    ("session_manifest", session_manifest)
    ∷ ("frost_dkg_round1", frost_dkg_round1)
    ∷ ("round1", frost_dkg_round1)
    ∷ ("frost_dkg_round2", frost_dkg_round2)
    ∷ ("round2", frost_dkg_round2)
    ∷ ("htss_dkg_round1", htss_dkg_round1)
    ∷ ("htss_dkg_round2", htss_dkg_round2)
    ∷ ("frost_signing_nonce", frost_signing_nonce)
    ∷ ("nonce", frost_signing_nonce)
    ∷ ("frost_signature_share", frost_signature_share)
    ∷ ("signature_share", frost_signature_share)
    ∷ ("htss_signing_nonce", htss_signing_nonce)
    ∷ ("htss_signature_share", htss_signature_share)
    ∷ []

abbrev pub or_custom : String → Option (String × ProtocolMessageKind) → ProtocolMessageKind
or_custom value none = custom value
or_custom value (some row) = row.1

unfoldable pub kind_from : String → ProtocolMessageKind
kind_from value = or_custom value (find (λ row. str_eq row.0 value) kind_names)

abbrev pub dkgkit_protocol_version : String
dkgkit_protocol_version = "dkgkit/0.1"

pub record ProtocolMessage : Type 0 where
  pub protocol_version : String
  pub session_id : SessionId
  pub sender : ParticipantId
  pub recipient : Option ParticipantId
  pub kind : ProtocolMessageKind
  pub payload : List ℕ

unfoldable pub broadcast :
    SessionId → ParticipantId → ProtocolMessageKind → List ℕ → ProtocolMessage
broadcast session_id sender kind payload = record {
  protocol_version = dkgkit_protocol_version;
  session_id = session_id;
  sender = sender;
  recipient = none;
  kind = kind;
  payload = payload;
}

unfoldable pub direct :
    SessionId → ParticipantId → ParticipantId → ProtocolMessageKind → List ℕ → ProtocolMessage
direct session_id sender recipient kind payload = record {
  protocol_version = dkgkit_protocol_version;
  session_id = session_id;
  sender = sender;
  recipient = some recipient;
  kind = kind;
  payload = payload;
}

unfoldable pub is_for : ProtocolMessage → ParticipantId → Bool
is_for message id = elim message.recipient [ none ↦ true | some recipient ↦ recipient == id ]
