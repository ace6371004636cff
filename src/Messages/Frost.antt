-- ===== src/Messages/Frost.antt =====
-- crates/dkgkit-frost/src/lib.rs: the FROST packages, written into messages and read back.
use dkgkit.Prelude.{not, [], ◌∷◌, ◌==◌, str_eq}
use dkgkit.Core.Error.{num, protocol, Result, ok, ◌>>=◌, ◌>>◌, fail_if}
use dkgkit.Core.Ids.{ParticipantId, SessionId}
use dkgkit.Core.Message.{
  ProtocolMessage, frost_dkg_round1, frost_dkg_round2, frost_signing_nonce, frost_signature_share,
  broadcast, direct,
}
use dkgkit.Messages.{
  Codec, encode_payload, decode_payload, require_kind, require_broadcast, is_recipient,
}
use dkgkit.Scalar.{Bytes}

pub record Round1Package : Type 0 where
  pub participant_id : ParticipantId
  pub bytes : Bytes

pub record Round2Package : Type 0 where
  pub sender : ParticipantId
  pub recipient : ParticipantId
  pub bytes : Bytes

pub record NoncePackage : Type 0 where
  pub participant_id : ParticipantId
  pub signing_session_id : SessionId
  pub public_nonce_bytes : Bytes

pub record SignatureSharePackage : Type 0 where
  pub participant_id : ParticipantId
  pub signing_session_id : SessionId
  pub public_nonce_bytes : Bytes
  pub signature_share_bytes : Bytes

module _ ⦃J : Codec Round1Package⦄ where
  unfoldable pub round1_to_protocol_message : SessionId → Round1Package → Result ProtocolMessage
  unfolding encode_payload broadcast
  round1_to_protocol_message session_id self = do
    payload ← encode_payload self
    ok (broadcast session_id self.participant_id frost_dkg_round1 payload)

  unfoldable pub round1_from_protocol_message : ProtocolMessage → Result Round1Package
  unfolding require_kind require_broadcast decode_payload
  round1_from_protocol_message message = do
    require_kind message frost_dkg_round1
    require_broadcast message
    decoded ← decode_payload message.payload
    fail_if (not (decoded.participant_id == message.sender)) (
        protocol "round1 sender mismatch: envelope={}, payload={}"
          (num message.sender ∷ num decoded.participant_id ∷ []))
    ok decoded

module _ ⦃J : Codec Round2Package⦄ where
  unfoldable pub round2_to_protocol_message : SessionId → Round2Package → Result ProtocolMessage
  unfolding encode_payload direct
  round2_to_protocol_message session_id self = do
    payload ← encode_payload self
    ok (direct session_id self.sender self.recipient frost_dkg_round2 payload)

  unfoldable pub round2_from_protocol_message : ProtocolMessage → Result Round2Package
  unfolding require_kind decode_payload
  round2_from_protocol_message message = do
    require_kind message frost_dkg_round2
    decoded ← decode_payload message.payload
    fail_if (not (decoded.sender == message.sender)) (
        protocol "round2 sender mismatch: envelope={}, payload={}"
          (num message.sender ∷ num decoded.sender ∷ []))
    fail_if (not (is_recipient decoded.recipient message.recipient))
        (protocol "round2 recipient mismatch" [])
    ok decoded

module _ ⦃J : Codec NoncePackage⦄ where
  unfoldable pub nonce_to_protocol_message : NoncePackage → Result ProtocolMessage
  unfolding encode_payload broadcast
  nonce_to_protocol_message self = do
    payload ← encode_payload self
    ok (broadcast self.signing_session_id self.participant_id frost_signing_nonce payload)

  unfoldable pub nonce_from_protocol_message : ProtocolMessage → Result NoncePackage
  unfolding require_kind require_broadcast decode_payload
  nonce_from_protocol_message message = do
    require_kind message frost_signing_nonce
    require_broadcast message
    decoded ← decode_payload message.payload
    fail_if (not (decoded.participant_id == message.sender)) (
        protocol "nonce sender mismatch: envelope={}, payload={}"
          (num message.sender ∷ num decoded.participant_id ∷ []))
    fail_if (not (str_eq decoded.signing_session_id message.session_id))
        (protocol "nonce session mismatch" [])
    ok decoded

module _ ⦃J : Codec SignatureSharePackage⦄ where
  unfoldable pub signature_share_to_protocol_message :
      SignatureSharePackage → Result ProtocolMessage
  unfolding encode_payload broadcast
  signature_share_to_protocol_message self = do
    payload ← encode_payload self
    ok (broadcast self.signing_session_id self.participant_id frost_signature_share payload)

  unfoldable pub signature_share_from_protocol_message :
      ProtocolMessage → Result SignatureSharePackage
  unfolding require_kind require_broadcast decode_payload
  signature_share_from_protocol_message message = do
    require_kind message frost_signature_share
    require_broadcast message
    decoded ← decode_payload message.payload
    fail_if (not (decoded.participant_id == message.sender)) (
        protocol "signature share sender mismatch: envelope={}, payload={}"
          (num message.sender ∷ num decoded.participant_id ∷ []))
    fail_if (not (str_eq decoded.signing_session_id message.session_id))
        (protocol "signature share session mismatch" [])
    ok decoded
