-- ===== src/Messages/Htss.antt =====
-- crates/dkgkit-frost/src/lib.rs: the HTSS packages, written into messages and read back.
use dkgkit.Prelude.{not, [], ◌∷◌, ◌==◌, str_eq}
use dkgkit.Core.Error.{num, protocol, Result, ok, ◌>>=◌, ◌>>◌, fail_if}
use dkgkit.Core.Ids.{SessionId}
use dkgkit.Core.Message.{
  ProtocolMessage, htss_dkg_round1, htss_dkg_round2, htss_signing_nonce, htss_signature_share,
  broadcast, direct,
}
use dkgkit.Htss.Dkg.{HtssDkgRound1Package, HtssDkgRound2Package}
use dkgkit.Htss.Nonces.{HtssNoncePackage, HtssSignatureSharePackage, nonce_public_nonce_bytes}
use dkgkit.Messages.{
  Codec, encode_payload, decode_payload, require_kind, require_broadcast, is_recipient,
}

module _ ⦃J : Codec HtssDkgRound1Package⦄ where
  unfoldable pub htss_round1_to_protocol_message :
      SessionId → HtssDkgRound1Package → Result ProtocolMessage
  unfolding encode_payload broadcast
  htss_round1_to_protocol_message session_id self = do
    payload ← encode_payload self
    ok (broadcast session_id self.participant_id htss_dkg_round1 payload)

  unfoldable pub htss_round1_from_protocol_message : ProtocolMessage → Result HtssDkgRound1Package
  unfolding require_kind require_broadcast decode_payload
  htss_round1_from_protocol_message message = do
    require_kind message htss_dkg_round1
    require_broadcast message
    decoded ← decode_payload message.payload
    fail_if (not (decoded.participant_id == message.sender)) (
        protocol "HTSS DKG round1 sender mismatch: envelope={}, payload={}"
          (num message.sender ∷ num decoded.participant_id ∷ []))
    ok decoded

module _ ⦃J : Codec HtssDkgRound2Package⦄ where
  unfoldable pub htss_round2_to_protocol_message :
      SessionId → HtssDkgRound2Package → Result ProtocolMessage
  unfolding encode_payload direct
  htss_round2_to_protocol_message session_id self = do
    payload ← encode_payload self
    ok (direct session_id self.sender self.recipient htss_dkg_round2 payload)

  unfoldable pub htss_round2_from_protocol_message : ProtocolMessage → Result HtssDkgRound2Package
  unfolding require_kind decode_payload
  htss_round2_from_protocol_message message = do
    require_kind message htss_dkg_round2
    decoded ← decode_payload message.payload
    fail_if (not (decoded.sender == message.sender)) (
        protocol "HTSS DKG round2 sender mismatch: envelope={}, payload={}"
          (num message.sender ∷ num decoded.sender ∷ []))
    fail_if (not (is_recipient decoded.recipient message.recipient))
        (protocol "HTSS DKG round2 recipient mismatch" [])
    ok decoded

module _ ⦃J : Codec HtssNoncePackage⦄ where
  unfoldable pub htss_nonce_to_protocol_message : HtssNoncePackage → Result ProtocolMessage
  unfolding encode_payload broadcast
  htss_nonce_to_protocol_message self = do
    payload ← encode_payload self
    ok (broadcast self.signing_session_id self.participant_id htss_signing_nonce payload)

  unfoldable pub htss_nonce_from_protocol_message : ProtocolMessage → Result HtssNoncePackage
  unfolding require_kind require_broadcast decode_payload nonce_public_nonce_bytes
  htss_nonce_from_protocol_message message = do
    require_kind message htss_signing_nonce
    require_broadcast message
    decoded ← decode_payload message.payload
    fail_if (not (decoded.participant_id == message.sender)) (
        protocol "HTSS nonce sender mismatch: envelope={}, payload={}"
          (num message.sender ∷ num decoded.participant_id ∷ []))
    fail_if (not (str_eq decoded.signing_session_id message.session_id))
        (protocol "HTSS nonce session mismatch" [])
    nonce_public_nonce_bytes decoded
    ok decoded

module _ ⦃J : Codec HtssSignatureSharePackage⦄ where
  unfoldable pub htss_signature_share_to_protocol_message :
      HtssSignatureSharePackage → Result ProtocolMessage
  unfolding encode_payload broadcast
  htss_signature_share_to_protocol_message self = do
    payload ← encode_payload self
    ok (broadcast self.signing_session_id self.participant_id htss_signature_share payload)

  unfoldable pub htss_signature_share_from_protocol_message :
      ProtocolMessage → Result HtssSignatureSharePackage
  unfolding require_kind require_broadcast decode_payload
  htss_signature_share_from_protocol_message message = do
    require_kind message htss_signature_share
    require_broadcast message
    decoded ← decode_payload message.payload
    fail_if (not (decoded.participant_id == message.sender)) (
        protocol "HTSS signature share sender mismatch: envelope={}, payload={}"
          (num message.sender ∷ num decoded.participant_id ∷ []))
    fail_if (not (str_eq decoded.signing_session_id message.session_id))
        (protocol "HTSS signature share session mismatch" [])
    ok decoded
