-- ===== src/Sdk/Coordinator.antt =====
-- crates/dkgkit-sdk/src/lib.rs: FrostCoordinator, which exchanges packages over a transport.
use dkgkit.Prelude.{Bool, ◌&&◌, List}
use dkgkit.Core.Error.{Result, ok, err, collect, ◌>>=◌}
use dkgkit.Core.Ids.{ParticipantId, SessionId}
use dkgkit.Core.Message.{
  ProtocolMessage, frost_dkg_round1, frost_dkg_round2, frost_signing_nonce, frost_signature_share,
  htss_dkg_round1, htss_dkg_round2, htss_signing_nonce, htss_signature_share, is_for,
}
use dkgkit.Htss.Dkg.{HtssDkgRound1Package, HtssDkgRound2Package}
use dkgkit.Htss.Nonces.{HtssNoncePackage, HtssSignatureSharePackage}
use dkgkit.Messages.{Codec, kind_eq}
use dkgkit.Messages.Frost.{
  Round1Package, Round2Package, NoncePackage, SignatureSharePackage, round1_to_protocol_message,
  round1_from_protocol_message, round2_to_protocol_message, round2_from_protocol_message,
  nonce_to_protocol_message, nonce_from_protocol_message, signature_share_to_protocol_message,
  signature_share_from_protocol_message,
}
use dkgkit.Messages.Htss.{
  htss_round1_to_protocol_message, htss_round1_from_protocol_message,
  htss_round2_to_protocol_message, htss_round2_from_protocol_message,
  htss_nonce_to_protocol_message, htss_nonce_from_protocol_message,
  htss_signature_share_to_protocol_message, htss_signature_share_from_protocol_message,
}
use dkgkit.Transport.Service.{Transport}

pub record FrostCoordinator (T : Type 0) : Type 0 where
  pub transport : T

module _ {T : Type 0} ⦃R : Transport T⦄ where
  abbrev pub connect : FrostCoordinator T → Result (Unit {0}) × FrostCoordinator T
  connect c = let (r, t) = R.connect c.transport in (r, record { transport = t })

  abbrev pub disconnect : FrostCoordinator T → Result (Unit {0}) × FrostCoordinator T
  disconnect c = let (r, t) = R.disconnect c.transport in (r, record { transport = t })

  -- `self.transport.publish(message?)`
  abbrev pub publish_message :
      Result ProtocolMessage → FrostCoordinator T → Result (Unit {0}) × FrostCoordinator T
  publish_message (err e) c = (err e, c)
  publish_message (ok message) c =
      let (r, t) = R.publish message c.transport in (r, record { transport = t })

  -- A drain, then `from_protocol_message` on every message.
  unfoldable pub drain_packages :
      {A : Type 0}
      → SessionId
      → (ProtocolMessage → Bool)
      → (ProtocolMessage → Result A)
      → FrostCoordinator T
      → Result (List A) × FrostCoordinator T
  drain_packages session_id predicate from_protocol_message c =
      let (drained, t) = R.drain_matching session_id predicate c.transport in
      (drained >>= λ messages. collect from_protocol_message messages, record { transport = t })

module _ {T : Type 0} ⦃R : Transport T⦄ ⦃J : Codec Round1Package⦄ where
  unfoldable pub publish_round1 :
      SessionId → Round1Package → FrostCoordinator T → Result (Unit {0}) × FrostCoordinator T
  unfolding round1_to_protocol_message
  publish_round1 session_id own c = publish_message (round1_to_protocol_message session_id own) c

  unfoldable pub drain_round1 :
      SessionId → FrostCoordinator T → Result (List Round1Package) × FrostCoordinator T
  unfolding drain_packages kind_eq round1_from_protocol_message
  drain_round1 session_id c =
      drain_packages session_id (λ m. kind_eq m.kind frost_dkg_round1) round1_from_protocol_message
        c

module _ {T : Type 0} ⦃R : Transport T⦄ ⦃J : Codec Round2Package⦄ where
  unfoldable pub publish_round2 :
      SessionId → Round2Package → FrostCoordinator T → Result (Unit {0}) × FrostCoordinator T
  unfolding round2_to_protocol_message
  publish_round2 session_id own c = publish_message (round2_to_protocol_message session_id own) c

  unfoldable pub drain_round2_for :
      SessionId
      → ParticipantId
      → FrostCoordinator T
      → Result (List Round2Package) × FrostCoordinator T
  unfolding drain_packages kind_eq is_for round2_from_protocol_message
  drain_round2_for session_id recipient c =
      drain_packages session_id (λ m. kind_eq m.kind frost_dkg_round2 && is_for m recipient)
        round2_from_protocol_message c

module _ {T : Type 0} ⦃R : Transport T⦄ ⦃J : Codec NoncePackage⦄ where
  unfoldable pub publish_nonce :
      NoncePackage → FrostCoordinator T → Result (Unit {0}) × FrostCoordinator T
  unfolding nonce_to_protocol_message
  publish_nonce own c = publish_message (nonce_to_protocol_message own) c

  unfoldable pub drain_nonces :
      SessionId → FrostCoordinator T → Result (List NoncePackage) × FrostCoordinator T
  unfolding drain_packages kind_eq nonce_from_protocol_message
  drain_nonces session_id c =
      drain_packages session_id (λ m. kind_eq m.kind frost_signing_nonce)
        nonce_from_protocol_message c

module _ {T : Type 0} ⦃R : Transport T⦄ ⦃J : Codec SignatureSharePackage⦄ where
  unfoldable pub publish_signature_share :
      SignatureSharePackage → FrostCoordinator T → Result (Unit {0}) × FrostCoordinator T
  unfolding signature_share_to_protocol_message
  publish_signature_share own c = publish_message (signature_share_to_protocol_message own) c

  unfoldable pub drain_signature_shares :
      SessionId → FrostCoordinator T → Result (List SignatureSharePackage) × FrostCoordinator T
  unfolding drain_packages kind_eq signature_share_from_protocol_message
  drain_signature_shares session_id c =
      drain_packages session_id (λ m. kind_eq m.kind frost_signature_share)
        signature_share_from_protocol_message c

module _ {T : Type 0} ⦃R : Transport T⦄ ⦃J : Codec HtssDkgRound1Package⦄ where
  unfoldable pub publish_htss_dkg_round1 :
      SessionId → HtssDkgRound1Package → FrostCoordinator T → Result (Unit {0}) × FrostCoordinator T
  unfolding htss_round1_to_protocol_message
  publish_htss_dkg_round1 session_id own c =
      publish_message (htss_round1_to_protocol_message session_id own) c

  unfoldable pub drain_htss_dkg_round1 :
      SessionId → FrostCoordinator T → Result (List HtssDkgRound1Package) × FrostCoordinator T
  unfolding drain_packages kind_eq htss_round1_from_protocol_message
  drain_htss_dkg_round1 session_id c =
      drain_packages session_id (λ m. kind_eq m.kind htss_dkg_round1)
        htss_round1_from_protocol_message c

module _ {T : Type 0} ⦃R : Transport T⦄ ⦃J : Codec HtssDkgRound2Package⦄ where
  unfoldable pub publish_htss_dkg_round2 :
      SessionId → HtssDkgRound2Package → FrostCoordinator T → Result (Unit {0}) × FrostCoordinator T
  unfolding htss_round2_to_protocol_message
  publish_htss_dkg_round2 session_id own c =
      publish_message (htss_round2_to_protocol_message session_id own) c

  unfoldable pub drain_htss_dkg_round2_for :
      SessionId
      → ParticipantId
      → FrostCoordinator T
      → Result (List HtssDkgRound2Package) × FrostCoordinator T
  unfolding drain_packages kind_eq is_for htss_round2_from_protocol_message
  drain_htss_dkg_round2_for session_id recipient c =
      drain_packages session_id (λ m. kind_eq m.kind htss_dkg_round2 && is_for m recipient)
        htss_round2_from_protocol_message c

module _ {T : Type 0} ⦃R : Transport T⦄ ⦃J : Codec HtssNoncePackage⦄ where
  unfoldable pub publish_htss_nonce :
      HtssNoncePackage → FrostCoordinator T → Result (Unit {0}) × FrostCoordinator T
  unfolding htss_nonce_to_protocol_message
  publish_htss_nonce own c = publish_message (htss_nonce_to_protocol_message own) c

  unfoldable pub drain_htss_nonces :
      SessionId → FrostCoordinator T → Result (List HtssNoncePackage) × FrostCoordinator T
  unfolding drain_packages kind_eq htss_nonce_from_protocol_message
  drain_htss_nonces session_id c =
      drain_packages session_id (λ m. kind_eq m.kind htss_signing_nonce)
        htss_nonce_from_protocol_message c

module _ {T : Type 0} ⦃R : Transport T⦄ ⦃J : Codec HtssSignatureSharePackage⦄ where
  unfoldable pub publish_htss_signature_share :
      HtssSignatureSharePackage → FrostCoordinator T → Result (Unit {0}) × FrostCoordinator T
  unfolding htss_signature_share_to_protocol_message
  publish_htss_signature_share own c =
      publish_message (htss_signature_share_to_protocol_message own) c

  unfoldable pub drain_htss_signature_shares :
      SessionId → FrostCoordinator T → Result (List HtssSignatureSharePackage) × FrostCoordinator T
  unfolding drain_packages kind_eq htss_signature_share_from_protocol_message
  drain_htss_signature_shares session_id c =
      drain_packages session_id (λ m. kind_eq m.kind htss_signature_share)
        htss_signature_share_from_protocol_message c
