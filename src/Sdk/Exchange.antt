-- ===== src/Sdk/Exchange.antt =====
-- crates/dkgkit-sdk/src/lib.rs: packages published by a FrostCoordinator over a MemoryTransport and
-- drained again.
use dkgkit.Prelude.{
  ◌≡◌, ◌≢◌, sym, ap, true, List, [], ◌∷◌, ◌++◌, str_eq_iff, ==_refl, ==_ne, length,
}
use dkgkit.Core.Error.{ok, >>=-eq-ok}
use dkgkit.Core.Ids.{ParticipantId, SessionId}
use dkgkit.Core.Message.{
  ProtocolMessage, ProtocolMessageKind, direct, is_for, htss_dkg_round2, htss_signing_nonce,
}
use dkgkit.Htss.Dkg.{HtssDkgRound2Package}
use dkgkit.Htss.Nonces.{HtssNoncePackage}
use dkgkit.Messages.{Codec, kind_eq, encode_payload}
use dkgkit.Messages.Kinds.{kind_eq_iff}
use dkgkit.Messages.Htss.{
  htss_round2_to_protocol_message, htss_round2_from_protocol_message,
  htss_nonce_to_protocol_message, htss_nonce_from_protocol_message,
}
use dkgkit.Messages.Checks.{ok_injective}
use dkgkit.Messages.Accepted.{
  htss_round2_from_protocol_message-ok_iff, htss_nonce_from_protocol_message-ok_iff,
}
use dkgkit.Messages.RoundTrip.{
  htss_round2_from_protocol_message-to_protocol_message,
  htss_nonce_from_protocol_message-to_protocol_message,
}
use dkgkit.Transport.{MemoryTransport}
use dkgkit.Transport.Drain.{is_taken}
use dkgkit.Transport.Service.{memory_transport}
use dkgkit.Sdk.Coordinator.{
  FrostCoordinator, publish_htss_dkg_round2, drain_htss_dkg_round2_for, publish_htss_nonce,
  drain_htss_nonces,
}
use dkgkit.Sdk.Delivery.{drain_packages-taken, drain_packages-left}

-- A message of the kind and the session is taken.
pub kind-taken :
    (s : SessionId) (k : ProtocolMessageKind) (m : ProtocolMessage)
    → m.session_id ≡ s
    → m.kind ≡ k
    → is_taken s (λ x. kind_eq x.kind k) m ≡ true
kind-taken s k m session kind =
    rw ((str_eq_iff m.session_id s).1 session) ((kind_eq_iff m.kind k).1 kind)

module _ ⦃J : Codec HtssNoncePackage⦄ where
  -- When an HTSS nonce package of 33 bytes is written into a message and a drain of its session would
  -- return some packages, then after its publication the drain returns those packages and then this
  -- one, and leaves the same coordinator.
  pub drain_htss_nonces-publish_htss_nonce :
      (c rest : FrostCoordinator MemoryTransport) (p : HtssNoncePackage) (m : ProtocolMessage)
      (earlier : List HtssNoncePackage)
      → length p.public_nonce_bytes ≡ 33
      → htss_nonce_to_protocol_message p ≡ ok m
      → drain_htss_nonces p.signing_session_id c ≡ (ok earlier, rest)
      → drain_htss_nonces p.signing_session_id (publish_htss_nonce p c).1
        ≡ (ok (earlier ++ p ∷ []), rest)
  unfolding drain_htss_nonces publish_htss_nonce
  drain_htss_nonces-publish_htss_nonce c rest p m earlier size written h =
      let read = htss_nonce_from_protocol_message-to_protocol_message p m size written in
      let (kind, _, _, _, session, _) = (htss_nonce_from_protocol_message-ok_iff m p).0 read in
      rw written (
        drain_packages-taken p.signing_session_id _ htss_nonce_from_protocol_message c m p earlier
          rest (kind-taken p.signing_session_id htss_signing_nonce m (sym session) kind) read h)

module _ ⦃J : Codec HtssDkgRound2Package⦄ where
  sent-session :
      (session : SessionId) (p : HtssDkgRound2Package) (m : ProtocolMessage)
      → htss_round2_to_protocol_message session p ≡ ok m
      → m.session_id ≡ session
  unfolding htss_round2_to_protocol_message direct
  sent-session session p m h =
      let (bytes, _, e) = >>=-eq-ok (encode_payload p) _ h in
      ap (λ x. x.session_id) (sym (ok_injective e))

  -- When a round-two package is written into a message and a drain for its recipient would return
  -- some packages, then after its publication the drain returns those packages and then this one,
  -- and leaves the same coordinator.
  pub drain_htss_dkg_round2_for-publish_htss_dkg_round2 :
      (c rest : FrostCoordinator MemoryTransport) (session : SessionId) (p : HtssDkgRound2Package)
      (m : ProtocolMessage) (earlier : List HtssDkgRound2Package)
      → htss_round2_to_protocol_message session p ≡ ok m
      → drain_htss_dkg_round2_for session p.recipient c ≡ (ok earlier, rest)
      → drain_htss_dkg_round2_for session p.recipient (publish_htss_dkg_round2 session p c).1
        ≡ (ok (earlier ++ p ∷ []), rest)
  unfolding drain_htss_dkg_round2_for publish_htss_dkg_round2 is_for
  drain_htss_dkg_round2_for-publish_htss_dkg_round2 c rest session p m earlier written h =
      let read = htss_round2_from_protocol_message-to_protocol_message session p m written in
      let (kind, _, _, recipient) = (htss_round2_from_protocol_message-ok_iff m p).0 read in
      rw written (
        drain_packages-taken session _ htss_round2_from_protocol_message c m p earlier rest
          (rw ((str_eq_iff m.session_id session).1 (sent-session session p m written))
            (rw ((kind_eq_iff m.kind htss_dkg_round2).1 kind) (rw recipient (==_refl p.recipient))))
          read h)

  -- A published round-two package is not returned by a drain for another recipient: that returns what
  -- it would have returned, and the message stays behind.
  pub drain_htss_dkg_round2_for-other :
      (c rest : FrostCoordinator MemoryTransport) (session : SessionId) (p : HtssDkgRound2Package)
      (m : ProtocolMessage) (other : ParticipantId) (earlier : List HtssDkgRound2Package)
      → p.recipient ≢ other
      → htss_round2_to_protocol_message session p ≡ ok m
      → drain_htss_dkg_round2_for session other c ≡ (ok earlier, rest)
      → drain_htss_dkg_round2_for session other (publish_htss_dkg_round2 session p c).1
        ≡ (ok earlier, (publish_htss_dkg_round2 session p rest).1)
  unfolding drain_htss_dkg_round2_for publish_htss_dkg_round2 is_for
  drain_htss_dkg_round2_for-other c rest session p m other earlier different written h =
      let read = htss_round2_from_protocol_message-to_protocol_message session p m written in
      let (kind, _, _, recipient) = (htss_round2_from_protocol_message-ok_iff m p).0 read in
      rw written (
        drain_packages-left session _ htss_round2_from_protocol_message c m earlier rest
          (rw ((str_eq_iff m.session_id session).1 (sent-session session p m written)) (
            rw ((kind_eq_iff m.kind htss_dkg_round2).1 kind)
              (rw recipient (==_ne p.recipient other different))))
          h)
