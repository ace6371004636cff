-- ===== src/Messages/Accepted.antt =====
-- crates/dkgkit-frost/src/lib.rs: the messages that `from_protocol_message` accepts.
use dkgkit.Prelude.{◌≡◌, refl, ap, ◌↔◌, [], none, some, ◌==◌, ==_iff, str_eq, str_eq_iff, length}
use dkgkit.Core.Error.{protocol, Result, ok, ◌>>◌, >>-eq-ok}
use dkgkit.Core.Message.{
  ProtocolMessage, frost_dkg_round1, frost_dkg_round2, frost_signing_nonce, frost_signature_share,
  htss_dkg_round1, htss_dkg_round2, htss_signing_nonce, htss_signature_share,
}
use dkgkit.Htss.Dkg.{HtssDkgRound1Package, HtssDkgRound2Package}
use dkgkit.Htss.Nonces.{HtssNoncePackage, HtssSignatureSharePackage, nonce_public_nonce_bytes}
use dkgkit.Messages.{Codec, decode_payload}
use dkgkit.Messages.Frost.{
  Round1Package, Round2Package, NoncePackage, SignatureSharePackage, round1_from_protocol_message,
  round2_from_protocol_message, nonce_from_protocol_message, signature_share_from_protocol_message,
}
use dkgkit.Messages.Htss.{
  htss_round1_from_protocol_message, htss_round2_from_protocol_message,
  htss_nonce_from_protocol_message, htss_signature_share_from_protocol_message,
}
use dkgkit.Messages.Checks.{guard_iff, ok_injective, broadcast_iff, direct_iff, session_iff}

module _ ⦃J : Codec Round1Package⦄ where
  pub round1_from_protocol_message-ok_iff :
      (m : ProtocolMessage) (p : Round1Package)
      → (round1_from_protocol_message m ≡ ok p) ↔ (
          (m.kind ≡ frost_dkg_round1)
          × (m.recipient ≡ none)
          × (decode_payload m.payload ≡ ok p)
          × (p.participant_id ≡ m.sender))
  unfolding round1_from_protocol_message
  round1_from_protocol_message-ok_iff m p =
      let both =
        broadcast_iff m frost_dkg_round1 (decode_payload m.payload) (λ a. a.participant_id) _ ok p
          (λ a h. ok_injective h) in
      (
        λ h. let (k, n, d, s, _) = both.0 h in (k, n, d, s),
        λ (k, n, d, s). both.1 (k, n, d, s, refl),
      )

module _ ⦃J : Codec Round2Package⦄ where
  -- `Round2Package::from_protocol_message` returns a package exactly when the message is of its kind,
  -- decodes to the package, comes from the sender and goes to the recipient that the package names.
  pub round2_from_protocol_message-ok_iff :
      (m : ProtocolMessage) (p : Round2Package)
      → (round2_from_protocol_message m ≡ ok p) ↔ (
          (m.kind ≡ frost_dkg_round2)
          × (decode_payload m.payload ≡ ok p)
          × (p.sender ≡ m.sender)
          × (m.recipient ≡ some p.recipient))
  unfolding round2_from_protocol_message
  round2_from_protocol_message-ok_iff m p =
      direct_iff m frost_dkg_round2 (decode_payload m.payload) (λ a. a.sender) (λ a. a.recipient) _
        _ p

module _ ⦃J : Codec NoncePackage⦄ where
  pub nonce_from_protocol_message-ok_iff :
      (m : ProtocolMessage) (p : NoncePackage)
      → (nonce_from_protocol_message m ≡ ok p) ↔ (
          (m.kind ≡ frost_signing_nonce)
          × (m.recipient ≡ none)
          × (decode_payload m.payload ≡ ok p)
          × (p.participant_id ≡ m.sender)
          × (p.signing_session_id ≡ m.session_id))
  unfolding nonce_from_protocol_message
  nonce_from_protocol_message-ok_iff m p =
      let session = session_iff (λ (a : NoncePackage). a.signing_session_id) m _ in
      let both =
        broadcast_iff m frost_signing_nonce (decode_payload m.payload) (λ a. a.participant_id) _ _ p
          (λ a h. ((session a p).0 h).1) in
      (
        λ h. let (k, n, d, s, l) = both.0 h in (k, n, d, s, ((session p p).0 l).0),
        λ (k, n, d, s, l). both.1 (k, n, d, s, (session p p).1 (l, refl)),
      )

module _ ⦃J : Codec SignatureSharePackage⦄ where
  pub signature_share_from_protocol_message-ok_iff :
      (m : ProtocolMessage) (p : SignatureSharePackage)
      → (signature_share_from_protocol_message m ≡ ok p) ↔ (
          (m.kind ≡ frost_signature_share)
          × (m.recipient ≡ none)
          × (decode_payload m.payload ≡ ok p)
          × (p.participant_id ≡ m.sender)
          × (p.signing_session_id ≡ m.session_id))
  unfolding signature_share_from_protocol_message
  signature_share_from_protocol_message-ok_iff m p =
      let session = session_iff (λ (a : SignatureSharePackage). a.signing_session_id) m _ in
      let both =
        broadcast_iff m frost_signature_share (decode_payload m.payload) (λ a. a.participant_id) _ _
          p (λ a h. ((session a p).0 h).1) in
      (
        λ h. let (k, n, d, s, l) = both.0 h in (k, n, d, s, ((session p p).0 l).0),
        λ (k, n, d, s, l). both.1 (k, n, d, s, (session p p).1 (l, refl)),
      )

module _ ⦃J : Codec HtssDkgRound1Package⦄ where
  pub htss_round1_from_protocol_message-ok_iff :
      (m : ProtocolMessage) (p : HtssDkgRound1Package)
      → (htss_round1_from_protocol_message m ≡ ok p) ↔ (
          (m.kind ≡ htss_dkg_round1)
          × (m.recipient ≡ none)
          × (decode_payload m.payload ≡ ok p)
          × (p.participant_id ≡ m.sender))
  unfolding htss_round1_from_protocol_message
  htss_round1_from_protocol_message-ok_iff m p =
      let both =
        broadcast_iff m htss_dkg_round1 (decode_payload m.payload) (λ a. a.participant_id) _ ok p
          (λ a h. ok_injective h) in
      (
        λ h. let (k, n, d, s, _) = both.0 h in (k, n, d, s),
        λ (k, n, d, s). both.1 (k, n, d, s, refl),
      )

module _ ⦃J : Codec HtssDkgRound2Package⦄ where
  pub htss_round2_from_protocol_message-ok_iff :
      (m : ProtocolMessage) (p : HtssDkgRound2Package)
      → (htss_round2_from_protocol_message m ≡ ok p) ↔ (
          (m.kind ≡ htss_dkg_round2)
          × (decode_payload m.payload ≡ ok p)
          × (p.sender ≡ m.sender)
          × (m.recipient ≡ some p.recipient))
  unfolding htss_round2_from_protocol_message
  htss_round2_from_protocol_message-ok_iff m p =
      direct_iff m htss_dkg_round2 (decode_payload m.payload) (λ a. a.sender) (λ a. a.recipient) _ _
        p

module _ ⦃J : Codec HtssSignatureSharePackage⦄ where
  pub htss_signature_share_from_protocol_message-ok_iff :
      (m : ProtocolMessage) (p : HtssSignatureSharePackage)
      → (htss_signature_share_from_protocol_message m ≡ ok p) ↔ (
          (m.kind ≡ htss_signature_share)
          × (m.recipient ≡ none)
          × (decode_payload m.payload ≡ ok p)
          × (p.participant_id ≡ m.sender)
          × (p.signing_session_id ≡ m.session_id))
  unfolding htss_signature_share_from_protocol_message
  htss_signature_share_from_protocol_message-ok_iff m p =
      let session = session_iff (λ (a : HtssSignatureSharePackage). a.signing_session_id) m _ in
      let both =
        broadcast_iff m htss_signature_share (decode_payload m.payload) (λ a. a.participant_id) _ _
          p (λ a h. ((session a p).0 h).1) in
      (
        λ h. let (k, n, d, s, l) = both.0 h in (k, n, d, s, ((session p p).0 l).0),
        λ (k, n, d, s, l). both.1 (k, n, d, s, (session p p).1 (l, refl)),
      )

-- The bytes of a nonce package pass exactly when there are 33 of them.
nonce_iff :
    (p q : HtssNoncePackage)
    → ((nonce_public_nonce_bytes p >> ok p) ≡ ok q) ↔ ((length p.public_nonce_bytes ≡ 33) × (p ≡ q))
unfolding nonce_public_nonce_bytes
nonce_iff p q = (
  λ h.
      let (_, hn, rest) = >>-eq-ok (nonce_public_nonce_bytes p) (ok p) h in
      let (size, _) = (guard_iff (length p.public_nonce_bytes == 33) _ _ _).0 hn in
      ((==_iff (length p.public_nonce_bytes) 33).0 size, ok_injective rest),
  λ (size, e). rw ((==_iff (length p.public_nonce_bytes) 33).1 size) (ap ok e),
)

module _ ⦃J : Codec HtssNoncePackage⦄ where
  -- `HtssNoncePackage::from_protocol_message` returns a package exactly when the message is a
  -- broadcast of its kind, decodes to the package, names the sender and the session that the package
  -- names, and the package's nonce has 33 bytes.
  pub htss_nonce_from_protocol_message-ok_iff :
      (m : ProtocolMessage) (p : HtssNoncePackage)
      → (htss_nonce_from_protocol_message m ≡ ok p) ↔ (
          (m.kind ≡ htss_signing_nonce)
          × (m.recipient ≡ none)
          × (decode_payload m.payload ≡ ok p)
          × (p.participant_id ≡ m.sender)
          × (p.signing_session_id ≡ m.session_id)
          × (length p.public_nonce_bytes ≡ 33))
  unfolding htss_nonce_from_protocol_message
  htss_nonce_from_protocol_message-ok_iff m p =
      let own : (a : HtssNoncePackage) → Result HtssNoncePackage =
        λ a. nonce_public_nonce_bytes a >> ok a in
      let session = λ (a : HtssNoncePackage).
        guard_iff (str_eq a.signing_session_id m.session_id)
          (protocol "HTSS nonce session mismatch" []) (own a) p in
      let both =
        broadcast_iff m htss_signing_nonce (decode_payload m.payload) (λ a. a.participant_id) _ _ p
          (λ a h. ((nonce_iff a p).0 ((session a).0 h).1).1) in
      (
        λ h.
            let (k, n, d, s, l) = both.0 h in
            let (same, rest) = (session p).0 l in
            (
              k,
              n,
              d,
              s,
              (str_eq_iff p.signing_session_id m.session_id).0 same,
              ((nonce_iff p p).0 rest).0,
            ),
        λ (k, n, d, s, same, size). both.1 (
          k,
          n,
          d,
          s,
          (session p).1 (
            (str_eq_iff p.signing_session_id m.session_id).1 same,
            (nonce_iff p p).1 (size, refl),
          ),
        ),
      )
