-- ===== src/Messages/RoundTrip.antt =====
-- crates/dkgkit-frost/src/lib.rs: packages that were written into messages are read back.
use dkgkit.Prelude.{◌≡◌, refl, sym, ap, ◌∙◌, length}
use dkgkit.Core.Error.{ok, >>=-eq-ok}
use dkgkit.Core.Ids.{SessionId}
use dkgkit.Core.Message.{ProtocolMessage, broadcast, direct}
use dkgkit.Htss.Dkg.{HtssDkgRound1Package, HtssDkgRound2Package}
use dkgkit.Htss.Nonces.{HtssNoncePackage, HtssSignatureSharePackage}
use dkgkit.Messages.{Codec, encode_payload}
use dkgkit.Messages.Kinds.{decode_payload-encode_payload}
use dkgkit.Messages.Frost.{
  Round1Package, Round2Package, NoncePackage, SignatureSharePackage, round1_to_protocol_message,
  round1_from_protocol_message, round2_to_protocol_message, round2_from_protocol_message,
  nonce_to_protocol_message, nonce_from_protocol_message, signature_share_to_protocol_message,
  signature_share_from_protocol_message,
}
use dkgkit.Messages.Htss.{
  htss_round1_to_protocol_message, htss_round1_from_protocol_message,
  htss_round2_to_protocol_message, htss_round2_from_protocol_message,
  htss_nonce_to_protocol_message, htss_nonce_from_protocol_message,
  htss_signature_share_to_protocol_message, htss_signature_share_from_protocol_message,
}
use dkgkit.Messages.Checks.{ok_injective}
use dkgkit.Messages.Accepted.{
  round1_from_protocol_message-ok_iff, round2_from_protocol_message-ok_iff,
  nonce_from_protocol_message-ok_iff, signature_share_from_protocol_message-ok_iff,
  htss_round1_from_protocol_message-ok_iff, htss_round2_from_protocol_message-ok_iff,
  htss_nonce_from_protocol_message-ok_iff, htss_signature_share_from_protocol_message-ok_iff,
}

module _ ⦃J : Codec Round1Package⦄ where
  pub round1_from_protocol_message-to_protocol_message :
      (session : SessionId) (p : Round1Package) (m : ProtocolMessage)
      → round1_to_protocol_message session p ≡ ok m
      → round1_from_protocol_message m ≡ ok p
  unfolding round1_to_protocol_message broadcast
  round1_from_protocol_message-to_protocol_message session p m h =
      let (bytes, encoded, e) = >>=-eq-ok (encode_payload p) _ h in
      let decoded = decode_payload-encode_payload p bytes encoded in
      ap round1_from_protocol_message (sym (ok_injective e))
      ∙ (round1_from_protocol_message-ok_iff _ p).1 (refl, refl, decoded, refl)

module _ ⦃J : Codec Round2Package⦄ where
  pub round2_from_protocol_message-to_protocol_message :
      (session : SessionId) (p : Round2Package) (m : ProtocolMessage)
      → round2_to_protocol_message session p ≡ ok m
      → round2_from_protocol_message m ≡ ok p
  unfolding round2_to_protocol_message direct
  round2_from_protocol_message-to_protocol_message session p m h =
      let (bytes, encoded, e) = >>=-eq-ok (encode_payload p) _ h in
      let decoded = decode_payload-encode_payload p bytes encoded in
      ap round2_from_protocol_message (sym (ok_injective e))
      ∙ (round2_from_protocol_message-ok_iff _ p).1 (refl, decoded, refl, refl)

module _ ⦃J : Codec NoncePackage⦄ where
  pub nonce_from_protocol_message-to_protocol_message :
      (p : NoncePackage) (m : ProtocolMessage)
      → nonce_to_protocol_message p ≡ ok m
      → nonce_from_protocol_message m ≡ ok p
  unfolding nonce_to_protocol_message broadcast
  nonce_from_protocol_message-to_protocol_message p m h =
      let (bytes, encoded, e) = >>=-eq-ok (encode_payload p) _ h in
      let decoded = decode_payload-encode_payload p bytes encoded in
      ap nonce_from_protocol_message (sym (ok_injective e))
      ∙ (nonce_from_protocol_message-ok_iff _ p).1 (refl, refl, decoded, refl, refl)

module _ ⦃J : Codec SignatureSharePackage⦄ where
  pub signature_share_from_protocol_message-to_protocol_message :
      (p : SignatureSharePackage) (m : ProtocolMessage)
      → signature_share_to_protocol_message p ≡ ok m
      → signature_share_from_protocol_message m ≡ ok p
  unfolding signature_share_to_protocol_message broadcast
  signature_share_from_protocol_message-to_protocol_message p m h =
      let (bytes, encoded, e) = >>=-eq-ok (encode_payload p) _ h in
      let decoded = decode_payload-encode_payload p bytes encoded in
      ap signature_share_from_protocol_message (sym (ok_injective e))
      ∙ (signature_share_from_protocol_message-ok_iff _ p).1 (refl, refl, decoded, refl, refl)

module _ ⦃J : Codec HtssDkgRound1Package⦄ where
  pub htss_round1_from_protocol_message-to_protocol_message :
      (session : SessionId) (p : HtssDkgRound1Package) (m : ProtocolMessage)
      → htss_round1_to_protocol_message session p ≡ ok m
      → htss_round1_from_protocol_message m ≡ ok p
  unfolding htss_round1_to_protocol_message broadcast
  htss_round1_from_protocol_message-to_protocol_message session p m h =
      let (bytes, encoded, e) = >>=-eq-ok (encode_payload p) _ h in
      let decoded = decode_payload-encode_payload p bytes encoded in
      ap htss_round1_from_protocol_message (sym (ok_injective e))
      ∙ (htss_round1_from_protocol_message-ok_iff _ p).1 (refl, refl, decoded, refl)

module _ ⦃J : Codec HtssDkgRound2Package⦄ where
  pub htss_round2_from_protocol_message-to_protocol_message :
      (session : SessionId) (p : HtssDkgRound2Package) (m : ProtocolMessage)
      → htss_round2_to_protocol_message session p ≡ ok m
      → htss_round2_from_protocol_message m ≡ ok p
  unfolding htss_round2_to_protocol_message direct
  htss_round2_from_protocol_message-to_protocol_message session p m h =
      let (bytes, encoded, e) = >>=-eq-ok (encode_payload p) _ h in
      let decoded = decode_payload-encode_payload p bytes encoded in
      ap htss_round2_from_protocol_message (sym (ok_injective e))
      ∙ (htss_round2_from_protocol_message-ok_iff _ p).1 (refl, decoded, refl, refl)

module _ ⦃J : Codec HtssNoncePackage⦄ where
  pub htss_nonce_from_protocol_message-to_protocol_message :
      (p : HtssNoncePackage) (m : ProtocolMessage)
      → length p.public_nonce_bytes ≡ 33
      → htss_nonce_to_protocol_message p ≡ ok m
      → htss_nonce_from_protocol_message m ≡ ok p
  unfolding htss_nonce_to_protocol_message broadcast
  htss_nonce_from_protocol_message-to_protocol_message p m size h =
      let (bytes, encoded, e) = >>=-eq-ok (encode_payload p) _ h in
      let decoded = decode_payload-encode_payload p bytes encoded in
      ap htss_nonce_from_protocol_message (sym (ok_injective e))
      ∙ (htss_nonce_from_protocol_message-ok_iff _ p).1 (refl, refl, decoded, refl, refl, size)

module _ ⦃J : Codec HtssSignatureSharePackage⦄ where
  pub htss_signature_share_from_protocol_message-to_protocol_message :
      (p : HtssSignatureSharePackage) (m : ProtocolMessage)
      → htss_signature_share_to_protocol_message p ≡ ok m
      → htss_signature_share_from_protocol_message m ≡ ok p
  unfolding htss_signature_share_to_protocol_message broadcast
  htss_signature_share_from_protocol_message-to_protocol_message p m h =
      let (bytes, encoded, e) = >>=-eq-ok (encode_payload p) _ h in
      let decoded = decode_payload-encode_payload p bytes encoded in
      ap htss_signature_share_from_protocol_message (sym (ok_injective e))
      ∙ (htss_signature_share_from_protocol_message-ok_iff _ p).1 (refl, refl, decoded, refl, refl)

module _ ⦃J1 : Codec Round1Package⦄ ⦃J2 : Codec Round2Package⦄ ⦃J3 : Codec NoncePackage⦄
    ⦃J4 : Codec SignatureSharePackage⦄ where
  -- A message that one of the four FROST packages was written into is read back as that package.
  pub frost_packages_round_trip :
      (session : SessionId) (p1 : Round1Package) (p2 : Round2Package) (p3 : NoncePackage)
      (p4 : SignatureSharePackage) (m1 m2 m3 m4 : ProtocolMessage)
      → round1_to_protocol_message session p1 ≡ ok m1
      → round2_to_protocol_message session p2 ≡ ok m2
      → nonce_to_protocol_message p3 ≡ ok m3
      → signature_share_to_protocol_message p4 ≡ ok m4
      → (round1_from_protocol_message m1 ≡ ok p1)
        × (round2_from_protocol_message m2 ≡ ok p2)
        × (nonce_from_protocol_message m3 ≡ ok p3)
        × (signature_share_from_protocol_message m4 ≡ ok p4)
  frost_packages_round_trip session p1 p2 p3 p4 m1 m2 m3 m4 h1 h2 h3 h4 = (
    round1_from_protocol_message-to_protocol_message session p1 m1 h1,
    round2_from_protocol_message-to_protocol_message session p2 m2 h2,
    nonce_from_protocol_message-to_protocol_message p3 m3 h3,
    signature_share_from_protocol_message-to_protocol_message p4 m4 h4,
  )

module _ ⦃J1 : Codec HtssDkgRound1Package⦄ ⦃J2 : Codec HtssDkgRound2Package⦄
    ⦃J3 : Codec HtssNoncePackage⦄ ⦃J4 : Codec HtssSignatureSharePackage⦄ where
  -- A message that one of the four HTSS packages was written into is read back as that package, a
  -- nonce package when its nonce has 33 bytes.
  pub htss_packages_round_trip :
      (session : SessionId) (p1 : HtssDkgRound1Package) (p2 : HtssDkgRound2Package)
      (p3 : HtssNoncePackage) (p4 : HtssSignatureSharePackage) (m1 m2 m3 m4 : ProtocolMessage)
      → length p3.public_nonce_bytes ≡ 33
      → htss_round1_to_protocol_message session p1 ≡ ok m1
      → htss_round2_to_protocol_message session p2 ≡ ok m2
      → htss_nonce_to_protocol_message p3 ≡ ok m3
      → htss_signature_share_to_protocol_message p4 ≡ ok m4
      → (htss_round1_from_protocol_message m1 ≡ ok p1)
        × (htss_round2_from_protocol_message m2 ≡ ok p2)
        × (htss_nonce_from_protocol_message m3 ≡ ok p3)
        × (htss_signature_share_from_protocol_message m4 ≡ ok p4)
  htss_packages_round_trip session p1 p2 p3 p4 m1 m2 m3 m4 size h1 h2 h3 h4 = (
    htss_round1_from_protocol_message-to_protocol_message session p1 m1 h1,
    htss_round2_from_protocol_message-to_protocol_message session p2 m2 h2,
    htss_nonce_from_protocol_message-to_protocol_message p3 m3 size h3,
    htss_signature_share_from_protocol_message-to_protocol_message p4 m4 h4,
  )
