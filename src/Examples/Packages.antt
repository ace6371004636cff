-- ===== src/Examples/Packages.antt =====
-- The eight packages written into messages and read back.
use dkgkit.Prelude.{◌≡◌, refl, [], ◌∷◌, some, ◌↔◌}
use dkgkit.Core.Error.{ok}
use dkgkit.Core.Message.{
  ProtocolMessage, broadcast, direct, frost_dkg_round1, frost_dkg_round2, frost_signing_nonce,
  frost_signature_share, htss_dkg_round1, htss_dkg_round2, htss_signing_nonce, htss_signature_share,
}
use dkgkit.Curve.Five.{padding}
use dkgkit.Htss.Dkg.{HtssDkgRound1Package, HtssDkgRound2Package}
use dkgkit.Htss.Nonces.{HtssNoncePackage, HtssSignatureSharePackage}
use dkgkit.Messages.{encode_payload, decode_payload}
use dkgkit.Messages.Frost.{
  Round1Package, Round2Package, NoncePackage, SignatureSharePackage, round1_to_protocol_message,
  round1_from_protocol_message, round2_to_protocol_message, round2_from_protocol_message,
  nonce_to_protocol_message, nonce_from_protocol_message, signature_share_to_protocol_message,
  signature_share_from_protocol_message,
}
use dkgkit.Messages.Htss.{
  htss_round1_to_protocol_message, htss_round1_from_protocol_message,
  htss_round2_to_protocol_message, htss_round2_from_protocol_message,
  htss_nonce_to_protocol_message, htss_nonce_from_protocol_message,
  htss_signature_share_to_protocol_message, htss_signature_share_from_protocol_message,
}
use dkgkit.Messages.Accepted.{round2_from_protocol_message-ok_iff}
use dkgkit.Messages.RoundTrip.{frost_packages_round_trip, htss_packages_round_trip}
use dkgkit.Examples.Codecs.{
  htss_nonce_codec, htss_signature_share_codec, nonce_codec, htss_round2_codec, round1_codec,
  round2_codec, htss_round1_codec, signature_share_codec,
}

abbrev first_package : Round1Package
first_package = record { participant_id = 1; bytes = 7 ∷ [] }

abbrev second_package : Round2Package
second_package = record { sender = 1; recipient = 2; bytes = 7 ∷ [] }

abbrev own_nonce : NoncePackage
own_nonce = record { participant_id = 1; signing_session_id = "s"; public_nonce_bytes = 7 ∷ [] }

abbrev own_share : SignatureSharePackage
own_share = record {
  participant_id = 1;
  signing_session_id = "s";
  public_nonce_bytes = [];
  signature_share_bytes = 7 ∷ [];
}

abbrev round2_message : ProtocolMessage
round2_message = direct "s" 1 2 frost_dkg_round2 (1 ∷ 2 ∷ 7 ∷ [])

frost_packages_round_trip_example :
    (round1_from_protocol_message (broadcast "s" 1 frost_dkg_round1 (1 ∷ 7 ∷ []))
      ≡ ok first_package)
    × (round2_from_protocol_message round2_message ≡ ok second_package)
    × (nonce_from_protocol_message (broadcast "s" 1 frost_signing_nonce (1 ∷ 7 ∷ []))
        ≡ ok own_nonce)
    × (signature_share_from_protocol_message (broadcast "s" 1 frost_signature_share (1 ∷ 7 ∷ []))
        ≡ ok own_share)
unfolding round1_to_protocol_message round2_to_protocol_message nonce_to_protocol_message
    signature_share_to_protocol_message encode_payload
frost_packages_round_trip_example =
    frost_packages_round_trip "s" first_package second_package own_nonce own_share
      (broadcast "s" 1 frost_dkg_round1 (1 ∷ 7 ∷ [])) round2_message
      (broadcast "s" 1 frost_signing_nonce (1 ∷ 7 ∷ []))
      (broadcast "s" 1 frost_signature_share (1 ∷ 7 ∷ [])) refl refl refl refl

round2_from_protocol_message-ok_iff_example :
    (round2_from_protocol_message round2_message ≡ ok second_package) ↔ (
      (round2_message.kind ≡ frost_dkg_round2)
      × (decode_payload round2_message.payload ≡ ok second_package)
      × (second_package.sender ≡ round2_message.sender)
      × (round2_message.recipient ≡ some second_package.recipient))
round2_from_protocol_message-ok_iff_example =
    round2_from_protocol_message-ok_iff round2_message second_package

abbrev htss_round1 : HtssDkgRound1Package
htss_round1 = record { participant_id = 1; rank = 0; commitment_bytes = [] }

abbrev htss_round2 : HtssDkgRound2Package
htss_round2 = record { sender = 1; recipient = 2; recipient_rank = 1; share_value_bytes = 3 ∷ [] }

abbrev htss_own_nonce : HtssNoncePackage
htss_own_nonce = record {
  participant_id = 1;
  signing_session_id = "s";
  public_nonce_bytes = 1 ∷ padding 32;
}

abbrev htss_share : HtssSignatureSharePackage
htss_share = record { participant_id = 1; signing_session_id = "s"; signature_share_bytes = 7 ∷ [] }

htss_packages_round_trip_example :
    (htss_round1_from_protocol_message (broadcast "s" 1 htss_dkg_round1 (1 ∷ 0 ∷ []))
      ≡ ok htss_round1)
    × (htss_round2_from_protocol_message (direct "s" 1 2 htss_dkg_round2 (1 ∷ 2 ∷ 1 ∷ 3 ∷ []))
        ≡ ok htss_round2)
    × (htss_nonce_from_protocol_message (broadcast "s" 1 htss_signing_nonce (1 ∷ 1 ∷ padding 32))
        ≡ ok htss_own_nonce)
    × (htss_signature_share_from_protocol_message
          (broadcast "s" 1 htss_signature_share (1 ∷ 7 ∷ []))
        ≡ ok htss_share)
unfolding htss_round1_to_protocol_message htss_round2_to_protocol_message
    htss_nonce_to_protocol_message htss_signature_share_to_protocol_message encode_payload
htss_packages_round_trip_example =
    htss_packages_round_trip "s" htss_round1 htss_round2 htss_own_nonce htss_share
      (broadcast "s" 1 htss_dkg_round1 (1 ∷ 0 ∷ []))
      (direct "s" 1 2 htss_dkg_round2 (1 ∷ 2 ∷ 1 ∷ 3 ∷ []))
      (broadcast "s" 1 htss_signing_nonce (1 ∷ 1 ∷ padding 32))
      (broadcast "s" 1 htss_signature_share (1 ∷ 7 ∷ [])) refl refl refl refl refl
