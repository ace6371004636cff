-- ===== src/Examples/Exchange.antt =====
-- Packages written into messages, published and drained.
use dkgkit.Prelude.{◌≡◌, refl, [], ◌∷◌, none, some, true, false, All, length, ◌↔◌}
use dkgkit.Core.Error.{DkgKitError, protocol, num, ok, err}
use dkgkit.Core.Message.{ProtocolMessage, broadcast, direct, htss_dkg_round2, htss_signing_nonce}
use dkgkit.Curve.Five.{padding}
use dkgkit.Htss.Dkg.{HtssDkgRound2Package}
use dkgkit.Htss.Nonces.{HtssNoncePackage}
use dkgkit.Messages.{encode_payload, decode_payload, kind_eq, require_kind, require_broadcast}
use dkgkit.Messages.Htss.{
  htss_round2_to_protocol_message, htss_nonce_to_protocol_message, htss_nonce_from_protocol_message,
}
use dkgkit.Messages.Accepted.{htss_nonce_from_protocol_message-ok_iff}
use dkgkit.Transport.{MemoryTransport, retain_loop, drain_matching}
use dkgkit.Transport.Drain.{is_taken}
use dkgkit.Transport.Service.{memory_transport}
use dkgkit.Sdk.Coordinator.{
  FrostCoordinator, drain_packages, publish_htss_dkg_round2, drain_htss_dkg_round2_for,
  publish_htss_nonce, drain_htss_nonces,
}
use dkgkit.Sdk.Exchange.{
  drain_htss_nonces-publish_htss_nonce, drain_htss_dkg_round2_for-publish_htss_dkg_round2,
  drain_htss_dkg_round2_for-other,
}
use dkgkit.Sdk.Failure.{drain_htss_nonces-err}
use dkgkit.Examples.Codecs.{
  htss_nonce_codec, htss_signature_share_codec, nonce_codec, htss_round2_codec, round1_codec,
  round2_codec, htss_round1_codec, signature_share_codec,
}

abbrev nonce_package : HtssNoncePackage
nonce_package = record {
  participant_id = 1;
  signing_session_id = "s";
  public_nonce_bytes = 1 ∷ padding 32;
}

abbrev nonce_message : ProtocolMessage
nonce_message = record {
  protocol_version = "dkgkit/0.1";
  session_id = "s";
  sender = 1;
  recipient = none;
  kind = htss_signing_nonce;
  payload = 1 ∷ 1 ∷ padding 32;
}

nonce_written : htss_nonce_to_protocol_message nonce_package ≡ ok nonce_message
unfolding htss_nonce_to_protocol_message encode_payload broadcast
nonce_written = refl

htss_nonce_from_protocol_message-ok_iff_example :
    (htss_nonce_from_protocol_message nonce_message ≡ ok nonce_package) ↔ (
      (nonce_message.kind ≡ htss_signing_nonce)
      × (nonce_message.recipient ≡ none)
      × (decode_payload nonce_message.payload ≡ ok nonce_package)
      × (nonce_package.participant_id ≡ nonce_message.sender)
      × (nonce_package.signing_session_id ≡ nonce_message.session_id)
      × (length nonce_package.public_nonce_bytes ≡ 33))
htss_nonce_from_protocol_message-ok_iff_example =
    htss_nonce_from_protocol_message-ok_iff nonce_message nonce_package

-- A coordinator with nothing in its mailbox.
abbrev idle : FrostCoordinator MemoryTransport
idle = record { transport = record { connected = true; messages = [] } }

drain_htss_nonces-publish_htss_nonce_example :
    drain_htss_nonces "s" (publish_htss_nonce nonce_package idle).1
    ≡ (ok (nonce_package ∷ []), idle)
unfolding drain_htss_nonces drain_packages drain_matching retain_loop
drain_htss_nonces-publish_htss_nonce_example =
    drain_htss_nonces-publish_htss_nonce idle idle nonce_package nonce_message [] refl nonce_written
      refl

abbrev direct_package : HtssDkgRound2Package
direct_package = record {
  sender = 1;
  recipient = 2;
  recipient_rank = 1;
  share_value_bytes = 3 ∷ [];
}

abbrev direct_message : ProtocolMessage
direct_message = record {
  protocol_version = "dkgkit/0.1";
  session_id = "s";
  sender = 1;
  recipient = some 2;
  kind = htss_dkg_round2;
  payload = 1 ∷ 2 ∷ 1 ∷ 3 ∷ [];
}

direct_written : htss_round2_to_protocol_message "s" direct_package ≡ ok direct_message
unfolding htss_round2_to_protocol_message encode_payload direct
direct_written = refl

drain_htss_dkg_round2_for-publish_htss_dkg_round2_example :
    drain_htss_dkg_round2_for "s" 2 (publish_htss_dkg_round2 "s" direct_package idle).1
    ≡ (ok (direct_package ∷ []), idle)
unfolding drain_htss_dkg_round2_for drain_packages drain_matching retain_loop
drain_htss_dkg_round2_for-publish_htss_dkg_round2_example =
    drain_htss_dkg_round2_for-publish_htss_dkg_round2 idle idle "s" direct_package direct_message []
      direct_written refl

drain_htss_dkg_round2_for-other_example :
    drain_htss_dkg_round2_for "s" 3 (publish_htss_dkg_round2 "s" direct_package idle).1
    ≡ (ok [], (publish_htss_dkg_round2 "s" direct_package idle).1)
unfolding drain_htss_dkg_round2_for drain_packages drain_matching retain_loop
drain_htss_dkg_round2_for-other_example =
    drain_htss_dkg_round2_for-other idle idle "s" direct_package direct_message 3 []
      (λ e. absurd (cc e)) direct_written refl

-- Participant 2 sends the nonce of participant 1, between two messages of its own.
abbrev forged_message : ProtocolMessage
forged_message = record nonce_message { sender = 2 }

abbrev crowded : FrostCoordinator MemoryTransport
crowded = record {
  transport = record {
    connected = true;
    messages = nonce_message ∷ forged_message ∷ nonce_message ∷ [];
  };
}

forged_refused :
    htss_nonce_from_protocol_message forged_message
    ≡ err (protocol "HTSS nonce sender mismatch: envelope={}, payload={}" (num 2 ∷ num 1 ∷ []))
unfolding htss_nonce_from_protocol_message require_kind kind_eq require_broadcast decode_payload
forged_refused = refl

drain_htss_nonces-err_example :
    (e' : DkgKitError) × ((drain_htss_nonces "s" crowded).0 ≡ err e')
    × All
        (λ x. is_taken "s" (λ y. kind_eq y.kind htss_signing_nonce) x ≡ false)
        (((drain_htss_nonces "s" crowded).1).transport).messages
drain_htss_nonces-err_example =
    drain_htss_nonces-err crowded "s" (nonce_message ∷ []) forged_message (nonce_message ∷ [])
      (protocol "HTSS nonce sender mismatch: envelope={}, payload={}" (num 2 ∷ num 1 ∷ [])) refl
      refl refl forged_refused
