-- ===== src/Nostr/Delivered.antt =====
-- crates/dkgkit-nostr/src/live.rs: a published message reaches the inbound buffer of its recipient.
use dkgkit.Prelude.{
  ℕ, ◌≤◌, ◌≡◌, refl, sym, ap, ◌∙◌, true, false, List, [], ◌∷◌, ◌++◌, String, Option, none, some,
  any, ==_iff, arith,
}
use dkgkit.Core.Error.{ok, >>=-eq-ok}
use dkgkit.Core.Ids.{ParticipantId}
use dkgkit.Core.Message.{ProtocolMessage, as_str, is_for}
use dkgkit.Messages.{Codec, or_serialization}
use dkgkit.Messages.Checks.{ok_injective}
use dkgkit.Nostr.{Utf8, NostrEnvelopeEvent, encode_json, from_protocol_message, to_protocol_message}
use dkgkit.Nostr.Envelope.{IsMetadata, to_protocol_message-from_protocol_message}
use dkgkit.Nostr.Live.{
  NostrSdk, parse_recipient, get_pubkey, LiveNostrTransportConfig, is_addressed, read_event,
  handle_inbound_event, send_to, outgoing,
}
use dkgkit.Nostr.Relayed.{
  envelope_of, event_of, recipient-none, recipient-some, read-sent, open-send_to,
}

module _ ⦃J : Codec ProtocolMessage⦄ ⦃U : Utf8⦄ where
  from_protocol_message-envelope_of :
      (m : ProtocolMessage) (e : NostrEnvelopeEvent)
      → from_protocol_message m ≡ ok e
      → (plain : String) × (e ≡ envelope_of m m.recipient plain)
  unfolding from_protocol_message
  from_protocol_message-envelope_of m e h =
      let (bytes, _, h1) = >>=-eq-ok (encode_json m) _ h in
      let (plain, _, h2) = >>=-eq-ok (or_serialization (U.from_utf8 bytes)) _ h1 in
      (plain, sym (ok_injective h2))

  is_for_sound :
      (m : ProtocolMessage) (self_id r : ParticipantId)
      → is_for m self_id ≡ true
      → m.recipient ≡ some r
      → r ≡ self_id
  unfolding is_for
  is_for_sound m self_id r h e = ground arith

  module _ (N : NostrSdk) (cfg : LiveNostrTransportConfig N) (receiver : N.Keys)
      (self_id : ParticipantId) (m : ProtocolMessage) (plain sent : String) (id : N.EventId)
      (event_tags : List (List String)) where
    read-relayed :
        (recipient : Option ℕ)
        → ((r : ℕ) → recipient ≡ some r → r ≡ self_id)
        → m.sender ≤ 65535
        → self_id ≤ 65535
        → get_pubkey N cfg.directory self_id ≡ some (N.public_key receiver)
        → to_protocol_message (envelope_of m recipient plain) ≡ ok m
        → send_to N cfg m.kind (envelope_of m recipient plain) recipient ≡ ok (sent, event_tags)
        → read_event N receiver self_id (event_of N id (N.public_key cfg.keys) event_tags sent)
          ≡ some m
    read-relayed none fits small small_self known read h =
        let (to, same, opened) =
          open-send_to N cfg receiver m plain sent id event_tags none (λ r e. absurd (cc e)) h in
        let tag = recipient-none N m cfg.vault_tag plain sent id (N.public_key cfg.keys) to in
        ap (λ t. read_event N receiver self_id (event_of N id (N.public_key cfg.keys) t sent)) same
        ∙ read-sent N m cfg.vault_tag plain sent id (N.public_key cfg.keys) receiver self_id none to
            small (ap (parse_recipient N) tag) (ap (is_addressed N self_id) tag) opened read
    read-relayed (some r) fits small small_self known read h =
        let own : r ≡ self_id = fits r refl in
        let number = N.parse_u16-to_string r (omega arith) in
        let (to, same, opened) =
          open-send_to N cfg receiver m plain sent id event_tags (some r)
            (λ r' e. ap (get_pubkey N cfg.directory) (fits r' e) ∙ known) h in
        let tag = recipient-some N m cfg.vault_tag plain sent id (N.public_key cfg.keys) r to in
        ap (λ t. read_event N receiver self_id (event_of N id (N.public_key cfg.keys) t sent)) same
        ∙ read-sent N m cfg.vault_tag plain sent id (N.public_key cfg.keys) receiver self_id
            (some r) to small (ap (parse_recipient N) tag ∙ rw number)
            (ap (is_addressed N self_id) tag ∙ rw (number, is_addressed) ((==_iff r self_id).1 own))
            opened read

  -- What `publish` hands to the relay for a message with proper metadata, signed by the publisher, is
  -- put into the inbound buffer of a participant that the message is for, as that message, when the
  -- event was not seen before, the ids fit u16, and the publisher's directory has the participant's
  -- key.
  pub handle_inbound_event-outgoing :
      (N : NostrSdk) (cfg : LiveNostrTransportConfig N) (receiver : N.Keys)
      (self_id : ParticipantId) (m : ProtocolMessage) (sent : String)
      (event_tags : List (List String)) (id : N.EventId) (seen : List N.EventId)
      (inbound : List ProtocolMessage)
      → IsMetadata m.session_id m.sender m.recipient (as_str m.kind)
      → m.sender ≤ 65535
      → self_id ≤ 65535
      → is_for m self_id ≡ true
      → get_pubkey N cfg.directory self_id ≡ some (N.public_key receiver)
      → outgoing N cfg m ≡ ok (sent, event_tags)
      → any (N.same_id id) seen ≡ false
      → handle_inbound_event N receiver self_id
          (event_of N id (N.public_key cfg.keys) event_tags sent)
          (seen, inbound)
        ≡ (id ∷ seen, inbound ++ m ∷ [])
  unfolding outgoing handle_inbound_event
  handle_inbound_event-outgoing N cfg receiver self_id m sent event_tags id seen inbound proper
        small small_self addressed known h unseen =
      let (e, made, h1) = >>=-eq-ok (from_protocol_message m) _ h in
      let (plain, same) = from_protocol_message-envelope_of m e made in
      let read =
        ap to_protocol_message (sym same)
        ∙ to_protocol_message-from_protocol_message m e proper made in
      let delivered =
        read-relayed N cfg receiver self_id m plain sent id event_tags m.recipient
          (λ r. is_for_sound m self_id r addressed) small small_self known read
          (ap (λ t. send_to N cfg m.kind t m.recipient) (sym same) ∙ h1) in
      rw unseen (rw delivered)
