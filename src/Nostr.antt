-- ===== src/Nostr.antt =====
-- crates/dkgkit-nostr/src/lib.rs: the envelope event of a message, and the placeholder NostrTransport.
-- The JSON of a message and UTF-8 are interfaces.
pub mod Envelope
pub mod Local
pub mod Refinement
pub mod Live
pub mod Relayed
pub mod Delivered
use dkgkit.Prelude.{
  ℕ, ◌≡◌, ◌⊎◌, inl, inr, Bool, true, false, not, List, [], ◌∷◌, ◌++◌, String, Option, none, some,
  ◌==◌, str_eq,
}
use dkgkit.Core.Error.{
  num, text, protocol, empty_message_kind, not_implemented, Result, ok, err, ◌>>=◌, ◌>>◌, fail_if,
}
use dkgkit.Core.Ids.{SessionId, ParticipantId, is_blank, new_session_id, new_participant_id}
use dkgkit.Core.Message.{ProtocolMessage, ProtocolMessageKind, custom, as_str, kind_from}
use dkgkit.Messages.{Codec, encode_payload, decode_payload, or_serialization}
use dkgkit.Scalar.{Bytes}

-- `String::from_utf8` and `as_bytes`
pub record Utf8 : Type 0 where
  -- The text, or the text of the error.
  pub from_utf8 : Bytes → String ⊎ String
  pub as_bytes : String → Bytes
  pub as_bytes-from_utf8 : (b : Bytes) (s : String) → from_utf8 b ≡ inr s → as_bytes s ≡ b

abbrev pub dkgkit_nostr_event_kind : ℕ
dkgkit_nostr_event_kind = 30333

abbrev pub dkgkit_nostr_app_tag : String
dkgkit_nostr_app_tag = "dkgkit"

pub record NostrEnvelopeEvent : Type 0 where
  pub kind : ℕ
  pub app : String
  pub session_id : String
  pub sender : ℕ
  pub recipient : Option ℕ
  pub message_kind : String
  pub content : String

-- A custom kind whose name is blank.
unfoldable pub is_blank_custom : ProtocolMessageKind → Bool
unfolding is_blank
is_blank_custom (custom value) = is_blank value
is_blank_custom kind = false

-- `if let Some(recipient) = self.recipient { ParticipantId::new(recipient)?; }`
unfoldable pub check_recipient : Option ℕ → Result (Unit {0})
unfolding new_participant_id
check_recipient none = ok tt
check_recipient (some recipient) = new_participant_id recipient >> ok tt

unfoldable pub validate_metadata : NostrEnvelopeEvent → Result (Unit {0})
unfolding check_recipient is_blank_custom new_session_id new_participant_id kind_from
validate_metadata event = do
  fail_if (not (event.kind == dkgkit_nostr_event_kind)) (
      protocol "unexpected Nostr event kind: expected {}, got {}"
        (num dkgkit_nostr_event_kind ∷ num event.kind ∷ []))
  fail_if (not (str_eq event.app dkgkit_nostr_app_tag)) (
      protocol "unexpected Nostr app tag: expected {}, got {}"
        (text dkgkit_nostr_app_tag ∷ text event.app ∷ []))
  new_session_id event.session_id
  new_participant_id event.sender
  check_recipient event.recipient
  fail_if (is_blank_custom (kind_from event.message_kind)) empty_message_kind

-- `==` on optional ids.
abbrev pub option_eq : Option ℕ → Option ℕ → Bool
option_eq none none = true
option_eq none (some b) = false
option_eq (some a) none = false
option_eq (some a) (some b) = a == b

abbrev recipient_tag : (ℕ → String) → Option ℕ → List (List String)
recipient_tag to_string none = []
recipient_tag to_string (some recipient) = ("recipient" ∷ to_string recipient ∷ []) ∷ []

-- The first argument is `to_string`.
unfoldable pub tags : (ℕ → String) → NostrEnvelopeEvent → List (List String)
tags to_string event =
    (("app" ∷ event.app ∷ [])
      ∷ ("session" ∷ event.session_id ∷ [])
      ∷ ("sender" ∷ to_string event.sender ∷ [])
      ∷ ("message_kind" ∷ event.message_kind ∷ [])
      ∷ [])
    ++ recipient_tag to_string event.recipient

module _ ⦃J : Codec ProtocolMessage⦄ ⦃U : Utf8⦄ where
  -- `ProtocolMessage::encode_json` and `decode_json`
  abbrev pub encode_json : ProtocolMessage → Result Bytes
  encode_json message = or_serialization (J.encode message)

  abbrev pub decode_json : Bytes → Result ProtocolMessage
  decode_json bytes = or_serialization (J.decode bytes)

  unfoldable pub from_protocol_message : ProtocolMessage → Result NostrEnvelopeEvent
  unfolding as_str
  from_protocol_message message = do
    bytes ← encode_json message
    content ← or_serialization (U.from_utf8 bytes)
    ok (record {
      kind = dkgkit_nostr_event_kind;
      app = dkgkit_nostr_app_tag;
      session_id = message.session_id;
      sender = message.sender;
      recipient = message.recipient;
      message_kind = as_str message.kind;
      content = content;
    })

  unfoldable pub to_protocol_message : NostrEnvelopeEvent → Result ProtocolMessage
  unfolding validate_metadata as_str
  to_protocol_message event = do
    validate_metadata event
    message ← decode_json (U.as_bytes event.content)
    fail_if (not (str_eq message.session_id event.session_id))
        (protocol "Nostr event session tag does not match message content" [])
    fail_if (not (message.sender == event.sender))
        (protocol "Nostr event sender tag does not match message content" [])
    fail_if (not (option_eq message.recipient event.recipient))
        (protocol "Nostr event recipient tag does not match message content" [])
    fail_if (not (str_eq (as_str message.kind) event.message_kind))
        (protocol "Nostr event kind tag does not match message content" [])
    ok message
