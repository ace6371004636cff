-- ===== src/Nostr/Envelope.antt =====
-- crates/dkgkit-nostr/src/lib.rs: the messages that envelope events carry.
use dkgkit.Prelude.{
  ℕ, ◌≡◌, refl, sym, ap, ◌∙◌, ◌↔◌, true, false, String, Option, none, some, ◌==◌, ==_iff, str_eq,
  str_eq_iff, arith,
}
use dkgkit.Core.Error.{ok, >>=-eq-ok, >>-eq-ok, fail_if-eq-ok}
use dkgkit.Core.Ids.{is_blank, new_session_id, new_participant_id}
use dkgkit.Core.Message.{ProtocolMessage, as_str, kind_from}
use dkgkit.Messages.{Codec, or_serialization}
use dkgkit.Messages.Kinds.{or_serialization-eq-ok}
use dkgkit.Messages.Checks.{guard_iff, ok_injective}
use dkgkit.Nostr.{
  Utf8, NostrEnvelopeEvent, dkgkit_nostr_event_kind, dkgkit_nostr_app_tag, is_blank_custom,
  check_recipient, validate_metadata, option_eq, encode_json, decode_json, from_protocol_message,
  to_protocol_message,
}

pub option_eq_iff : (a b : Option ℕ) → (option_eq a b ≡ true) ↔ (a ≡ b)
option_eq_iff none none = (λ h. refl, λ e. refl)
option_eq_iff none (some b) = (λ h. cc, λ e. cc)
option_eq_iff (some a) none = (λ h. cc, λ e. cc)
option_eq_iff (some a) (some b) = (λ h. ap some ((==_iff a b).0 h), λ e. (==_iff a b).1 (cc e))

-- The metadata that an event may carry.
pub record IsMetadata (session_id : String) (sender : ℕ) (recipient : Option ℕ)
    (message_kind : String) : Type 0 where
  pub named : is_blank session_id ≡ false
  pub from_someone : (sender == 0) ≡ false
  pub to_someone : check_recipient recipient ≡ ok tt
  pub kind_named : is_blank_custom (kind_from message_kind) ≡ false

session_iff : (s : String) → ((a : String) × (new_session_id s ≡ ok a)) ↔ (is_blank s ≡ false)
unfolding new_session_id
session_iff s = (λ (a, h). ground arith, λ h. (s, ground arith))

participant_iff : (n : ℕ) → ((a : ℕ) × (new_participant_id n ≡ ok a)) ↔ ((n == 0) ≡ false)
unfolding new_participant_id
participant_iff n = (λ (a, h). ground arith, λ h. (n, ground arith))

validate_metadata-ok_iff :
    (e : NostrEnvelopeEvent)
    → (validate_metadata e ≡ ok tt) ↔ (
        (e.kind ≡ dkgkit_nostr_event_kind)
        × (e.app ≡ dkgkit_nostr_app_tag)
        × IsMetadata e.session_id e.sender e.recipient e.message_kind)
unfolding validate_metadata
validate_metadata-ok_iff e = (
  λ h.
      let (h_kind, h1) = (guard_iff (e.kind == dkgkit_nostr_event_kind) _ _ tt).0 h in
      let (h_app, h2) = (guard_iff (str_eq e.app dkgkit_nostr_app_tag) _ _ tt).0 h1 in
      let (a, h_session, h3) = >>-eq-ok (new_session_id e.session_id) _ h2 in
      let (b, h_sender, h4) = >>-eq-ok (new_participant_id e.sender) _ h3 in
      let (_, h_recipient, h5) = >>-eq-ok (check_recipient e.recipient) _ h4 in
      (
        (==_iff e.kind dkgkit_nostr_event_kind).0 h_kind,
        (str_eq_iff e.app dkgkit_nostr_app_tag).0 h_app,
        record {
          named = (session_iff e.session_id).0 (a, h_session);
          from_someone = (participant_iff e.sender).0 (b, h_sender);
          to_someone = h_recipient;
          kind_named = fail_if-eq-ok _ _ h5;
        },
      ),
  λ (h_kind, h_app, v). rw ((==_iff e.kind dkgkit_nostr_event_kind).1 h_kind) (
      rw ((str_eq_iff e.app dkgkit_nostr_app_tag).1 h_app) (
        rw ((session_iff e.session_id).1 v.named).1 (
          rw ((participant_iff e.sender).1 v.from_someone).1 (rw v.to_someone (rw v.kind_named))))),
)

module _ ⦃J : Codec ProtocolMessage⦄ ⦃U : Utf8⦄ where
  -- The event carries the message.
  pub record IsEnvelope (e : NostrEnvelopeEvent) (m : ProtocolMessage) : Type 0 where
    pub event_kind : e.kind ≡ dkgkit_nostr_event_kind
    pub app : e.app ≡ dkgkit_nostr_app_tag
    pub metadata : IsMetadata e.session_id e.sender e.recipient e.message_kind
    pub content : decode_json (U.as_bytes e.content) ≡ ok m
    pub session : m.session_id ≡ e.session_id
    pub sender : m.sender ≡ e.sender
    pub recipient : m.recipient ≡ e.recipient
    pub kind_name : as_str m.kind ≡ e.message_kind

  -- `to_protocol_message` returns a message exactly when the event has the kind and the tag of dkgkit
  -- and proper metadata, its content decodes to the message, and the session, the sender, the
  -- recipient and the kind's name of the message are those of the event.
  pub to_protocol_message-ok_iff :
      (e : NostrEnvelopeEvent) (m : ProtocolMessage)
      → (to_protocol_message e ≡ ok m) ↔ IsEnvelope e m
  unfolding to_protocol_message
  to_protocol_message-ok_iff e m = (
    λ h.
        let (_, h_valid, h1) = >>-eq-ok (validate_metadata e) _ h in
        let (a, h_content, h2) = >>=-eq-ok (decode_json (U.as_bytes e.content)) _ h1 in
        let (h_session, h3) = (guard_iff (str_eq a.session_id e.session_id) _ _ m).0 h2 in
        let (h_sender, h4) = (guard_iff (a.sender == e.sender) _ _ m).0 h3 in
        let (h_recipient, h5) = (guard_iff (option_eq a.recipient e.recipient) _ _ m).0 h4 in
        let (h_kind, h6) = (guard_iff (str_eq (as_str a.kind) e.message_kind) _ (ok a) m).0 h5 in
        let at_m = ok_injective h6 in
        let (kind, app, v) = (validate_metadata-ok_iff e).0 h_valid in
        record {
          event_kind = kind;
          app = app;
          metadata = v;
          content = h_content ∙ h6;
          session =
              ap (λ t. t.session_id) (sym at_m)
              ∙ (str_eq_iff a.session_id e.session_id).0 h_session;
          sender = ap (λ t. t.sender) (sym at_m) ∙ (==_iff a.sender e.sender).0 h_sender;
          recipient =
              ap (λ t. t.recipient) (sym at_m)
              ∙ (option_eq_iff a.recipient e.recipient).0 h_recipient;
          kind_name =
              ap (λ t. as_str t.kind) (sym at_m)
              ∙ (str_eq_iff (as_str a.kind) e.message_kind).0 h_kind;
        },
    λ v. rw ((validate_metadata-ok_iff e).1 (v.event_kind, v.app, v.metadata)) (
        rw v.content (
          rw ((str_eq_iff m.session_id e.session_id).1 v.session) (
            rw ((==_iff m.sender e.sender).1 v.sender) (
              rw ((option_eq_iff m.recipient e.recipient).1 v.recipient)
                (rw ((str_eq_iff (as_str m.kind) e.message_kind).1 v.kind_name)))))),
  )

  -- A message with proper metadata that was put into an event is read back from it.
  pub to_protocol_message-from_protocol_message :
      (m : ProtocolMessage) (e : NostrEnvelopeEvent)
      → IsMetadata m.session_id m.sender m.recipient (as_str m.kind)
      → from_protocol_message m ≡ ok e
      → to_protocol_message e ≡ ok m
  unfolding from_protocol_message
  to_protocol_message-from_protocol_message m e proper h =
      let (bytes, h_bytes, h1) = >>=-eq-ok (encode_json m) _ h in
      let (content, h_content, h2) = >>=-eq-ok (or_serialization (U.from_utf8 bytes)) _ h1 in
      ap to_protocol_message (sym (ok_injective h2))
      ∙ (to_protocol_message-ok_iff _ m).1 (record {
        event_kind = refl;
        app = refl;
        metadata = proper;
        content =
            ap decode_json (
              U.as_bytes-from_utf8 bytes content
                (or_serialization-eq-ok (U.from_utf8 bytes) h_content))
            ∙ ap or_serialization
                (J.decode-encode m bytes (or_serialization-eq-ok (J.encode m) h_bytes));
        session = refl;
        sender = refl;
        recipient = refl;
        kind_name = refl;
      })
