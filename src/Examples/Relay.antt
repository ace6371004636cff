-- ===== src/Examples/Relay.antt =====
-- The Nostr transports with one message that can be encoded.
use dkgkit.Prelude.{
  ◌≡◌, refl, sym, ap, ◌∙◌, ◌↔◌, ◌⊎◌, inl, inr, Bool, true, false, ◌&&◌, [], ◌∷◌, String, some, ◌==◌,
  ==_iff, str_eq, str_eq_iff,
}
use dkgkit.Core.Error.{DkgKitError, protocol, ok, err}
use dkgkit.Core.Ids.{is_blank, new_session_id, new_participant_id}
use dkgkit.Core.Message.{ProtocolMessage, frost_dkg_round2, as_str, kind_from}
use dkgkit.Messages.{Codec, kind_eq}
use dkgkit.Messages.Kinds.{kind_eq_iff}
use dkgkit.Scalar.{Bytes}
use dkgkit.Nostr.{
  Utf8, NostrEnvelopeEvent, is_blank_custom, check_recipient, validate_metadata, option_eq,
  from_protocol_message, to_protocol_message,
}
use dkgkit.Nostr.Envelope.{
  option_eq_iff, IsMetadata, IsEnvelope, to_protocol_message-ok_iff,
  to_protocol_message-from_protocol_message,
}
use dkgkit.Nostr.Local.{LocalNostrEventTransport, drain_events, local_nostr_transport}
use dkgkit.Nostr.Refinement.{Represents, local_nostr_transport-refines, drain_events-err}
use dkgkit.Transport.{MemoryTransport}
use dkgkit.Transport.Service.{memory_transport}
use dkgkit.Examples.Codecs.{when, when-inr, is_nil, is_nil_sound, both_hold}

abbrev pub message : ProtocolMessage
message = record {
  protocol_version = "dkgkit/0.1";
  session_id = "s";
  sender = 1;
  recipient = some 2;
  kind = frost_dkg_round2;
  payload = [];
}

abbrev is_message : ProtocolMessage → Bool
is_message m =
    str_eq m.protocol_version "dkgkit/0.1"
    && (str_eq m.session_id "s"
        && ((m.sender == 1)
            && (option_eq m.recipient (some 2)
                && (kind_eq m.kind frost_dkg_round2 && is_nil m.payload))))

pub is_message_sound : (m : ProtocolMessage) → is_message m ≡ true → message ≡ m
is_message_sound m h =
    let (version, h1) = both_hold (str_eq m.protocol_version "dkgkit/0.1") _ h in
    let (session, h2) = both_hold (str_eq m.session_id "s") _ h1 in
    let (sender, h3) = both_hold (m.sender == 1) _ h2 in
    let (recipient, h4) = both_hold (option_eq m.recipient (some 2)) _ h3 in
    let (kind, payload) = both_hold (kind_eq m.kind frost_dkg_round2) _ h4 in
    let e1 = (str_eq_iff m.protocol_version "dkgkit/0.1").0 version in
    let e2 = (str_eq_iff m.session_id "s").0 session in
    let e3 = (==_iff m.sender 1).0 sender in
    let e4 = (option_eq_iff m.recipient (some 2)).0 recipient in
    let e5 = (kind_eq_iff m.kind frost_dkg_round2).0 kind in
    let e6 = is_nil_sound m.payload payload in cc (e1, e2, e3, e4, e5, e6)

abbrev only_message : Bytes → String ⊎ ProtocolMessage
only_message [] = inr message
only_message (b ∷ bs) = inl "unknown"

instance abbrev pub message_codec : Codec ProtocolMessage
message_codec = record {
  encode = λ m. when (is_message m) [];
  decode = only_message;
  decode-encode = λ m b h.
      let (same, written) = when-inr (is_message m) [] h in
      ap only_message (sym written) ∙ ap (λ (t : ProtocolMessage). inr t) (is_message_sound m same);
}

abbrev text_of : Bytes → String ⊎ String
text_of [] = inr ""
text_of (b ∷ bs) = inl "unknown"

pub text_of_sound : (b : Bytes) (s : String) → text_of b ≡ inr s → [] ≡ b
text_of_sound [] s h = refl
text_of_sound (x ∷ b) s h = cc

instance abbrev pub utf8 : Utf8
utf8 = record { from_utf8 = text_of; as_bytes = λ s. []; as_bytes-from_utf8 = text_of_sound }

abbrev pub event : NostrEnvelopeEvent
event = record {
  kind = 30333;
  app = "dkgkit";
  session_id = "s";
  sender = 1;
  recipient = some 2;
  message_kind = "frost_dkg_round2";
  content = "";
}

pub proper : IsMetadata "s" 1 (some 2) "frost_dkg_round2"
unfolding is_blank check_recipient new_participant_id is_blank_custom kind_from
proper = record { named = refl; from_someone = refl; to_someone = refl; kind_named = refl }

pub written : from_protocol_message message ≡ ok event
unfolding from_protocol_message as_str kind_eq
written = refl

to_protocol_message-from_protocol_message_example : to_protocol_message event ≡ ok message
unfolding as_str
to_protocol_message-from_protocol_message_example =
    to_protocol_message-from_protocol_message message event proper written

to_protocol_message-ok_iff_example :
    (to_protocol_message event ≡ ok message) ↔ IsEnvelope event message
to_protocol_message-ok_iff_example = to_protocol_message-ok_iff event message

abbrev empty_relay : LocalNostrEventTransport
empty_relay = record { connected = false; events = [] }

abbrev empty_memory : MemoryTransport
empty_memory = record { connected = false; messages = [] }

nothing_stored : Represents empty_relay empty_memory
nothing_stored = record { same_connection = refl; readable = refl }

local_nostr_transport-refines_example :
    Represents
      (local_nostr_transport.connect empty_relay).1
      (memory_transport.connect empty_memory).1
    × Represents
        (local_nostr_transport.disconnect empty_relay).1
        (memory_transport.disconnect empty_memory).1
    × ((local_nostr_transport.publish message empty_relay).0
        ≡ (memory_transport.publish message empty_memory).0)
    × Represents
        (local_nostr_transport.publish message empty_relay).1
        (memory_transport.publish message empty_memory).1
    × ((local_nostr_transport.drain_matching "s" (λ _. true) empty_relay).0
        ≡ (memory_transport.drain_matching "s" (λ _. true) empty_memory).0)
    × Represents
        (local_nostr_transport.drain_matching "s" (λ _. true) empty_relay).1
        (memory_transport.drain_matching "s" (λ _. true) empty_memory).1
unfolding as_str
local_nostr_transport-refines_example =
    local_nostr_transport-refines empty_relay empty_memory message event "s" (λ _. true)
      nothing_stored proper written

-- An event whose tag names another sender.
abbrev forged : NostrEnvelopeEvent
forged = record event { sender = 3 }

forged_refused :
    to_protocol_message forged
    ≡ err (protocol "Nostr event sender tag does not match message content" [])
unfolding to_protocol_message validate_metadata check_recipient new_participant_id new_session_id
    is_blank is_blank_custom kind_from as_str
forged_refused = refl

drain_events-err_example :
    (e' : DkgKitError) × ((drain_events "s"
        (λ _. true)
        (record { connected = true; events = event ∷ forged ∷ event ∷ [] })).0
      ≡ err e')
    × (((drain_events "s"
            (λ _. true)
            (record { connected = true; events = event ∷ forged ∷ event ∷ [] })).1
          ).events
        ≡ [])
drain_events-err_example =
    drain_events-err (record { connected = true; events = event ∷ forged ∷ event ∷ [] }) "s"
      (λ _. true) (event ∷ []) forged (event ∷ [])
      (protocol "Nostr event sender tag does not match message content" []) refl forged_refused
