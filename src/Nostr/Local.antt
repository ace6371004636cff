-- ===== src/Nostr/Local.antt =====
-- crates/dkgkit-nostr/src/lib.rs: LocalNostrEventTransport, a mailbox of envelope events, and
-- NostrTransport, whose relay operations are not implemented.
use dkgkit.Prelude.{ℕ, Bool, true, false, ◌&&◌, List, [], ◌∷◌, ◌++◌, String, str_eq, length}
use dkgkit.Core.Error.{not_implemented, Result, ok, err, ◌>>=◌}
use dkgkit.Core.Ids.{SessionId}
use dkgkit.Core.Message.{ProtocolMessage}
use dkgkit.Messages.{Codec}
use dkgkit.Nostr.{Utf8, NostrEnvelopeEvent, from_protocol_message, to_protocol_message}
use dkgkit.Transport.Service.{Transport}

pub record LocalNostrEventTransport : Type 0 where
  pub connected : Bool
  pub events : List NostrEnvelopeEvent

abbrev pub pending_events : LocalNostrEventTransport → ℕ
pending_events t = length t.events

module _ ⦃J : Codec ProtocolMessage⦄ ⦃U : Utf8⦄ where
  -- `self.events.push(NostrEnvelopeEvent::from_protocol_message(&message)?)`
  unfoldable pub publish_event :
      ProtocolMessage → LocalNostrEventTransport → Result (Unit {0}) × LocalNostrEventTransport
  unfolding from_protocol_message
  publish_event message t = elim (from_protocol_message message) [
    | err e ↦ (err e, t)
    | ok event ↦ (ok tt, record t { events = t.events ++ event ∷ [] })
  ]

  -- The loop of `drain_matching`: what is drained, and what is kept.
  unfoldable pub drain_loop :
      SessionId
      → (ProtocolMessage → Bool)
      → List ProtocolMessage
      → List NostrEnvelopeEvent
      → List NostrEnvelopeEvent
      → Result (List ProtocolMessage × List NostrEnvelopeEvent)
  unfolding to_protocol_message
  drain_loop session_id predicate drained kept [] = ok (drained, kept)
  drain_loop session_id predicate drained kept (event ∷ events) =
      to_protocol_message event >>= λ message.
      elim (str_eq message.session_id session_id && predicate message) [
        | true ↦ drain_loop session_id predicate (drained ++ message ∷ []) kept events
        | false ↦ drain_loop session_id predicate drained (kept ++ event ∷ []) events
      ]

  -- `self.events.drain(..)` has emptied the mailbox when the loop returns an error.
  unfoldable pub drain_events :
      SessionId
      → (ProtocolMessage → Bool)
      → LocalNostrEventTransport
      → Result (List ProtocolMessage) × LocalNostrEventTransport
  unfolding drain_loop
  drain_events session_id predicate t = elim (drain_loop session_id predicate [] [] t.events) [
    | err e ↦ (err e, record t { events = [] })
    | ok (drained, kept) ↦ (ok drained, record t { events = kept })
  ]

  instance abbrev pub local_nostr_transport : Transport LocalNostrEventTransport
  local_nostr_transport = record {
    connect = λ t. (ok tt, record t { connected = true });
    disconnect = λ t. (ok tt, record t { connected = false });
    publish = publish_event;
    drain_matching = drain_events;
  }

pub record NostrTransport : Type 0 where
  pub relays : List String

instance abbrev pub nostr_transport : Transport NostrTransport
nostr_transport = record {
  connect = λ t. (err (not_implemented "Nostr relay transport migration"), t);
  disconnect = λ t. (ok tt, t);
  publish = λ message t. (err (not_implemented "Nostr publish migration"), t);
  drain_matching =
      λ session_id predicate t. (err (not_implemented "Nostr subscribe/drain migration"), t);
}
