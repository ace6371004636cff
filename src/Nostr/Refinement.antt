-- ===== src/Nostr/Refinement.antt =====
-- crates/dkgkit-nostr/src/lib.rs: LocalNostrEventTransport against MemoryTransport.
use dkgkit.Prelude.{
  ◌≡◌, refl, sym, ap, subst, ◌∙◌, Bool, true, false, List, [], ◌∷◌, ◌++◌, Bool-cases, inl, inr,
}
use dkgkit.Core.Error.{DkgKitError, Result, ok, err, ◌>>=◌, collect, collect-cons-eq-ok}
use dkgkit.Core.Ids.{SessionId}
use dkgkit.Core.Message.{ProtocolMessage, as_str}
use dkgkit.Messages.{Codec}
use dkgkit.Frost.Nonces.{Result-cases}
use dkgkit.Nostr.{Utf8, NostrEnvelopeEvent, from_protocol_message, to_protocol_message}
use dkgkit.Nostr.Envelope.{IsMetadata, to_protocol_message-from_protocol_message}
use dkgkit.Nostr.Local.{
  LocalNostrEventTransport, publish_event, drain_loop, drain_events, local_nostr_transport,
}
use dkgkit.Transport.{MemoryTransport, connect, disconnect, publish, retain_loop, drain_matching}
use dkgkit.Transport.Drain.{is_taken, append_end, nil_end}
use dkgkit.Transport.Service.{memory_transport}
use dkgkit.Sdk.Delivery.{collect-append}

module _ ⦃J : Codec ProtocolMessage⦄ ⦃U : Utf8⦄ where
  -- The events of the one are readable, as the messages of the other.
  pub record Represents (l : LocalNostrEventTransport) (t : MemoryTransport) : Type 0 where
    pub same_connection : l.connected ≡ t.connected
    pub readable : collect to_protocol_message l.events ≡ ok t.messages

  module _ (s : SessionId) (p : ProtocolMessage → Bool) (acc : List ProtocolMessage)
      (kept : List NostrEnvelopeEvent) (event : NostrEnvelopeEvent)
      (events : List NostrEnvelopeEvent) (m : ProtocolMessage)
      (read : to_protocol_message event ≡ ok m) where
    -- What the loop does with a message that is taken or not.
    abbrev step : ProtocolMessage → Bool → Result (List ProtocolMessage × List NostrEnvelopeEvent)
    step x true = drain_loop s p (acc ++ x ∷ []) kept events
    step x false = drain_loop s p acc (kept ++ event ∷ []) events

    drain_loop-taken :
        is_taken s p m ≡ true
        → drain_loop s p acc kept (event ∷ events) ≡ drain_loop s p (acc ++ m ∷ []) kept events
    unfolding drain_loop
    drain_loop-taken e = ap (λ r. r >>= λ x. step x (is_taken s p x)) read ∙ ap (step m) e

    drain_loop-kept :
        is_taken s p m ≡ false
        → drain_loop s p acc kept (event ∷ events) ≡ drain_loop s p acc (kept ++ event ∷ []) events
    unfolding drain_loop
    drain_loop-kept e = ap (λ r. r >>= λ x. step x (is_taken s p x)) read ∙ ap (step m) e

  drain_loop-retain_loop :
      (s : SessionId) (p : ProtocolMessage → Bool) (acc : List ProtocolMessage)
      (kept events : List NostrEnvelopeEvent) (ms : List ProtocolMessage)
      → collect to_protocol_message events ≡ ok ms
      → (left : List NostrEnvelopeEvent) × (drain_loop s p acc kept events
          ≡ ok ((retain_loop s p acc ms).0, kept ++ left))
        × (collect to_protocol_message left ≡ ok (retain_loop s p acc ms).1)
  unfolding retain_loop drain_loop
  drain_loop-retain_loop s p acc kept [] ms h =
      let empty : ms ≡ [] = cc h in
      (
        [],
        ap (λ k. ok (acc, k)) (nil_end kept)
            ∙ ap (λ t. ok ((retain_loop s p acc t).0, kept ++ [])) (sym empty),
        ap (λ t. ok (retain_loop s p acc t).1) (sym empty),
      )
  drain_loop-retain_loop s p acc kept (event ∷ events) ms h =
      let (m, rest, read, reads, split) = collect-cons-eq-ok to_protocol_message event events h in
      subst
        (λ t.
          (left : List NostrEnvelopeEvent) × (drain_loop s p acc kept (event ∷ events)
            ≡ ok ((retain_loop s p acc t).0, kept ++ left))
          × (collect to_protocol_message left ≡ ok (retain_loop s p acc t).1))
        (sym split)
        (elim (Bool-cases (is_taken s p m)) [
          | inl e ↦
              let (left, drained, after) =
                drain_loop-retain_loop s p (acc ++ m ∷ []) kept events rest reads in
              rw (e, retain_loop)
                (left, drain_loop-taken s p acc kept event events m read e ∙ drained, after)
          | inr e ↦
              let (left, drained, after) =
                drain_loop-retain_loop s p acc (kept ++ event ∷ []) events rest reads in
              rw (e, retain_loop)
                (
                  event ∷ left,
                  drain_loop-kept s p acc kept event events m read e
                      ∙ drained
                      ∙ ap (λ k. ok ((retain_loop s p acc rest).0, k)) (append_end kept left event),
                  rw read (rw after),
                )
        ])

  drain_events-Represents :
      (l : LocalNostrEventTransport) (t : MemoryTransport) (s : SessionId)
      (p : ProtocolMessage → Bool)
      → Represents l t
      → ((drain_events s p l).0 ≡ ok (drain_matching s p t).0)
        × Represents (drain_events s p l).1 (drain_matching s p t).1
  unfolding drain_events drain_matching
  drain_events-Represents l t s p r =
      let (left, drained, after) =
        drain_loop-retain_loop s p [] [] l.events t.messages r.readable in
      rw (drained, drain_events)
        (refl, record { same_connection = r.same_connection; readable = after })

  publish_event-Represents :
      (l : LocalNostrEventTransport) (t : MemoryTransport) (m : ProtocolMessage)
      (e : NostrEnvelopeEvent)
      → Represents l t
      → IsMetadata m.session_id m.sender m.recipient (as_str m.kind)
      → from_protocol_message m ≡ ok e
      → ((publish_event m l).0 ≡ ok tt) × Represents (publish_event m l).1 (publish m t)
  unfolding publish_event publish
  publish_event-Represents l t m e r proper written =
      rw (written, publish_event)
        (
          refl,
          record {
            same_connection = r.same_connection;
            readable =
                collect-append to_protocol_message l.events e t.messages m r.readable
                  (to_protocol_message-from_protocol_message m e proper written);
          },
        )

  -- When a LocalNostrEventTransport holds the messages of a MemoryTransport as readable events, then
  -- after connecting, after disconnecting, after publishing a message with proper metadata that is
  -- written into an event, and after a drain of any session with any predicate it does so again, and
  -- the publication succeeds and the drain returns the same messages.
  pub local_nostr_transport-refines :
      (l : LocalNostrEventTransport) (t : MemoryTransport) (m : ProtocolMessage)
      (e : NostrEnvelopeEvent) (s : SessionId) (p : ProtocolMessage → Bool)
      → Represents l t
      → IsMetadata m.session_id m.sender m.recipient (as_str m.kind)
      → from_protocol_message m ≡ ok e
      → Represents (local_nostr_transport.connect l).1 (memory_transport.connect t).1
        × Represents (local_nostr_transport.disconnect l).1 (memory_transport.disconnect t).1
        × ((local_nostr_transport.publish m l).0 ≡ (memory_transport.publish m t).0)
        × Represents (local_nostr_transport.publish m l).1 (memory_transport.publish m t).1
        × ((local_nostr_transport.drain_matching s p l).0
            ≡ (memory_transport.drain_matching s p t).0)
        × Represents
            (local_nostr_transport.drain_matching s p l).1
            (memory_transport.drain_matching s p t).1
  unfolding connect disconnect
  local_nostr_transport-refines l t m e s p r proper written =
      let (published, after_publish) = publish_event-Represents l t m e r proper written in
      let (drained, after_drain) = drain_events-Represents l t s p r in
      (
        record { same_connection = refl; readable = r.readable },
        record { same_connection = refl; readable = r.readable },
        published,
        after_publish,
        drained,
        after_drain,
      )

  -- An unreadable event makes the loop fail.
  drain_loop-err :
      (s : SessionId) (p : ProtocolMessage → Bool) (acc : List ProtocolMessage)
      (kept xs : List NostrEnvelopeEvent) (event : NostrEnvelopeEvent)
      (ys : List NostrEnvelopeEvent) {e : DkgKitError}
      → to_protocol_message event ≡ err e
      → (e' : DkgKitError) × (drain_loop s p acc kept (xs ++ event ∷ ys) ≡ err e')
  unfolding drain_loop
  drain_loop-err s p acc kept [] event ys {e} h = (e, rw h)
  drain_loop-err s p acc kept (x ∷ xs) event ys h = elim (Result-cases (to_protocol_message x)) [
    | inl (e', unreadable) ↦ (e', rw unreadable)
    | inr (m, read) ↦ elim (Bool-cases (is_taken s p m)) [
      | inl e ↦
          let (e', failed) = drain_loop-err s p (acc ++ m ∷ []) kept xs event ys h in
          (e', drain_loop-taken s p acc kept x (xs ++ event ∷ ys) m read e ∙ failed)
      | inr e ↦
          let (e', failed) = drain_loop-err s p acc (kept ++ x ∷ []) xs event ys h in
          (e', drain_loop-kept s p acc kept x (xs ++ event ∷ ys) m read e ∙ failed)
    ]
  ]

  -- When a LocalNostrEventTransport holds an event that `to_protocol_message` refuses, a drain of any
  -- session with any predicate returns an error and leaves no event of any session.
  pub drain_events-err :
      (l : LocalNostrEventTransport) (s : SessionId) (p : ProtocolMessage → Bool)
      (xs : List NostrEnvelopeEvent) (event : NostrEnvelopeEvent) (ys : List NostrEnvelopeEvent)
      (e : DkgKitError)
      → l.events ≡ xs ++ event ∷ ys
      → to_protocol_message event ≡ err e
      → (e' : DkgKitError) × ((drain_events s p l).0 ≡ err e')
        × (((drain_events s p l).1).events ≡ [])
  unfolding drain_events
  drain_events-err l s p xs event ys e split unreadable =
      let (e', failed) = drain_loop-err s p [] [] xs event ys unreadable in
      rw split (rw (failed, drain_events) (e', refl, refl))
