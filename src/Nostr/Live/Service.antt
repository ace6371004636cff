-- ===== src/Nostr/Live/Service.antt =====
-- crates/dkgkit-nostr/src/live.rs: the transport of a participant, its connection and its buffer.
use dkgkit.Prelude.{ℕ, Bool, true, false, not, List, [], ◌∷◌, ◌++◌, if◌then◌else◌, length}
use dkgkit.Core.Error.{transport, Result, ok, err, ◌>>◌, fail_if}
use dkgkit.Core.Ids.{SessionId}
use dkgkit.Core.Message.{ProtocolMessage, is_for}
use dkgkit.Messages.{Codec}
use dkgkit.Nostr.{Utf8}
use dkgkit.Transport.{retain_loop}
use dkgkit.Nostr.Live.{NostrSdk, LiveNostrTransportConfig, outgoing}

module _ (N : NostrSdk) where
  pub record LiveNostrTransport : Type 0 where
    pub cfg : LiveNostrTransportConfig N
    -- Whether there is a channel to the relay thread.
    pub cmd_tx : Bool
    pub connected : Bool
    pub inbound : List ProtocolMessage

  -- The first argument is what the relay thread says when it is ready.
  abbrev pub connect_live :
      Result (Unit {0}) → LiveNostrTransport → Result (Unit {0}) × LiveNostrTransport
  connect_live ready t = if t.connected then (ok tt, t) else elim ready [
    | err e ↦ (err e, t)
    | ok x ↦ (ok tt, record t { cmd_tx = true; connected = true })
  ]

  abbrev pub disconnect_live : LiveNostrTransport → Result (Unit {0}) × LiveNostrTransport
  disconnect_live t = (ok tt, record t { cmd_tx = false; connected = false })

  abbrev pub live_pending_len : LiveNostrTransport → ℕ
  live_pending_len t = length t.inbound

  module _ ⦃J : Codec ProtocolMessage⦄ ⦃U : Utf8⦄ where
    -- The first argument is the reply of the relay thread.
    unfoldable pub publish_live :
        Result (Unit {0})
        → ProtocolMessage
        → LiveNostrTransport
        → Result (Unit {0}) × LiveNostrTransport
    unfolding outgoing is_for
    publish_live reply message t =
        elim (fail_if (not t.cmd_tx) (transport "transport not connected" [])
          >> outgoing N t.cfg message
          >> reply) [
            | err e ↦ (err e, t)
            | ok sent ↦ (
              ok tt,
              record t {
                inbound =
                    if is_for message (t.cfg).self_id then t.inbound ++ message ∷ [] else t.inbound;
              },
            )
          ]

  unfoldable pub drain_live :
      SessionId
      → (ProtocolMessage → Bool)
      → LiveNostrTransport
      → Result (List ProtocolMessage) × LiveNostrTransport
  unfolding retain_loop
  drain_live session_id predicate t =
      let (matched, kept) = retain_loop session_id predicate [] t.inbound in
      (ok matched, record t { inbound = kept })
