-- ===== src/Transport.antt =====
-- crates/dkgkit-transport/src/lib.rs: MemoryTransport, none of whose operations fails. The predicate
-- of a drain is a function.
pub mod Drain
pub mod Service
use dkgkit.Prelude.{
  ℕ, Bool, true, false, ◌&&◌, List, [], ◌∷◌, ◌++◌, str_eq, if◌then◌else◌, length, select,
}
use dkgkit.Core.Ids.{SessionId}
use dkgkit.Core.Message.{ProtocolMessage}

pub record MemoryTransport : Type 0 where
  pub connected : Bool
  pub messages : List ProtocolMessage

abbrev pub is_connected : MemoryTransport → Bool
is_connected t = t.connected

abbrev pub pending_len : MemoryTransport → ℕ
pending_len t = length t.messages

unfoldable pub peek_session : MemoryTransport → SessionId → List ProtocolMessage
peek_session t session_id = select (λ m. str_eq m.session_id session_id) t.messages

unfoldable pub connect : MemoryTransport → MemoryTransport
connect t = record t { connected = true }

unfoldable pub disconnect : MemoryTransport → MemoryTransport
disconnect t = record t { connected = false }

unfoldable pub publish : ProtocolMessage → MemoryTransport → MemoryTransport
publish message t = record t { messages = t.messages ++ message ∷ [] }

-- `retain` with the list that its closure fills: what has matched, and what stays.
unfoldable pub retain_loop :
    SessionId
    → (ProtocolMessage → Bool)
    → List ProtocolMessage
    → List ProtocolMessage
    → List ProtocolMessage × List ProtocolMessage
retain_loop session_id predicate matched [] = (matched, [])
retain_loop session_id predicate matched (m ∷ ms) =
    elim (str_eq m.session_id session_id && predicate m) [
      | true ↦ retain_loop session_id predicate (matched ++ m ∷ []) ms
      | false ↦ let (found, rest) = retain_loop session_id predicate matched ms in (found, m ∷ rest)
    ]

unfoldable pub drain_matching :
    SessionId → (ProtocolMessage → Bool) → MemoryTransport → List ProtocolMessage × MemoryTransport
unfolding retain_loop
drain_matching session_id predicate t =
    let (matched, rest) = retain_loop session_id predicate [] t.messages in
    (matched, record t { messages = rest })

unfoldable pub drain_session : SessionId → MemoryTransport → List ProtocolMessage × MemoryTransport
unfolding drain_matching
drain_session session_id t = drain_matching session_id (λ _. true) t
