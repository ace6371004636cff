-- ===== src/Transport/Service.antt =====
-- crates/dkgkit-transport/src/lib.rs: the trait `Transport`, and MemoryTransport as one. An operation
-- returns its result and the state that it leaves, also when it fails.
use dkgkit.Prelude.{Bool, true, List}
use dkgkit.Core.Error.{Result, ok}
use dkgkit.Core.Ids.{SessionId}
use dkgkit.Core.Message.{ProtocolMessage}
use dkgkit.Transport.{MemoryTransport, connect, disconnect, publish, drain_matching}

pub record Transport (T : Type 0) : Type 0 where
  pub connect : T → Result (Unit {0}) × T
  pub disconnect : T → Result (Unit {0}) × T
  pub publish : ProtocolMessage → T → Result (Unit {0}) × T
  pub drain_matching : SessionId → (ProtocolMessage → Bool) → T → Result (List ProtocolMessage) × T

-- The method that the trait gives.
abbrev pub drain_all :
    {T : Type 0} → ⦃R : Transport T⦄ → SessionId → T → Result (List ProtocolMessage) × T
drain_all ⦃R = R⦄ session_id t = R.drain_matching session_id (λ _. true) t

instance abbrev pub memory_transport : Transport MemoryTransport
memory_transport = record {
  connect = λ t. (ok tt, dkgkit.Transport.connect t);
  disconnect = λ t. (ok tt, dkgkit.Transport.disconnect t);
  publish = λ m t. (ok tt, dkgkit.Transport.publish m t);
  drain_matching =
      λ s p t. let (matched, rest) = dkgkit.Transport.drain_matching s p t in (ok matched, rest);
}
