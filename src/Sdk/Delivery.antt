-- ===== src/Sdk/Delivery.antt =====
-- crates/dkgkit-sdk/src/lib.rs: what a drain over a MemoryTransport returns after a publication.
use dkgkit.Prelude.{◌≡◌, sym, ap, Bool, true, false, List, [], ◌∷◌, ◌++◌, Bool-cases, inl, inr}
use dkgkit.Core.Error.{Result, ok, collect, collect-cons-eq-ok}
use dkgkit.Core.Ids.{SessionId}
use dkgkit.Core.Message.{ProtocolMessage}
use dkgkit.Transport.{MemoryTransport, retain_loop, drain_matching, publish}
use dkgkit.Transport.Drain.{is_taken}
use dkgkit.Transport.Service.{memory_transport}
use dkgkit.Sdk.Coordinator.{FrostCoordinator, publish_message, drain_packages}

module _ (s : SessionId) (p : ProtocolMessage → Bool) (m : ProtocolMessage) where
  retain_loop-taken :
      (acc ms : List ProtocolMessage)
      → is_taken s p m ≡ true
      → retain_loop s p acc (ms ++ m ∷ [])
        ≡ ((retain_loop s p acc ms).0 ++ m ∷ [], (retain_loop s p acc ms).1)
  unfolding retain_loop
  retain_loop-taken acc [] h = rw (h, retain_loop)
  retain_loop-taken acc (x ∷ ms) h = elim (Bool-cases (is_taken s p x)) [
    | inl e ↦ rw (e, retain_loop) (retain_loop-taken (acc ++ x ∷ []) ms h)
    | inr e ↦ rw (e, retain_loop) (ap (λ r. (r.0, x ∷ r.1)) (retain_loop-taken acc ms h))
  ]

  retain_loop-left :
      (acc ms : List ProtocolMessage)
      → is_taken s p m ≡ false
      → retain_loop s p acc (ms ++ m ∷ [])
        ≡ ((retain_loop s p acc ms).0, (retain_loop s p acc ms).1 ++ m ∷ [])
  unfolding retain_loop
  retain_loop-left acc [] h = rw (h, retain_loop)
  retain_loop-left acc (x ∷ ms) h = elim (Bool-cases (is_taken s p x)) [
    | inl e ↦ rw (e, retain_loop) (retain_loop-left (acc ++ x ∷ []) ms h)
    | inr e ↦ rw (e, retain_loop) (ap (λ r. (r.0, x ∷ r.1)) (retain_loop-left acc ms h))
  ]

pub collect-append {ℓ κ} :
    {A : Type ℓ} {B : Type κ} (f : A → Result B) (xs : List A) (x : A) (ys : List B) (y : B)
    → collect f xs ≡ ok ys
    → f x ≡ ok y
    → collect f (xs ++ x ∷ []) ≡ ok (ys ++ y ∷ [])
collect-append f [] x ys y h e = rw e (ap (λ l. ok (l ++ y ∷ [])) {x = []} {y = ys} (cc h))
collect-append f (a ∷ xs) x ys y h e =
    let (z, zs, ea, er, eq) = collect-cons-eq-ok f a xs h in
    rw ea (rw (collect-append f xs x zs y er e) (ap (λ l. ok (l ++ y ∷ [])) (sym eq)))

module _ {A : Type 0} (s : SessionId) (p : ProtocolMessage → Bool)
    (read : ProtocolMessage → Result A) (c : FrostCoordinator MemoryTransport)
    (m : ProtocolMessage) where
  -- A published package that the drain takes comes last.
  pub drain_packages-taken :
      (a : A) (qs : List A) (rest : FrostCoordinator MemoryTransport)
      → is_taken s p m ≡ true
      → read m ≡ ok a
      → drain_packages s p read c ≡ (ok qs, rest)
      → drain_packages s p read (publish_message (ok m) c).1 ≡ (ok (qs ++ a ∷ []), rest)
  unfolding drain_packages publish drain_matching
  drain_packages-taken a qs rest taken e h =
      let loop = retain_loop s p [] (c.transport).messages in
      let found : collect read loop.0 ≡ ok qs = ap (λ r. r.0) h in
      rw (retain_loop-taken s p m [] (c.transport).messages taken)
        (rw (collect-append read loop.0 m qs a found e) (ap (λ r. (ok (qs ++ a ∷ []), r.1)) h))

  -- A published message that the drain does not take stays, as the last one.
  pub drain_packages-left :
      (qs : List A) (rest : FrostCoordinator MemoryTransport)
      → is_taken s p m ≡ false
      → drain_packages s p read c ≡ (ok qs, rest)
      → drain_packages s p read (publish_message (ok m) c).1
        ≡ (ok qs, (publish_message (ok m) rest).1)
  unfolding drain_packages publish drain_matching
  drain_packages-left qs rest taken h =
      rw (retain_loop-left s p m [] (c.transport).messages taken)
        (ap (λ r. (r.0, (publish_message (ok m) r.1).1)) h)
