-- ===== src/Sdk/Failure.antt =====
-- crates/dkgkit-sdk/src/lib.rs: a drain that meets a message it cannot read.
use dkgkit.Prelude.{
  ◌≡◌, refl, ap, ◌∙◌, Bool, true, false, List, [], ◌∷◌, ◌++◌, Bool-cases, inl, inr, All,
}
use dkgkit.Core.Error.{DkgKitError, Result, ok, err, ◌>>=◌, collect}
use dkgkit.Core.Ids.{SessionId}
use dkgkit.Core.Message.{ProtocolMessage, htss_signing_nonce}
use dkgkit.Htss.Nonces.{HtssNoncePackage}
use dkgkit.Messages.{Codec, kind_eq}
use dkgkit.Messages.Htss.{htss_nonce_from_protocol_message}
use dkgkit.Transport.{MemoryTransport, retain_loop, drain_matching}
use dkgkit.Transport.Drain.{is_taken, retain_loop-IsDrain, append_end}
use dkgkit.Transport.Service.{memory_transport}
use dkgkit.Sdk.Coordinator.{FrostCoordinator, drain_packages, drain_htss_nonces}
use dkgkit.Sdk.Exchange.{kind-taken}

-- A `collect` that meets an error fails.
collect-err {ℓ κ} :
    {A : Type ℓ} {B : Type κ} (f : A → Result B) (xs : List A) (x : A) (ys : List A)
    {e : DkgKitError}
    → f x ≡ err e
    → (e' : DkgKitError) × (collect f (xs ++ x ∷ ys) ≡ err e')
collect-err f [] x ys {e} h = (e, rw h)
collect-err f (z ∷ xs) x ys h =
    elim (f z)
      as (λ r.
        (e' : DkgKitError) × ((r >>= λ y. collect f (xs ++ x ∷ ys) >>= λ ys'. ok (y ∷ ys'))
          ≡ err e')) [
            | err e0 ↦ (e0, refl)
            | ok y ↦ let (e', er) = collect-err f xs x ys h in (e', rw er)
          ]

module _ (s : SessionId) (p : ProtocolMessage → Bool) where
  -- A taken message is among those that the loop returns.
  retain_loop-found :
      (acc xs : List ProtocolMessage) (m : ProtocolMessage) (ys : List ProtocolMessage)
      → is_taken s p m ≡ true
      → (before after : List ProtocolMessage) × ((retain_loop s p acc (xs ++ m ∷ ys)).0
          ≡ before ++ m ∷ after)
  unfolding retain_loop
  retain_loop-found acc [] m ys h =
      let (found, taken, _) = retain_loop-IsDrain s p (acc ++ m ∷ []) ys in
      rw (h, retain_loop) (acc, found, taken ∙ append_end acc found m)
  retain_loop-found acc (x ∷ xs) m ys h = elim (Bool-cases (is_taken s p x)) [
    | inl e ↦ rw (e, retain_loop) (retain_loop-found (acc ++ x ∷ []) xs m ys h)
    | inr e ↦ rw (e, retain_loop) (retain_loop-found acc xs m ys h)
  ]

  drain_packages-err :
      {A : Type 0} (read : ProtocolMessage → Result A) (c : FrostCoordinator MemoryTransport)
      (xs : List ProtocolMessage) (m : ProtocolMessage) (ys : List ProtocolMessage)
      {e : DkgKitError}
      → (c.transport).messages ≡ xs ++ m ∷ ys
      → is_taken s p m ≡ true
      → read m ≡ err e
      → (e' : DkgKitError) × ((drain_packages s p read c).0 ≡ err e')
        × All (λ x. is_taken s p x ≡ false) (((drain_packages s p read c).1).transport).messages
  unfolding drain_packages drain_matching
  drain_packages-err read c xs m ys split taken unreadable =
      let (before, after, found) = retain_loop-found [] xs m ys taken in
      let (e', failed) = collect-err read before m after unreadable in
      let (_, _, d) = retain_loop-IsDrain s p [] (c.transport).messages in
      (
        e',
        ap (λ ms. collect read (retain_loop s p [] ms).0) split ∙ ap (collect read) found ∙ failed,
        d.unwanted,
      )

module _ ⦃J : Codec HtssNoncePackage⦄ where
  -- When a MemoryTransport holds a nonce message of the session that `from_protocol_message` refuses,
  -- `drain_htss_nonces` returns an error, and no nonce message of the session is left.
  pub drain_htss_nonces-err :
      (c : FrostCoordinator MemoryTransport) (session : SessionId) (xs : List ProtocolMessage)
      (m : ProtocolMessage) (ys : List ProtocolMessage) (e : DkgKitError)
      → (c.transport).messages ≡ xs ++ m ∷ ys
      → m.session_id ≡ session
      → m.kind ≡ htss_signing_nonce
      → htss_nonce_from_protocol_message m ≡ err e
      → (e' : DkgKitError) × ((drain_htss_nonces session c).0 ≡ err e')
        × All
            (λ x. is_taken session (λ y. kind_eq y.kind htss_signing_nonce) x ≡ false)
            (((drain_htss_nonces session c).1).transport).messages
  unfolding drain_htss_nonces
  drain_htss_nonces-err c session xs m ys e split same kind unreadable =
      drain_packages-err session _ htss_nonce_from_protocol_message c xs m ys split
        (kind-taken session htss_signing_nonce m same kind) unreadable
