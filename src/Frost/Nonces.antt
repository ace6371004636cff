-- ===== src/Frost/Nonces.antt =====
-- crates/dkgkit-frost/src/lib.rs: a FrostSigningSession uses each nonce once.
use dkgkit.Prelude.{ℕ, ◌+◌, ◌≤◌, ◌≡◌, ◌⊎◌, refl, List, [], Option, none, some, arith, inl, inr}
use dkgkit.Core.Error.{DkgKitError, protocol, Result, ok, err, ◌>>=◌, ok_or}
use dkgkit.Scalar.{Field}
use dkgkit.Messages.Frost.{NoncePackage}
use dkgkit.Frost.{Schnorr, LocalKeyShare, SigningRequest}
use dkgkit.Frost.Signing.{
  FrostSigningSession, new_signing_session, start_nonce, nonce, check_signer, finish_share,
  sign_share,
}

-- 1 for a success, 0 for an error.
abbrev pub successes {ℓ} : {A : Type ℓ} → Result A → ℕ
successes (err e) = 0
successes (ok a) = 1

successes_le_one {ℓ} : {A : Type ℓ} (r : Result A) → successes r ≤ 1
successes_le_one (err e) = omega arith
successes_le_one (ok a) = omega arith

pub Result-cases {ℓ} :
    {A : Type ℓ} (r : Result A) → ((e : DkgKitError) × (r ≡ err e)) ⊎ ((a : A) × (r ≡ ok a))
Result-cases (err e) = inl (e, refl)
Result-cases (ok a) = inr (a, refl)

module _ {S : Type 0} ⦃F : Field S⦄ (X : Schnorr S) where
  -- The sessions that calls lead to, with the number of nonces that `nonce` returned and the number of
  -- shares that `sign_share` returned.
  pub data Runs (start : FrostSigningSession X) : ℕ → ℕ → FrostSigningSession X → Type 0 where
    started : Runs start 0 0 start
    nonce_called :
        {n k : ℕ} {s : FrostSigningSession X} (rng : X.Rng) (share : LocalKeyShare)
        → Runs start n k s
        → Runs start (n + successes (nonce X rng share s).0) k (nonce X rng share s).1
    sign_share_called :
        {n k : ℕ} {s : FrostSigningSession X} (share : LocalKeyShare) (nonces : List NoncePackage)
        → Runs start n k s
        → Runs start n
            (k + successes (sign_share X share nonces s).0)
            (sign_share X share nonces s).1

  -- How many nonces a session holds.
  abbrev pub held : FrostSigningSession X → ℕ
  held s = elim s.nonce_runtime [ none ↦ 0 | some n ↦ 1 ]

  nonce-held :
      (rng : X.Rng) (share : LocalKeyShare) (s : FrostSigningSession X)
      → held (nonce X rng share s).1 ≤ held s + successes (nonce X rng share s).0
  unfolding nonce
  nonce-held rng share s = elim (Result-cases (start_nonce X rng share s.request)) [
    | inl (e, failed) ↦ rw (failed, nonce) (omega arith)
    | inr (p, started_up) ↦ rw (started_up, nonce) (omega arith)
  ]

  taken-held :
      (share : LocalKeyShare) (nonces : List NoncePackage) (request : SigningRequest)
      (slot : Option X.NonceKeyPair) (e : DkgKitError)
      → successes (ok_or slot e >>= λ taken. finish_share X taken share nonces request)
        ≤ (elim slot [ none ↦ 0 | some n ↦ 1 ])
  taken-held share nonces request none e = omega arith
  taken-held share nonces request (some n) e =
      successes_le_one (finish_share X n share nonces request)

  sign_share-held :
      (share : LocalKeyShare) (nonces : List NoncePackage) (s : FrostSigningSession X)
      → successes (sign_share X share nonces s).0 + held (sign_share X share nonces s).1 ≤ held s
  unfolding sign_share
  sign_share-held share nonces s = elim (Result-cases (check_signer X share s.request)) [
    | inl (e, failed) ↦ rw (failed, sign_share) (omega arith)
    | inr (p, passed) ↦
        rw (passed, sign_share)
          (omega (
            arith,
            taken-held share nonces s.request s.nonce_runtime
                (protocol "nonce must be generated before sign_share" []),
          ))
  ]

  -- However the methods of a new signing session are called, it never returns more signature shares
  -- than it returned nonces, and one share fewer when it still holds a nonce.
  pub signing_session-bound :
      (request : SigningRequest) (n k : ℕ) (t : FrostSigningSession X)
      → Runs (new_signing_session X request) n k t
      → k + held t ≤ n
  signing_session-bound request n k t started = omega arith
  signing_session-bound request n k t (nonce_called {s = s} rng share r) =
      omega (arith, signing_session-bound request _ _ s r, nonce-held rng share s)
  signing_session-bound request n k t (sign_share_called {s = s} share nonces r) =
      omega (arith, signing_session-bound request _ _ s r, sign_share-held share nonces s)
