-- ===== src/Lib.antt =====
-- Verification library for dkgkit, a Rust toolkit for distributed key generation and threshold
-- signing. The crates are crates/dkgkit-core (identifiers, configurations, messages),
-- crates/dkgkit-frost (policies, Birkhoff interpolation, HTSS and FROST), crates/dkgkit-transport,
-- crates/dkgkit-nostr, crates/dkgkit-sdk and crates/dkgkit-bitcoin.
--
-- How a signature comes about: a configuration of crates/dkgkit-core names participants with ranks
-- and a threshold. Key generation deals every participant a derivative of a secret polynomial at
-- its id (a participant of rank r holds the r-th derivative). A signer set that passes the policy
-- has Birkhoff coefficients, which weight the derivatives so that they sum to the secret. Signing
-- uses the same weights on signature shares.
--
-- Files:
--   Prelude and its children: tests, lists and sets over the native numbers.
--   Core/Error: DkgKitError and Result; the operator ? is >>=. Core/Ids: SessionId, ParticipantId,
--     Rank and the participants. Core/Threshold: the configurations and their constructors
--     (crates/dkgkit-core/src/lib.rs); its children prove what the constructors accept.
--   Policy: validate_signer_set and its forms (crates/dkgkit-frost/src/lib.rs); one child for each.
--   Scalar: the interface of secp256kfun's scalars, and the scalar_* helpers. Curve: the interface
--     of its points and of schnorr_fun's BIP340 signatures. Both interfaces hold the operations
--     that the code calls and the laws that the crates document; Scalar/Five and Curve/Five are
--     instances over the field of five elements.
--   Core/Session and Core/Message: the session configuration, the message kinds and messages. The
--     children Accepted and Kinds hold their proofs.
--   Transport: MemoryTransport (crates/dkgkit-transport/src/lib.rs); Transport/Service: the trait.
--   Messages: encode_payload, require_kind and the other helpers of packages in messages;
--     Messages/Frost and Messages/Htss: to_protocol_message and from_protocol_message of each package
--     (round1_to_protocol_message is Round1Package::to_protocol_message). Messages/Kinds, Accepted
--     and RoundTrip hold the proofs.
--   Frost: the interface of schnorr_fun and the signing requests; Frost/Dkg: FrostDkgSession;
--     Frost/Signing: FrostSigningSession. Frost/Nonces and Frost/Rounds hold the proofs.
--   Sdk: the session builder and HtssDkgService; Sdk/Coordinator: FrostCoordinator
--     (crates/dkgkit-sdk/src/lib.rs); Sdk/Frost: create_frost_session, run_local_frost_dkg,
--     sign_digest_with_shares and its form with a policy. Sdk/Delivery, Exchange and Failure hold the proofs.
--   Birkhoff: derivative_basis_scalar, polynomial_derivative_value, birkhoff_matrix and
--     birkhoff_interpolation_coefficients. Birkhoff/Solver: solve_scalar_system.
--   Htss: the data of HTSS. Htss/Keys: run_local_htss_keygen, reconstruct_htss_secret_scalar,
--     reshare_htss, sign_digest_with_local_htss_shares. Htss/Nonces, Htss/Sign and Htss/Local:
--     threshold signing. Htss/Dkg and Htss/Dkg/Rounds: the distributed key generation.
--     Htss/Reconstruct, Keygen, Reshare, Verified, Commitments, Senders and RankZero hold the proofs.
--     Htss/Honest and its children follow signers that keep to the protocol: a seat is a signer with
--     its point, nonce and coefficient.
--   Nostr: NostrEnvelopeEvent (crates/dkgkit-nostr/src/lib.rs); Nostr/Local:
--     LocalNostrEventTransport and NostrTransport. Nostr/Live: the relay transport
--     (crates/dkgkit-nostr/src/live.rs), where publish, connect and disconnect are publish_live,
--     connect_live and disconnect_live; Nostr/Live/Service: its state. Nostr/Envelope,
--     Refinement, Relayed and Delivered hold the proofs.
--   Examples: the theorems at concrete inputs.
--
-- Conventions: a u16 is a natural number, with the wrap-around written out where the code casts or
-- sums; a loop is a recursion over the list that it runs through, a loop over a range a recursion
-- over the number of rounds, so no fuel is needed. A BTreeSet is the list of what was inserted, a
-- BTreeMap the list it was collected from, read from its end. A random generator is a stream of
-- draws. An array that a loop fills is built anew. A formatted message is its template with its
-- arguments. Bytes are lists of numbers. The field `package` of a local nonce and of a round-one
-- state is `public_package` here, since the word is reserved.
--
-- Not modelled: the bytes of serde_json and bincode and the mathematics of schnorr_fun, which are
-- interfaces, as is the encryption of Nostr; the thread that talks to the Nostr relays, whose
-- replies are arguments; the Bitcoin addresses, and the example services.
pub mod Prelude
pub mod Core
pub mod Policy
pub mod Scalar
pub mod Birkhoff
pub mod Curve
pub mod Htss
pub mod Messages
pub mod Frost
pub mod Transport
pub mod Sdk
pub mod Nostr
pub mod Examples
