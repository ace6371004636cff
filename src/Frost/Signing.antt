-- ===== src/Frost/Signing.antt =====
-- crates/dkgkit-frost/src/lib.rs: FrostSigningSession. A method returns its result and the session
-- that it leaves. A map under share indices is the list of its entries under the ids, in their order.
use dkgkit.Prelude.{
  not, List, [], ◌∷◌, map, Option, none, some, ◌==◌, ltb, if◌then◌else◌, length, contains, find,
  str_eq,
}
use dkgkit.Core.Error.{
  num, duplicate_participant_id, protocol, Result, ok, err, ◌>>=◌, ◌>>◌, fail_if, ok_or,
}
use dkgkit.Core.Ids.{ParticipantId}
use dkgkit.Scalar.{Field}
use dkgkit.Htss.{AggregateSignature}
use dkgkit.Htss.Keys.{new_aggregate_signature}
use dkgkit.Messages.{encode_binary, decode_binary}
use dkgkit.Messages.Frost.{NoncePackage, SignatureSharePackage}
use dkgkit.Frost.{Schnorr, LocalKeyShare, SigningRequest, group_key_eq}
use dkgkit.Frost.Dkg.{participant_share_index, or_protocol}

-- `BTreeMap::insert`
unfoldable pub insert_entry {ℓ} :
    {V : Type ℓ} → ParticipantId → V → List (ParticipantId × V) → List (ParticipantId × V)
insert_entry id v [] = (id, v) ∷ []
insert_entry id v (entry ∷ entries) =
    let rest = insert_entry id v entries in
    if id == entry.0
    then (id, v) ∷ entries
    else if ltb id entry.0
    then (id, v) ∷ entry ∷ entries
    else entry ∷ rest

-- The loop of `validate_signature_share_set`; it returns the ids that it has seen.
unfoldable pub check_share_set :
    SigningRequest → List ParticipantId → List SignatureSharePackage → Result (List ParticipantId)
check_share_set request seen [] = ok seen
check_share_set request seen (share ∷ shares) =
    fail_if (not (str_eq share.signing_session_id request.session_id))
      (protocol "signature share session mismatch" [])
    >> fail_if (not (contains request.signer_set share.participant_id)) (
        protocol "signature share participant {} is not in signer set"
          (num share.participant_id ∷ []))
    >> fail_if (contains seen share.participant_id) (duplicate_participant_id share.participant_id)
    >> check_share_set request (share.participant_id ∷ seen) shares

unfoldable pub validate_signature_share_set :
    List SignatureSharePackage → SigningRequest → Result (Unit {0})
unfolding check_share_set
validate_signature_share_set shares request = do
  seen ← check_share_set request [] shares
  fail_if (not (length seen == length request.signer_set)) (
      protocol "signature share set mismatch: have {}, need {}"
        (num (length seen) ∷ num (length request.signer_set) ∷ []))

module _ {S : Type 0} ⦃F : Field S⦄ (X : Schnorr S) where
  -- The loop of `nonces_to_map`.
  unfoldable pub nonces_loop :
      SigningRequest
      → List (ParticipantId × X.Nonce)
      → List NoncePackage
      → Result (List (ParticipantId × X.Nonce))
  unfolding decode_binary insert_entry
  nonces_loop request found [] = ok found
  nonces_loop request found (nonce ∷ nonces) =
      fail_if (not (str_eq nonce.signing_session_id request.session_id))
        (protocol "nonce session mismatch" [])
      >> fail_if (not (contains request.signer_set nonce.participant_id))
          (protocol "nonce participant {} is not in signer set" (num nonce.participant_id ∷ []))
      >> (decode_binary ⦃J = X.nonce_codec⦄ nonce.public_nonce_bytes >>= λ public_nonce.
          fail_if (contains (map (λ e. e.0) found) nonce.participant_id)
            (duplicate_participant_id nonce.participant_id)
          >> nonces_loop request (insert_entry nonce.participant_id public_nonce found) nonces)

  unfoldable pub nonces_to_map :
      List NoncePackage → SigningRequest → Result (List (ParticipantId × X.Nonce))
  unfolding nonces_loop
  nonces_to_map nonces request = do
    found ← nonces_loop request [] nonces
    fail_if (not (length found == length request.signer_set)) (
        protocol "nonce set mismatch: have {}, need {}"
          (num (length found) ∷ num (length request.signer_set) ∷ []))
    ok found

  -- The entries under their share indices.
  abbrev pub by_index {ℓ} : {V : Type ℓ} → List (ParticipantId × V) → List (S × V)
  by_index = map (λ e. (participant_share_index X e.0, e.1))

  pub record FrostSigningSession : Type 0 where
    pub request : SigningRequest
    pub nonce_runtime : Option X.NonceKeyPair

  abbrev pub new_signing_session : SigningRequest → FrostSigningSession
  new_signing_session request = record { request = request; nonce_runtime = none }

  -- What `nonce` computes before it stores the nonce.
  unfoldable pub start_nonce :
      X.Rng → LocalKeyShare → SigningRequest → Result (NoncePackage × X.NonceKeyPair)
  unfolding group_key_eq encode_binary decode_binary
  start_nonce rng local_share request = do
    fail_if (not (group_key_eq local_share.group_key request.group_key))
        (protocol "local share group key does not match signing request" [])
    paired_share ← decode_binary ⦃J = X.paired_share_codec⦄ local_share.secret_share_bytes
    let generated = X.gen_nonce paired_share request.session_id rng
    bytes ← encode_binary ⦃J = X.nonce_codec⦄ (X.public_nonce generated)
    ok (
      record {
        participant_id = local_share.participant_id;
        signing_session_id = request.session_id;
        public_nonce_bytes = bytes;
      },
      generated,
    )

  unfoldable pub nonce :
      X.Rng → LocalKeyShare → FrostSigningSession → Result NoncePackage × FrostSigningSession
  unfolding start_nonce
  nonce rng local_share session = elim (start_nonce rng local_share session.request) [
    | err e ↦ (err e, session)
    | ok (own, generated) ↦ (ok own, record session { nonce_runtime = some generated })
  ]

  -- The checks of `sign_share` before it takes the nonce.
  unfoldable pub check_signer : LocalKeyShare → SigningRequest → Result (Unit {0})
  unfolding group_key_eq
  check_signer local_share request = do
    fail_if (not (group_key_eq local_share.group_key request.group_key))
        (protocol "local share group key does not match signing request" [])
    fail_if (not (contains request.signer_set local_share.participant_id))
        (protocol "participant {} is not in signer set" (num local_share.participant_id ∷ []))

  -- What `sign_share` does with the nonce that it took.
  unfoldable pub finish_share :
      X.NonceKeyPair
      → LocalKeyShare
      → List NoncePackage
      → SigningRequest
      → Result SignatureSharePackage
  unfolding encode_binary decode_binary nonces_to_map
  finish_share taken local_share nonces request = do
    own ←
        ok_or (find (λ p. p.participant_id == local_share.participant_id) nonces)
          (protocol "missing local public nonce" [])
    paired_share ← decode_binary ⦃J = X.paired_share_codec⦄ local_share.secret_share_bytes
    shared_key ← decode_binary ⦃J = X.shared_key_codec⦄ (request.group_key).verification_key_bytes
    nonces_map ← nonces_to_map nonces request
    let coord_session =
        X.coordinator_sign_session shared_key (by_index nonces_map) request.message_digest
    let sig_share = X.party_sign shared_key coord_session request.message_digest paired_share taken
    bytes ← encode_binary ⦃J = X.scalar_codec⦄ sig_share
    ok (record {
      participant_id = local_share.participant_id;
      signing_session_id = request.session_id;
      public_nonce_bytes = own.public_nonce_bytes;
      signature_share_bytes = bytes;
    })

  -- `take()` empties the slot, whatever comes after.
  unfoldable pub sign_share :
      LocalKeyShare
      → List NoncePackage
      → FrostSigningSession
      → Result SignatureSharePackage × FrostSigningSession
  unfolding check_signer finish_share
  sign_share local_share nonces session = elim (check_signer local_share session.request) [
    | err e ↦ (err e, session)
    | ok checked ↦ (
      ok_or session.nonce_runtime (protocol "nonce must be generated before sign_share" [])
          >>= λ taken. finish_share taken local_share nonces session.request,
      record session { nonce_runtime = none },
    )
  ]

  -- The loop that collects the decoded shares.
  unfoldable pub share_loop :
      List (ParticipantId × S) → List SignatureSharePackage → Result (List (ParticipantId × S))
  unfolding decode_binary insert_entry
  share_loop found [] = ok found
  share_loop found (share ∷ shares) =
      decode_binary ⦃J = X.scalar_codec⦄ share.signature_share_bytes >>= λ sig_share.
      share_loop (insert_entry share.participant_id sig_share found) shares

  unfoldable pub aggregate :
      List SignatureSharePackage → FrostSigningSession → Result AggregateSignature
  unfolding validate_signature_share_set nonces_to_map share_loop encode_binary decode_binary
      new_aggregate_signature
  aggregate shares session = do
    let request = session.request
    validate_signature_share_set shares request
    shared_key ← decode_binary ⦃J = X.shared_key_codec⦄ (request.group_key).verification_key_bytes
    nonces_map ←
        nonces_to_map
          (map
            (λ share. record {
              participant_id = share.participant_id;
              signing_session_id = share.signing_session_id;
              public_nonce_bytes = share.public_nonce_bytes;
            })
            shares)
          request
    let coord_session =
        X.coordinator_sign_session shared_key (by_index nonces_map) request.message_digest
    sig_shares ← share_loop [] shares
    signature ←
        or_protocol "signature share verification failed: {:?}"
          (X.verify_and_combine coord_session shared_key (by_index sig_shares))
    bytes ← encode_binary ⦃J = X.signature_codec⦄ signature
    new_aggregate_signature bytes
