-- ===== src/Frost/Dkg.antt =====
-- crates/dkgkit-frost/src/lib.rs: FrostDkgSession. A method returns its result and the session that it
-- leaves. The map of round-one packages is the list of its values, in the order of their ids.
use dkgkit.Prelude.{
  ℕ, suc, ◌+◌, ◌-◌, ◌*◌, ◌%◌, ◌^◌, ◌⊎◌, inl, inr, not, List, [], ◌∷◌, map, Option, none, some, ◌==◌,
  ltb, if◌then◌else◌, length, get_or, tabulate, select, contains, String,
}
use dkgkit.Core.Error.{
  num, text, participant_count_mismatch, participant_out_of_range, duplicate_participant_id,
  invalid_participant_id, protocol, Result, ok, err, ◌>>=◌, ◌>>◌, fail_if, ok_or, collect,
}
use dkgkit.Core.Ids.{ParticipantId, new_participant_id}
use dkgkit.Scalar.{Bytes, Field}
use dkgkit.Messages.{encode_binary, decode_binary}
use dkgkit.Messages.Frost.{Round1Package, Round2Package}
use dkgkit.Frost.{Schnorr, DkgSessionConfig, LocalKeyShare}

pub record PendingSecretShare : Type 0 where
  pub recipient : ParticipantId
  pub bytes : Bytes

pub record DkgRuntime : Type 0 where
  pub pending_secret_shares : List PendingSecretShare
  pub round1_packages : List Round1Package

pub record FrostDkgSession : Type 0 where
  pub config : DkgSessionConfig
  pub runtime : Option DkgRuntime

abbrev pub new_dkg_session : DkgSessionConfig → FrostDkgSession
new_dkg_session config = record { config = config; runtime = none }

-- `BTreeMap::insert` under the package's id.
unfoldable pub insert_package : Round1Package → List Round1Package → List Round1Package
insert_package p [] = p ∷ []
insert_package p (q ∷ qs) =
    let rest = insert_package p qs in
    if p.participant_id == q.participant_id
    then p ∷ qs
    else if ltb p.participant_id q.participant_id
    then p ∷ q ∷ qs
    else q ∷ rest

-- `map(|package| (package.participant_id, package)).collect()`
unfoldable pub collect_packages : List Round1Package → List Round1Package → List Round1Package
unfolding insert_package
collect_packages found [] = found
collect_packages found (p ∷ ps) = collect_packages (insert_package p found) ps

-- The last four bytes, most significant first.
unfoldable pub participant_id_from_scalar_bytes : Bytes → Result ParticipantId
unfolding new_participant_id
participant_id_from_scalar_bytes bytes =
    let value =
      get_or bytes 28 0 * 2 ^ 24
      + get_or bytes 29 0 * 2 ^ 16
      + get_or bytes 30 0 * 2 ^ 8
      + get_or bytes 31 0 in
    fail_if (ltb 65535 value) (invalid_participant_id 65535) >> new_participant_id value

-- The loop of `validate_round1_set`.
unfoldable pub check_round1 : ℕ → List ParticipantId → List Round1Package → Result (Unit {0})
check_round1 participants seen [] = ok tt
check_round1 participants seen (p ∷ ps) =
    fail_if (ltb participants p.participant_id)
      (participant_out_of_range p.participant_id participants)
    >> fail_if (contains seen p.participant_id) (duplicate_participant_id p.participant_id)
    >> check_round1 participants (p.participant_id ∷ seen) ps

unfoldable pub validate_round1_set : DkgSessionConfig → List Round1Package → Result (Unit {0})
unfolding check_round1
validate_round1_set config packages =
    fail_if (not (length packages == (config.threshold).participants))
      (participant_count_mismatch (config.threshold).participants (length packages))
    >> check_round1 (config.threshold).participants [] packages

-- `map_err(|err| DkgKitError::Protocol(format!(template, err)))`
abbrev pub or_protocol {ℓ} : {A : Type ℓ} → String → String ⊎ A → Result A
or_protocol template (inl e) = err (protocol template (text e ∷ []))
or_protocol template (inr a) = ok a

module _ {S : Type 0} ⦃F : Field S⦄ (X : Schnorr S) where
  abbrev pub participant_share_index : ParticipantId → S
  participant_share_index id = F.from_u32 id

  -- `id.0 as u32 - 1`, which wraps around for the id 0. A build with overflow checks panics there.
  abbrev pub party_index : ParticipantId → ℕ
  party_index id = (id + 2 ^ 32 - 1) % 2 ^ 32

  -- The loop of `aggregate_keygen_inputs`.
  unfoldable pub add_inputs : X.Coordinator → List Round1Package → Result X.Coordinator
  unfolding decode_binary
  add_inputs coordinator [] = ok coordinator
  add_inputs coordinator (p ∷ ps) = decode_binary ⦃J = X.keygen_input_codec⦄ p.bytes >>= λ input.
      or_protocol "invalid round1 input: {}"
        (X.add_input (party_index p.participant_id) input coordinator)
      >>= λ added. add_inputs added ps

  unfoldable pub aggregate_keygen_inputs :
      DkgSessionConfig → List Round1Package → Result X.AggKeygenInput
  unfolding add_inputs
  aggregate_keygen_inputs config packages = do
    coordinator ←
        add_inputs (X.new_coordinator (config.threshold).threshold (config.threshold).participants)
          packages
    ok_or (X.finish coordinator) (protocol "coordinator missing round1 inputs" [])

  -- What `round1` computes before it stores it.
  unfoldable pub start_round1 : X.Rng → DkgSessionConfig → Result (Round1Package × DkgRuntime)
  unfolding encode_binary participant_id_from_scalar_bytes insert_package
  start_round1 rng config = do
    let share_indices = tabulate (config.threshold).participants (λ i. F.from_u32 (suc i))
    let (keygen_input, secret_shares) =
        X.gen_keygen_input (config.threshold).threshold share_indices
          (party_index config.participant_id) rng
    bytes ← encode_binary ⦃J = X.keygen_input_codec⦄ keygen_input
    let own : Round1Package = record { participant_id = config.participant_id; bytes = bytes }
    pending ←
        collect
          (λ ((index, share) : S × S).
            participant_id_from_scalar_bytes (F.to_bytes index) >>= λ recipient.
            encode_binary ⦃J = X.scalar_codec⦄ share >>= λ encoded.
            ok (record { recipient = recipient; bytes = encoded }))
          secret_shares
    ok (own, record { pending_secret_shares = pending; round1_packages = insert_package own [] })

  unfoldable pub round1 : X.Rng → FrostDkgSession → Result Round1Package × FrostDkgSession
  unfolding start_round1
  round1 rng session = elim (start_round1 rng session.config) [
    | err e ↦ (err e, session)
    | ok (own, runtime) ↦ (ok own, record session { runtime = some runtime })
  ]

  unfoldable pub round2 :
      List Round1Package → FrostDkgSession → Result (List Round2Package) × FrostDkgSession
  unfolding validate_round1_set collect_packages aggregate_keygen_inputs
  round2 packages session = elim (validate_round1_set session.config packages) [
    | err e ↦ (err e, session)
    | ok checked ↦ elim session.runtime [
      | none ↦ (err (protocol "round1 must be called before round2" []), session)
      | some runtime ↦ (
        aggregate_keygen_inputs session.config packages
            >> ok (
                map
                  (λ share. record {
                    sender = (session.config).participant_id;
                    recipient = share.recipient;
                    bytes = share.bytes;
                  })
                  runtime.pending_secret_shares),
        record session {
          runtime = some (record runtime { round1_packages = collect_packages [] packages });
        },
      )
    ]
  ]

  -- The loop of `finalize` over the packages for the participant.
  unfoldable pub collect_shares : List ParticipantId → List Round2Package → Result (List S)
  unfolding decode_binary
  collect_shares seen [] = ok []
  collect_shares seen (p ∷ ps) =
      fail_if (contains seen p.sender) (duplicate_participant_id p.sender)
      >> (decode_binary ⦃J = X.scalar_codec⦄ p.bytes >>= λ share.
          collect_shares (p.sender ∷ seen) ps >>= λ shares. ok (share ∷ shares))

  -- What `finalize` does with the runtime.
  unfoldable pub finish_dkg :
      DkgSessionConfig → DkgRuntime → List Round2Package → Result LocalKeyShare
  unfolding collect_shares aggregate_keygen_inputs encode_binary
  finish_dkg config runtime round2_packages = do
    fail_if (not (length runtime.round1_packages == (config.threshold).participants)) (
        protocol "missing round1 packages: have {}, need {}"
          (num (length runtime.round1_packages) ∷ num (config.threshold).participants ∷ []))
    shares_for_me ←
        collect_shares [] (select (λ p. p.recipient == config.participant_id) round2_packages)
    fail_if (not (length shares_for_me == (config.threshold).participants)) (
        protocol "missing round2 shares for participant {}: have {}, need {}" (
          num config.participant_id
          ∷ num (length shares_for_me)
          ∷ num (config.threshold).participants
          ∷ []))
    agg_input ← aggregate_keygen_inputs config runtime.round1_packages
    let secret_share =
        X.collect_secret_inputs (participant_share_index config.participant_id) shares_for_me
    paired_share ←
        or_protocol "share verification failed: {:?}"
          (X.receive_secret_share agg_input secret_share)
    even_share ← ok_or (X.even_paired_share paired_share) (protocol "paired share is zero" [])
    even_key ← ok_or (X.even_shared_key (X.shared_key agg_input)) (protocol "shared key is zero" [])
    key_bytes ← encode_binary ⦃J = X.shared_key_codec⦄ even_key
    share_bytes ← encode_binary ⦃J = X.paired_share_codec⦄ even_share
    ok (record {
      participant_id = config.participant_id;
      group_key = record {
        xonly_public_key = X.xonly_public_key even_key;
        verification_key_bytes = key_bytes;
      };
      secret_share_bytes = share_bytes;
    })

  unfoldable pub finalize : List Round2Package → FrostDkgSession → Result LocalKeyShare
  unfolding finish_dkg
  finalize round2_packages session = elim session.runtime [
    | none ↦ err (protocol "round1 and round2 must be called before finalize" [])
    | some runtime ↦ finish_dkg session.config runtime round2_packages
  ]
