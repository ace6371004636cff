-- ===== src/Htss/Dkg/Rounds.antt =====
-- crates/dkgkit-frost/src/lib.rs: `htss_dkg_round1`, `htss_dkg_round2`, `finalize_htss_dkg` and
-- `run_distributed_htss_keygen`. The coefficients of a participant are a stream of draws.
use dkgkit.Prelude.{
  ℕ, suc, Bool, not, List, [], ◌∷◌, ◌++◌, map, Option, none, some, ◌==◌, if◌then◌else◌, length, any,
  find_last, select, tabulate,
}
use dkgkit.Core.Error.{
  num, missing_ranked_participant, protocol, Result, ok, ◌>>=◌, ◌>>◌, fail_if, ok_or, collect,
}
use dkgkit.Core.Ids.{ParticipantId, RankedParticipant}
use dkgkit.Core.Threshold.{HierarchicalThresholdConfig, rank_of}
use dkgkit.Scalar.{Bytes, Field, ◌⊕◌, ◌⊖◌, scalar_zero}
use dkgkit.Birkhoff.{polynomial_derivative_value}
use dkgkit.Curve.{Curve}
use dkgkit.Htss.{GroupKey, HtssLocalKeyShare, HtssLocalKeySet}
use dkgkit.Htss.Keys.{bytes_eq}
use dkgkit.Htss.Dkg.{
  HtssDkgRound1Package, HtssDkgRound1State, HtssDkgRound2Package, validate_htss_dkg_round1_set,
  validate_htss_dkg_round2_set, verify_htss_dkg_derivative_share, htss_dkg_commitment_point,
}

abbrev first {ℓ} : {A : Type ℓ} → List A → Option A
first [] = none
first (x ∷ xs) = some x

abbrev pub flatten {ℓ} : {A : Type ℓ} → List (List A) → List A
flatten [] = []
flatten (xs ∷ xss) = xs ++ flatten xss

module _ (S P : Type 0) ⦃F : Field S⦄ ⦃C : Curve S P⦄ where
  unfoldable pub htss_dkg_round1 :
      (ℕ → S) → ParticipantId → HierarchicalThresholdConfig → Result HtssDkgRound1State
  htss_dkg_round1 draws id config = do
    rank ← ok_or (rank_of config id) (missing_ranked_participant id)
    ok (record {
      public_package = record {
        participant_id = id;
        rank = rank;
        commitment_bytes = tabulate config.threshold (λ i. C.to_bytes (C.base_mul (draws i)));
      };
      secret_coefficient_bytes = tabulate config.threshold (λ i. F.to_bytes (draws i));
    })

  unfoldable pub htss_dkg_round2 :
      HtssDkgRound1State
      → List HtssDkgRound1Package
      → HierarchicalThresholdConfig
      → Result (List HtssDkgRound2Package)
  unfolding validate_htss_dkg_round1_set polynomial_derivative_value
  htss_dkg_round2 state packages config = do
    validate_htss_dkg_round1_set S P packages config
    fail_if (not (any (λ p. p.participant_id == (state.public_package).participant_id) packages)) (
        protocol "missing own HTSS DKG round1 package for participant {}"
          (num (state.public_package).participant_id ∷ []))
    fail_if (not (length state.secret_coefficient_bytes == config.threshold)) (
        protocol "HTSS DKG contributor {} has {} coefficients, expected {}" (
          num (state.public_package).participant_id
          ∷ num (length state.secret_coefficient_bytes)
          ∷ num config.threshold
          ∷ []))
    coefficients ←
        collect
          (λ bytes. ok_or (F.from_bytes bytes) (
            protocol "invalid HTSS DKG coefficient for participant {}"
              (num (state.public_package).participant_id ∷ [])))
          state.secret_coefficient_bytes
    ok (
        map
          (λ recipient. record {
            sender = (state.public_package).participant_id;
            recipient = recipient.id;
            recipient_rank = recipient.rank;
            share_value_bytes =
                F.to_bytes (polynomial_derivative_value coefficients recipient.id recipient.rank);
          })
          config.participants)

  -- The loop that adds up the first commitments.
  unfoldable pub add_first_commitments : P → List HtssDkgRound1Package → Result P
  unfolding htss_dkg_commitment_point
  add_first_commitments aggregate [] = ok aggregate
  add_first_commitments aggregate (p ∷ ps) =
      ok_or (first p.commitment_bytes)
        (protocol "HTSS DKG participant {} missing constant commitment" (num p.participant_id ∷ []))
      >>= htss_dkg_commitment_point S P
      >>= λ commitment. add_first_commitments (C.add aggregate commitment) ps

  unfoldable pub htss_dkg_group_xonly_public_key : List HtssDkgRound1Package → Result (Bytes × Bool)
  unfolding add_first_commitments
  htss_dkg_group_xonly_public_key packages = do
    aggregate ← add_first_commitments C.zero packages
    fail_if (C.is_identity aggregate) (protocol "HTSS DKG group key cannot be zero" [])
    let even = C.into_even_y aggregate
    ok (C.to_xonly_bytes (C.point even.0), even.1)

  -- The loop of `finalize_htss_dkg` over the packages that the participant received.
  unfoldable pub finalize_loop :
      List HtssDkgRound1Package → S → List HtssDkgRound2Package → Result S
  unfolding verify_htss_dkg_derivative_share
  finalize_loop round1 share_value [] = ok share_value
  finalize_loop round1 share_value (message ∷ packages) =
      ok_or (find_last (λ p. p.participant_id == message.sender) round1)
        (missing_ranked_participant message.sender)
      >>= λ own.
          verify_htss_dkg_derivative_share S P message own
          >> ok_or (F.from_bytes message.share_value_bytes) (
              protocol "invalid HTSS DKG round2 share from participant {}"
                (num message.sender ∷ []))
          >>= λ contribution. finalize_loop round1 (share_value ⊕ contribution) packages

  unfoldable pub finalize_htss_dkg :
      ParticipantId
      → List HtssDkgRound1Package
      → List HtssDkgRound2Package
      → HierarchicalThresholdConfig
      → Result (GroupKey × HtssLocalKeyShare)
  unfolding validate_htss_dkg_round1_set validate_htss_dkg_round2_set finalize_loop
      htss_dkg_group_xonly_public_key
  finalize_htss_dkg id round1 round2 config = do
    rank ← ok_or (rank_of config id) (missing_ranked_participant id)
    validate_htss_dkg_round1_set S P round1 config
    validate_htss_dkg_round2_set id round2 config
    total ← finalize_loop round1 scalar_zero round2
    key ← htss_dkg_group_xonly_public_key round1
    let share_value = if key.1 then scalar_zero ⊖ total else total
    ok (
      record { xonly_public_key = key.0; verification_key_bytes = [] },
      record { participant_id = id; rank = rank; share_value_bytes = F.to_bytes share_value },
    )

  -- The last loop of `run_distributed_htss_keygen`: every participant derives the same group key.
  unfoldable pub finalize_all :
      List HtssDkgRound1Package
      → List HtssDkgRound2Package
      → HierarchicalThresholdConfig
      → Option GroupKey
      → List RankedParticipant
      → Result (Option GroupKey × List HtssLocalKeyShare)
  unfolding finalize_htss_dkg bytes_eq
  finalize_all round1 round2 config key [] = ok (key, [])
  finalize_all round1 round2 config key (p ∷ ps) =
      finalize_htss_dkg p.id round1 (select (λ q. q.recipient == p.id) round2) config
      >>= λ (own_key, share).
          elim key [
            | none ↦ ok own_key
            | some existing ↦
                fail_if (not (bytes_eq existing.xonly_public_key own_key.xonly_public_key))
                  (protocol "HTSS DKG participants derived different group keys" [])
                >> ok existing
          ]
          >>= λ group_key.
              finalize_all round1 round2 config (some group_key) ps >>= λ (last_key, shares).
              ok (last_key, share ∷ shares)

  -- The i-th participant draws from the i-th stream.
  unfoldable pub run_round1 :
      (ℕ → ℕ → S)
      → ℕ
      → List RankedParticipant
      → HierarchicalThresholdConfig
      → Result (List HtssDkgRound1State)
  unfolding htss_dkg_round1
  run_round1 draws i [] config = ok []
  run_round1 draws i (p ∷ ps) config = htss_dkg_round1 (draws i) p.id config >>= λ state.
      run_round1 draws (suc i) ps config >>= λ states. ok (state ∷ states)

  unfoldable pub run_distributed_htss_keygen :
      (ℕ → ℕ → S) → HierarchicalThresholdConfig → Result HtssLocalKeySet
  unfolding run_round1 htss_dkg_round2 finalize_all
  run_distributed_htss_keygen draws config = do
    states ← run_round1 draws 0 config.participants config
    let round1 = map (λ s. s.public_package) states
    round2 ← collect (λ s. htss_dkg_round2 s round1 config) states
    finished ← finalize_all round1 (flatten round2) config none config.participants
    group_key ← ok_or finished.0 (protocol "missing HTSS DKG group key" [])
    ok (record { group_key = group_key; shares = finished.1 })
