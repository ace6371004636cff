-- ===== src/Htss/Dkg.antt =====
-- crates/dkgkit-frost/src/lib.rs: the two rounds of the distributed HTSS key generation.
pub mod Rounds
use dkgkit.Prelude.{
  ℕ, zero, suc, Bool, true, false, not, List, [], ◌∷◌, map, Option, none, some, ◌==◌, if◌then◌else◌,
  length, contains,
}
use dkgkit.Core.Error.{
  DkgKitError, Arg, num, duplicate_participant_id, missing_ranked_participant, protocol, Result, ok,
  err, ◌>>=◌, ◌>>◌, fail_if, ok_or,
}
use dkgkit.Core.Ids.{ParticipantId}
use dkgkit.Core.Threshold.{HierarchicalThresholdConfig, rank_of, as_u16}
use dkgkit.Scalar.{Bytes, Field}
use dkgkit.Birkhoff.{derivative_basis_scalar, derivative_basis}
use dkgkit.Curve.{Curve}
use dkgkit.Htss.Keys.{bytes_eq}

pub record HtssDkgRound1Package : Type 0 where
  pub participant_id : ParticipantId
  pub rank : ℕ
  pub commitment_bytes : List Bytes

pub record HtssDkgRound1State : Type 0 where
  pub public_package : HtssDkgRound1Package
  pub secret_coefficient_bytes : List Bytes

pub record HtssDkgRound2Package : Type 0 where
  pub sender : ParticipantId
  pub recipient : ParticipantId
  pub recipient_rank : ℕ
  pub share_value_bytes : Bytes

-- The loop of `validate_htss_dkg_round2_set`; it ends with the number of senders seen.
unfoldable pub check_round2 :
    ParticipantId
    → ℕ
    → HierarchicalThresholdConfig
    → List ParticipantId
    → List HtssDkgRound2Package
    → Result ℕ
check_round2 id expected_rank config seen [] = ok (length seen)
check_round2 id expected_rank config seen (message ∷ packages) =
    fail_if (not (message.recipient == id)) (
      protocol "HTSS DKG round2 package for participant {} cannot finalize participant {}"
        (num message.recipient ∷ num id ∷ []))
    >> fail_if (not (message.recipient_rank == expected_rank)) (
        protocol "HTSS DKG round2 recipient rank mismatch for participant {}: got {}, expected {}"
          (num id ∷ num message.recipient_rank ∷ num expected_rank ∷ []))
    >> ok_or (rank_of config message.sender) (missing_ranked_participant message.sender)
    >> fail_if (contains seen message.sender) (duplicate_participant_id message.sender)
    >> check_round2 id expected_rank config (message.sender ∷ seen) packages

unfoldable pub validate_htss_dkg_round2_set :
    ParticipantId → List HtssDkgRound2Package → HierarchicalThresholdConfig → Result (Unit {0})
unfolding check_round2
validate_htss_dkg_round2_set id packages config = do
  expected_rank ← ok_or (rank_of config id) (missing_ranked_participant id)
  seen ← check_round2 id expected_rank config [] packages
  fail_if (not (seen == length config.participants)) (
      protocol "HTSS DKG round2 set for participant {} mismatch: have {}, need {}"
        (num id ∷ num seen ∷ num (length config.participants) ∷ []))

module _ (S P : Type 0) ⦃F : Field S⦄ ⦃C : Curve S P⦄ where
  unfoldable pub htss_dkg_commitment_point : Bytes → Result P
  htss_dkg_commitment_point bytes =
      fail_if (not (length bytes == 33))
        (protocol "HTSS DKG commitment must be 33 bytes, got {}" (num (length bytes) ∷ []))
      >> ok_or (C.from_bytes bytes) (protocol "invalid HTSS DKG commitment point" [])

  -- `for commitment in &package.commitment_bytes { htss_dkg_commitment_point(commitment)?; }`
  unfoldable pub check_commitments : List Bytes → Result (Unit {0})
  unfolding htss_dkg_commitment_point
  check_commitments [] = ok tt
  check_commitments (c ∷ cs) = htss_dkg_commitment_point c >> check_commitments cs

  -- The loop of `validate_htss_dkg_round1_set`; it ends with the number of participants seen.
  unfoldable pub check_round1 :
      HierarchicalThresholdConfig → List ParticipantId → List HtssDkgRound1Package → Result ℕ
  unfolding check_commitments
  check_round1 config seen [] = ok (length seen)
  check_round1 config seen (message ∷ packages) =
      fail_if (contains seen message.participant_id)
        (duplicate_participant_id message.participant_id)
      >> ok_or (rank_of config message.participant_id)
          (missing_ranked_participant message.participant_id)
      >>= λ expected_rank.
          fail_if (not (message.rank == expected_rank)) (
            protocol "HTSS DKG round1 rank mismatch for participant {}: got {}, expected {}"
              (num message.participant_id ∷ num message.rank ∷ num expected_rank ∷ []))
          >> fail_if (not (length message.commitment_bytes == config.threshold)) (
              protocol "HTSS DKG round1 participant {} has {} commitments, expected {}" (
                num message.participant_id
                ∷ num (length message.commitment_bytes)
                ∷ num config.threshold
                ∷ []))
          >> check_commitments message.commitment_bytes
          >> check_round1 config (message.participant_id ∷ seen) packages

  unfoldable pub validate_htss_dkg_round1_set :
      List HtssDkgRound1Package → HierarchicalThresholdConfig → Result (Unit {0})
  unfolding check_round1
  validate_htss_dkg_round1_set packages config = check_round1 config [] packages >>= λ seen.
      fail_if (not (seen == length config.participants)) (
        protocol "HTSS DKG round1 set mismatch: have {}, need {}"
          (num seen ∷ num (length config.participants) ∷ []))

  -- The loop of `verify_htss_dkg_derivative_share` over the enumerated commitments.
  unfoldable pub expected_loop : ℕ → ℕ → ℕ → P → List Bytes → Result P
  unfolding htss_dkg_commitment_point derivative_basis_scalar derivative_basis
  expected_loop degree order x expected [] = ok expected
  expected_loop degree order x expected (c ∷ cs) =
      derivative_basis_scalar {S = S} (as_u16 degree) order x >>= λ basis.
      (if F.is_zero basis
        then ok expected
        else htss_dkg_commitment_point c >>= λ commitment.
            ok (C.add expected (C.point_mul basis commitment)))
      >>= λ next. expected_loop (suc degree) order x next cs

  unfoldable pub verify_htss_dkg_derivative_share :
      HtssDkgRound2Package → HtssDkgRound1Package → Result (Unit {0})
  unfolding expected_loop bytes_eq
  verify_htss_dkg_derivative_share message round1 = do
    fail_if (not (message.sender == round1.participant_id))
        (protocol "HTSS DKG derivative share sender mismatch" [])
    share_value ←
        ok_or (F.from_bytes message.share_value_bytes) (
          protocol "invalid HTSS DKG derivative share from participant {}"
            (num message.sender ∷ []))
    expected ←
        expected_loop 0 message.recipient_rank message.recipient C.zero round1.commitment_bytes
    fail_if (not (bytes_eq (C.to_bytes (C.base_mul share_value)) (C.to_bytes expected))) (
        protocol "HTSS DKG derivative share from participant {} failed commitment verification"
          (num message.sender ∷ []))
