-- ===== src/Examples/Sharing.antt =====
-- Key generation, reconstruction, resharing and signing over the field of five elements.
use dkgkit.Prelude.{◌≤◌, ◌≡◌, refl, List, [], ◌∷◌, ◌++◌, arith, length}
use dkgkit.Core.Error.{ok, ◌>>=◌}
use dkgkit.Core.Ids.{ParticipantId}
use dkgkit.Core.Threshold.{
  HierarchicalThresholdConfig, threshold_config, new_threshold_config, rank_of, find_rank,
}
use dkgkit.Policy.{
  check_signers, validate_signer_set, sort_insert, sort, check_rank_rule, signer_rank,
  validate_hierarchical_signer_set,
}
use dkgkit.Policy.Hierarchical.{IsHierarchicalSignerSet}
use dkgkit.Scalar.{scalar_pow, pow_loop}
use dkgkit.Scalar.Five.{Five, f0, f1, f2, f3, five, to_bytes}
use dkgkit.Birkhoff.Solver.{
  solve_scalar_system, eliminate_from, eliminate_column, find_pivot, swap_rows, scale_row,
  clear_column,
}
use dkgkit.Birkhoff.{
  BirkhoffCoefficient, new_birkhoff_point, birkhoff_interpolation_coefficients, zip_coefficients,
  solve_points, birkhoff_matrix, transpose_of, derivative_basis_scalar, derivative_basis,
  factor_loop, value_loop, polynomial_derivative_value,
}
use dkgkit.Birkhoff.Derivative.{eval}
use dkgkit.Curve.Five.{curve_five, padding}
use dkgkit.Htss.{
  GroupKey, HtssLocalKeyShare, HtssLocalKeySet, signer_point,
  birkhoff_points_from_hierarchical_signer_set,
}
use dkgkit.Htss.Keys.{
  bytes_eq, new_aggregate_signature, deal_polynomial, share_of, reconstruct_loop,
  nonzero_from_bytes, reconstruct_htss_secret_scalar, run_local_htss_keygen, reshare_htss,
}
use dkgkit.Htss.Nonces.{
  HtssNoncePackage, HtssSignatureSharePackage, check_senders, check_sender_set,
  validate_htss_nonce_set, validate_htss_signature_share_set, nonce_public_nonce_bytes, add_nonces,
  aggregate_htss_public_nonce,
}
use dkgkit.Htss.Sign.{
  sum_shares, check_aggregation, aggregate_htss_signature_shares,
  aggregate_htss_signature_shares_for_output,
}
use dkgkit.Htss.Reconstruct.{reconstruct_htss_secret_scalar_sound}
use dkgkit.Htss.Keygen.{run_local_htss_keygen_sound}
use dkgkit.Htss.Reshare.{reshare_htss_sound}
use dkgkit.Htss.Verified.{
  IsSignature, aggregate_htss_signature_shares-valid,
  aggregate_htss_signature_shares_for_output-valid,
}
use dkgkit.Examples.{member, team_config}
use dkgkit.Examples.Interpolation.{two_coefficients}

-- The shares of 2 + 3x.
abbrev pub shares : List HtssLocalKeyShare
shares =
    record { participant_id = 1; rank = 0; share_value_bytes = 0 ∷ [] }
    ∷ record { participant_id = 2; rank = 1; share_value_bytes = 3 ∷ [] }
    ∷ record { participant_id = 3; rank = 1; share_value_bytes = 3 ∷ [] }
    ∷ []

abbrev pub group_key : GroupKey
group_key = record { xonly_public_key = 2 ∷ padding 31; verification_key_bytes = [] }

abbrev pub keys : HtssLocalKeySet
keys = record { group_key = group_key; shares = shares }

pub team_coefficients :
    (birkhoff_points_from_hierarchical_signer_set (1 ∷ 2 ∷ []) team_config
      >>= birkhoff_interpolation_coefficients Five)
    ≡ ok two_coefficients
unfolding birkhoff_points_from_hierarchical_signer_set signer_point new_birkhoff_point
    validate_hierarchical_signer_set validate_signer_set check_signers sort sort_insert
    check_rank_rule signer_rank rank_of find_rank threshold_config new_threshold_config
    birkhoff_interpolation_coefficients zip_coefficients solve_points birkhoff_matrix transpose_of
    derivative_basis_scalar derivative_basis factor_loop scalar_pow pow_loop solve_scalar_system
    eliminate_from eliminate_column find_pivot swap_rows scale_row clear_column
team_coefficients = refl

reconstruct_htss_secret_scalar_sound_example :
    reconstruct_htss_secret_scalar Five shares (1 ∷ 2 ∷ []) team_config
    ≡ ok (to_bytes (eval (f2 ∷ f3 ∷ []) f0))
unfolding share_of polynomial_derivative_value value_loop derivative_basis factor_loop scalar_pow
    pow_loop
reconstruct_htss_secret_scalar_sound_example =
    reconstruct_htss_secret_scalar_sound (f2 ∷ f3 ∷ []) team_config shares (1 ∷ 2 ∷ [])
      two_coefficients team_coefficients (omega arith) (omega arith) (refl, (refl, (refl, tt)))

run_local_htss_keygen_sound_example :
    (generated : HtssLocalKeySet) × (run_local_htss_keygen Five Five (λ _. f3) team_config
      ≡ ok generated)
    × ((signers : List ParticipantId) (out : List BirkhoffCoefficient)
        → (birkhoff_points_from_hierarchical_signer_set signers team_config
            >>= birkhoff_interpolation_coefficients Five)
          ≡ ok out
        → length signers ≤ 65535
        → (secret : Five) × (reconstruct_htss_secret_scalar Five generated.shares signers
              team_config
            ≡ ok (to_bytes secret))
          × (generated.group_key.xonly_public_key ≡ curve_five.to_xonly_bytes secret))
run_local_htss_keygen_sound_example =
    run_local_htss_keygen_sound Five Five (λ _. f3) team_config refl (refl, (refl, (refl, tt)))

-- The owner moves to id 4 and one helper leaves.
abbrev new_config : HierarchicalThresholdConfig
new_config = record { threshold = 2; participants = member 4 0 ∷ member 2 1 ∷ [] }

abbrev new_keys : HtssLocalKeySet
new_keys = record {
  group_key = group_key;
  shares =
      record { participant_id = 4; rank = 0; share_value_bytes = 1 ∷ [] }
      ∷ record { participant_id = 2; rank = 1; share_value_bytes = 1 ∷ [] }
      ∷ [];
}

team_reshares :
    reshare_htss Five Five (λ _. f1) keys team_config (1 ∷ 2 ∷ []) new_config ≡ ok new_keys
unfolding reshare_htss bytes_eq deal_polynomial nonzero_from_bytes share_of
    polynomial_derivative_value value_loop derivative_basis factor_loop scalar_pow pow_loop
    reconstruct_htss_secret_scalar reconstruct_loop birkhoff_points_from_hierarchical_signer_set
    signer_point new_birkhoff_point validate_hierarchical_signer_set validate_signer_set
    check_signers sort sort_insert check_rank_rule signer_rank rank_of find_rank threshold_config
    new_threshold_config birkhoff_interpolation_coefficients zip_coefficients solve_points
    birkhoff_matrix transpose_of derivative_basis_scalar solve_scalar_system eliminate_from
    eliminate_column find_pivot swap_rows scale_row clear_column
team_reshares = refl

reshare_htss_sound_example :
    (group_key ≡ group_key)
    × ((signers : List ParticipantId) (out : List BirkhoffCoefficient)
        → (birkhoff_points_from_hierarchical_signer_set signers new_config
            >>= birkhoff_interpolation_coefficients Five)
          ≡ ok out
        → length signers ≤ 65535
        → (secret : Five) × (reconstruct_htss_secret_scalar Five new_keys.shares signers new_config
            ≡ ok (to_bytes secret))
          × (group_key.xonly_public_key ≡ curve_five.to_xonly_bytes secret))
reshare_htss_sound_example =
    reshare_htss_sound Five Five (λ _. f1) keys new_keys team_config new_config (1 ∷ 2 ∷ [])
      team_reshares (refl, (refl, tt))

-- The nonces are 1 and 1, the message is the byte 7.
abbrev pub nonces : List HtssNoncePackage
nonces =
    record { participant_id = 1; signing_session_id = "s"; public_nonce_bytes = 1 ∷ padding 32 }
    ∷ record { participant_id = 2; signing_session_id = "s"; public_nonce_bytes = 1 ∷ padding 32 }
    ∷ []

abbrev pub signature_shares : List HtssSignatureSharePackage
signature_shares =
    record { participant_id = 1; signing_session_id = "s"; signature_share_bytes = 1 ∷ [] }
    ∷ record { participant_id = 2; signing_session_id = "s"; signature_share_bytes = 2 ∷ [] }
    ∷ []

team_signs :
    aggregate_htss_signature_shares Five Five group_key
      (7 ∷ [])
      nonces
      signature_shares
      (1 ∷ 2 ∷ [])
      team_config
    ≡ ok (record { signature_bytes = 2 ∷ padding 31 ++ 3 ∷ [] })
unfolding aggregate_htss_signature_shares check_aggregation sum_shares aggregate_htss_public_nonce
    add_nonces nonce_public_nonce_bytes validate_htss_nonce_set validate_htss_signature_share_set
    check_sender_set check_senders new_aggregate_signature validate_hierarchical_signer_set
    validate_signer_set check_signers sort sort_insert check_rank_rule signer_rank rank_of find_rank
    threshold_config new_threshold_config
team_signs = refl

aggregate_htss_signature_shares-valid_example :
    IsHierarchicalSignerSet (1 ∷ 2 ∷ []) team_config
    × IsSignature Five Five (2 ∷ padding 31) (7 ∷ []) (2 ∷ padding 31 ++ 3 ∷ [])
aggregate_htss_signature_shares-valid_example =
    aggregate_htss_signature_shares-valid Five Five group_key (7 ∷ []) nonces signature_shares
      (1 ∷ 2 ∷ []) team_config (record { signature_bytes = 2 ∷ padding 31 ++ 3 ∷ [] }) team_signs

-- The output key is the group key plus four times the generator.
team_signs_for_output :
    aggregate_htss_signature_shares_for_output Five Five
      (7 ∷ [])
      (1 ∷ padding 31)
      (4 ∷ [])
      nonces
      signature_shares
      (1 ∷ 2 ∷ [])
      team_config
    ≡ ok (record { signature_bytes = 2 ∷ padding 31 ++ 0 ∷ [] })
unfolding aggregate_htss_signature_shares_for_output check_aggregation sum_shares
    aggregate_htss_public_nonce add_nonces nonce_public_nonce_bytes validate_htss_nonce_set
    validate_htss_signature_share_set check_sender_set check_senders new_aggregate_signature
    validate_hierarchical_signer_set validate_signer_set check_signers sort sort_insert
    check_rank_rule signer_rank rank_of find_rank threshold_config new_threshold_config
team_signs_for_output = refl

aggregate_htss_signature_shares_for_output-valid_example :
    IsHierarchicalSignerSet (1 ∷ 2 ∷ []) team_config
    × IsSignature Five Five (1 ∷ padding 31) (7 ∷ []) (2 ∷ padding 31 ++ 0 ∷ [])
aggregate_htss_signature_shares_for_output-valid_example =
    aggregate_htss_signature_shares_for_output-valid Five Five (7 ∷ []) (1 ∷ padding 31) (4 ∷ [])
      nonces signature_shares (1 ∷ 2 ∷ []) team_config
      (record { signature_bytes = 2 ∷ padding 31 ++ 0 ∷ [] }) team_signs_for_output
