-- ===== src/Examples/RankZero.antt =====
-- A grouped configuration of two helpers of rank 1, both required.
use dkgkit.Prelude.{◌≡◌, refl, [], ◌∷◌, arith}
use dkgkit.Core.Error.{ok}
use dkgkit.Core.Threshold.{
  GroupedThresholdConfig, new_grouped_config, check_distinct, check_requirements, check_ranks,
}
use dkgkit.Scalar.Five.{Five, f1, five}
use dkgkit.Curve.Five.{curve_five}
use dkgkit.Htss.Local.{sign_digest_with_local_grouped_htss_threshold_shares}
use dkgkit.Htss.RankZero.{sign_grouped_needs_rank_zero}
use dkgkit.Examples.{member}
use dkgkit.Examples.Sharing.{group_key, shares}

abbrev helpers : GroupedThresholdConfig
helpers = record {
  participants = member 2 1 ∷ member 3 1 ∷ [];
  requirements = record { rank = 1; required = 2; total = 2 } ∷ [];
}

-- The constructor accepts it.
helpers_are_accepted : new_grouped_config helpers.participants helpers.requirements ≡ ok helpers
unfolding new_grouped_config check_distinct check_requirements check_ranks
helpers_are_accepted = refl

sign_grouped_needs_rank_zero_example : ¬ (
    sign_digest_with_local_grouped_htss_threshold_shares Five Five
      (λ _. f1)
      group_key
      (7 ∷ [])
      shares
      (2 ∷ 3 ∷ [])
      helpers
    ≡ ok (record { signature_bytes = 2 ∷ 3 ∷ [] }))
sign_grouped_needs_rank_zero_example =
    sign_grouped_needs_rank_zero Five Five (λ _. f1) group_key (7 ∷ []) shares (2 ∷ 3 ∷ []) helpers
      (record { signature_bytes = 2 ∷ 3 ∷ [] }) (omega arith, (omega arith, tt))
