-- ===== src/Examples/Policies.antt =====
-- Configurations and signer sets.
use dkgkit.Prelude.{◌≡◌, refl, ◌↔◌, [], ◌∷◌, arith, length, sum_of, map}
use dkgkit.Core.Error.{ok}
use dkgkit.Core.Threshold.{
  ThresholdConfig, new_hierarchical_config, threshold_config, new_grouped_config,
  required_signer_count, grouped_threshold_config, check_distinct, check_requirements, check_ranks,
  new_threshold_config,
}
use dkgkit.Core.Threshold.Laws.{
  IsHierarchicalConfig, new_hierarchical_config-ok_iff, threshold_config-new,
}
use dkgkit.Core.Threshold.Grouped.{grouped_threshold_config-new}
use dkgkit.Policy.{
  validate_signer_set, validate_hierarchical_signer_set, validate_grouped_threshold_signer_set,
}
use dkgkit.Policy.Threshold.{IsSignerSet, validate_signer_set-ok_iff}
use dkgkit.Policy.Hierarchical.{IsHierarchicalSignerSet, validate_hierarchical-ok_iff}
use dkgkit.Policy.Grouped.{IsGroupedSignerSet, validate_grouped-ok_iff}
use dkgkit.Examples.{team, team_config, requirements, grouped_config}

abbrev two_of_three : ThresholdConfig
two_of_three = record { threshold = 2; participants = 3 }

validate_signer_set-ok_iff_example :
    (validate_signer_set (3 ∷ 1 ∷ []) two_of_three ≡ ok tt) ↔ IsSignerSet (3 ∷ 1 ∷ []) two_of_three
validate_signer_set-ok_iff_example = validate_signer_set-ok_iff (3 ∷ 1 ∷ []) two_of_three

validate_hierarchical-ok_iff_example :
    (validate_hierarchical_signer_set (1 ∷ 3 ∷ []) team_config ≡ ok tt)
    ↔ IsHierarchicalSignerSet (1 ∷ 3 ∷ []) team_config
validate_hierarchical-ok_iff_example = validate_hierarchical-ok_iff (1 ∷ 3 ∷ []) team_config

validate_grouped-ok_iff_example :
    (validate_grouped_threshold_signer_set (1 ∷ 3 ∷ []) grouped_config ≡ ok tt)
    ↔ IsGroupedSignerSet (1 ∷ 3 ∷ []) grouped_config
validate_grouped-ok_iff_example = validate_grouped-ok_iff (1 ∷ 3 ∷ []) grouped_config (omega arith)

new_hierarchical_config-ok_iff_example :
    (new_hierarchical_config 2 team ≡ ok team_config)
    ↔ ((team_config ≡ record { threshold = 2; participants = team }) × IsHierarchicalConfig 2 team)
new_hierarchical_config-ok_iff_example = new_hierarchical_config-ok_iff 2 team team_config

team_is_valid : new_hierarchical_config 2 team ≡ ok team_config
unfolding new_hierarchical_config new_threshold_config check_distinct
team_is_valid = refl

threshold_config-new_example : threshold_config team_config ≡ ok two_of_three
threshold_config-new_example = threshold_config-new 2 team team_config team_is_valid

grouped_is_valid : new_grouped_config team requirements ≡ ok grouped_config
unfolding new_grouped_config check_distinct check_requirements check_ranks
grouped_is_valid = refl

grouped_threshold_config-new_example :
    (required_signer_count grouped_config ≡ sum_of (map (λ r. r.required) requirements))
    × (grouped_threshold_config grouped_config
        ≡ ok (record {
          threshold = sum_of (map (λ r. r.required) requirements);
          participants = length team;
        }))
grouped_threshold_config-new_example =
    grouped_threshold_config-new team requirements grouped_config (omega arith)
      ((omega arith, omega arith), ((omega arith, omega arith), tt)) grouped_is_valid
