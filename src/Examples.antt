-- ===== src/Examples.antt =====
-- The theorems at concrete inputs: the configurations, and the theorems applied to them.
pub mod Policies
pub mod Interpolation
pub mod Sharing
pub mod Signing
pub mod Messages
pub mod Codecs
pub mod Exchange
pub mod Packages
pub mod Sessions
pub mod Relay
pub mod Live
pub mod Commitments
pub mod Senders
pub mod RankZero
use dkgkit.Prelude.{ℕ, List, [], ◌∷◌, none}
use dkgkit.Core.Ids.{RankedParticipant}
use dkgkit.Core.Threshold.{
  HierarchicalThresholdConfig, GroupThresholdRequirement, GroupedThresholdConfig,
}

abbrev pub member : ℕ → ℕ → RankedParticipant
member id rank = record { id = id; rank = rank; label = none }

-- One owner of rank 0 and two helpers of rank 1.
abbrev pub team : List RankedParticipant
team = member 1 0 ∷ member 2 1 ∷ member 3 1 ∷ []

abbrev pub team_config : HierarchicalThresholdConfig
team_config = record { threshold = 2; participants = team }

abbrev pub requirements : List GroupThresholdRequirement
requirements =
    record { rank = 0; required = 1; total = 1 } ∷ record { rank = 1; required = 1; total = 2 } ∷ []

abbrev pub grouped_config : GroupedThresholdConfig
grouped_config = record { participants = team; requirements = requirements }
