-- ===== src/Core/Threshold.antt =====
-- crates/dkgkit-core/src/lib.rs: the three threshold configurations and `SigningPolicy`.
pub mod Laws
pub mod Grouped
use dkgkit.Prelude.{
  ℕ, ◌%◌, ◌^◌, ◌<◌, Bool, true, false, ◌||◌, not, List, [], ◌∷◌, map, Option, none, some, ltb, ◌==◌,
  if◌then◌else◌, length, find, select, contains, sum_of,
}
use dkgkit.Core.Error.{
  DkgKitError, Arg, num, invalid_threshold, duplicate_participant_id, protocol, Result, ok, err,
  ◌>>=◌, ◌>>◌, fail_if,
}
use dkgkit.Core.Ids.{ParticipantId, Rank, RankedParticipant}

-- `x as u16`, and a sum of `u16`s in a build without overflow checks.
abbrev pub as_u16 : ℕ → ℕ
as_u16 n = n % 2 ^ 16

abbrev pub u16_max : ℕ
u16_max = 65535

pub record ThresholdConfig : Type 0 where
  pub threshold : ℕ
  pub participants : ℕ

unfoldable pub new_threshold_config : ℕ → ℕ → Result ThresholdConfig
new_threshold_config threshold participants =
    if threshold == 0 || participants == 0 || ltb participants threshold
    then err (invalid_threshold threshold participants)
    else ok (record { threshold = threshold; participants = participants })

-- `for x in xs { if !seen.insert(x) { return Err(DuplicateParticipantId(x)) } }`
unfoldable pub check_distinct : List ℕ → List ℕ → Result (Unit {0})
check_distinct seen [] = ok tt
check_distinct seen (x ∷ xs) =
    let rest = check_distinct (x ∷ seen) xs in
    if contains seen x then err (duplicate_participant_id x) else rest

abbrev pub ids : List RankedParticipant → List ParticipantId
ids = map (λ p. p.id)

-- `participants.iter().find(|participant| participant.id == id).map(|participant| participant.rank)`
unfoldable pub find_rank : List RankedParticipant → ParticipantId → Option Rank
find_rank [] id = none
find_rank (p ∷ ps) id = if p.id == id then some p.rank else find_rank ps id

pub record HierarchicalThresholdConfig : Type 0 where
  pub threshold : ℕ
  pub participants : List RankedParticipant

unfoldable pub new_hierarchical_config :
    ℕ → List RankedParticipant → Result HierarchicalThresholdConfig
unfolding new_threshold_config
new_hierarchical_config threshold participants = do
  fail_if (ltb u16_max (length participants)) (invalid_threshold threshold u16_max)
  new_threshold_config threshold (length participants)
  check_distinct [] (ids participants)
  ok (record { threshold = threshold; participants = participants })

abbrev pub participant_count : HierarchicalThresholdConfig → ℕ
participant_count c = as_u16 (length c.participants)

unfoldable pub threshold_config : HierarchicalThresholdConfig → Result ThresholdConfig
threshold_config c = new_threshold_config c.threshold (participant_count c)

unfoldable pub rank_of : HierarchicalThresholdConfig → ParticipantId → Option Rank
rank_of c id = find_rank c.participants id

pub record GroupThresholdRequirement : Type 0 where
  pub rank : Rank
  pub required : ℕ
  pub total : ℕ

unfoldable pub new_group_requirement : ℕ → ℕ → ℕ → Result GroupThresholdRequirement
new_group_requirement rank required total =
    if required == 0 || total == 0 || ltb total required
    then err (invalid_threshold required total)
    else ok (record { rank = rank; required = required; total = total })

pub record GroupedThresholdConfig : Type 0 where
  pub participants : List RankedParticipant
  pub requirements : List GroupThresholdRequirement

-- How many participants hold a rank.
unfoldable pub rank_total : ℕ → List RankedParticipant → ℕ
rank_total rank participants = length (select (λ p. p.rank == rank) participants)

-- The loop over the requirements: no rank twice, and the declared total is the one found.
unfoldable pub check_requirements :
    List RankedParticipant → List ℕ → List GroupThresholdRequirement → Result (List ℕ)
unfolding rank_total
check_requirements participants seen [] = ok seen
check_requirements participants seen (r ∷ rs) =
    let rest = check_requirements participants (r.rank ∷ seen) rs in
    if contains seen r.rank
    then err (protocol "duplicate grouped threshold rank: {}" (num r.rank ∷ []))
    else if not (rank_total r.rank participants == r.total)
    then err (
        protocol "grouped threshold rank {} total mismatch: declared {}, found {}"
          (num r.rank ∷ num r.total ∷ num (rank_total r.rank participants) ∷ []))
    else rest

-- The last loop: each participant's rank has a requirement.
unfoldable pub check_ranks : List ℕ → List RankedParticipant → Result (Unit {0})
check_ranks seen [] = ok tt
check_ranks seen (p ∷ ps) =
    let rest = check_ranks seen ps in
    if contains seen p.rank
    then rest
    else err (protocol "missing grouped threshold requirement for rank {}" (num p.rank ∷ []))

abbrev is_empty {ℓ} : {A : Type ℓ} → List A → Bool
is_empty [] = true
is_empty (x ∷ xs) = false

unfoldable pub new_grouped_config :
    List RankedParticipant → List GroupThresholdRequirement → Result GroupedThresholdConfig
new_grouped_config participants requirements = do
  fail_if (is_empty participants || is_empty requirements)
      (invalid_threshold 0 (as_u16 (length participants)))
  check_distinct [] (ids participants)
  seen_ranks ← check_requirements participants [] requirements
  check_ranks seen_ranks participants
  ok (record { participants = participants; requirements = requirements })

abbrev pub grouped_participant_count : GroupedThresholdConfig → ℕ
grouped_participant_count c = as_u16 (length c.participants)

unfoldable pub required_signer_count : GroupedThresholdConfig → ℕ
required_signer_count c = as_u16 (sum_of (map (λ r. r.required) c.requirements))

unfoldable pub grouped_threshold_config : GroupedThresholdConfig → Result ThresholdConfig
unfolding required_signer_count
grouped_threshold_config c =
    new_threshold_config (required_signer_count c) (grouped_participant_count c)

unfoldable pub grouped_rank_of : GroupedThresholdConfig → ParticipantId → Option Rank
grouped_rank_of c id = find_rank c.participants id

pub data SigningPolicy : Type 0 where
  threshold_policy : ThresholdConfig → SigningPolicy
  hierarchical_policy : HierarchicalThresholdConfig → SigningPolicy
  grouped_policy : GroupedThresholdConfig → SigningPolicy
