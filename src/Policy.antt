-- ===== src/Policy.antt =====
-- crates/dkgkit-frost/src/lib.rs: `validate_signer_set` and its three policies.
pub mod Threshold
pub mod Ranks
pub mod Hierarchical
pub mod Grouped
use dkgkit.Prelude.{
  ℕ, zero, suc, ◌+◌, Bool, true, false, List, [], ◌∷◌, Option, none, some, ltb, ◌==◌, if◌then◌else◌,
  length, contains, take,
}
use dkgkit.Core.Error.{
  DkgKitError, Arg, num, participant_out_of_range, duplicate_participant_id,
  missing_ranked_participant, protocol, Result, ok, err, ◌>>=◌, ◌>>◌, fail_if, collect, ok_or,
}
use dkgkit.Core.Ids.{ParticipantId, Rank}
use dkgkit.Core.Threshold.{
  ThresholdConfig, HierarchicalThresholdConfig, GroupedThresholdConfig, GroupThresholdRequirement,
  SigningPolicy, threshold_policy, hierarchical_policy, grouped_policy, threshold_config, rank_of,
  grouped_threshold_config, grouped_rank_of, as_u16,
}

-- The loop over the signers, with the ids seen so far.
unfoldable pub check_signers : ℕ → List ℕ → List ParticipantId → Result (Unit {0})
check_signers participants seen [] = ok tt
check_signers participants seen (s ∷ ss) =
    let rest = check_signers participants (s ∷ seen) ss in
    if ltb participants s
    then err (participant_out_of_range s participants)
    else if contains seen s
    then err (duplicate_participant_id s)
    else rest

unfoldable pub validate_signer_set : List ParticipantId → ThresholdConfig → Result (Unit {0})
validate_signer_set signers t = do
  fail_if (ltb (length signers) t.threshold) (
      protocol "not enough signers: have {}, need {}" (num (length signers) ∷ num t.threshold ∷ []))
  check_signers t.participants [] signers

-- `slice::sort_unstable` on numbers, where equal elements cannot be told apart.
unfoldable pub sort_insert : ℕ → List ℕ → List ℕ
sort_insert x [] = x ∷ []
sort_insert x (y ∷ ys) = if ltb y x then y ∷ sort_insert x ys else x ∷ y ∷ ys

unfoldable pub sort : List ℕ → List ℕ
unfolding sort_insert
sort [] = []
sort (x ∷ xs) = sort_insert x (sort xs)

-- The loop over the first `threshold` ranks, with their index.
unfoldable pub check_rank_rule : ℕ → List Rank → Result (Unit {0})
check_rank_rule index [] = ok tt
check_rank_rule index (rank ∷ ranks) =
    let rest = check_rank_rule (suc index) ranks in
    if ltb index rank
    then err (
        protocol
          "hierarchical signer set violates Birkhoff rank rule at position {index}: rank {rank} > {index}"
          (num index ∷ num rank ∷ num index ∷ []))
    else rest

-- The rank of a signer, or the error of the code.
unfoldable pub signer_rank : HierarchicalThresholdConfig → ParticipantId → Result Rank
signer_rank c s = ok_or (rank_of c s) (missing_ranked_participant s)

unfoldable pub validate_hierarchical_signer_set :
    List ParticipantId → HierarchicalThresholdConfig → Result (Unit {0})
unfolding signer_rank sort check_rank_rule
validate_hierarchical_signer_set signers c = do
  validate_signer_set signers (← threshold_config c)
  ranks ← collect (signer_rank c) signers
  check_rank_rule 0 (take c.threshold (sort ranks))

-- `BTreeMap<u16, u16>`: `*map.entry(rank).or_default() += 1`, without overflow checks, and
-- `get(..).copied().unwrap_or_default()`.
unfoldable pub bump : ℕ → List (ℕ × ℕ) → List (ℕ × ℕ)
bump k [] = (k, 1) ∷ []
bump k ((j, n) ∷ m) = if j == k then (j, as_u16 (n + 1)) ∷ m else (j, n) ∷ bump k m

unfoldable pub get_count : ℕ → List (ℕ × ℕ) → ℕ
get_count k [] = 0
get_count k ((j, n) ∷ m) = if j == k then n else get_count k m

unfoldable pub tally_ranks :
    GroupedThresholdConfig → List (ℕ × ℕ) → List ParticipantId → Result (List (ℕ × ℕ))
unfolding bump
tally_ranks c m [] = ok m
tally_ranks c m (s ∷ ss) = ok_or (grouped_rank_of c s) (missing_ranked_participant s) >>= λ rank.
    tally_ranks c (bump rank m) ss

unfoldable pub check_quorums : List (ℕ × ℕ) → List GroupThresholdRequirement → Result (Unit {0})
unfolding get_count
check_quorums selected [] = ok tt
check_quorums selected (r ∷ rs) =
    let rest = check_quorums selected rs in
    if ltb (get_count r.rank selected) r.required
    then err (
        protocol "grouped threshold rank {} needs {} signer(s), got {}"
          (num r.rank ∷ num r.required ∷ num (get_count r.rank selected) ∷ []))
    else rest

unfoldable pub validate_grouped_threshold_signer_set :
    List ParticipantId → GroupedThresholdConfig → Result (Unit {0})
unfolding tally_ranks check_quorums
validate_grouped_threshold_signer_set signers c = do
  validate_signer_set signers (← grouped_threshold_config c)
  selected_by_rank ← tally_ranks c [] signers
  check_quorums selected_by_rank c.requirements

unfoldable pub validate_signer_set_with_policy :
    List ParticipantId → SigningPolicy → Result (Unit {0})
validate_signer_set_with_policy signers (threshold_policy t) = validate_signer_set signers t
validate_signer_set_with_policy signers (hierarchical_policy c) =
    validate_hierarchical_signer_set signers c
validate_signer_set_with_policy signers (grouped_policy c) =
    validate_grouped_threshold_signer_set signers c
