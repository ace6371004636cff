-- ===== src/Policy/Grouped.antt =====
-- `validate_grouped_threshold_signer_set` against counts of the signers of each rank.
use dkgkit.Prelude.{
  ℕ, suc, ◌+◌, ◌≤◌, ◌<◌, ◌≡◌, refl, subst, ◌↔◌, List, [], ◌∷◌, none, some, arith, ◌==◌,
  if◌then◌else◌, length, All, Option-cases, inl, inr,
}
use dkgkit.Core.Error.{ok, >>=-eq-ok, >>-eq-ok}
use dkgkit.Core.Ids.{ParticipantId, Rank}
use dkgkit.Core.Threshold.{
  ThresholdConfig, GroupedThresholdConfig, GroupThresholdRequirement, new_threshold_config,
  grouped_threshold_config, grouped_participant_count, required_signer_count, grouped_rank_of,
}
use dkgkit.Policy.{
  validate_signer_set, bump, get_count, tally_ranks, check_quorums,
  validate_grouped_threshold_signer_set,
}
use dkgkit.Policy.Threshold.{IsSignerSet, validate_signer_set-ok_iff}

-- How many of the signers hold rank `k`.
abbrev pub members : GroupedThresholdConfig → ℕ → List ParticipantId → ℕ
members c k [] = 0
members c k (s ∷ ss) =
    let rest = members c k ss in
    elim (grouped_rank_of c s) [ none ↦ rest | some r ↦ if r == k then suc rest else rest ]

pub record IsGroupedSignerSet (signers : List ParticipantId) (c : GroupedThresholdConfig)
    : Type 0 where
  pub positive : 0 < required_signer_count c
  pub fits : required_signer_count c ≤ grouped_participant_count c
  pub base :
      IsSignerSet signers
        (record { threshold = required_signer_count c; participants = grouped_participant_count c })
  pub known : All (λ s. (r : Rank) × (grouped_rank_of c s ≡ some r)) signers
  pub quorum : All (λ r. r.required ≤ members c r.rank signers) c.requirements

get_count-bump :
    (k j : ℕ) (m : List (ℕ × ℕ))
    → get_count j m + 1 < 65536
    → get_count k (bump j m) ≡ (if j == k then get_count k m + 1 else get_count k m)
unfolding get_count bump
get_count-bump k j [] h = ground arith
get_count-bump k j ((i, n) ∷ m) h = ground (arith, get_count-bump k j m)

-- The counters after the loop, while none can wrap round.
tally_ranks_sound :
    (c : GroupedThresholdConfig) (m m' : List (ℕ × ℕ)) (ss : List ParticipantId)
    → ((k : ℕ) → get_count k m + length ss < 65536)
    → tally_ranks c m ss ≡ ok m'
    → All (λ s. (r : Rank) × (grouped_rank_of c s ≡ some r)) ss
      × ((k : ℕ) → get_count k m' ≡ get_count k m + members c k ss)
unfolding tally_ranks
tally_ranks_sound c m m' [] b h = (tt, λ k. ground arith)
tally_ranks_sound c m m' (s ∷ ss) b h = elim (Option-cases (grouped_rank_of c s)) [
  | inl e ↦ ground arith
  | inr (r, e) ↦
      let bumped = λ (k : ℕ). get_count-bump k r m (omega (arith, b r)) in
      let (known, counts) =
        tally_ranks_sound c (bump r m) m' ss (λ k. ground (arith, bumped k, b k)) (ground arith) in
      (((r, e), known), λ k. ground (arith, bumped k, counts k))
]

tally_ranks_complete :
    (c : GroupedThresholdConfig) (m : List (ℕ × ℕ)) (ss : List ParticipantId)
    → All (λ s. (r : Rank) × (grouped_rank_of c s ≡ some r)) ss
    → (m' : List (ℕ × ℕ)) × (tally_ranks c m ss ≡ ok m')
unfolding tally_ranks
tally_ranks_complete c m [] k = (m, refl)
tally_ranks_complete c m (s ∷ ss) ((r, e), ks) = rw e (tally_ranks_complete c (bump r m) ss ks)

module _ (selected : List (ℕ × ℕ)) (n : ℕ → ℕ) (counts : (k : ℕ) → get_count k selected ≡ n k) where
  check_quorums_sound :
      (rs : List GroupThresholdRequirement)
      → check_quorums selected rs ≡ ok tt
      → All (λ r. r.required ≤ n r.rank) rs
  unfolding check_quorums
  check_quorums_sound [] h = tt
  check_quorums_sound (r ∷ rs) h = ground (arith, check_quorums_sound rs, counts r.rank)

  check_quorums_complete :
      (rs : List GroupThresholdRequirement)
      → All (λ r. r.required ≤ n r.rank) rs
      → check_quorums selected rs ≡ ok tt
  unfolding check_quorums
  check_quorums_complete [] h = refl
  check_quorums_complete (r ∷ rs) h = ground (arith, check_quorums_complete rs, counts r.rank)

config_sound :
    (c : GroupedThresholdConfig) {t : ThresholdConfig}
    → grouped_threshold_config c ≡ ok t
    → (t ≡ record {
      threshold = required_signer_count c;
      participants = grouped_participant_count c;
    })
      × (0 < required_signer_count c)
      × (required_signer_count c ≤ grouped_participant_count c)
unfolding grouped_threshold_config new_threshold_config
config_sound c h = (ground arith, ground arith, ground arith)

config_complete :
    (c : GroupedThresholdConfig)
    → 0 < required_signer_count c
    → required_signer_count c ≤ grouped_participant_count c
    → grouped_threshold_config c
      ≡ ok (record {
        threshold = required_signer_count c;
        participants = grouped_participant_count c;
      })
unfolding grouped_threshold_config new_threshold_config
config_complete c p f = ground arith

module _ (signers : List ParticipantId) (c : GroupedThresholdConfig)
    (few : length signers < 65536) where
  start : (k : ℕ) → get_count k [] + length signers < 65536
  unfolding get_count
  start k = omega arith

  counts :
      (m : List (ℕ × ℕ))
      → tally_ranks c [] signers ≡ ok m
      → (k : ℕ) → get_count k m ≡ members c k signers
  unfolding get_count
  counts m e k = omega (arith, (tally_ranks_sound c [] m signers start e).1 k)

  validate_sound :
      validate_grouped_threshold_signer_set signers c ≡ ok tt → IsGroupedSignerSet signers c
  unfolding validate_grouped_threshold_signer_set
  validate_sound h =
      let (t, et, h1) = >>=-eq-ok (grouped_threshold_config c) _ h in
      let (_, ev, h2) = >>-eq-ok (validate_signer_set signers t) _ h1 in
      let (m, em, h3) = >>=-eq-ok (tally_ranks c [] signers) _ h2 in
      let (e, positive, fits) = config_sound c et in
      record {
        positive = positive;
        fits = fits;
        base = subst (IsSignerSet signers) e ((validate_signer_set-ok_iff signers t).0 ev);
        known = (tally_ranks_sound c [] m signers start em).0;
        quorum = check_quorums_sound m _ (counts m em) c.requirements h3;
      }

  validate_complete :
      IsGroupedSignerSet signers c → validate_grouped_threshold_signer_set signers c ≡ ok tt
  unfolding validate_grouped_threshold_signer_set
  validate_complete v =
      let (m, em) = tally_ranks_complete c [] signers v.known in
      rw (config_complete c v.positive v.fits, (validate_signer_set-ok_iff signers _).1 v.base, em)
        (check_quorums_complete m _ (counts m em) c.requirements v.quorum)

-- For fewer than 65536 signers `validate_grouped_threshold_signer_set` succeeds exactly when the sum
-- of the required counts is positive and at most the number of participants, the signers are a signer
-- set for that sum, each has a rank, and each requirement's rank is held by enough of them.
pub validate_grouped-ok_iff :
    (signers : List ParticipantId) (c : GroupedThresholdConfig)
    → length signers < 65536
    → (validate_grouped_threshold_signer_set signers c ≡ ok tt) ↔ IsGroupedSignerSet signers c
validate_grouped-ok_iff signers c few =
    (validate_sound signers c few, validate_complete signers c few)
