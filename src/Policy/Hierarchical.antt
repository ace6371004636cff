-- ===== src/Policy/Hierarchical.antt =====
-- `validate_hierarchical_signer_set` against a condition that names no order on the signers.
use dkgkit.Prelude.{
  ℕ, suc, ◌≤◌, ◌<◌, ◌≡◌, refl, ◌↔◌, List, [], ◌∷◌, none, some, arith, leb, if◌then◌else◌, length,
  All, subst,
}
use dkgkit.Core.Error.{ok, collect, >>=-eq-ok, >>-eq-ok, collect-cons-eq-ok}
use dkgkit.Core.Ids.{ParticipantId, Rank}
use dkgkit.Core.Threshold.{
  ThresholdConfig, HierarchicalThresholdConfig, new_threshold_config, threshold_config,
  participant_count, rank_of,
}
use dkgkit.Policy.{validate_signer_set, signer_rank, validate_hierarchical_signer_set}
use dkgkit.Policy.Threshold.{IsSignerSet, validate_signer_set-ok_iff}
use dkgkit.Policy.Ranks.{count_le, check_rank_rule-ok_iff}

-- How many of the signers hold rank `i` or a higher authority.
abbrev pub holders : HierarchicalThresholdConfig → ℕ → List ParticipantId → ℕ
holders c i [] = 0
holders c i (s ∷ ss) =
    let rest = holders c i ss in
    elim (rank_of c s) [ none ↦ rest | some r ↦ if leb r i then suc rest else rest ]

pub record IsHierarchicalSignerSet (signers : List ParticipantId) (c : HierarchicalThresholdConfig)
    : Type 0 where
  pub positive : 0 < c.threshold
  pub base :
      IsSignerSet signers (record { threshold = c.threshold; participants = participant_count c })
  pub fits : c.threshold ≤ participant_count c
  pub known : All (λ s. (r : Rank) × (rank_of c s ≡ some r)) signers
  pub quorum : (i : ℕ) → i < c.threshold → i < holders c i signers

collect-known :
    (c : HierarchicalThresholdConfig) (ss : List ParticipantId) (rs : List ℕ)
    → collect (signer_rank c) ss ≡ ok rs
    → All (λ s. (r : Rank) × (rank_of c s ≡ some r)) ss
unfolding signer_rank
collect-known c [] rs e = tt
collect-known c (s ∷ ss) rs e =
    let (r, rest, er, erest, ers) = collect-cons-eq-ok (signer_rank c) s ss e in
    ((r, ground arith), collect-known c ss rest erest)

ranks-collect :
    (c : HierarchicalThresholdConfig) (ss : List ParticipantId)
    → All (λ s. (r : Rank) × (rank_of c s ≡ some r)) ss
    → (rs : List ℕ) × (collect (signer_rank c) ss ≡ ok rs)
      × (length rs ≡ length ss)
      × ((i : ℕ) → count_le i rs ≡ holders c i ss)
unfolding signer_rank
ranks-collect c [] k = ([], refl, refl, λ i. refl)
ranks-collect c (s ∷ ss) (k, ks) =
    let (rs, e, l, n) = ranks-collect c ss ks in
    (k.0 ∷ rs, ground arith, omega arith, λ i. ground (arith, n i))

threshold_config_sound :
    (c : HierarchicalThresholdConfig) {t : ThresholdConfig}
    → threshold_config c ≡ ok t
    → (t ≡ record { threshold = c.threshold; participants = participant_count c })
      × (0 < c.threshold)
      × (c.threshold ≤ participant_count c)
unfolding threshold_config new_threshold_config
threshold_config_sound c h = (ground arith, ground arith, ground arith)

threshold_config_complete :
    (c : HierarchicalThresholdConfig)
    → 0 < c.threshold
    → c.threshold ≤ participant_count c
    → threshold_config c
      ≡ ok (record { threshold = c.threshold; participants = participant_count c })
unfolding threshold_config new_threshold_config
threshold_config_complete c p f = ground arith

validate_sound :
    (signers : List ParticipantId) (c : HierarchicalThresholdConfig)
    → validate_hierarchical_signer_set signers c ≡ ok tt
    → IsHierarchicalSignerSet signers c
unfolding validate_hierarchical_signer_set
validate_sound signers c h =
    let (t, et, h1) = >>=-eq-ok (threshold_config c) _ h in
    let (_, ev, h2) = >>-eq-ok (validate_signer_set signers t) _ h1 in
    let (rs, er, h3) = >>=-eq-ok (collect (signer_rank c) signers) _ h2 in
    let (e, positive, fits) = threshold_config_sound c et in
    let known = collect-known c signers rs er in
    let (rs', er', l, n) = ranks-collect c signers known in
    let base : IsSignerSet signers _ =
      subst (IsSignerSet signers) e ((validate_signer_set-ok_iff signers t).0 ev) in
    let same : rs ≡ rs' = cc (er, er') in
    let rule = (check_rank_rule-ok_iff c.threshold rs' (omega (arith, base.enough, l))).0 in
    record {
      positive = positive;
      base = base;
      fits = fits;
      known = known;
      quorum = λ i lt. rw (n i) at (rule (rw same at h3) i lt);
    }

validate_complete :
    (signers : List ParticipantId) (c : HierarchicalThresholdConfig)
    → IsHierarchicalSignerSet signers c
    → validate_hierarchical_signer_set signers c ≡ ok tt
unfolding validate_hierarchical_signer_set
validate_complete signers c v =
    let (rs, er, l, n) = ranks-collect c signers v.known in
    rw
      (
        threshold_config_complete c v.positive v.fits,
        (validate_signer_set-ok_iff signers _).1 v.base,
        er,
      )
      ((check_rank_rule-ok_iff c.threshold rs (omega (arith, v.base.enough))).1
        λ i lt. rw (n i) (v.quorum i lt))

-- `validate_hierarchical_signer_set` succeeds exactly when the configuration's threshold is positive
-- and at most its number of participants, the signers are a signer set for that threshold, each has
-- a rank, and for each `i` below the threshold more than `i` of them hold rank `i` or a lower number.
pub validate_hierarchical-ok_iff :
    (signers : List ParticipantId) (c : HierarchicalThresholdConfig)
    → (validate_hierarchical_signer_set signers c ≡ ok tt) ↔ IsHierarchicalSignerSet signers c
validate_hierarchical-ok_iff signers c = (validate_sound signers c, validate_complete signers c)
