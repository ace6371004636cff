-- ===== src/Core/Threshold/Grouped.antt =====
-- A grouped configuration counts its signers without overflow.
use dkgkit.Prelude.{
  ℕ, suc, ◌+◌, ◌≤◌, ◌<◌, ◌≡◌, refl, List, [], ◌∷◌, map, arith, length, contains, sum_of, All,
  IsDistinct, IsFresh, IsFresh-uncons, ◌==◌, if◌then◌else◌,
}
use dkgkit.Core.Error.{ok, >>=-eq-ok, >>-eq-ok, fail_if}
use dkgkit.Core.Ids.{RankedParticipant}
use dkgkit.Core.Threshold.{
  GroupThresholdRequirement, GroupedThresholdConfig, rank_total, check_requirements, check_distinct,
  check_ranks, ids, new_grouped_config, required_signer_count, new_threshold_config,
  grouped_threshold_config,
}

abbrev ranks : List GroupThresholdRequirement → List ℕ
ranks = map (λ r. r.rank)

check_requirements_sound :
    (ps : List RankedParticipant) (seen : List ℕ) (rs : List GroupThresholdRequirement)
    {out : List ℕ}
    → check_requirements ps seen rs ≡ ok out
    → IsDistinct (ranks rs) × IsFresh seen (ranks rs) × All (λ r. rank_total r.rank ps ≡ r.total) rs
unfolding check_requirements
check_requirements_sound ps seen [] h = (tt, tt, tt)
check_requirements_sound ps seen (r ∷ rs) {out} h = ground (
  arith,
  check_requirements_sound ps (r.rank ∷ seen) rs {out = out},
  IsFresh-uncons r.rank seen (ranks rs),
)

-- The participants whose rank is among `ks`, counted rank by rank.
totals : List RankedParticipant → List ℕ → ℕ
totals ps [] = 0
totals ps (k ∷ ks) = rank_total k ps + totals ps ks

rank_total-cons :
    (k : ℕ) (p : RankedParticipant) (ps : List RankedParticipant)
    → rank_total k (p ∷ ps) ≡ (if p.rank == k then suc (rank_total k ps) else rank_total k ps)
unfolding rank_total
rank_total-cons k p ps = ground arith

totals-cons :
    (p : RankedParticipant) (ps : List RankedParticipant) (ks : List ℕ)
    → IsDistinct ks
    → totals (p ∷ ps) ks ≤ totals ps ks + (if contains ks p.rank then 1 else 0)
unfolding totals
totals-cons p ps [] d = omega arith
totals-cons p ps (k ∷ ks) d = ground (arith, rank_total-cons k p ps, totals-cons p ps ks d.1)

totals-nil : (ks : List ℕ) → totals [] ks ≡ 0
unfolding totals rank_total
totals-nil [] = refl
totals-nil (k ∷ ks) = omega (arith, totals-nil ks)

totals-le : (ps : List RankedParticipant) (ks : List ℕ) → IsDistinct ks → totals ps ks ≤ length ps
totals-le [] ks d = omega (arith, totals-nil ks)
totals-le (p ∷ ps) ks d = ground (arith, totals-cons p ps ks d, totals-le ps ks d)

required-le-totals :
    (ps : List RankedParticipant) (rs : List GroupThresholdRequirement)
    → All (λ r. rank_total r.rank ps ≡ r.total) rs
    → All (λ r. r.required ≤ r.total) rs
    → sum_of (map (λ r. r.required) rs) ≤ totals ps (ranks rs)
unfolding totals
required-le-totals ps [] t h = omega arith
required-le-totals ps (r ∷ rs) t h = omega (arith, required-le-totals ps rs t.1 h.1)

asks : List GroupThresholdRequirement → ℕ
asks rs = sum_of (map (λ r. r.required) rs)

asks_pos :
    (ps : List RankedParticipant) (rs : List GroupThresholdRequirement) {c : GroupedThresholdConfig}
    → All (λ r. (0 < r.required) × (r.required ≤ r.total)) rs
    → new_grouped_config ps rs ≡ ok c
    → 0 < asks rs
unfolding new_grouped_config asks
asks_pos [] [] w h = cc
asks_pos (p ∷ ps) [] w h = cc
asks_pos ps (r ∷ rs) w h = omega arith

within_totals :
    (rs : List GroupThresholdRequirement)
    → All (λ r. (0 < r.required) × (r.required ≤ r.total)) rs
    → All (λ r. r.required ≤ r.total) rs
within_totals [] w = tt
within_totals (r ∷ rs) w = (w.0.1, within_totals rs w.1)

accepted :
    (ps : List RankedParticipant) (rs : List GroupThresholdRequirement) {c : GroupedThresholdConfig}
    → All (λ r. (0 < r.required) × (r.required ≤ r.total)) rs
    → new_grouped_config ps rs ≡ ok c
    → (asks rs ≤ length ps) × (c ≡ record { participants = ps; requirements = rs })
unfolding new_grouped_config asks
accepted ps rs {c} w h =
    let (_, _, h1) = >>-eq-ok (fail_if _ _) _ h in
    let (_, _, h2) = >>-eq-ok (check_distinct [] (ids ps)) _ h1 in
    let (seen, er, h3) = >>=-eq-ok (check_requirements ps [] rs) _ h2 in
    let (_, _, h4) =
      >>-eq-ok (check_ranks seen ps) (ok (record { participants = ps; requirements = rs })) h3 in
    let (d, _, t) = check_requirements_sound ps [] rs er in
    (
      omega (arith, required-le-totals ps rs t (within_totals rs w), totals-le ps (ranks rs) d),
      cc h4,
    )

-- If `GroupedThresholdConfig::new` accepts fewer than 65536 participants with requirements that each
-- ask for at least one signer and for no more than their total, then the 16-bit sum of the required
-- counts is their true sum, and the threshold view succeeds with that sum and the number of
-- participants.
pub grouped_threshold_config-new :
    (ps : List RankedParticipant) (rs : List GroupThresholdRequirement) (c : GroupedThresholdConfig)
    → length ps < 65536
    → All (λ r. (0 < r.required) × (r.required ≤ r.total)) rs
    → new_grouped_config ps rs ≡ ok c
    → (required_signer_count c ≡ sum_of (map (λ r. r.required) rs))
      × (grouped_threshold_config c
          ≡ ok (record { threshold = sum_of (map (λ r. r.required) rs); participants = length ps }))
unfolding grouped_threshold_config required_signer_count new_threshold_config asks
grouped_threshold_config-new ps rs c small wf h =
    let (fits, e) = accepted ps rs wf h in
    let positive = asks_pos ps rs wf h in (ground arith, ground arith)
