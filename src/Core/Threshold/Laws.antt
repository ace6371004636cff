-- ===== src/Core/Threshold/Laws.antt =====
-- What the constructors of the threshold configurations accept.
use dkgkit.Prelude.{
  ℕ, ◌≤◌, ◌<◌, ◌≡◌, refl, ◌↔◌, List, [], ◌∷◌, some, arith, length, contains, All, IsDistinct,
  IsFresh, IsFresh-cons, IsFresh-uncons, IsFresh-nil, ◌==◌, false,
}
use dkgkit.Core.Error.{ok}
use dkgkit.Core.Ids.{RankedParticipant}
use dkgkit.Core.Threshold.{
  HierarchicalThresholdConfig, check_distinct, ids, find_rank, new_threshold_config,
  new_hierarchical_config, threshold_config,
}

pub check_distinct_sound :
    (seen xs : List ℕ) → check_distinct seen xs ≡ ok tt → IsDistinct xs × IsFresh seen xs
unfolding check_distinct
check_distinct_sound seen [] h = (tt, tt)
check_distinct_sound seen (x ∷ xs) h =
    ground (arith, check_distinct_sound (x ∷ seen) xs, IsFresh-uncons x seen xs)

check_distinct_complete :
    (seen xs : List ℕ) → IsDistinct xs → IsFresh seen xs → check_distinct seen xs ≡ ok tt
unfolding check_distinct
check_distinct_complete seen [] d f = refl
check_distinct_complete seen (x ∷ xs) d f =
    let rest = check_distinct_complete (x ∷ seen) xs d.1 (IsFresh-cons x seen xs f.1 d.0) in
    ground arith

pub record IsHierarchicalConfig (t : ℕ) (ps : List RankedParticipant) : Type 0 where
  pub positive : 0 < t
  pub fits : t ≤ length ps
  pub small : length ps ≤ 65535
  pub distinct : IsDistinct (ids ps)

-- `HierarchicalThresholdConfig::new` accepts a threshold and a list of participants, and keeps both
-- unchanged, exactly when the threshold is positive and at most the number of participants, that
-- number fits in 16 bits, and no two participants have the same id.
pub new_hierarchical_config-ok_iff :
    (t : ℕ) (ps : List RankedParticipant) (c : HierarchicalThresholdConfig)
    → (new_hierarchical_config t ps ≡ ok c)
      ↔ ((c ≡ record { threshold = t; participants = ps }) × IsHierarchicalConfig t ps)
unfolding new_hierarchical_config
new_hierarchical_config-ok_iff t ps c = (
  λ h. ground (arith, check_distinct_sound [] (ids ps)),
  λ v.
      let d = check_distinct_complete [] (ids ps) v.1.distinct (IsFresh-nil (ids ps)) in
      ground arith,
)

-- The threshold view of an accepted hierarchical configuration succeeds, and its count of
-- participants is the length of the list: the 16-bit conversion loses nothing.
pub threshold_config-new :
    (t : ℕ) (ps : List RankedParticipant) (c : HierarchicalThresholdConfig)
    → new_hierarchical_config t ps ≡ ok c
    → threshold_config c ≡ ok (record { threshold = t; participants = length ps })
unfolding threshold_config new_threshold_config
threshold_config-new t ps c h = let v = (new_hierarchical_config-ok_iff t ps c).0 h in ground arith

find_rank_absent :
    (p : RankedParticipant) (ps : List RankedParticipant)
    → contains (ids ps) p.id ≡ false
    → All (λ q. (q.id == p.id) ≡ false) ps
find_rank_absent p [] h = tt
find_rank_absent p (q ∷ ps) h = ground (arith, find_rank_absent p ps)

skip_head :
    (p : RankedParticipant) (ps : List RankedParticipant) (qs : List RankedParticipant)
    → All (λ q. (q.id == p.id) ≡ false) qs
    → All (λ q. find_rank ps q.id ≡ some q.rank) qs
    → All (λ q. find_rank (p ∷ ps) q.id ≡ some q.rank) qs
unfolding find_rank
skip_head p ps [] a h = tt
skip_head p ps (q ∷ qs) a h = (ground arith, skip_head p ps qs a.1 h.1)

-- With distinct ids the lookup finds each participant's own rank.
pub find_rank-All :
    (ps : List RankedParticipant)
    → IsDistinct (ids ps)
    → All (λ p. find_rank ps p.id ≡ some p.rank) ps
unfolding find_rank
find_rank-All [] d = tt
find_rank-All (p ∷ ps) d =
    (ground arith, skip_head p ps ps (find_rank_absent p ps d.0) (find_rank-All ps d.1))
