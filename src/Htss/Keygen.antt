-- ===== src/Htss/Keygen.antt =====
-- crates/dkgkit-frost/src/lib.rs: the shares that `run_local_htss_keygen` and `reshare_htss` deal.
use dkgkit.Prelude.{
  ℕ, suc, ◌-◌, ◌<◌, ◌≤◌, ◌≡◌, refl, ap, ◌∙◌, false, List, [], ◌∷◌, map, none, some, arith, ◌==◌,
  ==_refl, length, find_last, length-tabulate, All, contains, IsDistinct,
}
use dkgkit.Core.Error.{ok, ◌>>=◌, >>=-eq-ok, >>-eq-ok}
use dkgkit.Core.Ids.{ParticipantId, RankedParticipant}
use dkgkit.Core.Threshold.{HierarchicalThresholdConfig, ids}
use dkgkit.Policy.{validate_hierarchical_signer_set}
use dkgkit.Policy.Hierarchical.{IsHierarchicalSignerSet, validate_hierarchical-ok_iff}
use dkgkit.Scalar.{Field, ◌⊕◌, scalar_zero}
use dkgkit.Scalar.Laws.{add-zero, zero-mul}
use dkgkit.Birkhoff.{BirkhoffPoint, BirkhoffCoefficient, birkhoff_interpolation_coefficients}
use dkgkit.Birkhoff.Derivative.{eval}
use dkgkit.Curve.{Curve}
use dkgkit.Curve.Laws.{new_keypair-public}
use dkgkit.Htss.{HtssLocalKeyShare, HtssLocalKeySet, birkhoff_points_from_hierarchical_signer_set}
use dkgkit.Htss.Keys.{
  deal_polynomial, share_of, reconstruct_htss_secret_scalar, run_local_htss_keygen,
}
use dkgkit.Htss.Reconstruct.{AreSharesOf, reconstruct_htss_secret_scalar_sound}

module _ {S : Type 0} ⦃F : Field S⦄ where
  -- What a dealer hands out.
  abbrev pub deal : List S → HierarchicalThresholdConfig → List HtssLocalKeyShare
  deal f c = map (share_of f) c.participants

  find_last-absent :
      (f : List S) (i : ParticipantId) (ps : List RankedParticipant)
      → contains (ids ps) i ≡ false
      → find_last (λ s. s.participant_id == i) (map (share_of f) ps) ≡ none
  unfolding share_of
  find_last-absent f i [] h = refl
  find_last-absent f i (p ∷ ps) h = ground (arith, find_last-absent f i ps)

  find_last-later :
      (f : List S) (p : RankedParticipant) (ps qs : List RankedParticipant)
      → All
          (λ q.
            find_last (λ s. s.participant_id == q.id) (map (share_of f) ps) ≡ some (share_of f q))
          qs
      → All
          (λ q.
            find_last (λ s. s.participant_id == q.id) (map (share_of f) (p ∷ ps))
            ≡ some (share_of f q))
          qs
  find_last-later f p ps [] a = tt
  find_last-later f p ps (q ∷ qs) a = (rw a.0, find_last-later f p ps qs a.1)

  find_last-deal :
      (f : List S) (ps : List RankedParticipant)
      → IsDistinct (ids ps)
      → All
          (λ p.
            find_last (λ s. s.participant_id == p.id) (map (share_of f) ps) ≡ some (share_of f p))
          ps
  unfolding share_of
  find_last-deal f [] d = tt
  find_last-deal f (p ∷ ps) d =
      let none_later = find_last-absent f p.id ps d.0 in
      (rw none_later (rw (==_refl p.id)), find_last-later f p ps ps (find_last-deal f ps d.1))

  deal-AreSharesOf :
      (f : List S) (c : HierarchicalThresholdConfig)
      → IsDistinct (ids c.participants)
      → AreSharesOf f c (deal f c)
  deal-AreSharesOf f c = find_last-deal f c.participants

  pub eval-deal_polynomial :
      (secret : S) (t : ℕ) (draws : ℕ → S)
      → eval (deal_polynomial secret t draws) scalar_zero ≡ secret
  unfolding deal_polynomial eval
  eval-deal_polynomial secret t draws = ap (λ z. secret ⊕ z) (zero-mul _) ∙ add-zero secret

  pub length-deal_polynomial :
      (secret : S) (t : ℕ) (draws : ℕ → S) → 0 < t → length (deal_polynomial secret t draws) ≡ t
  unfolding deal_polynomial
  length-deal_polynomial secret t draws positive =
      ap suc (length-tabulate (t - 1) draws) ∙ omega arith

-- A signer set has points only under a positive threshold.
pub points-positive :
    (signers : List ParticipantId) (c : HierarchicalThresholdConfig) {points : List BirkhoffPoint}
    → birkhoff_points_from_hierarchical_signer_set signers c ≡ ok points
    → 0 < c.threshold
unfolding birkhoff_points_from_hierarchical_signer_set
points-positive signers c e =
    let (_, ev, _) = >>-eq-ok (validate_hierarchical_signer_set signers c) _ e in
    let valid : IsHierarchicalSignerSet signers c = (validate_hierarchical-ok_iff signers c).0 ev in
    valid.positive

-- A signer set reconstructs the secret that a dealer has shared.
pub deal-reconstructs :
    {S : Type 0} ⦃F : Field S⦄ (secret : S) (draws : ℕ → S) (c : HierarchicalThresholdConfig)
    (signers : List ParticipantId) (out : List BirkhoffCoefficient)
    → IsDistinct (ids c.participants)
    → (birkhoff_points_from_hierarchical_signer_set signers c
        >>= birkhoff_interpolation_coefficients S)
      ≡ ok out
    → length signers ≤ 65535
    → reconstruct_htss_secret_scalar S (deal (deal_polynomial secret c.threshold draws) c) signers c
      ≡ ok (F.to_bytes secret)
deal-reconstructs ⦃F = F⦄ secret draws c signers out distinct h small =
    let f = deal_polynomial secret c.threshold draws in
    let (points, ep, _) = >>=-eq-ok (birkhoff_points_from_hierarchical_signer_set signers c) _ h in
    let fits = length-deal_polynomial secret c.threshold draws (points-positive signers c ep) in
    reconstruct_htss_secret_scalar_sound f c _ signers out h small (omega (arith, fits))
      (deal-AreSharesOf f c distinct)
    ∙ ap (λ s. ok (F.to_bytes s)) (eval-deal_polynomial secret c.threshold draws)

-- When every participant of a configuration has its own id and the first draw is not zero, key
-- generation succeeds, and the secret that any signer set with interpolation coefficients (at most
-- 65535 signers) reconstructs from its shares is one whose public point is the group key.
pub run_local_htss_keygen_sound :
    (S P : Type 0) ⦃F : Field S⦄ ⦃C : Curve S P⦄ (draws : ℕ → S) (c : HierarchicalThresholdConfig)
    → F.is_zero (draws 0) ≡ false
    → IsDistinct (ids c.participants)
    → (keys : HtssLocalKeySet) × (run_local_htss_keygen S P draws c ≡ ok keys)
      × ((signers : List ParticipantId) (out : List BirkhoffCoefficient)
          → (birkhoff_points_from_hierarchical_signer_set signers c
              >>= birkhoff_interpolation_coefficients S)
            ≡ ok out
          → length signers ≤ 65535
          → (secret : S) × (reconstruct_htss_secret_scalar S keys.shares signers c
              ≡ ok (F.to_bytes secret))
            × (keys.group_key.xonly_public_key ≡ C.to_xonly_bytes (C.base_mul secret)))
unfolding run_local_htss_keygen
run_local_htss_keygen_sound S P ⦃F = F⦄ ⦃C = C⦄ draws c nonzero distinct = (
  _,
  refl,
  λ signers out h small. (
    (C.new_keypair (draws 0)).0,
    deal-reconstructs _ (λ i. draws (suc i)) c signers out distinct h small,
    ap C.to_xonly_bytes (new_keypair-public S P (draws 0) nonzero),
  ),
)
