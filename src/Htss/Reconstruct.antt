-- ===== src/Htss/Reconstruct.antt =====
-- `reconstruct_htss_secret_scalar` returns the constant term of the shared polynomial.
use dkgkit.Prelude.{
  ◌≤◌, ◌≡◌, sym, ap, subst, ◌∙◌, true, List, [], ◌∷◌, some, Bool-cases, inl, inr, arith, ◌==◌,
  length, find_last, All,
}
use dkgkit.Core.Error.{
  missing_ranked_participant, ok, ◌>>=◌, ok_or, collect, >>=-eq-ok, >>-eq-ok, collect-cons-eq-ok,
  length-collect,
}
use dkgkit.Core.Ids.{ParticipantId, Rank, RankedParticipant}
use dkgkit.Core.Threshold.{HierarchicalThresholdConfig, find_rank, rank_of}
use dkgkit.Policy.{validate_hierarchical_signer_set}
use dkgkit.Policy.Hierarchical.{IsHierarchicalSignerSet, validate_hierarchical-ok_iff}
use dkgkit.Scalar.{Field, ◌⊕◌, ◌⊗◌, scalar_zero}
use dkgkit.Scalar.Laws.{add-zero}
use dkgkit.Scalar.Sum.{sum}
use dkgkit.Birkhoff.Solver.{at}
use dkgkit.Birkhoff.{
  BirkhoffPoint, BirkhoffCoefficient, new_birkhoff_point, polynomial_derivative_value,
  zip_coefficients, solve_points, birkhoff_interpolation_coefficients,
}
use dkgkit.Birkhoff.Derivative.{eval}
use dkgkit.Birkhoff.Coefficients.{point, length-solve_points}
use dkgkit.Birkhoff.Interpolation.{observed, solve_points-interpolates}
use dkgkit.Htss.{HtssLocalKeyShare, signer_point, birkhoff_points_from_hierarchical_signer_set}
use dkgkit.Htss.Keys.{share_of, reconstruct_loop, reconstruct_htss_secret_scalar}

-- A participant that the rank lookup has found, with what holds of every participant.
pub find_rank-participant {κ} :
    (Q : RankedParticipant → Type κ) (ps : List RankedParticipant) (s : ParticipantId) (r : Rank)
    → find_rank ps s ≡ some r
    → All Q ps
    → (p : RankedParticipant) × (p.id ≡ s) × (p.rank ≡ r) × Q p
unfolding find_rank
find_rank-participant Q [] s r h a = absurd (ground arith)
find_rank-participant Q (p ∷ ps) s r h a = elim (Bool-cases (p.id == s)) [
  | inl e ↦ (p, ground arith, ground arith, a.0)
  | inr e ↦ find_rank-participant Q ps s r (ground arith) a.1
]

-- A point that a signer of the configuration contributes.
abbrev pub IsPointOf : HierarchicalThresholdConfig → BirkhoffPoint → Type 0
IsPointOf c p = (p.x ≡ p.participant_id) × (rank_of c p.participant_id ≡ some p.derivative_order)

signer_point-IsPointOf :
    (c : HierarchicalThresholdConfig) (s : ParticipantId) (p : BirkhoffPoint)
    → signer_point c s ≡ ok p
    → IsPointOf c p
unfolding signer_point new_birkhoff_point
signer_point-IsPointOf c s p h =
    let (r, er, h1) = >>=-eq-ok (ok_or (rank_of c s) (missing_ranked_participant s)) _ h in
    ground arith

pub collect-IsPointOf :
    (c : HierarchicalThresholdConfig) (ss : List ParticipantId) {points : List BirkhoffPoint}
    → collect (signer_point c) ss ≡ ok points
    → All (IsPointOf c) points
collect-IsPointOf c [] {points} h = subst (All (IsPointOf c)) {x = []} {y = points} (cc h) tt
collect-IsPointOf c (s ∷ ss) h =
    let (p, rest, ep, er, e) = collect-cons-eq-ok (signer_point c) s ss h in
    subst (All (IsPointOf c)) (sym e) (signer_point-IsPointOf c s p ep, collect-IsPointOf c ss er)

module _ {S : Type 0} ⦃F : Field S⦄ where
  -- The shares hold, for every participant of the configuration, the derivative share of the
  -- polynomial.
  abbrev pub AreSharesOf : List S → HierarchicalThresholdConfig → List HtssLocalKeyShare → Type 0
  AreSharesOf f c shares =
      All (λ p. find_last (λ s. s.participant_id == p.id) shares ≡ some (share_of f p))
        c.participants

  reconstruct_loop-step :
      (shares : List HtssLocalKeyShare) (acc : S) (p : BirkhoffPoint) (ps : List BirkhoffPoint)
      (k : S) (ks : List S) (share : HtssLocalKeyShare) (v : S)
      → find_last (λ s. s.participant_id == p.participant_id) shares ≡ some share
      → share.rank ≡ p.derivative_order
      → share.share_value_bytes ≡ F.to_bytes v
      → reconstruct_loop shares acc (zip_coefficients (p ∷ ps) (k ∷ ks))
        ≡ reconstruct_loop shares (acc ⊕ k ⊗ v) (zip_coefficients ps ks)
  unfolding reconstruct_loop zip_coefficients
  reconstruct_loop-step shares acc p ps k ks share v found ranked valued =
      let same : (share.rank == p.derivative_order) ≡ true = ground arith in
      let value : F.from_bytes share.share_value_bytes ≡ some v =
        ap F.from_bytes valued ∙ F.from_bytes-to_bytes v in
      let weight : F.from_bytes (F.to_bytes k) ≡ some k = F.from_bytes-to_bytes k in
      rw found (rw same (rw value (rw weight)))

  reconstruct_loop-sum :
      (f : List S) (c : HierarchicalThresholdConfig) (shares : List HtssLocalKeyShare)
      (points : List BirkhoffPoint) (cs : List S) (acc : S)
      → AreSharesOf f c shares
      → All (IsPointOf c) points
      → length cs ≡ length points
      → reconstruct_loop shares acc (zip_coefficients points cs)
        ≡ ok (acc ⊕ sum (length points) (λ i. at cs i ⊗ observed f (point points i)))
  unfolding reconstruct_loop zip_coefficients sum rank_of share_of
  reconstruct_loop-sum f c shares [] cs acc shared a l = ap ok (sym (add-zero acc))
  reconstruct_loop-sum f c shares (p ∷ ps) [] acc shared a l = absurd (omega arith)
  reconstruct_loop-sum f c shares (p ∷ ps) (k ∷ ks) acc shared a l =
      let (q, eid, er, found) =
        find_rank-participant _ c.participants p.participant_id p.derivative_order a.0.1 shared in
      let v = observed f p in
      reconstruct_loop-step shares acc p ps k ks (share_of f q) v
        (ap (λ i. find_last (λ s. s.participant_id == i) shares) (sym eid) ∙ found) er
        (ap (λ x. F.to_bytes (polynomial_derivative_value f x q.rank)) (eid ∙ sym a.0.0)
          ∙ ap (λ r. F.to_bytes (polynomial_derivative_value f p.x r)) er)
      ∙ reconstruct_loop-sum f c shares ps ks (acc ⊕ k ⊗ v) shared a.1 (omega arith)
      ∙ ap ok (F.add_assoc acc (k ⊗ v) _)

-- When the signer set of at most 65535 signers passes the policy and has interpolation coefficients,
-- `reconstruct_htss_secret_scalar` returns the value at 0 of the polynomial whose derivative shares
-- it is given, for every polynomial with at most as many coefficients as the threshold.
pub reconstruct_htss_secret_scalar_sound :
    {S : Type 0} ⦃F : Field S⦄ (f : List S) (c : HierarchicalThresholdConfig)
    (shares : List HtssLocalKeyShare) (signers : List ParticipantId)
    (out : List BirkhoffCoefficient)
    → (birkhoff_points_from_hierarchical_signer_set signers c
        >>= birkhoff_interpolation_coefficients S)
      ≡ ok out
    → length signers ≤ 65535
    → length f ≤ c.threshold
    → AreSharesOf f c shares
    → reconstruct_htss_secret_scalar S shares signers c
      ≡ ok (F.to_bytes (eval f (scalar_zero {S = S})))
unfolding reconstruct_htss_secret_scalar birkhoff_points_from_hierarchical_signer_set
    birkhoff_interpolation_coefficients
reconstruct_htss_secret_scalar_sound {S} ⦃F = F⦄ f c shares signers out h small fits shared =
    let (points, ep, ho) = >>=-eq-ok (birkhoff_points_from_hierarchical_signer_set signers c) _ h in
    let (cs, ec, _) = >>=-eq-ok (solve_points {S = S} points) _ ho in
    let (_, ev, el) = >>-eq-ok (validate_hierarchical_signer_set signers c) _ ep in
    let valid : IsHierarchicalSignerSet signers c = (validate_hierarchical-ok_iff signers c).0 ev in
    let count = length-collect (signer_point c) signers el in
    let loop =
      reconstruct_loop-sum f c shares points cs (scalar_zero {S = S}) shared
        (collect-IsPointOf c signers el) (length-solve_points points cs ec) in
    rw (ep, ec, loop)
      (ap (λ s. ok (F.to_bytes s))
        (F.zero-add _
          ∙ solve_points-interpolates points cs f (omega arith) ec
              (omega (arith, valid.base.enough))))
