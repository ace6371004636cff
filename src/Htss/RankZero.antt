-- ===== src/Htss/RankZero.antt =====
-- crates/dkgkit-frost/src/lib.rs: grouped signing under a configuration without a rank 0.
use dkgkit.Prelude.{
  ℕ, ◌<◌, ◌≡◌, refl, sym, subst, false, List, [], ◌∷◌, map, some, arith, leb, All, Option-cases,
  inl, inr,
}
use dkgkit.Core.Error.{ok, collect, >>=-eq-ok, >>-eq-ok}
use dkgkit.Core.Ids.{ParticipantId, Rank, RankedParticipant, new_session_id}
use dkgkit.Core.Threshold.{
  HierarchicalThresholdConfig, GroupedThresholdConfig, rank_of, required_signer_count,
}
use dkgkit.Core.Threshold.Laws.{new_hierarchical_config-ok_iff}
use dkgkit.Policy.{validate_grouped_threshold_signer_set}
use dkgkit.Policy.Hierarchical.{holders, IsHierarchicalSignerSet}
use dkgkit.Scalar.{Bytes, Field}
use dkgkit.Curve.{Curve}
use dkgkit.Htss.{GroupKey, HtssLocalKeyShare, AggregateSignature}
use dkgkit.Htss.Reconstruct.{find_rank-participant}
use dkgkit.Htss.Sign.{htss_sign_share}
use dkgkit.Htss.Local.{
  hierarchical_config_from_grouped_threshold, select_shares, local_nonces,
  sign_digest_with_local_htss_threshold_shares,
  sign_digest_with_local_grouped_htss_threshold_shares,
}
use dkgkit.Htss.Verified.{aggregate_htss_signature_shares-valid}

-- No participant holds rank 0.
abbrev pub HasNoRankZero : List RankedParticipant → Type 0
HasNoRankZero = All (λ p. 0 < p.rank)

rank_of-participant :
    (c : HierarchicalThresholdConfig) (s : ParticipantId) (r : Rank)
    → rank_of c s ≡ some r
    → HasNoRankZero c.participants
    → 0 < r
unfolding rank_of
rank_of-participant c s r e none_zero =
    let (p, _, er, positive) = find_rank-participant _ c.participants s r e none_zero in
    omega (arith, er, positive)

holders-zero :
    (c : HierarchicalThresholdConfig) (signers : List ParticipantId)
    → HasNoRankZero c.participants
    → holders c 0 signers ≡ 0
holders-zero c [] none_zero = refl
holders-zero c (s ∷ ss) none_zero =
    let rest = holders-zero c ss none_zero in
    elim (Option-cases (rank_of c s)) [
      | inl e ↦ rw (e, holders) rest
      | inr (r, e) ↦
          let positive = rank_of-participant c s r e none_zero in
          let above : leb r 0 ≡ false = ground arith in rw (e, holders) (rw above rest)
    ]

not_a_signer_set :
    (c : HierarchicalThresholdConfig) (signers : List ParticipantId)
    → HasNoRankZero c.participants
    → ¬ (IsHierarchicalSignerSet signers c)
not_a_signer_set c signers none_zero v =
    let none_at_zero = holders-zero c signers none_zero in
    let some_at_zero = v.quorum 0 v.positive in omega (arith, none_at_zero, some_at_zero)

-- The signer set of a signature that the local signer returns satisfies the policy.
sign_local-policy :
    (S P : Type 0) ⦃F : Field S⦄ ⦃C : Curve S P⦄ (draws : ℕ → S) (key : GroupKey) (digest : Bytes)
    (shares : List HtssLocalKeyShare) (signers : List ParticipantId)
    (c : HierarchicalThresholdConfig) (out : AggregateSignature)
    → sign_digest_with_local_htss_threshold_shares S P draws key digest shares signers c ≡ ok out
    → IsHierarchicalSignerSet signers c
unfolding sign_digest_with_local_htss_threshold_shares
sign_local-policy S P draws key digest shares signers c out h =
    let (selected, _, h1) = >>=-eq-ok (select_shares shares signers) _ h in
    let (session, _, h2) = >>=-eq-ok (new_session_id "local-htss-threshold-signing") _ h1 in
    let (locals, _, h3) = >>=-eq-ok (local_nonces S P draws session selected) _ h2 in
    let nonces = map (λ (_, nonce). nonce.public_package) locals in
    let (signature_shares, _, h4) =
      >>=-eq-ok
        (collect (λ (share, nonce). htss_sign_share S P key digest share nonce nonces signers c)
          locals)
        _ h3 in
    (aggregate_htss_signature_shares-valid S P key digest nonces signature_shares signers c out
      h4).0

-- Under a grouped configuration in which no participant holds rank 0, grouped signing returns no
-- signature, whatever the shares and the signers.
pub sign_grouped_needs_rank_zero :
    (S P : Type 0) ⦃F : Field S⦄ ⦃C : Curve S P⦄ (draws : ℕ → S) (key : GroupKey) (digest : Bytes)
    (shares : List HtssLocalKeyShare) (signers : List ParticipantId) (g : GroupedThresholdConfig)
    (out : AggregateSignature)
    → HasNoRankZero g.participants
    → ¬ (
        sign_digest_with_local_grouped_htss_threshold_shares S P draws key digest shares signers g
        ≡ ok out)
unfolding sign_digest_with_local_grouped_htss_threshold_shares
    hierarchical_config_from_grouped_threshold
sign_grouped_needs_rank_zero S P draws key digest shares signers g out none_zero h =
    let (_, _, h1) = >>-eq-ok (validate_grouped_threshold_signer_set signers g) _ h in
    let (c, ec, h2) = >>=-eq-ok (hierarchical_config_from_grouped_threshold g) _ h1 in
    let (same, _) =
      (new_hierarchical_config-ok_iff (required_signer_count g) g.participants c).0 ec in
    not_a_signer_set c signers (subst (λ k. HasNoRankZero k.participants) (sym same) none_zero)
      (sign_local-policy S P draws key digest shares signers c out h2)
