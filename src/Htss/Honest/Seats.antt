-- ===== src/Htss/Honest/Seats.antt =====
-- crates/dkgkit-frost/src/lib.rs: the seats of local signing, from the points, the interpolation
-- coefficients and the draws.
use dkgkit.Prelude.{
  ℕ, suc, ◌≡◌, refl, sym, ap, ◌∙◌, false, List, [], ◌∷◌, map, some, find, ◌==◌, ==_refl, arith,
  length, tabulate, All, IsDistinct, contains,
}
use dkgkit.Core.Error.{
  missing_ranked_participant, ok, ok_or, collect, >>=-eq-ok, collect-cons-eq-ok,
}
use dkgkit.Core.Ids.{ParticipantId, SessionId, RankedParticipant}
use dkgkit.Core.Threshold.{HierarchicalThresholdConfig, rank_of, ids}
use dkgkit.Scalar.{Field}
use dkgkit.Birkhoff.{BirkhoffPoint, new_birkhoff_point, zip_coefficients}
use dkgkit.Curve.{Curve}
use dkgkit.Htss.{HtssLocalKeyShare, signer_point}
use dkgkit.Htss.Keys.{share_of}
use dkgkit.Htss.Nonces.{htss_nonce}
use dkgkit.Htss.Local.{select_shares, local_nonces}
use dkgkit.Htss.Reconstruct.{find_rank-participant, IsPointOf}
use dkgkit.Htss.Honest.{Seat, ids_of, share_at}
use dkgkit.Htss.Honest.Nonces.{local_nonce, HaveNonces}
use dkgkit.Htss.Honest.Shares.{coefficient_of}

pub collect-participants :
    (c : HierarchicalThresholdConfig) (ss : List ParticipantId) (points : List BirkhoffPoint)
    → collect (signer_point c) ss ≡ ok points
    → map (λ p. p.participant_id) points ≡ ss
unfolding signer_point new_birkhoff_point
collect-participants c [] points h = ap (map (λ p. p.participant_id)) {x = points} {y = []} (cc h)
collect-participants c (s ∷ ss) points h =
    let (p, rest, ep, er, e) = collect-cons-eq-ok (signer_point c) s ss h in
    let (r, _, h1) = >>=-eq-ok (ok_or (rank_of c s) (missing_ranked_participant s)) _ ep in
    let same : p.participant_id ≡ s = ground arith in
    ap (map (λ p. p.participant_id)) e
    ∙ ap (λ i. i ∷ map (λ p. p.participant_id) rest) same
    ∙ ap (λ t. s ∷ t) (collect-participants c ss rest er)

module _ {S : Type 0} ⦃F : Field S⦄ where
  abbrev pub seats_of : List BirkhoffPoint → List S → (ℕ → S) → List (Seat S)
  seats_of [] ks draws = []
  seats_of (p ∷ ps) [] draws = []
  seats_of (p ∷ ps) (k ∷ ks) draws =
      record { point = p; nonce = draws 0; weight = k } ∷ seats_of ps ks (λ i. draws (suc i))

  pub points-seats_of :
      (points : List BirkhoffPoint) (ks : List S) (draws : ℕ → S)
      → length ks ≡ length points
      → map (λ s. s.point) (seats_of points ks draws) ≡ points
  points-seats_of [] ks draws l = refl
  points-seats_of (p ∷ ps) [] draws l = absurd (omega arith)
  points-seats_of (p ∷ ps) (k ∷ ks) draws l =
      ap (λ t. p ∷ t) (points-seats_of ps ks (λ i. draws (suc i)) (omega arith))

  pub ids_of-seats_of :
      (points : List BirkhoffPoint) (ks : List S) (draws : ℕ → S)
      → length ks ≡ length points
      → ids_of (seats_of points ks draws) ≡ map (λ p. p.participant_id) points
  ids_of-seats_of [] ks draws l = refl
  ids_of-seats_of (p ∷ ps) [] draws l = absurd (omega arith)
  ids_of-seats_of (p ∷ ps) (k ∷ ks) draws l =
      ap (λ t. p.participant_id ∷ t) (ids_of-seats_of ps ks (λ i. draws (suc i)) (omega arith))

  pub weights-seats_of :
      (points : List BirkhoffPoint) (ks : List S) (draws : ℕ → S)
      → length ks ≡ length points
      → map (λ s. s.weight) (seats_of points ks draws) ≡ ks
  weights-seats_of [] [] draws l = refl
  weights-seats_of [] (k ∷ ks) draws l = absurd (omega arith)
  weights-seats_of (p ∷ ps) [] draws l = absurd (omega arith)
  weights-seats_of (p ∷ ps) (k ∷ ks) draws l =
      ap (λ t. k ∷ t) (weights-seats_of ps ks (λ i. draws (suc i)) (omega arith))

  pub nonces-seats_of :
      (points : List BirkhoffPoint) (ks : List S) (draws : ℕ → S)
      → length ks ≡ length points
      → map (λ s. s.nonce) (seats_of points ks draws) ≡ tabulate (length points) draws
  nonces-seats_of [] ks draws l = refl
  nonces-seats_of (p ∷ ps) [] draws l = absurd (omega arith)
  nonces-seats_of (p ∷ ps) (k ∷ ks) draws l =
      ap (λ t. draws 0 ∷ t) (nonces-seats_of ps ks (λ i. draws (suc i)) (omega arith))

  pub coefficients-seats_of :
      (points : List BirkhoffPoint) (ks : List S) (draws : ℕ → S)
      → zip_coefficients points ks ≡ map coefficient_of (seats_of points ks draws)
  unfolding zip_coefficients
  coefficients-seats_of [] ks draws = refl
  coefficients-seats_of (p ∷ ps) [] draws = refl
  coefficients-seats_of (p ∷ ps) (k ∷ ks) draws =
      ap
        (λ t.
          record {
            participant_id = p.participant_id;
            derivative_order = p.derivative_order;
            coefficient_bytes = F.to_bytes k;
          }
          ∷ t)
        (coefficients-seats_of ps ks (λ i. draws (suc i)))

  -- A first share for every participant of the configuration.
  abbrev pub FindShares : List S → HierarchicalThresholdConfig → List HtssLocalKeyShare → Type 0
  FindShares f c shares =
      All (λ p. find (λ s. s.participant_id == p.id) shares ≡ some (share_of f p)) c.participants

  share_of-share_at :
      (f : List S) (p : BirkhoffPoint) (q : RankedParticipant)
      → q.id ≡ p.participant_id
      → q.rank ≡ p.derivative_order
      → p.x ≡ p.participant_id
      → share_of f q ≡ share_at f p
  unfolding share_of
  share_of-share_at f p q same ranked placed = cc

  pub select_shares-points :
      (f : List S) (c : HierarchicalThresholdConfig) (shares : List HtssLocalKeyShare)
      (points : List BirkhoffPoint)
      → FindShares f c shares
      → All (IsPointOf c) points
      → select_shares shares (map (λ p. p.participant_id) points) ≡ ok (map (share_at f) points)
  unfolding select_shares rank_of
  select_shares-points f c shares [] found a = refl
  select_shares-points f c shares (p ∷ ps) found a =
      let (q, eid, er, share) =
        find_rank-participant _ c.participants p.participant_id p.derivative_order a.0.1 found in
      let here : find (λ s. s.participant_id == p.participant_id) shares ≡ some (share_at f p) =
        ap (λ i. find (λ s. s.participant_id == i) shares) (sym eid)
        ∙ share
        ∙ ap some (share_of-share_at f p q eid er a.0.0) in
      rw here (rw (select_shares-points f c shares ps found a.1))

  -- The shares of a dealer are first shares.
  find-later :
      (f : List S) (p : RankedParticipant) (ps qs : List RankedParticipant)
      → contains (ids qs) p.id ≡ false
      → All
          (λ q. find (λ s. s.participant_id == q.id) (map (share_of f) ps) ≡ some (share_of f q))
          qs
      → All
          (λ q.
            find (λ s. s.participant_id == q.id) (map (share_of f) (p ∷ ps)) ≡ some (share_of f q))
          qs
  unfolding share_of
  find-later f p ps [] fresh a = tt
  find-later f p ps (q ∷ qs) fresh a =
      (ground (arith, a.0), find-later f p ps qs (ground arith) a.1)

  pub deal-FindShares :
      (f : List S) (ps : List RankedParticipant)
      → IsDistinct (ids ps)
      → All
          (λ p. find (λ s. s.participant_id == p.id) (map (share_of f) ps) ≡ some (share_of f p))
          ps
  unfolding share_of
  deal-FindShares f [] d = tt
  deal-FindShares f (p ∷ ps) d =
      (rw (==_refl p.id), find-later f p ps ps d.0 (deal-FindShares f ps d.1))

module _ (S P : Type 0) ⦃F : Field S⦄ ⦃C : Curve S P⦄ where
  pub HaveNonces-seats_of :
      (points : List BirkhoffPoint) (ks : List S) (draws : ℕ → S)
      → ((i : ℕ) → F.is_zero (draws i) ≡ false)
      → HaveNonces S P (seats_of points ks draws)
  HaveNonces-seats_of [] ks draws nonzero = tt
  HaveNonces-seats_of (p ∷ ps) [] draws nonzero = tt
  HaveNonces-seats_of (p ∷ ps) (k ∷ ks) draws nonzero =
      (nonzero 0, HaveNonces-seats_of ps ks (λ i. draws (suc i)) (λ i. nonzero (suc i)))

  pub local_nonces-seats_of :
      (f : List S) (session : SessionId) (points : List BirkhoffPoint) (ks : List S) (draws : ℕ → S)
      → length ks ≡ length points
      → local_nonces S P draws session (map (share_at f) points)
        ≡ ok (map (λ s. (share_at f s.point, local_nonce S P session s)) (seats_of points ks draws))
  unfolding local_nonces htss_nonce
  local_nonces-seats_of f session [] ks draws l = refl
  local_nonces-seats_of f session (p ∷ ps) [] draws l = absurd (omega arith)
  local_nonces-seats_of f session (p ∷ ps) (k ∷ ks) draws l =
      rw (local_nonces-seats_of f session ps ks (λ i. draws (suc i)) (omega arith))
