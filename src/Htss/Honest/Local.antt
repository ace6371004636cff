-- ===== src/Htss/Honest/Local.antt =====
-- crates/dkgkit-frost/src/lib.rs: the functions that sign with every share in one process.
use dkgkit.Prelude.{
  ℕ, ◌≤◌, ◌≡◌, sym, ap, subst, ◌∙◌, false, List, [], map, arith, length, tabulate, IsDistinct,
}
use dkgkit.Core.Error.{ok, ◌>>=◌, >>=-eq-ok, >>-eq-ok, length-collect}
use dkgkit.Core.Ids.{ParticipantId, SessionId}
use dkgkit.Core.Threshold.{HierarchicalThresholdConfig}
use dkgkit.Policy.{validate_hierarchical_signer_set}
use dkgkit.Policy.Hierarchical.{IsHierarchicalSignerSet, validate_hierarchical-ok_iff}
use dkgkit.Scalar.{Field, ◌⊗◌, scalar_zero}
use dkgkit.Scalar.Sum.{sum}
use dkgkit.Scalar.Signs.{total}
use dkgkit.Birkhoff.{
  BirkhoffPoint, BirkhoffCoefficient, solve_points, zip_coefficients,
  birkhoff_interpolation_coefficients,
}
use dkgkit.Birkhoff.Solver.{at}
use dkgkit.Birkhoff.Derivative.{eval}
use dkgkit.Birkhoff.Coefficients.{point, length-solve_points}
use dkgkit.Birkhoff.Interpolation.{observed, solve_points-interpolates}
use dkgkit.Curve.{Curve}
use dkgkit.Htss.{HtssLocalKeyShare, signer_point, birkhoff_points_from_hierarchical_signer_set}
use dkgkit.Htss.Local.{select_shares, local_nonces}
use dkgkit.Htss.Reconstruct.{collect-IsPointOf}
use dkgkit.Htss.Honest.{Seat, ids_of, share_at}
use dkgkit.Htss.Honest.Nonces.{local_nonce}
use dkgkit.Htss.Honest.Shares.{contribution, total-contributions}
use dkgkit.Htss.Honest.Signing.{IsSeating}
use dkgkit.Htss.Honest.Signature.{secret}
use dkgkit.Htss.Honest.Seats.{
  collect-participants, seats_of, points-seats_of, ids_of-seats_of, weights-seats_of,
  nonces-seats_of, coefficients-seats_of, FindShares, select_shares-points, HaveNonces-seats_of,
  local_nonces-seats_of,
}

-- Seats at which local signing takes place.
pub record IsLocalSeating (S P : Type 0) ⦃F : Field S⦄ ⦃C : Curve S P⦄
    (c : HierarchicalThresholdConfig) (f : List S) (draws : ℕ → S) (shares : List HtssLocalKeyShare)
    (signers : List ParticipantId) (seats : List (Seat S)) : Type 0 where
  pub seating : IsSeating S P c seats
  pub signing : signers ≡ ids_of seats
  pub secret_lem : secret S P c seats seating "" f ≡ eval f scalar_zero
  pub chosen : List HtssLocalKeyShare
  pub selected : select_shares shares signers ≡ ok chosen
  pub pairs :
      (session : SessionId)
      → local_nonces S P draws session chosen
        ≡ ok (map (λ s. (share_at f s.point, local_nonce S P session s)) seats)

module _ {S : Type 0} ⦃F : Field S⦄ where
  coefficients_of :
      (points : List BirkhoffPoint) (ks : List S)
      → solve_points points ≡ ok ks
      → birkhoff_interpolation_coefficients S points ≡ ok (zip_coefficients points ks)
  unfolding birkhoff_interpolation_coefficients
  coefficients_of points ks e = rw e

  -- The contributions at the seats sum to the value at 0.
  interpolated :
      (points : List BirkhoffPoint) (ks : List S) (draws : ℕ → S) (f : List S)
      → solve_points points ≡ ok ks
      → length points ≤ 65535
      → length f ≤ length points
      → total (map (contribution f) (seats_of points ks draws)) ≡ eval f scalar_zero
  interpolated points ks draws f e small fits =
      let l = length-solve_points points ks e in
      total-contributions f (seats_of points ks draws)
      ∙ ap
          (λ qs.
            sum (length qs) (λ i.
              at (map (λ s. s.weight) (seats_of points ks draws)) i ⊗ observed f (point qs i)))
          (points-seats_of points ks draws l)
      ∙ ap (λ ws. sum (length points) (λ i. at ws i ⊗ observed f (point points i)))
          (weights-seats_of points ks draws l)
      ∙ solve_points-interpolates points ks f small e fits

module _ (S P : Type 0) ⦃F : Field S⦄ ⦃C : Curve S P⦄ (c : HierarchicalThresholdConfig) (f : List S)
    (draws : ℕ → S) (shares : List HtssLocalKeyShare) (signers : List ParticipantId) where
  seats-IsLocalSeating :
      (points : List BirkhoffPoint) (ks : List S)
      → birkhoff_points_from_hierarchical_signer_set signers c ≡ ok points
      → solve_points points ≡ ok ks
      → length signers ≤ 65535
      → length f ≤ c.threshold
      → FindShares f c shares
      → ((i : ℕ) → F.is_zero (draws i) ≡ false)
      → C.is_identity (C.base_mul (total (tabulate (length signers) draws))) ≡ false
      → IsLocalSeating S P c f draws shares signers (seats_of points ks draws)
  unfolding birkhoff_points_from_hierarchical_signer_set birkhoff_interpolation_coefficients
  seats-IsLocalSeating points ks ep ek small fits found nonzero proper =
      let (_, ev, el) = >>-eq-ok (validate_hierarchical_signer_set signers c) _ ep in
      let valid : IsHierarchicalSignerSet signers c =
        (validate_hierarchical-ok_iff signers c).0 ev in
      let count : length points ≡ length signers = length-collect (signer_point c) signers el in
      let l : length ks ≡ length points = length-solve_points points ks ek in
      let seats = seats_of points ks draws in
      let signing : signers ≡ ids_of seats =
        sym (collect-participants c signers points el) ∙ sym (ids_of-seats_of points ks draws l) in
      let seating : IsSeating S P c seats = record {
        distinct = subst IsDistinct signing valid.base.distinct;
        nonempty = λ empty. absurd (
            omega (
              arith,
              ap length signing,
              ap (λ t. length (ids_of t)) {x = seats} {y = []} empty,
              valid.positive,
              valid.base.enough,
            ));
        nonces = HaveNonces-seats_of S P points ks draws nonzero;
        proper =
            ap (λ t. C.is_identity (C.base_mul (total t)))
              (nonces-seats_of points ks draws l ∙ ap (λ n. tabulate n draws) count)
            ∙ proper;
        has_points =
            ap (λ t. birkhoff_points_from_hierarchical_signer_set t c) (sym signing)
            ∙ ep
            ∙ ap ok (sym (points-seats_of points ks draws l));
        has_coefficients =
            ap (birkhoff_interpolation_coefficients S) (points-seats_of points ks draws l)
            ∙ coefficients_of points ks ek
            ∙ ap ok (coefficients-seats_of points ks draws);
      } in
      record {
        seating = seating;
        signing = signing;
        secret_lem =
            interpolated points ks draws f ek (omega arith) (omega (arith, valid.base.enough));
        chosen = map (share_at f) points;
        selected =
            ap (select_shares shares) (sym (collect-participants c signers points el))
            ∙ select_shares-points f c shares points found (collect-IsPointOf c signers el);
        pairs = λ session. local_nonces-seats_of S P f session points ks draws l;
      }

  -- A seating, when the signer set has points and coefficients.
  pub seating :
      (out : List BirkhoffCoefficient)
      → (birkhoff_points_from_hierarchical_signer_set signers c
          >>= birkhoff_interpolation_coefficients S)
        ≡ ok out
      → length signers ≤ 65535
      → length f ≤ c.threshold
      → FindShares f c shares
      → ((i : ℕ) → F.is_zero (draws i) ≡ false)
      → C.is_identity (C.base_mul (total (tabulate (length signers) draws))) ≡ false
      → (seats : List (Seat S)) × IsLocalSeating S P c f draws shares signers seats
  unfolding birkhoff_interpolation_coefficients
  seating out h small fits found nonzero proper =
      let (points, ep, ho) =
        >>=-eq-ok (birkhoff_points_from_hierarchical_signer_set signers c) _ h in
      let (ks, ek, _) = >>=-eq-ok (solve_points {S = S} points) _ ho in
      (
        seats_of points ks draws,
        seats-IsLocalSeating points ks ep ek small fits found nonzero proper,
      )
