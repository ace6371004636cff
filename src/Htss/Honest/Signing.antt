-- ===== src/Htss/Honest/Signing.antt =====
-- crates/dkgkit-frost/src/lib.rs: honest signers produce a signature.
use dkgkit.Prelude.{
  ◌≡◌, ◌≢◌, refl, sym, ap, ◌∙◌, Bool, false, List, [], ◌∷◌, ◌++◌, map, All, IsDistinct, some,
  ==_refl, arith, length, str_eq_iff,
}
use dkgkit.Core.Error.{ok, collect, >>-eq-ok}
use dkgkit.Core.Ids.{SessionId}
use dkgkit.Core.Threshold.{HierarchicalThresholdConfig}
use dkgkit.Policy.{validate_hierarchical_signer_set}
use dkgkit.Scalar.{Bytes, Field, ◌⊕◌, ◌⊗◌}
use dkgkit.Scalar.Signs.{signed, total}
use dkgkit.Birkhoff.{birkhoff_interpolation_coefficients}
use dkgkit.Curve.{Curve}
use dkgkit.Htss.{GroupKey, HtssLocalKeyShare, birkhoff_points_from_hierarchical_signer_set}
use dkgkit.Htss.Keys.{new_aggregate_signature}
use dkgkit.Htss.Nonces.{HtssLocalNonce}
use dkgkit.Htss.Sign.{
  signer_coefficient, own_aggregate_nonce, htss_sign_share, htss_sign_share_for_output,
  check_aggregation,
}
use dkgkit.Htss.Honest.{Seat, seat_id, ids_of, share_at, nonce_sum}
use dkgkit.Htss.Honest.Nonces.{
  local_nonce, packages, HaveNonces, honest_nonce, validate-packages, aggregate-packages,
}
use dkgkit.Htss.Honest.Shares.{
  collect-map, All-both, seats-AreSeated, coefficient_of, find-coefficient_of, contribution,
  share_of_seat, sum_shares-seats, validate-shares, answer-seat,
}

-- Seats of distinct signers that pass the policy, with their coefficients and proper nonces.
pub record IsSeating (S P : Type 0) ⦃F : Field S⦄ ⦃C : Curve S P⦄ (c : HierarchicalThresholdConfig)
    (seats : List (Seat S)) : Type 0 where
  pub distinct : IsDistinct (ids_of seats)
  pub nonempty : seats ≢ []
  pub nonces : HaveNonces S P seats
  pub proper : C.is_identity (C.base_mul (nonce_sum seats)) ≡ false
  pub has_points :
      birkhoff_points_from_hierarchical_signer_set (ids_of seats) c ≡ ok (map (λ s. s.point) seats)
  pub has_coefficients :
      birkhoff_interpolation_coefficients S (map (λ s. s.point) seats)
      ≡ ok (map coefficient_of seats)

pub new_aggregate_signature_full :
    (a b : Bytes)
    → length a ≡ 32
    → new_aggregate_signature (a ++ b) ≡ ok (record { signature_bytes = a ++ b })
unfolding new_aggregate_signature
new_aggregate_signature_full [] b h = absurd (omega arith)
new_aggregate_signature_full (x ∷ a) b h = refl

module _ (S P : Type 0) ⦃F : Field S⦄ ⦃C : Curve S P⦄ (c : HierarchicalThresholdConfig)
    (seats : List (Seat S)) (v : IsSeating S P c seats) (session : SessionId) (f : List S) where
  signer_coefficient-seat :
      All
        (λ s.
          signer_coefficient S (share_at f s.point) (local_nonce S P session s) (ids_of seats) c
          ≡ ok (coefficient_of s))
        seats
  unfolding signer_coefficient
  signer_coefficient-seat =
      All-both _ _ _ seats
        (λ s seated found. rw (==_refl (seat_id s)) (
          rw seated (
            rw v.has_points
              (rw v.has_coefficients (rw found (rw (==_refl (s.point).derivative_order)))))))
        (seats-AreSeated seats) (find-coefficient_of seats v.distinct)

  -- The aggregate nonce, and whether it was negated.
  abbrev pub even_nonce : C.EvenPoint
  even_nonce = (C.into_even_y (C.base_mul (nonce_sum seats))).0

  abbrev pub negated : Bool
  negated = (C.into_even_y (C.base_mul (nonce_sum seats))).1

  own_aggregate_nonce-seat :
      (s : Seat S)
      → own_aggregate_nonce S P
          (local_nonce S P session s)
          (packages S P session seats)
          (ids_of seats)
        ≡ ok (honest_nonce S P session seats)
  unfolding own_aggregate_nonce
  own_aggregate_nonce-seat s =
      rw (aggregate-packages S P session seats v.distinct v.nonces v.nonempty v.proper)
        (rw ((str_eq_iff session session).1 refl))

  -- The answer of every seat to a challenge under a key.
  pub collect-htss_sign_share :
      (key : GroupKey) (pk : C.EvenPoint) (digest : Bytes)
      → C.from_xonly_bytes key.xonly_public_key ≡ some pk
      → collect
          (λ ((share, nonce) : HtssLocalKeyShare × HtssLocalNonce).
            htss_sign_share S P key digest share nonce
              (packages S P session seats)
              (ids_of seats)
              c)
          (map (λ s. (share_at f s.point, local_nonce S P session s)) seats)
        ≡ ok (map (share_of_seat session f negated (C.challenge even_nonce pk digest)) seats)
  unfolding htss_sign_share
  collect-htss_sign_share key pk digest parsed = collect-map _ _ _ seats (
      All-both _ _ _ seats
        (λ s found _. rw found (
          rw (own_aggregate_nonce-seat s)
            (rw parsed (answer-seat S P session f negated (C.challenge even_nonce pk digest) s))))
        signer_coefficient-seat (seats-AreSeated seats))

  pub collect-htss_sign_share_for_output :
      (key : GroupKey) (pk : C.EvenPoint) (digest output : Bytes) (negate_key : Bool)
      → C.from_xonly_bytes output ≡ some pk
      → collect
          (λ ((share, nonce) : HtssLocalKeyShare × HtssLocalNonce).
            htss_sign_share_for_output S P key digest output negate_key share nonce
              (packages S P session seats)
              (ids_of seats)
              c)
          (map (λ s. (share_at f s.point, local_nonce S P session s)) seats)
        ≡ ok (
            map
              (share_of_seat session f negated
                (C.conditional_negate negate_key (C.challenge even_nonce pk digest)))
              seats)
  unfolding htss_sign_share_for_output
  collect-htss_sign_share_for_output key pk digest output negate_key parsed =
      collect-map _ _ _ seats (
        All-both _ _ _ seats
          (λ s found _. rw found (
            rw (own_aggregate_nonce-seat s) (
              rw parsed (
                answer-seat S P session f negated
                  (C.conditional_negate negate_key (C.challenge even_nonce pk digest)) s))))
          signer_coefficient-seat (seats-AreSeated seats))

  pub check_aggregation-seats :
      (e : S)
      → check_aggregation S P
          (packages S P session seats)
          (map (share_of_seat session f negated e) seats)
          (ids_of seats)
          c
        ≡ ok (
          honest_nonce S P session seats,
          signed negated (nonce_sum seats) ⊕ e ⊗ total (map (contribution f) seats),
        )
  unfolding check_aggregation birkhoff_points_from_hierarchical_signer_set
  check_aggregation-seats e =
      let (_, valid, _) =
        >>-eq-ok (validate_hierarchical_signer_set (ids_of seats) c) _ v.has_points in
      rw valid (
        rw (aggregate-packages S P session seats v.distinct v.nonces v.nonempty v.proper) (
          rw (validate-packages S P session seats v.distinct) (
            rw (validate-shares session f negated e seats v.distinct)
              (rw (sum_shares-seats session f negated e seats)))))

  -- The equation of a signature: the signed nonces and the challenge times a secret.
  pub signature_equation :
      (e x : S) (pk : C.EvenPoint)
      → C.point pk ≡ C.base_mul x
      → C.base_mul (signed negated (nonce_sum seats) ⊕ e ⊗ x)
        ≡ C.add (C.point even_nonce) (C.point_mul e (C.point pk))
  signature_equation e x pk public =
      C.base_mul-add _ _
      ∙ ap (λ q. C.add q (C.base_mul (e ⊗ x))) (sym (C.into_even_y_lem (nonce_sum seats) v.proper))
      ∙ ap (λ q. C.add (C.point even_nonce) q)
          (sym (C.point_mul-base_mul e x) ∙ ap (C.point_mul e) (sym public))
