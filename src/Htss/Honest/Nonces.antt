-- ===== src/Htss/Honest/Nonces.antt =====
-- crates/dkgkit-frost/src/lib.rs: the aggregate nonce of honest signers.
use dkgkit.Prelude.{◌≡◌, ◌≢◌, refl, sym, ap, subst, ◌∙◌, false, List, [], ◌∷◌, map, All, IsDistinct}
use dkgkit.Core.Error.{ok}
use dkgkit.Core.Ids.{SessionId}
use dkgkit.Scalar.{Field, ◌⊕◌, scalar_zero}
use dkgkit.Scalar.Laws.{add-zero}
use dkgkit.Scalar.Signs.{total}
use dkgkit.Curve.{Curve}
use dkgkit.Curve.Laws.{base_mul-zero}
use dkgkit.Htss.Nonces.{
  HtssNoncePackage, HtssLocalNonce, AggregateHtssNonce, add_nonces, nonce_public_nonce_bytes,
  validate_htss_nonce_set, aggregate_htss_public_nonce,
}
use dkgkit.Htss.Senders.{IsPackageSet, validate_htss_nonce_set-ok_iff}
use dkgkit.Htss.Honest.{Seat, seat_id, ids_of, nonce_sum, all_in, all_in-IsPackageSet}

module _ (S P : Type 0) ⦃F : Field S⦄ ⦃C : Curve S P⦄ where
  abbrev pub local_nonce : SessionId → Seat S → HtssLocalNonce
  local_nonce session s = record {
    public_package = record {
      participant_id = seat_id s;
      signing_session_id = session;
      public_nonce_bytes = C.to_bytes (C.base_mul s.nonce);
    };
    secret_nonce_bytes = F.to_bytes s.nonce;
  }

  abbrev pub packages : SessionId → List (Seat S) → List HtssNoncePackage
  packages session = map (λ s. (local_nonce session s).public_package)

  abbrev pub HaveNonces : List (Seat S) → Type 0
  HaveNonces = All (λ s. F.is_zero s.nonce ≡ false)

  add_nonces-packages :
      (session : SessionId) (seats : List (Seat S)) (acc : S)
      → HaveNonces seats
      → add_nonces S P (C.base_mul acc) (packages session seats)
        ≡ ok (C.base_mul (acc ⊕ nonce_sum seats))
  unfolding add_nonces nonce_public_nonce_bytes total
  add_nonces-packages session [] acc nonzero = ap (λ s. ok (C.base_mul s)) (sym (add-zero acc))
  add_nonces-packages session (s ∷ seats) acc nonzero =
      let proper = C.base_mul_nonzero s.nonce nonzero.0 in
      rw (C.length-to_bytes (C.base_mul s.nonce) proper) (
        rw (C.from_bytes-to_bytes (C.base_mul s.nonce) proper) (
          ap (λ q. add_nonces S P q (packages session seats)) (sym (C.base_mul-add acc s.nonce))
          ∙ add_nonces-packages session seats (acc ⊕ s.nonce) nonzero.1
          ∙ ap (λ t. ok (C.base_mul t)) (F.add_assoc acc s.nonce _)))

  senders-packages :
      (session : SessionId) (seats : List (Seat S))
      → map (λ n. (n.participant_id, n.signing_session_id)) (packages session seats)
        ≡ all_in session (ids_of seats)
  senders-packages session [] = refl
  senders-packages session (s ∷ seats) =
      ap (λ t. (seat_id s, session) ∷ t) (senders-packages session seats)

  pub validate-packages :
      (session : SessionId) (seats : List (Seat S))
      → IsDistinct (ids_of seats)
      → validate_htss_nonce_set (packages session seats) (ids_of seats) ≡ ok tt
  validate-packages session seats distinct =
      (validate_htss_nonce_set-ok_iff (packages session seats) (ids_of seats)).1 (
        subst (IsPackageSet (ids_of seats)) (sym (senders-packages session seats))
          (all_in-IsPackageSet session (ids_of seats) distinct))

  -- The aggregate nonce of honest signers, by their secret sum.
  abbrev pub honest_nonce : SessionId → List (Seat S) → AggregateHtssNonce C.EvenPoint
  honest_nonce session seats = record {
    signing_session_id = session;
    even_public_nonce = (C.into_even_y (C.base_mul (nonce_sum seats))).0;
    negated = (C.into_even_y (C.base_mul (nonce_sum seats))).1;
  }

  pub aggregate-packages :
      (session : SessionId) (seats : List (Seat S))
      → IsDistinct (ids_of seats)
      → HaveNonces seats
      → seats ≢ []
      → C.is_identity (C.base_mul (nonce_sum seats)) ≡ false
      → aggregate_htss_public_nonce S P (packages session seats) (ids_of seats)
        ≡ ok (honest_nonce session seats)
  unfolding aggregate_htss_public_nonce
  aggregate-packages session [] distinct nonzero nonempty proper = absurd (nonempty refl)
  aggregate-packages session (s ∷ seats) distinct nonzero nonempty proper =
      let added : add_nonces S P C.zero (packages session (s ∷ seats))
          ≡ ok (C.base_mul (nonce_sum (s ∷ seats))) =
        ap (λ q. add_nonces S P q (packages session (s ∷ seats))) (sym (base_mul-zero S P))
        ∙ add_nonces-packages session (s ∷ seats) scalar_zero nonzero
        ∙ ap (λ t. ok (C.base_mul t)) (F.zero-add _) in
      rw (validate-packages session (s ∷ seats) distinct) (rw added (rw proper))
