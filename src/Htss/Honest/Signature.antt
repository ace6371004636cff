-- ===== src/Htss/Honest/Signature.antt =====
-- crates/dkgkit-frost/src/lib.rs: the shares of honest signers aggregate to a signature.
use dkgkit.Prelude.{◌≡◌, sym, ap, subst, ◌∙◌, Bool, true, map, some, List}
use dkgkit.Core.Error.{ok}
use dkgkit.Core.Ids.{SessionId}
use dkgkit.Core.Threshold.{HierarchicalThresholdConfig}
use dkgkit.Scalar.{Bytes, Field, ◌⊕◌, ◌⊗◌}
use dkgkit.Scalar.Signs.{signed, signed-mul, mul-signed, total}
use dkgkit.Curve.{Curve}
use dkgkit.Htss.{GroupKey}
use dkgkit.Htss.Keys.{new_aggregate_signature}
use dkgkit.Htss.Sign.{aggregate_htss_signature_shares, aggregate_htss_signature_shares_for_output}
use dkgkit.Htss.Honest.{Seat, ids_of, nonce_sum}
use dkgkit.Htss.Honest.Nonces.{packages}
use dkgkit.Htss.Honest.Shares.{contribution, share_of_seat}
use dkgkit.Htss.Honest.Signing.{
  IsSeating, even_nonce, negated, check_aggregation-seats, signature_equation,
  new_aggregate_signature_full,
}

module _ (S P : Type 0) ⦃F : Field S⦄ ⦃C : Curve S P⦄ (c : HierarchicalThresholdConfig)
    (seats : List (Seat S)) (v : IsSeating S P c seats) (session : SessionId) (f : List S) where
  abbrev pub secret : S
  secret = total (map (contribution f) seats)

  -- The secret of the output key: the shared one, negated or not, and the tweak.
  abbrev pub output_secret : Bool → S → S
  output_secret negate_key tweak = signed negate_key secret ⊕ tweak

  abbrev pub nonce_point : C.EvenPoint
  nonce_point = even_nonce S P c seats v session f

  abbrev pub nonce_negated : Bool
  nonce_negated = negated S P c seats v session f

  -- The signature for a challenge and a secret.
  abbrev pub signature_of : Bytes → C.EvenPoint → S → Bytes
  signature_of digest pk x =
      C.signature_to_bytes nonce_point
        (signed nonce_negated (nonce_sum seats) ⊕ C.challenge nonce_point pk digest ⊗ x)

  pub verify-secret :
      (digest : Bytes) (x : S) (pk : C.EvenPoint)
      → C.point pk ≡ C.base_mul x
      → C.verify pk digest nonce_point
          (signed nonce_negated (nonce_sum seats) ⊕ C.challenge nonce_point pk digest ⊗ x)
        ≡ true
  verify-secret digest x pk public =
      (C.verify_iff pk digest nonce_point _).1
        (signature_equation S P c seats v session f (C.challenge nonce_point pk digest) x pk public)

  -- The bytes of a signature are not empty.
  written :
      (s : S)
      → new_aggregate_signature (C.signature_to_bytes nonce_point s)
        ≡ ok (record { signature_bytes = C.signature_to_bytes nonce_point s })
  written s =
      subst (λ b. new_aggregate_signature b ≡ ok (record { signature_bytes = b }))
        (sym (C.signature_to_bytes_lem nonce_point s))
        (new_aggregate_signature_full _ _ (C.length-to_xonly_bytes (C.point nonce_point)))

  pub aggregate-seats :
      (key : GroupKey) (pk : C.EvenPoint) (digest : Bytes)
      → C.from_xonly_bytes key.xonly_public_key ≡ some pk
      → C.point pk ≡ C.base_mul secret
      → aggregate_htss_signature_shares S P key digest
          (packages S P session seats)
          (map (share_of_seat session f nonce_negated (C.challenge nonce_point pk digest)) seats)
          (ids_of seats)
          c
        ≡ ok (record { signature_bytes = signature_of digest pk secret })
  unfolding aggregate_htss_signature_shares
  aggregate-seats key pk digest parsed public =
      rw (check_aggregation-seats S P c seats v session f (C.challenge nonce_point pk digest))
        (rw parsed (rw (verify-secret digest secret pk public) (written _)))

  -- The shares for an output key, with the challenge's sign, complete to the output secret.
  output_sum :
      (negate_key : Bool) (e tweak : S)
      → signed nonce_negated (nonce_sum seats)
          ⊕ C.conditional_negate negate_key e ⊗ secret
          ⊕ e ⊗ tweak
        ≡ signed nonce_negated (nonce_sum seats) ⊕ e ⊗ output_secret negate_key tweak
  output_sum negate_key e tweak =
      F.add_assoc _ _ _
      ∙ ap (λ t. signed nonce_negated (nonce_sum seats) ⊕ t)
          (ap (λ t. t ⊗ secret ⊕ e ⊗ tweak) (C.conditional_negate_lem negate_key e)
            ∙ ap (λ t. t ⊕ e ⊗ tweak)
                (signed-mul negate_key e secret ∙ sym (mul-signed negate_key e secret))
            ∙ sym (F.mul-add e _ _))

  pub aggregate_for_output-seats :
      (digest output tweak_bytes : Bytes) (negate_key : Bool) (tweak : S) (pk : C.EvenPoint)
      → C.from_xonly_bytes output ≡ some pk
      → C.point pk ≡ C.base_mul (output_secret negate_key tweak)
      → F.from_bytes tweak_bytes ≡ some tweak
      → aggregate_htss_signature_shares_for_output S P digest output tweak_bytes
          (packages S P session seats)
          (map
            (share_of_seat session f nonce_negated
              (C.conditional_negate negate_key (C.challenge nonce_point pk digest)))
            seats)
          (ids_of seats)
          c
        ≡ ok (record { signature_bytes = signature_of digest pk (output_secret negate_key tweak) })
  unfolding aggregate_htss_signature_shares_for_output
  aggregate_for_output-seats digest output tweak_bytes negate_key tweak pk parsed public tweaked =
      let x = output_secret negate_key tweak in
      let e = C.challenge nonce_point pk digest in
      rw (check_aggregation-seats S P c seats v session f (C.conditional_negate negate_key e)) (
        rw parsed (
          rw tweaked (
            rw (output_sum negate_key e tweak)
              (rw (verify-secret digest x pk public) (written _)))))
