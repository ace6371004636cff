-- ===== src/Htss/Honest/Success.antt =====
-- crates/dkgkit-frost/src/lib.rs: local key generation and local signing, together.
use dkgkit.Prelude.{
  ℕ, suc, ◌≤◌, ◌≡◌, refl, sym, ap, ◌∙◌, Bool, false, List, [], map, some, arith, length, tabulate,
  IsDistinct,
}
use dkgkit.Core.Error.{ok, ◌>>=◌, >>=-eq-ok}
use dkgkit.Core.Ids.{ParticipantId}
use dkgkit.Core.Threshold.{HierarchicalThresholdConfig, ids}
use dkgkit.Scalar.{Bytes, Field, ◌⊕◌, scalar_zero}
use dkgkit.Scalar.Signs.{signed, total}
use dkgkit.Birkhoff.{BirkhoffCoefficient, birkhoff_interpolation_coefficients}
use dkgkit.Birkhoff.Derivative.{eval}
use dkgkit.Curve.{Curve}
use dkgkit.Htss.{GroupKey, HtssLocalKeyShare, birkhoff_points_from_hierarchical_signer_set}
use dkgkit.Htss.Local.{
  sign_digest_with_local_htss_threshold_shares,
  sign_digest_with_local_htss_threshold_shares_for_output,
}
use dkgkit.Htss.Honest.{Seat}
use dkgkit.Htss.Honest.Signing.{IsSeating}
use dkgkit.Htss.Honest.Signature.{signature_of, nonce_point}
use dkgkit.Htss.Honest.Seats.{FindShares, deal-FindShares}
use dkgkit.Htss.Honest.Local.{seating}
use dkgkit.Curve.Laws.{new_keypair-public}
use dkgkit.Htss.Keys.{deal_polynomial, share_of, run_local_htss_keygen}
use dkgkit.Htss.{HtssLocalKeySet}
use dkgkit.Htss.Honest.Complete.{sign-seats, sign_for_output-seats}
use dkgkit.Htss.Honest.Signing.{signature_equation}
use dkgkit.Htss.Verified.{IsSignature, signature_to_bytes-IsSignature}
use dkgkit.Htss.{AggregateSignature}
use dkgkit.Htss.Keygen.{eval-deal_polynomial, length-deal_polynomial, points-positive}

module _ (S P : Type 0) ⦃F : Field S⦄ ⦃C : Curve S P⦄ where
  signature_of-IsSignature :
      (c : HierarchicalThresholdConfig) (f : List S) (seats : List (Seat S))
      (v : IsSeating S P c seats) (digest xonly : Bytes) (pk : C.EvenPoint) (x : S)
      → C.from_xonly_bytes xonly ≡ some pk
      → C.point pk ≡ C.base_mul x
      → IsSignature S P xonly digest (signature_of S P c seats v "" f digest pk x)
  signature_of-IsSignature c f seats v digest xonly pk x parsed public =
      let nonce = nonce_point S P c seats v "" f in
      signature_to_bytes-IsSignature S P pk nonce _ xonly digest _ parsed
        (signature_equation S P c seats v "" f (C.challenge nonce pk digest) x pk public) refl

  -- When the shares of a polynomial, no longer than the threshold, are found for every participant,
  -- the key parses to a point with an even y that is the public point of its value at 0, at most
  -- 65535 signers have interpolation coefficients, the drawn nonces are not zero and their public
  -- sum is not the identity, `sign_digest_with_local_htss_threshold_shares` returns a signature, and
  -- it is a BIP340 signature of the digest under the key.
  pub sign_digest_with_local_htss_threshold_shares_complete :
      (draws : ℕ → S) (key : GroupKey) (digest : Bytes) (f : List S)
      (shares : List HtssLocalKeyShare) (signers : List ParticipantId)
      (c : HierarchicalThresholdConfig) (out : List BirkhoffCoefficient) (pk : C.EvenPoint)
      → (birkhoff_points_from_hierarchical_signer_set signers c
          >>= birkhoff_interpolation_coefficients S)
        ≡ ok out
      → length signers ≤ 65535
      → length f ≤ c.threshold
      → FindShares f c shares
      → ((i : ℕ) → F.is_zero (draws i) ≡ false)
      → C.is_identity (C.base_mul (total (tabulate (length signers) draws))) ≡ false
      → C.from_xonly_bytes key.xonly_public_key ≡ some pk
      → C.point pk ≡ C.base_mul (eval f scalar_zero)
      → (a : AggregateSignature) × (sign_digest_with_local_htss_threshold_shares S P draws key
            digest shares signers c
          ≡ ok a)
        × IsSignature S P key.xonly_public_key digest a.signature_bytes
  sign_digest_with_local_htss_threshold_shares_complete draws key digest f shares signers c out pk h
        small fits found nonzero proper parsed public =
      let (seats, v) = seating S P c f draws shares signers out h small fits found nonzero proper in
      (
        _,
        sign-seats S P c f draws shares signers seats v key pk digest parsed public,
        signature_of-IsSignature c f seats v.seating digest key.xonly_public_key pk
            (eval f scalar_zero) parsed public,
      )

  -- Under the same conditions on shares, signers and nonces, for a tweak that parses and an output
  -- key that parses to a point with an even y that is the public point of the tweak plus the secret,
  -- negated or not, `sign_digest_with_local_htss_threshold_shares_for_output` returns a signature,
  -- and it is a BIP340 signature of the digest under the output key.
  pub sign_digest_with_local_htss_threshold_shares_for_output_complete :
      (draws : ℕ → S) (key : GroupKey) (digest output tweak_bytes : Bytes) (negate_key : Bool)
      (tweak : S) (f : List S) (shares : List HtssLocalKeyShare) (signers : List ParticipantId)
      (c : HierarchicalThresholdConfig) (out : List BirkhoffCoefficient) (pk : C.EvenPoint)
      → (birkhoff_points_from_hierarchical_signer_set signers c
          >>= birkhoff_interpolation_coefficients S)
        ≡ ok out
      → length signers ≤ 65535
      → length f ≤ c.threshold
      → FindShares f c shares
      → ((i : ℕ) → F.is_zero (draws i) ≡ false)
      → C.is_identity (C.base_mul (total (tabulate (length signers) draws))) ≡ false
      → F.from_bytes tweak_bytes ≡ some tweak
      → C.from_xonly_bytes output ≡ some pk
      → C.point pk ≡ C.base_mul (signed negate_key (eval f scalar_zero) ⊕ tweak)
      → (a : AggregateSignature) × (sign_digest_with_local_htss_threshold_shares_for_output S P
            draws key digest output tweak_bytes negate_key shares signers c
          ≡ ok a)
        × IsSignature S P output digest a.signature_bytes
  sign_digest_with_local_htss_threshold_shares_for_output_complete draws key digest output
        tweak_bytes negate_key tweak f shares signers c out pk h small fits found nonzero proper
        tweaked parsed public =
      let (seats, v) = seating S P c f draws shares signers out h small fits found nonzero proper in
      (
        _,
        sign_for_output-seats S P c f draws shares signers seats v key digest output tweak_bytes
            negate_key tweak pk parsed public tweaked,
        signature_of-IsSignature c f seats v.seating digest output pk
            (signed negate_key (eval f scalar_zero) ⊕ tweak) parsed public,
      )

  -- When the first key draw is not zero, every participant has its own id, at most 65535 signers
  -- have interpolation coefficients, the drawn nonces are not zero and their public sum is not the
  -- identity, key generation returns shares, signing with them returns a signature, and it is a
  -- BIP340 signature of the digest under the generated key: the 32 bytes that lift to a nonce with
  -- an even y, and the s that satisfies the equation for it.
  pub sign_digest_with_local_htss_threshold_shares-run_local_htss_keygen :
      (secrets draws : ℕ → S) (digest : Bytes) (signers : List ParticipantId)
      (c : HierarchicalThresholdConfig) (out : List BirkhoffCoefficient)
      → F.is_zero (secrets 0) ≡ false
      → IsDistinct (ids c.participants)
      → (birkhoff_points_from_hierarchical_signer_set signers c
          >>= birkhoff_interpolation_coefficients S)
        ≡ ok out
      → length signers ≤ 65535
      → ((i : ℕ) → F.is_zero (draws i) ≡ false)
      → C.is_identity (C.base_mul (total (tabulate (length signers) draws))) ≡ false
      → (keys : HtssLocalKeySet) × (a : AggregateSignature) × (run_local_htss_keygen S P secrets c
          ≡ ok keys)
        × (sign_digest_with_local_htss_threshold_shares S P draws keys.group_key digest keys.shares
              signers c
            ≡ ok a)
        × IsSignature S P keys.group_key.xonly_public_key digest a.signature_bytes
  unfolding run_local_htss_keygen
  sign_digest_with_local_htss_threshold_shares-run_local_htss_keygen secrets draws digest signers c
        out initial distinct h small nonzero proper =
      let secret = (C.new_keypair (secrets 0)).0 in
      let higher : ℕ → S = λ i. secrets (suc i) in
      let f = deal_polynomial secret c.threshold higher in
      let key : GroupKey = record {
        xonly_public_key = C.to_xonly_bytes (C.point (C.new_keypair (secrets 0)).1);
        verification_key_bytes = [];
      } in
      let (points, ep, _) =
        >>=-eq-ok (birkhoff_points_from_hierarchical_signer_set signers c) _ h in
      let fits = length-deal_polynomial secret c.threshold higher (points-positive signers c ep) in
      let (a, signed_off, valid) =
        sign_digest_with_local_htss_threshold_shares_complete draws key digest f
          (map (share_of f) c.participants) signers c out (C.new_keypair (secrets 0)).1 h small
          (omega (arith, fits)) (deal-FindShares f c.participants distinct) nonzero proper
          (C.from_xonly_bytes-to_xonly_bytes (C.new_keypair (secrets 0)).1)
          (new_keypair-public S P (secrets 0) initial
            ∙ ap C.base_mul (sym (eval-deal_polynomial secret c.threshold higher))) in
      (_, a, refl, signed_off, valid)
