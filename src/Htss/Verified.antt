-- ===== src/Htss/Verified.antt =====
-- crates/dkgkit-frost/src/lib.rs: what an aggregated HTSS signature is.
use dkgkit.Prelude.{◌≡◌, ap, ◌∙◌, true, not, List, [], ◌++◌, some, length, arith}
use dkgkit.Core.Error.{ok, ok_or, protocol, >>=-eq-ok, >>-eq-ok, fail_if->>-eq-ok, ok_or-eq-ok}
use dkgkit.Core.Ids.{ParticipantId}
use dkgkit.Core.Threshold.{HierarchicalThresholdConfig}
use dkgkit.Policy.{validate_hierarchical_signer_set}
use dkgkit.Policy.Hierarchical.{IsHierarchicalSignerSet, validate_hierarchical-ok_iff}
use dkgkit.Scalar.{Bytes, Field, ◌⊕◌, ◌⊗◌}
use dkgkit.Curve.{Curve}
use dkgkit.Htss.{GroupKey, AggregateSignature}
use dkgkit.Htss.Keys.{new_aggregate_signature, is_empty}
use dkgkit.Htss.Nonces.{AggregateHtssNonce, HtssNoncePackage, HtssSignatureSharePackage}
use dkgkit.Htss.Sign.{
  check_aggregation, aggregate_htss_signature_shares, aggregate_htss_signature_shares_for_output,
}

new_aggregate_signature-bytes :
    (b : Bytes) (out : AggregateSignature)
    → new_aggregate_signature b ≡ ok out
    → out.signature_bytes ≡ b
unfolding new_aggregate_signature
new_aggregate_signature-bytes b out h =
    let (_, e) = fail_if->>-eq-ok (is_empty b) _ (ok (record { signature_bytes = b })) h in
    ap (λ a. a.signature_bytes) {x = out} {y = record { signature_bytes = b }} (cc e)

-- The bytes are those of a BIP340 signature of the message under the x-only key: the key's bytes
-- are lifted to the key with an even y, the first bytes to the nonce with an even y, and s is that
-- of the equation.
pub record IsSignature (S P : Type 0) ⦃F : Field S⦄ ⦃C : Curve S P⦄ (xonly digest bytes : Bytes)
    : Type 0 where
  pub key : C.EvenPoint
  pub nonce : C.EvenPoint
  pub nonce_bytes : Bytes
  pub s : S
  pub written : bytes ≡ nonce_bytes ++ F.to_bytes s
  pub nonce_length : length nonce_bytes ≡ 32
  pub parsed : C.from_xonly_bytes xonly ≡ some key
  pub lifted : C.from_xonly_bytes nonce_bytes ≡ some nonce
  pub even_key : C.is_even_y (C.point key) ≡ true
  pub even_nonce : C.is_even_y (C.point nonce) ≡ true
  pub valid :
      C.base_mul s
      ≡ C.add (C.point nonce) (C.point_mul (C.challenge nonce key digest) (C.point key))

module _ (S P : Type 0) ⦃F : Field S⦄ ⦃C : Curve S P⦄ where
  -- A key and a nonce with an even y that satisfy the equation, written as a signature is.
  pub signature_to_bytes-IsSignature :
      (key nonce : C.EvenPoint) (s : S) (xonly digest bytes : Bytes)
      → C.from_xonly_bytes xonly ≡ some key
      → C.base_mul s
        ≡ C.add (C.point nonce) (C.point_mul (C.challenge nonce key digest) (C.point key))
      → bytes ≡ C.signature_to_bytes nonce s
      → IsSignature S P xonly digest bytes
  signature_to_bytes-IsSignature key nonce s xonly digest bytes parsed valid written = record {
    key = key;
    nonce = nonce;
    nonce_bytes = C.to_xonly_bytes (C.point nonce);
    s = s;
    written = written ∙ C.signature_to_bytes_lem nonce s;
    nonce_length = C.length-to_xonly_bytes (C.point nonce);
    parsed = parsed;
    lifted = C.from_xonly_bytes-to_xonly_bytes nonce;
    even_key = C.point-even key;
    even_nonce = C.point-even nonce;
    valid = valid;
  }

  check_aggregation-policy :
      (nonces : List HtssNoncePackage) (shares : List HtssSignatureSharePackage)
      (signers : List ParticipantId) (c : HierarchicalThresholdConfig)
      (r : AggregateHtssNonce C.EvenPoint × S)
      → check_aggregation S P nonces shares signers c ≡ ok r
      → IsHierarchicalSignerSet signers c
  unfolding check_aggregation
  check_aggregation-policy nonces shares signers c r h =
      let (_, ev, _) = >>-eq-ok (validate_hierarchical_signer_set signers c) _ h in
      (validate_hierarchical-ok_iff signers c).0 ev

  -- When `aggregate_htss_signature_shares` succeeds, the signer set satisfies the policy and the
  -- result is a BIP340 signature of the digest under the group key, with a nonce of even y that its
  -- first 32 bytes lift to.
  pub aggregate_htss_signature_shares-valid :
      (group_key : GroupKey) (digest : Bytes) (nonces : List HtssNoncePackage)
      (shares : List HtssSignatureSharePackage) (signers : List ParticipantId)
      (c : HierarchicalThresholdConfig) (out : AggregateSignature)
      → aggregate_htss_signature_shares S P group_key digest nonces shares signers c ≡ ok out
      → IsHierarchicalSignerSet signers c
        × IsSignature S P group_key.xonly_public_key digest out.signature_bytes
  unfolding aggregate_htss_signature_shares
  aggregate_htss_signature_shares-valid group_key digest nonces shares signers c out h =
      let (checked, ec, h1) = >>=-eq-ok (check_aggregation S P nonces shares signers c) _ h in
      let (key, ek, h2) =
        >>=-eq-ok
          (ok_or (C.from_xonly_bytes group_key.xonly_public_key)
            (protocol "invalid HTSS group x-only public key" []))
          _ h1 in
      let nonce = (checked.0).even_public_nonce in
      let (verified, h3) = fail_if->>-eq-ok (not (C.verify key digest nonce checked.1)) _ _ h2 in
      (
        check_aggregation-policy nonces shares signers c checked ec,
        signature_to_bytes-IsSignature key nonce checked.1 group_key.xonly_public_key digest
            out.signature_bytes (ok_or-eq-ok _ _ ek)
            ((C.verify_iff key digest nonce checked.1).0 (ground arith))
            (new_aggregate_signature-bytes _ out h3),
      )

  -- When `aggregate_htss_signature_shares_for_output` succeeds, the signer set satisfies the policy
  -- and the result is a BIP340 signature of the digest under the tweaked output key, with a nonce of
  -- even y that its first 32 bytes lift to.
  pub aggregate_htss_signature_shares_for_output-valid :
      (digest output_xonly tweak : Bytes) (nonces : List HtssNoncePackage)
      (shares : List HtssSignatureSharePackage) (signers : List ParticipantId)
      (c : HierarchicalThresholdConfig) (out : AggregateSignature)
      → aggregate_htss_signature_shares_for_output S P digest output_xonly tweak nonces shares
          signers c
        ≡ ok out
      → IsHierarchicalSignerSet signers c × IsSignature S P output_xonly digest out.signature_bytes
  unfolding aggregate_htss_signature_shares_for_output
  aggregate_htss_signature_shares_for_output-valid digest output_xonly tweak nonces shares signers c
        out h =
      let (checked, ec, h1) = >>=-eq-ok (check_aggregation S P nonces shares signers c) _ h in
      let (key, ek, h2) =
        >>=-eq-ok
          (ok_or (C.from_xonly_bytes output_xonly)
            (protocol "invalid HTSS output x-only public key" []))
          _ h1 in
      let nonce = (checked.0).even_public_nonce in
      let (tweak_scalar, _, h3) =
        >>=-eq-ok (ok_or (F.from_bytes tweak) (protocol "invalid Taproot tweak scalar" [])) _ h2 in
      let s = checked.1 ⊕ C.challenge nonce key digest ⊗ tweak_scalar in
      let (verified, h4) = fail_if->>-eq-ok (not (C.verify key digest nonce s)) _ _ h3 in
      (
        check_aggregation-policy nonces shares signers c checked ec,
        signature_to_bytes-IsSignature key nonce s output_xonly digest out.signature_bytes
            (ok_or-eq-ok _ _ ek) ((C.verify_iff key digest nonce s).0 (ground arith))
            (new_aggregate_signature-bytes _ out h4),
      )
