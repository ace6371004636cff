-- ===== src/Htss/Keys.antt =====
-- crates/dkgkit-frost/src/lib.rs: local key generation, reconstruction, resharing, and signing with
-- the reconstructed secret.
use dkgkit.Prelude.{
  ℕ, suc, ◌-◌, Bool, true, false, not, List, [], ◌∷◌, map, Option, none, some, ◌==◌, find_last,
  tabulate,
}
use dkgkit.Core.Error.{
  num, missing_ranked_participant, protocol, Result, ok, ◌>>=◌, ◌>>◌, fail_if, ok_or,
}
use dkgkit.Core.Ids.{ParticipantId, RankedParticipant}
use dkgkit.Core.Threshold.{HierarchicalThresholdConfig}
use dkgkit.Scalar.{Bytes, Field, ◌⊕◌, ◌⊗◌, scalar_zero}
use dkgkit.Birkhoff.{
  BirkhoffCoefficient, polynomial_derivative_value, birkhoff_interpolation_coefficients,
}
use dkgkit.Curve.{Curve}
use dkgkit.Htss.{
  GroupKey, HtssLocalKeyShare, HtssLocalKeySet, AggregateSignature,
  birkhoff_points_from_hierarchical_signer_set,
}

-- Equality of byte arrays.
unfoldable pub bytes_eq : Bytes → Bytes → Bool
bytes_eq [] [] = true
bytes_eq [] (b ∷ bs) = false
bytes_eq (a ∷ as') [] = false
bytes_eq (a ∷ as') (b ∷ bs) =
    let rest = bytes_eq as' bs in elim (a == b) [ true ↦ rest | false ↦ false ]

abbrev pub is_empty : Bytes → Bool
is_empty [] = true
is_empty (b ∷ bs) = false

unfoldable pub new_aggregate_signature : Bytes → Result AggregateSignature
new_aggregate_signature signature_bytes =
    fail_if (is_empty signature_bytes) (protocol "aggregate signature cannot be empty" [])
    >> ok (record { signature_bytes = signature_bytes })

module _ {S : Type 0} ⦃F : Field S⦄ where
  -- The secret, then one draw for each further degree below the threshold.
  unfoldable pub deal_polynomial : S → ℕ → (ℕ → S) → List S
  deal_polynomial secret threshold draws = secret ∷ tabulate (threshold - 1) draws

  unfoldable pub share_of : List S → RankedParticipant → HtssLocalKeyShare
  share_of polynomial p = record {
    participant_id = p.id;
    rank = p.rank;
    share_value_bytes = F.to_bytes (polynomial_derivative_value polynomial p.id p.rank);
  }

  -- The loop over the coefficients of `reconstruct_htss_secret_scalar`.
  unfoldable pub reconstruct_loop : List HtssLocalKeyShare → S → List BirkhoffCoefficient → Result S
  reconstruct_loop shares secret [] = ok secret
  reconstruct_loop shares secret (c ∷ cs) =
      ok_or (find_last (λ s. s.participant_id == c.participant_id) shares)
        (missing_ranked_participant c.participant_id)
      >>= λ share.
          fail_if (not (share.rank == c.derivative_order)) (
            protocol
              "HTSS share rank mismatch for participant {}: share rank {}, coefficient rank {}"
              (num share.participant_id ∷ num share.rank ∷ num c.derivative_order ∷ []))
          >> ok_or (F.from_bytes share.share_value_bytes) (
              protocol "invalid HTSS share scalar for participant {}"
                (num share.participant_id ∷ []))
          >>= λ share_value.
              ok_or (F.from_bytes c.coefficient_bytes) (
                protocol "invalid Birkhoff coefficient scalar for participant {}"
                  (num c.participant_id ∷ []))
              >>= λ coefficient_value.
                  reconstruct_loop shares (secret ⊕ coefficient_value ⊗ share_value) cs

module _ (S : Type 0) ⦃F : Field S⦄ where
  unfoldable pub reconstruct_htss_secret_scalar :
      List HtssLocalKeyShare → List ParticipantId → HierarchicalThresholdConfig → Result Bytes
  unfolding reconstruct_loop
  reconstruct_htss_secret_scalar shares signer_set c = do
    points ← birkhoff_points_from_hierarchical_signer_set signer_set c
    coefficients ← birkhoff_interpolation_coefficients S points
    secret ← reconstruct_loop shares (scalar_zero {S = S}) coefficients
    ok (F.to_bytes secret)

  -- `Scalar::from_bytes(bytes).and_then(|scalar| scalar.non_zero())`
  unfoldable pub nonzero_from_bytes : Bytes → Option S
  nonzero_from_bytes bytes = elim (F.from_bytes bytes) [
    | none ↦ none
    | some s ↦ elim (F.is_zero s) [ true ↦ none | false ↦ some s ]
  ]

module _ (S P : Type 0) ⦃F : Field S⦄ ⦃C : Curve S P⦄ where
  -- The first draw is the initial secret, the others are the higher coefficients.
  unfoldable pub run_local_htss_keygen :
      (ℕ → S) → HierarchicalThresholdConfig → Result HtssLocalKeySet
  unfolding deal_polynomial share_of
  run_local_htss_keygen draws c =
      let (secret, public_key) = C.new_keypair (draws 0) in
      let polynomial = deal_polynomial secret c.threshold (λ i. draws (suc i)) in
      ok (record {
        group_key = record {
          xonly_public_key = C.to_xonly_bytes (C.point public_key);
          verification_key_bytes = [];
        };
        shares = map (share_of polynomial) c.participants;
      })

  unfoldable pub reshare_htss :
      (ℕ → S)
      → HtssLocalKeySet
      → HierarchicalThresholdConfig
      → List ParticipantId
      → HierarchicalThresholdConfig
      → Result HtssLocalKeySet
  unfolding nonzero_from_bytes bytes_eq deal_polynomial share_of
  reshare_htss draws old old_config reconstruct_set new_config = do
    secret_bytes ← reconstruct_htss_secret_scalar S old.shares reconstruct_set old_config
    secret ←
        ok_or (nonzero_from_bytes S secret_bytes) (protocol "reconstructed HTSS secret is zero" [])
    let keypair = C.new_keypair secret
    fail_if (not (bytes_eq (C.to_xonly_bytes (C.point keypair.1)) old.group_key.xonly_public_key))
        (protocol "reshare would change the group key" [])
    let polynomial = deal_polynomial keypair.0 new_config.threshold draws
    ok (record {
      group_key = old.group_key;
      shares = map (share_of polynomial) new_config.participants;
    })

  unfoldable pub sign_digest_with_local_htss_shares :
      GroupKey
      → Bytes
      → List HtssLocalKeyShare
      → List ParticipantId
      → HierarchicalThresholdConfig
      → Result AggregateSignature
  unfolding nonzero_from_bytes bytes_eq new_aggregate_signature
  sign_digest_with_local_htss_shares group_key digest shares signer_set c = do
    secret_bytes ← reconstruct_htss_secret_scalar S shares signer_set c
    secret ←
        ok_or (nonzero_from_bytes S secret_bytes) (protocol "reconstructed HTSS secret is zero" [])
    let keypair = C.new_keypair secret
    fail_if (not (bytes_eq (C.to_xonly_bytes (C.point keypair.1)) group_key.xonly_public_key))
        (protocol "reconstructed HTSS secret does not match group key" [])
    let signature = C.sign keypair digest
    new_aggregate_signature (C.signature_to_bytes signature.0 signature.1)
