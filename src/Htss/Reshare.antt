-- ===== src/Htss/Reshare.antt =====
-- crates/dkgkit-frost/src/lib.rs: `reshare_htss` keeps the group key.
use dkgkit.Prelude.{
  ℕ, ◌≤◌, ◌≡◌, refl, sym, ap, ◌∙◌, true, false, not, List, [], ◌∷◌, some, arith, length, IsDistinct,
}
use dkgkit.Core.Error.{ok, ◌>>=◌, ok_or, protocol, >>=-eq-ok, fail_if->>-eq-ok, ok_or-eq-ok}
use dkgkit.Core.Ids.{ParticipantId}
use dkgkit.Core.Threshold.{HierarchicalThresholdConfig, ids}
use dkgkit.Scalar.{Bytes, Field}
use dkgkit.Birkhoff.{BirkhoffCoefficient, birkhoff_interpolation_coefficients}
use dkgkit.Curve.{Curve}
use dkgkit.Curve.Laws.{new_keypair-public}
use dkgkit.Htss.{HtssLocalKeySet, birkhoff_points_from_hierarchical_signer_set}
use dkgkit.Htss.Keys.{bytes_eq, nonzero_from_bytes, reconstruct_htss_secret_scalar, reshare_htss}
use dkgkit.Htss.Keygen.{deal-reconstructs}

pub bytes_eq_sound : (as' bs : Bytes) → bytes_eq as' bs ≡ true → as' ≡ bs
unfolding bytes_eq
bytes_eq_sound [] [] h = refl
bytes_eq_sound [] (b ∷ bs) h = cc
bytes_eq_sound (a ∷ as') [] h = cc
bytes_eq_sound (a ∷ as') (b ∷ bs) h = ground (arith, bytes_eq_sound as' bs)

pub nonzero_from_bytes-nonzero :
    {S : Type 0} ⦃F : Field S⦄ (b : Bytes) (s : S)
    → nonzero_from_bytes S b ≡ some s
    → F.is_zero s ≡ false
unfolding nonzero_from_bytes
nonzero_from_bytes-nonzero b s h = ground arith

-- When `reshare_htss` succeeds for a configuration whose participants have distinct ids, the new key
-- set carries the old group key, and the secret that any signer set of the new configuration with
-- interpolation coefficients (at most 65535 signers) reconstructs from the new shares is one whose
-- public point is that group key.
pub reshare_htss_sound :
    (S P : Type 0) ⦃F : Field S⦄ ⦃C : Curve S P⦄ (draws : ℕ → S) (old new : HtssLocalKeySet)
    (old_config new_config : HierarchicalThresholdConfig) (set : List ParticipantId)
    → reshare_htss S P draws old old_config set new_config ≡ ok new
    → IsDistinct (ids new_config.participants)
    → (new.group_key ≡ old.group_key)
      × ((signers : List ParticipantId) (out : List BirkhoffCoefficient)
          → (birkhoff_points_from_hierarchical_signer_set signers new_config
              >>= birkhoff_interpolation_coefficients S)
            ≡ ok out
          → length signers ≤ 65535
          → (secret : S) × (reconstruct_htss_secret_scalar S new.shares signers new_config
              ≡ ok (F.to_bytes secret))
            × (old.group_key.xonly_public_key ≡ C.to_xonly_bytes (C.base_mul secret)))
unfolding reshare_htss
reshare_htss_sound S P ⦃F = F⦄ ⦃C = C⦄ draws old new old_config new_config set h distinct =
    let (b, eb, h1) = >>=-eq-ok (reconstruct_htss_secret_scalar S old.shares set old_config) _ h in
    let (s, es, h2) =
      >>=-eq-ok (ok_or (nonzero_from_bytes S b) (protocol "reconstructed HTSS secret is zero" [])) _
        h1 in
    let (secret, public_key) = C.new_keypair s in
    let (same, h3) =
      fail_if->>-eq-ok
        (not (bytes_eq (C.to_xonly_bytes (C.point public_key)) old.group_key.xonly_public_key)) _ _
        h2 in
    let nonzero = nonzero_from_bytes-nonzero b s (ok_or-eq-ok _ _ es) in
    let key =
      bytes_eq_sound (C.to_xonly_bytes (C.point public_key)) old.group_key.xonly_public_key
        (ground arith) in
    let e : new ≡ _ = sym (cc h3) in
    (
      ap (λ k. k.group_key) e,
      λ signers out hs small. (
        secret,
        ap (λ k. reconstruct_htss_secret_scalar S k.shares signers new_config) e
            ∙ deal-reconstructs secret draws new_config signers out distinct hs small,
        sym key ∙ ap C.to_xonly_bytes (new_keypair-public S P s nonzero),
      ),
    )
