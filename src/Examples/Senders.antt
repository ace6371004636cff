-- ===== src/Examples/Senders.antt =====
-- Package sets of two signers.
use dkgkit.Prelude.{◌≡◌, ◌↔◌, [], ◌∷◌, map}
use dkgkit.Core.Error.{ok}
use dkgkit.Htss.Nonces.{validate_htss_nonce_set, validate_htss_signature_share_set}
use dkgkit.Htss.Senders.{
  IsPackageSet, validate_htss_nonce_set-ok_iff, validate_htss_signature_share_set-ok_iff,
}
use dkgkit.Examples.Sharing.{nonces, signature_shares}

validate_htss_nonce_set-ok_iff_example :
    (validate_htss_nonce_set nonces (1 ∷ 2 ∷ []) ≡ ok tt)
    ↔ IsPackageSet (1 ∷ 2 ∷ []) (map (λ n. (n.participant_id, n.signing_session_id)) nonces)
validate_htss_nonce_set-ok_iff_example = validate_htss_nonce_set-ok_iff nonces (1 ∷ 2 ∷ [])

validate_htss_signature_share_set-ok_iff_example :
    (validate_htss_signature_share_set signature_shares (1 ∷ 2 ∷ []) ≡ ok tt)
    ↔ IsPackageSet
        (1 ∷ 2 ∷ [])
        (map (λ s. (s.participant_id, s.signing_session_id)) signature_shares)
validate_htss_signature_share_set-ok_iff_example =
    validate_htss_signature_share_set-ok_iff signature_shares (1 ∷ 2 ∷ [])
