-- ===== src/Examples/Signing.antt =====
-- Local signing over the field of five elements.
use dkgkit.Prelude.{◌≡◌, refl, [], ◌∷◌, arith, false}
use dkgkit.Core.Error.{ok}
use dkgkit.Scalar.{scalar_pow, pow_loop}
use dkgkit.Scalar.Five.{Five, f2, f3, f4, five}
use dkgkit.Scalar.Signs.{total}
use dkgkit.Birkhoff.{derivative_basis, factor_loop, value_loop, polynomial_derivative_value}
use dkgkit.Birkhoff.Derivative.{eval}
use dkgkit.Curve.Five.{even1, even2, curve_five, padding}
use dkgkit.Htss.{AggregateSignature, HtssLocalKeySet}
use dkgkit.Htss.Keys.{share_of, run_local_htss_keygen}
use dkgkit.Htss.Local.{
  sign_digest_with_local_htss_threshold_shares,
  sign_digest_with_local_htss_threshold_shares_for_output,
}
use dkgkit.Htss.Verified.{IsSignature}
use dkgkit.Htss.Honest.Success.{
  sign_digest_with_local_htss_threshold_shares_complete,
  sign_digest_with_local_htss_threshold_shares_for_output_complete,
  sign_digest_with_local_htss_threshold_shares-run_local_htss_keygen,
}
use dkgkit.Examples.{team_config}
use dkgkit.Examples.Interpolation.{two_coefficients}
use dkgkit.Examples.Sharing.{shares, group_key, team_coefficients}

sign_digest_with_local_htss_threshold_shares_complete_example :
    (a : AggregateSignature) × (sign_digest_with_local_htss_threshold_shares Five Five
        (λ _. f2)
        group_key
        (7 ∷ [])
        shares
        (1 ∷ 2 ∷ [])
        team_config
      ≡ ok a)
    × IsSignature Five Five (2 ∷ padding 31) (7 ∷ []) a.signature_bytes
unfolding share_of polynomial_derivative_value value_loop derivative_basis factor_loop scalar_pow
    pow_loop eval total
sign_digest_with_local_htss_threshold_shares_complete_example =
    sign_digest_with_local_htss_threshold_shares_complete Five Five (λ _. f2) group_key (7 ∷ [])
      (f2 ∷ f3 ∷ []) shares (1 ∷ 2 ∷ []) team_config two_coefficients even2 team_coefficients
      (omega arith) (omega arith) (refl, (refl, (refl, tt))) (λ _. refl) refl refl refl

-- The output key is the group key plus four times the generator.
sign_digest_with_local_htss_threshold_shares_for_output_complete_example :
    (a : AggregateSignature) × (sign_digest_with_local_htss_threshold_shares_for_output Five Five
        (λ _. f2)
        group_key
        (7 ∷ [])
        (1 ∷ padding 31)
        (4 ∷ [])
        false
        shares
        (1 ∷ 2 ∷ [])
        team_config
      ≡ ok a)
    × IsSignature Five Five (1 ∷ padding 31) (7 ∷ []) a.signature_bytes
unfolding share_of polynomial_derivative_value value_loop derivative_basis factor_loop scalar_pow
    pow_loop eval total
sign_digest_with_local_htss_threshold_shares_for_output_complete_example =
    sign_digest_with_local_htss_threshold_shares_for_output_complete Five Five (λ _. f2) group_key
      (7 ∷ []) (1 ∷ padding 31) (4 ∷ []) false f4 (f2 ∷ f3 ∷ []) shares (1 ∷ 2 ∷ []) team_config
      two_coefficients even1 team_coefficients (omega arith) (omega arith)
      (refl, (refl, (refl, tt))) (λ _. refl) refl refl refl refl

sign_digest_with_local_htss_threshold_shares-run_local_htss_keygen_example :
    (keys : HtssLocalKeySet) × (a : AggregateSignature) × (run_local_htss_keygen Five Five
        (λ _. f3)
        team_config
      ≡ ok keys)
    × (sign_digest_with_local_htss_threshold_shares Five Five
          (λ _. f2)
          keys.group_key
          (7 ∷ [])
          keys.shares
          (1 ∷ 2 ∷ [])
          team_config
        ≡ ok a)
    × IsSignature Five Five keys.group_key.xonly_public_key (7 ∷ []) a.signature_bytes
unfolding total
sign_digest_with_local_htss_threshold_shares-run_local_htss_keygen_example =
    sign_digest_with_local_htss_threshold_shares-run_local_htss_keygen Five Five (λ _. f3) (λ _. f2)
      (7 ∷ []) (1 ∷ 2 ∷ []) team_config two_coefficients refl (refl, (refl, (refl, tt)))
      team_coefficients (omega arith) (λ _. refl) refl
