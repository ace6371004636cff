-- ===== src/Examples/Commitments.antt =====
-- A share of 2 + 3x, from participant 1 to participant 2 of rank 1, over the field of five elements.
use dkgkit.Prelude.{◌≡◌, refl, ◌↔◌, [], ◌∷◌}
use dkgkit.Core.Error.{ok}
use dkgkit.Scalar.Five.{Five, f2, f3, five, to_bytes}
use dkgkit.Birkhoff.{polynomial_derivative_value}
use dkgkit.Curve.Five.{curve_five}
use dkgkit.Htss.Dkg.{verify_htss_dkg_derivative_share}
use dkgkit.Htss.Commitments.{commitments, verify_htss_dkg_derivative_share-ok_iff}

verify_htss_dkg_derivative_share-ok_iff_example :
    (verify_htss_dkg_derivative_share Five Five
        (record { sender = 1; recipient = 2; recipient_rank = 1; share_value_bytes = to_bytes f3 })
        (record {
          participant_id = 1;
          rank = 0;
          commitment_bytes = commitments Five Five (f2 ∷ f3 ∷ []);
        })
      ≡ ok tt)
    ↔ (f3 ≡ polynomial_derivative_value (f2 ∷ f3 ∷ []) 2 1)
verify_htss_dkg_derivative_share-ok_iff_example =
    verify_htss_dkg_derivative_share-ok_iff Five Five (f2 ∷ f3 ∷ []) 1 2 0 1 f3 (refl, (refl, tt))
