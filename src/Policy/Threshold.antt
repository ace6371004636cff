-- ===== src/Policy/Threshold.antt =====
-- `validate_signer_set` accepts exactly the sets of enough distinct signers in range.
use dkgkit.Prelude.{
  ℕ, ◌≤◌, ◌≡◌, refl, ◌↔◌, List, [], ◌∷◌, arith, length, All, IsDistinct, IsFresh, IsFresh-cons,
  IsFresh-uncons, IsFresh-nil,
}
use dkgkit.Core.Error.{ok}
use dkgkit.Core.Ids.{ParticipantId}
use dkgkit.Core.Threshold.{ThresholdConfig}
use dkgkit.Policy.{check_signers, validate_signer_set}

pub record IsSignerSet (signers : List ParticipantId) (t : ThresholdConfig) : Type 0 where
  pub enough : t.threshold ≤ length signers
  pub in_range : All (λ s. s ≤ t.participants) signers
  pub distinct : IsDistinct signers

check_signers_sound :
    (n : ℕ) (seen ss : List ℕ)
    → check_signers n seen ss ≡ ok tt
    → All (λ s. s ≤ n) ss × IsDistinct ss × IsFresh seen ss
unfolding check_signers
check_signers_sound n seen [] h = (tt, tt, tt)
check_signers_sound n seen (s ∷ ss) h =
    ground (arith, check_signers_sound n (s ∷ seen) ss, IsFresh-uncons s seen ss)

check_signers_complete :
    (n : ℕ) (seen ss : List ℕ)
    → All (λ s. s ≤ n) ss
    → IsDistinct ss
    → IsFresh seen ss
    → check_signers n seen ss ≡ ok tt
unfolding check_signers
check_signers_complete n seen [] r d f = refl
check_signers_complete n seen (s ∷ ss) r d f =
    let rest = check_signers_complete n (s ∷ seen) ss r.1 d.1 (IsFresh-cons s seen ss f.1 d.0) in
    ground arith

-- `validate_signer_set` succeeds exactly when there are at least `threshold` signers, none above the
-- number of participants, and no two the same.
pub validate_signer_set-ok_iff :
    (signers : List ParticipantId) (t : ThresholdConfig)
    → (validate_signer_set signers t ≡ ok tt) ↔ IsSignerSet signers t
unfolding validate_signer_set
validate_signer_set-ok_iff signers t = (
  λ h. ground (arith, check_signers_sound t.participants [] signers),
  λ v.
      let rest =
        check_signers_complete t.participants [] signers v.in_range v.distinct
          (IsFresh-nil signers) in
      ground arith,
)
