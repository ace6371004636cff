-- ===== src/Frost/Rounds.antt =====
-- crates/dkgkit-frost/src/lib.rs: the sets of packages that FROST sessions accept.
use dkgkit.Prelude.{
  ℕ, ◌≤◌, ◌<◌, ◌≡◌, refl, ◌↔◌, true, List, [], ◌∷◌, map, arith, length, All, contains, IsDistinct,
  IsFresh, IsFresh-cons, IsFresh-uncons, IsFresh-nil, ==_iff, ◌==◌, inl, inr,
}
use dkgkit.Core.Error.{DkgKitError, ok, err}
use dkgkit.Core.Ids.{ParticipantId}
use dkgkit.Scalar.{Field}
use dkgkit.Messages.Frost.{Round1Package}
use dkgkit.Messages.Checks.{guard_iff}
use dkgkit.Frost.{Schnorr, DkgSessionConfig}
use dkgkit.Frost.Dkg.{FrostDkgSession, check_round1, validate_round1_set, round2}
use dkgkit.Frost.Nonces.{Result-cases}

abbrev pub senders : List Round1Package → List ParticipantId
senders = map (λ p. p.participant_id)

check_round1_sound :
    (n : ℕ) (seen : List ℕ) (ps : List Round1Package)
    → check_round1 n seen ps ≡ ok tt
    → All (λ p. p.participant_id ≤ n) ps × IsDistinct (senders ps) × IsFresh seen (senders ps)
unfolding check_round1
check_round1_sound n seen [] h = (tt, tt, tt)
check_round1_sound n seen (p ∷ ps) h = ground (
  arith,
  check_round1_sound n (p.participant_id ∷ seen) ps,
  IsFresh-uncons p.participant_id seen (senders ps),
)

check_round1_complete :
    (n : ℕ) (seen : List ℕ) (ps : List Round1Package)
    → All (λ p. p.participant_id ≤ n) ps
    → IsDistinct (senders ps)
    → IsFresh seen (senders ps)
    → check_round1 n seen ps ≡ ok tt
unfolding check_round1
check_round1_complete n seen [] r d f = refl
check_round1_complete n seen (p ∷ ps) r d f =
    let fresh = IsFresh-cons p.participant_id seen (senders ps) f.1 d.0 in
    let rest = check_round1_complete n (p.participant_id ∷ seen) ps r.1 d.1 fresh in ground arith

-- The round-one packages of a session of n participants pass exactly when there are n, from distinct
-- participants with ids of at most n.
pub validate_round1_set-ok_iff :
    (c : DkgSessionConfig) (ps : List Round1Package)
    → (validate_round1_set c ps ≡ ok tt) ↔ (
        (length ps ≡ (c.threshold).participants)
        × All (λ p. p.participant_id ≤ (c.threshold).participants) ps
        × IsDistinct (senders ps))
unfolding validate_round1_set
validate_round1_set-ok_iff c ps = (
  λ h.
      let (counted, rest) = (guard_iff (length ps == (c.threshold).participants) _ _ tt).0 h in
      let (bounded, distinct, _) = check_round1_sound (c.threshold).participants [] ps rest in
      ((==_iff (length ps) (c.threshold).participants).0 counted, bounded, distinct),
  λ (counted, bounded, distinct). (guard_iff (length ps == (c.threshold).participants) _ _ tt).1 (
    (==_iff (length ps) (c.threshold).participants).1 counted,
    check_round1_complete (c.threshold).participants [] ps bounded distinct
        (IsFresh-nil (senders ps)),
  ),
)

bounded-contains :
    (n : ℕ) (ps : List Round1Package) (id : ParticipantId)
    → All (λ p. p.participant_id ≤ n) ps
    → contains (senders ps) id ≡ true
    → id ≤ n
bounded-contains n [] id a h = cc
bounded-contains n (p ∷ ps) id a h = ground (arith, bounded-contains n ps id a.1)

module _ {S : Type 0} ⦃F : Field S⦄ (X : Schnorr S) where
  -- A FrostDkgSession whose own id exceeds the number of participants fails in round two on every set
  -- of packages that holds its own.
  pub round2-out_of_range :
      (s : FrostDkgSession) (ps : List Round1Package)
      → ((s.config).threshold).participants < (s.config).participant_id
      → contains (senders ps) (s.config).participant_id ≡ true
      → (e : DkgKitError) × ((round2 X ps s).0 ≡ err e)
  unfolding round2
  round2-out_of_range s ps outside own = elim (Result-cases (validate_round1_set s.config ps)) [
    | inl (e, failed) ↦ (e, rw (failed, round2))
    | inr (u, passed) ↦
        let (_, bounded, _) = (validate_round1_set-ok_iff s.config ps).0 passed in
        let inside = bounded-contains _ ps (s.config).participant_id bounded own in
        absurd (omega arith)
  ]
