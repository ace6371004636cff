-- ===== src/Core/Session/Accepted.antt =====
-- crates/dkgkit-core/src/lib.rs: the session configurations that `SessionConfig::new` accepts.
use dkgkit.Prelude.{
  ℕ, ◌<◌, ◌≤◌, ◌≡◌, refl, ◌↔◌, false, List, [], ◌∷◌, map, String, arith, length, All, IsDistinct,
  IsFresh, IsFresh-cons, IsFresh-uncons, IsFresh-nil,
}
use dkgkit.Core.Error.{ok}
use dkgkit.Core.Ids.{Participant, is_blank, new_session_id}
use dkgkit.Core.Threshold.{new_threshold_config}
use dkgkit.Core.Session.{SessionConfig, check_participants, new_session_config}

abbrev pub ids_of : List Participant → List ℕ
ids_of = map (λ p. p.id)

-- The arguments of a session.
pub record IsSession (name : String) (threshold count : ℕ) (participants : List Participant)
    : Type 0 where
  pub named : is_blank name ≡ false
  pub positive : 0 < threshold
  pub fits : threshold ≤ count
  pub counted : length participants ≡ count
  pub in_range : All (λ p. p.id ≤ count) participants
  pub distinct : IsDistinct (ids_of participants)

check_participants_sound :
    (n : ℕ) (seen : List ℕ) (ps : List Participant)
    → check_participants n seen ps ≡ ok tt
    → All (λ p. p.id ≤ n) ps × IsDistinct (ids_of ps) × IsFresh seen (ids_of ps)
unfolding check_participants
check_participants_sound n seen [] h = (tt, tt, tt)
check_participants_sound n seen (p ∷ ps) h =
    ground
      (arith, check_participants_sound n (p.id ∷ seen) ps, IsFresh-uncons p.id seen (ids_of ps))

check_participants_complete :
    (n : ℕ) (seen : List ℕ) (ps : List Participant)
    → All (λ p. p.id ≤ n) ps
    → IsDistinct (ids_of ps)
    → IsFresh seen (ids_of ps)
    → check_participants n seen ps ≡ ok tt
unfolding check_participants
check_participants_complete n seen [] r d f = refl
check_participants_complete n seen (p ∷ ps) r d f =
    let fresh = IsFresh-cons p.id seen (ids_of ps) f.1 d.0 in
    let rest = check_participants_complete n (p.id ∷ seen) ps r.1 d.1 fresh in ground arith

-- `SessionConfig::new` returns a configuration exactly when it is the one of its arguments, the
-- session's name is not blank, the threshold is between 1 and the count, there are as many
-- participants as the count, and their ids are distinct and at most the count.
pub new_session_config-ok_iff :
    (name : String) (threshold count : ℕ) (participants : List Participant) (c : SessionConfig)
    → (new_session_config name threshold count participants ≡ ok c) ↔ (
        (c ≡ record {
          session_id = name;
          threshold = record { threshold = threshold; participants = count };
          participants = participants;
        })
        × IsSession name threshold count participants)
unfolding new_session_config new_threshold_config new_session_id
new_session_config-ok_iff name threshold count participants c = (
  λ h. ground (arith, check_participants_sound count [] participants),
  λ v.
      let s = v.1 in
      let checked =
        check_participants_complete count [] participants s.in_range s.distinct
          (IsFresh-nil (ids_of participants)) in
      ground arith,
)
