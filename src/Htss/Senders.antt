-- ===== src/Htss/Senders.antt =====
-- crates/dkgkit-frost/src/lib.rs: which package sets the validations of HTSS signing accept.
use dkgkit.Prelude.{
  ℕ, ◌+◌, ◌≡◌, refl, ap, ◌∙◌, Bool, true, false, not, ◌↔◌, List, [], ◌∷◌, map, Option, none, some,
  arith, str_eq, str_eq_iff, length, All, contains, IsDistinct, IsFresh, IsFresh-cons,
  IsFresh-uncons, IsFresh-nil,
}
use dkgkit.Core.Error.{
  ok, ◌>>◌, fail_if, num, protocol, duplicate_participant_id, >>=-eq-ok, >>-eq-ok, fail_if-eq-ok,
}
use dkgkit.Core.Ids.{ParticipantId, SessionId}
use dkgkit.Htss.Nonces.{
  HtssNoncePackage, SetMessages, Sender, is_other_session, first_session, check_senders,
  check_sender_set, nonce_messages, share_messages, validate_htss_nonce_set,
  HtssSignatureSharePackage, validate_htss_signature_share_set,
}

abbrev pub senders_of : List Sender → List ParticipantId
senders_of = map (λ s. s.0)

-- Every sender has the session given, or, when none is, that of the first.
abbrev pub Agree : Option SessionId → List Sender → Type 0
Agree (some e) ss = All (λ s. e ≡ s.1) ss
Agree none [] = Unit
Agree none (s ∷ ss) = All (λ t. s.1 ≡ t.1) ss

abbrev IsAccepted :
    List ParticipantId → List ParticipantId → Option SessionId → List Sender → Type 0
IsAccepted set seen session ss =
    All (λ s. contains set s.0 ≡ true) ss
    × IsDistinct (senders_of ss)
    × IsFresh seen (senders_of ss)
    × Agree session ss

not-false : (b : Bool) → not b ≡ false → b ≡ true
not-false true h = refl
not-false false h = cc

Agree-cons :
    (session : Option SessionId) (s : Sender) (ss : List Sender)
    → (is_other_session session s.1 ≡ false) × Agree (some (first_session session s.1)) ss
    → Agree session (s ∷ ss)
Agree-cons none s ss a = a.1
Agree-cons (some e) s ss a = ((str_eq_iff e s.1).0 (not-false (str_eq e s.1) a.0), a.1)

Agree-uncons :
    (session : Option SessionId) (s : Sender) (ss : List Sender)
    → Agree session (s ∷ ss)
    → (is_other_session session s.1 ≡ false) × Agree (some (first_session session s.1)) ss
Agree-uncons none s ss a = (refl, a)
Agree-uncons (some e) s ss a = (ap not ((str_eq_iff e s.1).1 a.0), a.1)

Agree-nil : (session : Option SessionId) → Agree session []
Agree-nil none = tt
Agree-nil (some e) = tt

check_senders_sound :
    (m : SetMessages) (set seen : List ParticipantId) (session : Option SessionId)
    (ss : List Sender) (k : ℕ)
    → check_senders m set seen session ss ≡ ok k
    → IsAccepted set seen session ss × (k ≡ length seen + length ss)
unfolding check_senders
check_senders_sound m set seen session [] k h =
    let e : length seen ≡ k = cc h in ((tt, tt, tt, Agree-nil session), omega (arith, e))
check_senders_sound m set seen session (s ∷ ss) k h =
    let outside = not (contains set s.0) in
    let a = protocol m.outsider (num s.0 ∷ []) in
    let twice = contains seen s.0 in
    let b = duplicate_participant_id s.0 in
    let other = is_other_session session s.1 in
    let c = protocol m.mixed_sessions [] in
    let (_, g, rest) = >>-eq-ok (fail_if outside a >> fail_if twice b >> fail_if other c) _ h in
    let (_, g', hs) = >>-eq-ok (fail_if outside a >> fail_if twice b) (fail_if other c) g in
    let (_, hm, hf) = >>-eq-ok (fail_if outside a) (fail_if twice b) g' in
    let ((members, distinct, fresh, agree), count) =
      check_senders_sound m set (s.0 ∷ seen) (some (first_session session s.1)) ss k rest in
    let (fresh', new) = IsFresh-uncons s.0 seen (senders_of ss) fresh in
    let known : contains set s.0 ≡ true =
      not-false (contains set s.0) (fail_if-eq-ok outside a hm) in
    (
      (
        (known, members),
        (new, distinct),
        (fail_if-eq-ok twice b hf, fresh'),
        Agree-cons session s ss (fail_if-eq-ok other c hs, agree),
      ),
      omega arith,
    )

check_senders_complete :
    (m : SetMessages) (set seen : List ParticipantId) (session : Option SessionId)
    (ss : List Sender)
    → IsAccepted set seen session ss
    → check_senders m set seen session ss ≡ ok (length seen + length ss)
unfolding check_senders
check_senders_complete m set seen session [] v = ap ok (omega arith)
check_senders_complete m set seen session (s ∷ ss)
      ((known, members), (new, distinct), (unseen, fresh), agree) =
    let (same, agree') = Agree-uncons session s ss agree in
    let rest =
      check_senders_complete m set (s.0 ∷ seen) (some (first_session session s.1)) ss
        (members, distinct, IsFresh-cons s.0 seen (senders_of ss) fresh new, agree') in
    rw (known, unseen, same) (rest ∙ ap ok (omega arith))

-- The packages of a set: from signers, one from each, all for one session.
pub record IsPackageSet (set : List ParticipantId) (ss : List Sender) : Type 0 where
  pub members : All (λ s. contains set s.0 ≡ true) ss
  pub distinct : IsDistinct (senders_of ss)
  pub one_session : Agree none ss
  pub complete : length ss ≡ length set

check_sender_set-ok_iff :
    (m : SetMessages) (set : List ParticipantId) (ss : List Sender)
    → (check_sender_set m set ss ≡ ok tt) ↔ IsPackageSet set ss
unfolding check_sender_set
check_sender_set-ok_iff m set ss = (
  λ h.
      let (k, e, h') = >>=-eq-ok (check_senders m set [] none ss) _ h in
      let ((members, distinct, _, agree), count) = check_senders_sound m set [] none ss k e in
      record {
        members = members;
        distinct = distinct;
        one_session = agree;
        complete = ground arith;
      },
  λ v.
      rw
        (check_senders_complete m set [] none ss
          (v.members, v.distinct, IsFresh-nil (senders_of ss), v.one_session))
        (ground (arith, v.complete)),
)

-- The nonce packages pass the validation exactly when each comes from a signer, no two from the same
-- one, all are for the session of the first, and there are as many as signers.
pub validate_htss_nonce_set-ok_iff :
    (nonces : List HtssNoncePackage) (set : List ParticipantId)
    → (validate_htss_nonce_set nonces set ≡ ok tt)
      ↔ IsPackageSet set (map (λ n. (n.participant_id, n.signing_session_id)) nonces)
unfolding validate_htss_nonce_set
validate_htss_nonce_set-ok_iff nonces set = check_sender_set-ok_iff nonce_messages set _

-- The signature shares pass the validation exactly when each comes from a signer, no two from the
-- same one, all are for the session of the first, and there are as many as signers.
pub validate_htss_signature_share_set-ok_iff :
    (shares : List HtssSignatureSharePackage) (set : List ParticipantId)
    → (validate_htss_signature_share_set shares set ≡ ok tt)
      ↔ IsPackageSet set (map (λ s. (s.participant_id, s.signing_session_id)) shares)
unfolding validate_htss_signature_share_set
validate_htss_signature_share_set-ok_iff shares set = check_sender_set-ok_iff share_messages set _
