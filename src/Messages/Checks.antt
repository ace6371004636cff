-- ===== src/Messages/Checks.antt =====
-- crates/dkgkit-frost/src/lib.rs: the chains of checks with which packages are read.
use dkgkit.Prelude.{
  ◌≡◌, sym, ap, ◌∙◌, ◌↔◌, Bool, true, not, Option, none, some, ◌==◌, ==_iff, str_eq, str_eq_iff,
}
use dkgkit.Core.Error.{
  DkgKitError, Result, ok, ◌>>=◌, ◌>>◌, fail_if, >>=-eq-ok, >>-eq-ok, fail_if->>-eq-ok,
}
use dkgkit.Core.Ids.{ParticipantId, SessionId}
use dkgkit.Core.Message.{ProtocolMessage, ProtocolMessageKind}
use dkgkit.Messages.{require_kind, require_broadcast, is_recipient}
use dkgkit.Messages.Kinds.{require_kind-ok_iff, require_broadcast-ok_iff, not_holds}

-- A guard that the rest follows.
pub guard_iff {ℓ} :
    {B : Type ℓ} (b : Bool) (e : DkgKitError) (k : Result B) (r : B)
    → ((fail_if (not b) e >> k) ≡ ok r) ↔ ((b ≡ true) × (k ≡ ok r))
guard_iff b e k r = (
  λ h. let (passed, rest) = fail_if->>-eq-ok (not b) e k h in (not_holds b passed, rest),
  λ (passed, rest). rw passed rest,
)

pub ok_injective {ℓ} : {A : Type ℓ} {a b : A} → ok a ≡ ok b → a ≡ b
ok_injective h = cc

pub recipient_iff :
    (id : ParticipantId) (o : Option ParticipantId) → (is_recipient id o ≡ true) ↔ (o ≡ some id)
recipient_iff id none = (λ h. cc, λ e. cc)
recipient_iff id (some r) = (λ h. ap some (sym ((==_iff id r).0 h)), λ e. (==_iff id r).1 (cc e))

module _ {A : Type 0} (m : ProtocolMessage) (k : ProtocolMessageKind) (decoded : Result A) where
  -- The checks of a broadcast package, before those of its own.
  pub broadcast_iff :
      (sender_of : A → ParticipantId) (e : A → DkgKitError) (last : A → Result A) (p : A)
      → ((a : A) → last a ≡ ok p → a ≡ p)
      → ((require_kind m k
            >> (require_broadcast m
                >> (decoded >>= λ a. fail_if (not (sender_of a == m.sender)) (e a) >> last a)))
          ≡ ok p)
        ↔ ((m.kind ≡ k)
            × (m.recipient ≡ none)
            × (decoded ≡ ok p)
            × (sender_of p ≡ m.sender)
            × (last p ≡ ok p))
  broadcast_iff sender_of e last p same = (
    λ h.
        let (_, hk, h1) = >>-eq-ok (require_kind m k) _ h in
        let (_, hb, h2) = >>-eq-ok (require_broadcast m) _ h1 in
        let (a, ha, h3) = >>=-eq-ok decoded _ h2 in
        let (hs, hl) = (guard_iff (sender_of a == m.sender) (e a) (last a) p).0 h3 in
        let at_p = same a hl in
        (
          (require_kind-ok_iff m k).0 hk,
          (require_broadcast-ok_iff m).0 hb,
          ha ∙ ap ok at_p,
          ap sender_of (sym at_p) ∙ (==_iff (sender_of a) m.sender).0 hs,
          ap last (sym at_p) ∙ hl,
        ),
    λ (hk, hb, ha, hs, hl). rw ((require_kind-ok_iff m k).1 hk) (
        rw ((require_broadcast-ok_iff m).1 hb)
          (rw ha (rw ((==_iff (sender_of p) m.sender).1 hs) hl))),
  )

  -- The checks of a direct package.
  pub direct_iff :
      (sender_of recipient_of : A → ParticipantId) (e1 e2 : A → DkgKitError) (p : A)
      → ((require_kind m k
            >> (decoded >>= λ a.
                fail_if (not (sender_of a == m.sender)) (e1 a)
                >> (fail_if (not (is_recipient (recipient_of a) m.recipient)) (e2 a) >> ok a)))
          ≡ ok p)
        ↔ ((m.kind ≡ k)
            × (decoded ≡ ok p)
            × (sender_of p ≡ m.sender)
            × (m.recipient ≡ some (recipient_of p)))
  direct_iff sender_of recipient_of e1 e2 p = (
    λ h.
        let (_, hk, h1) = >>-eq-ok (require_kind m k) _ h in
        let (a, ha, h2) = >>=-eq-ok decoded _ h1 in
        let (hs, h3) = (guard_iff (sender_of a == m.sender) (e1 a) _ p).0 h2 in
        let (hr, h4) =
          (guard_iff (is_recipient (recipient_of a) m.recipient) (e2 a) (ok a) p).0 h3 in
        let at_p = ok_injective h4 in
        (
          (require_kind-ok_iff m k).0 hk,
          ha ∙ h4,
          ap sender_of (sym at_p) ∙ (==_iff (sender_of a) m.sender).0 hs,
          (recipient_iff (recipient_of a) m.recipient).0 hr ∙ ap (λ t. some (recipient_of t)) at_p,
        ),
    λ (hk, ha, hs, hr). rw ((require_kind-ok_iff m k).1 hk) (
        rw ha (
          rw ((==_iff (sender_of p) m.sender).1 hs)
            (rw ((recipient_iff (recipient_of p) m.recipient).1 hr)))),
  )

module _ {A : Type 0} (session_of : A → SessionId) (m : ProtocolMessage) (e : DkgKitError) where
  -- The check of the session, which ends the reading of a signing package.
  pub session_iff :
      (a p : A)
      → ((fail_if (not (str_eq (session_of a) m.session_id)) e >> ok a) ≡ ok p)
        ↔ ((session_of a ≡ m.session_id) × (a ≡ p))
  session_iff a p = (
    λ h.
        let (same, rest) = (guard_iff (str_eq (session_of a) m.session_id) e (ok a) p).0 h in
        ((str_eq_iff (session_of a) m.session_id).0 same, ok_injective rest),
    λ (same, at_p). rw ((str_eq_iff (session_of a) m.session_id).1 same) (ap ok at_p),
  )
