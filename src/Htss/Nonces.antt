-- ===== src/Htss/Nonces.antt =====
-- crates/dkgkit-frost/src/lib.rs: the packages of HTSS signing, their validation, and the aggregate
-- nonce. A random nonce is an argument.
use dkgkit.Prelude.{
  ℕ, Bool, false, not, List, [], ◌∷◌, map, String, Option, none, some, ◌==◌, str_eq, length,
  contains,
}
use dkgkit.Core.Error.{
  num, duplicate_participant_id, protocol, Result, ok, ◌>>=◌, ◌>>◌, fail_if, ok_or,
}
use dkgkit.Core.Ids.{ParticipantId, SessionId}
use dkgkit.Scalar.{Bytes, Field}
use dkgkit.Curve.{Curve}
use dkgkit.Htss.{HtssLocalKeyShare}

pub record HtssNoncePackage : Type 0 where
  pub participant_id : ParticipantId
  pub signing_session_id : SessionId
  pub public_nonce_bytes : Bytes

pub record HtssLocalNonce : Type 0 where
  pub public_package : HtssNoncePackage
  pub secret_nonce_bytes : Bytes

pub record HtssSignatureSharePackage : Type 0 where
  pub participant_id : ParticipantId
  pub signing_session_id : SessionId
  pub signature_share_bytes : Bytes

-- The messages in which the two validations of a package set differ.
pub record SetMessages : Type 0 where
  pub outsider : String
  pub mixed_sessions : String
  pub mismatch : String

-- What both validations read of a package: who sent it and for which session.
abbrev pub Sender : Type 0
Sender = ParticipantId × SessionId

abbrev pub is_other_session : Option SessionId → SessionId → Bool
is_other_session none s = false
is_other_session (some existing) s = not (str_eq existing s)

abbrev pub first_session : Option SessionId → SessionId → SessionId
first_session none s = s
first_session (some existing) s = existing

-- The loop of the validations; it ends with the number of participants seen.
unfoldable pub check_senders :
    SetMessages
    → List ParticipantId
    → List ParticipantId
    → Option SessionId
    → List Sender
    → Result ℕ
check_senders m signer_set seen session [] = ok (length seen)
check_senders m signer_set seen session ((p, s) ∷ rest) =
    fail_if (not (contains signer_set p)) (protocol m.outsider (num p ∷ []))
    >> fail_if (contains seen p) (duplicate_participant_id p)
    >> fail_if (is_other_session session s) (protocol m.mixed_sessions [])
    >> check_senders m signer_set (p ∷ seen) (some (first_session session s)) rest

unfoldable pub check_sender_set : SetMessages → List ParticipantId → List Sender → Result (Unit {0})
unfolding check_senders
check_sender_set m signer_set senders = check_senders m signer_set [] none senders >>= λ seen.
    fail_if (not (seen == length signer_set))
      (protocol m.mismatch (num seen ∷ num (length signer_set) ∷ []))

abbrev pub nonce_messages : SetMessages
nonce_messages = record {
  outsider = "HTSS nonce participant {} is not in signer set";
  mixed_sessions = "HTSS nonce session mismatch";
  mismatch = "HTSS nonce set mismatch: have {}, need {}";
}

abbrev pub share_messages : SetMessages
share_messages = record {
  outsider = "HTSS signature share participant {} is not in signer set";
  mixed_sessions = "HTSS signature share session mismatch";
  mismatch = "HTSS signature share set mismatch: have {}, need {}";
}

unfoldable pub validate_htss_nonce_set :
    List HtssNoncePackage → List ParticipantId → Result (Unit {0})
unfolding check_sender_set
validate_htss_nonce_set nonces signer_set =
    check_sender_set nonce_messages signer_set
      (map (λ n. (n.participant_id, n.signing_session_id)) nonces)

unfoldable pub validate_htss_signature_share_set :
    List HtssSignatureSharePackage → List ParticipantId → Result (Unit {0})
unfolding check_sender_set
validate_htss_signature_share_set shares signer_set =
    check_sender_set share_messages signer_set
      (map (λ s. (s.participant_id, s.signing_session_id)) shares)

unfoldable pub nonce_public_nonce_bytes : HtssNoncePackage → Result Bytes
nonce_public_nonce_bytes nonce =
    fail_if (not (length nonce.public_nonce_bytes == 33)) (
      protocol "HTSS public nonce for participant {} must be 33 bytes"
        (num nonce.participant_id ∷ []))
    >> ok nonce.public_nonce_bytes

-- Over the points with an even y.
pub record AggregateHtssNonce (EvenPoint : Type 0) : Type 0 where
  pub signing_session_id : SessionId
  pub even_public_nonce : EvenPoint
  pub negated : Bool

abbrev first_nonce : List HtssNoncePackage → Option HtssNoncePackage
first_nonce [] = none
first_nonce (n ∷ ns) = some n

module _ (S P : Type 0) ⦃F : Field S⦄ ⦃C : Curve S P⦄ where
  -- The random nonce is the last argument.
  unfoldable pub htss_nonce : SessionId → HtssLocalKeyShare → S → Result HtssLocalNonce
  htss_nonce signing_session_id local_share nonce = ok (record {
    public_package = record {
      participant_id = local_share.participant_id;
      signing_session_id = signing_session_id;
      public_nonce_bytes = C.to_bytes (C.base_mul nonce);
    };
    secret_nonce_bytes = F.to_bytes nonce;
  })

  -- The loop that adds up the public nonces.
  unfoldable pub add_nonces : P → List HtssNoncePackage → Result P
  unfolding nonce_public_nonce_bytes
  add_nonces aggregate [] = ok aggregate
  add_nonces aggregate (n ∷ ns) = nonce_public_nonce_bytes n >>= λ bytes.
      ok_or (C.from_bytes bytes)
        (protocol "invalid HTSS public nonce for participant {}" (num n.participant_id ∷ []))
      >>= λ public_nonce. add_nonces (C.add aggregate public_nonce) ns

  unfoldable pub aggregate_htss_public_nonce :
      List HtssNoncePackage → List ParticipantId → Result (AggregateHtssNonce C.EvenPoint)
  unfolding validate_htss_nonce_set add_nonces
  aggregate_htss_public_nonce nonces signer_set = do
    validate_htss_nonce_set nonces signer_set
    first ← ok_or (first_nonce nonces) (protocol "missing HTSS nonce set" [])
    aggregate ← add_nonces C.zero nonces
    fail_if (C.is_identity aggregate) (protocol "HTSS aggregate nonce cannot be zero" [])
    let even = C.into_even_y aggregate
    ok (record {
      signing_session_id = first.signing_session_id;
      even_public_nonce = even.0;
      negated = even.1;
    })
