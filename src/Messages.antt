-- ===== src/Messages.antt =====
-- crates/dkgkit-frost/src/lib.rs: how packages are encoded, and the checks on a received message.
-- The encodings of `serde_json` and `bincode` are an interface.
pub mod Kinds
pub mod Frost
pub mod Htss
pub mod Checks
pub mod Accepted
pub mod RoundTrip
use dkgkit.Prelude.{
  ℕ, ◌≡◌, ◌⊎◌, inl, inr, Bool, true, false, ◌&&◌, not, List, [], ◌∷◌, String, Option, none, some,
  ◌==◌, str_eq,
}
use dkgkit.Core.Error.{DkgKitError, text, serialization, protocol, Result, ok, err, fail_if}
use dkgkit.Core.Ids.{ParticipantId}
use dkgkit.Core.Message.{
  ProtocolMessage, ProtocolMessageKind, custom, session_manifest, frost_dkg_round1,
  frost_dkg_round2, htss_dkg_round1, htss_dkg_round2, frost_signing_nonce, frost_signature_share,
  htss_signing_nonce, htss_signature_share, as_str,
}
use dkgkit.Scalar.{Bytes}

-- What `serde_json` and `bincode` do for a type: an encoding that is read back.
pub record Codec (A : Type 0) : Type 0 where
  -- The bytes, or the text of the error.
  pub encode : A → String ⊎ Bytes
  pub decode : Bytes → String ⊎ A
  pub decode-encode : (a : A) (b : Bytes) → encode a ≡ inr b → decode b ≡ inr a

-- `map_err(|err| DkgKitError::Serialization(err.to_string()))`
abbrev pub or_serialization {ℓ} : {A : Type ℓ} → String ⊎ A → Result A
or_serialization (inl e) = err (serialization e)
or_serialization (inr a) = ok a

module _ {A : Type 0} ⦃J : Codec A⦄ where
  unfoldable pub encode_payload : A → Result Bytes
  encode_payload payload = or_serialization (J.encode payload)

  unfoldable pub decode_payload : Bytes → Result A
  decode_payload bytes = or_serialization (J.decode bytes)

  unfoldable pub encode_binary : A → Result Bytes
  encode_binary payload = or_serialization (J.encode payload)

  unfoldable pub decode_binary : Bytes → Result A
  decode_binary bytes = or_serialization (J.decode bytes)

-- The derived equality of message kinds: the variant, then its text.
abbrev pub variant : ProtocolMessageKind → ℕ
variant session_manifest = 0
variant frost_dkg_round1 = 1
variant frost_dkg_round2 = 2
variant htss_dkg_round1 = 3
variant htss_dkg_round2 = 4
variant frost_signing_nonce = 5
variant frost_signature_share = 6
variant htss_signing_nonce = 7
variant htss_signature_share = 8
variant (custom value) = 9

abbrev pub custom_text : ProtocolMessageKind → String
custom_text (custom value) = value
custom_text kind = ""

unfoldable pub kind_eq : ProtocolMessageKind → ProtocolMessageKind → Bool
kind_eq a b = (variant a == variant b) && str_eq (custom_text a) (custom_text b)

unfoldable pub require_kind : ProtocolMessage → ProtocolMessageKind → Result (Unit {0})
unfolding kind_eq as_str
require_kind message expected = fail_if (not (kind_eq message.kind expected)) (
    protocol "unexpected protocol message kind: expected {}, got {}"
      (text (as_str expected) ∷ text (as_str message.kind) ∷ []))

abbrev pub is_some {ℓ} : {A : Type ℓ} → Option A → Bool
is_some none = false
is_some (some a) = true

unfoldable pub require_broadcast : ProtocolMessage → Result (Unit {0})
require_broadcast message =
    fail_if (is_some message.recipient) (protocol "expected broadcast protocol message" [])

-- `Some(recipient) == message.recipient`
abbrev pub is_recipient : ParticipantId → Option ParticipantId → Bool
is_recipient id none = false
is_recipient id (some recipient) = id == recipient
