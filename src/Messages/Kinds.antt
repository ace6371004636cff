-- ===== src/Messages/Kinds.antt =====
-- crates/dkgkit-frost/src/lib.rs: the checks on a received message, by what they accept.
use dkgkit.Prelude.{
  [], ◌∷◌, get_or, ℕ, ◌≡◌, refl, sym, ap, ◌∙◌, ◌↔◌, ◌⊎◌, inl, inr, Bool, true, false, ◌&&◌, not,
  String, Option, none, some, ◌==◌, ==_refl, ==_iff, str_eq_iff,
}
use dkgkit.Core.Error.{Result, ok, fail_if-eq-ok}
use dkgkit.Core.Message.{
  ProtocolMessage, ProtocolMessageKind, custom, session_manifest, frost_dkg_round1,
  frost_dkg_round2, htss_dkg_round1, htss_dkg_round2, frost_signing_nonce, frost_signature_share,
  htss_signing_nonce, htss_signature_share,
}
use dkgkit.Messages.{
  Codec, encode_payload, decode_payload, encode_binary, decode_binary, or_serialization, variant,
  custom_text, kind_eq, require_kind, is_some, require_broadcast,
}
use dkgkit.Scalar.{Bytes}

-- A kind from its variant and its text.
abbrev of_variant : ℕ → String → ProtocolMessageKind
of_variant n value =
    get_or
      (session_manifest ∷ frost_dkg_round1 ∷ frost_dkg_round2 ∷ htss_dkg_round1 ∷ htss_dkg_round2
        ∷ frost_signing_nonce ∷ frost_signature_share ∷ htss_signing_nonce ∷ htss_signature_share
        ∷ [])
      n (custom value)

of_variant-variant : (k : ProtocolMessageKind) → of_variant (variant k) (custom_text k) ≡ k
of_variant-variant session_manifest = refl
of_variant-variant frost_dkg_round1 = refl
of_variant-variant frost_dkg_round2 = refl
of_variant-variant htss_dkg_round1 = refl
of_variant-variant htss_dkg_round2 = refl
of_variant-variant frost_signing_nonce = refl
of_variant-variant frost_signature_share = refl
of_variant-variant htss_signing_nonce = refl
of_variant-variant htss_signature_share = refl
of_variant-variant (custom value) = refl

and_holds : (a b : Bool) → (a && b) ≡ true → (a ≡ true) × (b ≡ true)
and_holds true b h = (refl, h)
and_holds false b h = cc

pub kind_eq_iff : (a b : ProtocolMessageKind) → (kind_eq a b ≡ true) ↔ (a ≡ b)
unfolding kind_eq
kind_eq_iff a b = (
  λ h.
      let (same_variant, same_text) = and_holds (variant a == variant b) _ h in
      sym (of_variant-variant a)
      ∙ ap (λ n. of_variant n (custom_text a)) ((==_iff (variant a) (variant b)).0 same_variant)
      ∙ ap (of_variant (variant b)) ((str_eq_iff (custom_text a) (custom_text b)).0 same_text)
      ∙ of_variant-variant b,
  λ e.
      ap (λ k. kind_eq k b) e
      ∙ rw (==_refl (variant b)) ((str_eq_iff (custom_text b) (custom_text b)).1 refl),
)

pub kind_eq_refl : (k : ProtocolMessageKind) → kind_eq k k ≡ true
kind_eq_refl k = (kind_eq_iff k k).1 refl

pub not_holds : (b : Bool) → not b ≡ false → b ≡ true
not_holds true h = refl
not_holds false h = cc

pub require_kind-ok_iff :
    (m : ProtocolMessage) (k : ProtocolMessageKind) → (require_kind m k ≡ ok tt) ↔ (m.kind ≡ k)
unfolding require_kind
require_kind-ok_iff m k = (
  λ h. (kind_eq_iff m.kind k).0 (not_holds _ (fail_if-eq-ok _ _ h)),
  λ e. rw ((kind_eq_iff m.kind k).1 e),
)

none_of : (o : Option ℕ) → is_some o ≡ false → o ≡ none
none_of none h = refl
none_of (some a) h = cc

pub require_broadcast-ok_iff :
    (m : ProtocolMessage) → (require_broadcast m ≡ ok tt) ↔ (m.recipient ≡ none)
unfolding require_broadcast
require_broadcast-ok_iff m = (λ h. none_of _ (fail_if-eq-ok _ _ h), λ e. rw e)

pub or_serialization-eq-ok :
    {A : Type 0} (r : String ⊎ A) {a : A} → or_serialization r ≡ ok a → r ≡ inr a
or_serialization-eq-ok (inl e) h = cc
or_serialization-eq-ok (inr a) h = cc

-- What was encoded is decoded.
pub decode_payload-encode_payload :
    {A : Type 0} ⦃J : Codec A⦄ (a : A) (b : Bytes)
    → encode_payload a ≡ ok b
    → ◌≡◌ {A = Result A} (decode_payload b) (ok a)
unfolding encode_payload decode_payload
decode_payload-encode_payload ⦃J = J⦄ a b h =
    rw (J.decode-encode a b (or_serialization-eq-ok (J.encode a) h))

pub decode_binary-encode_binary :
    {A : Type 0} ⦃J : Codec A⦄ (a : A) (b : Bytes)
    → encode_binary a ≡ ok b
    → ◌≡◌ {A = Result A} (decode_binary b) (ok a)
unfolding encode_binary decode_binary
decode_binary-encode_binary ⦃J = J⦄ a b h =
    rw (J.decode-encode a b (or_serialization-eq-ok (J.encode a) h))
