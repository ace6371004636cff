-- ===== src/Examples/Codecs.antt =====
-- Encodings of the packages for the examples. A package of another session than "s", or with bytes
-- that the encoding has no room for, is refused.
use dkgkit.Prelude.{
  ◌≡◌, refl, sym, ap, ◌∙◌, ◌⊎◌, inl, inr, Bool, true, false, ◌&&◌, List, [], ◌∷◌, String, str_eq,
  str_eq_iff,
}
use dkgkit.Scalar.{Bytes}
use dkgkit.Htss.Dkg.{HtssDkgRound1Package, HtssDkgRound2Package}
use dkgkit.Htss.Nonces.{HtssNoncePackage, HtssSignatureSharePackage}
use dkgkit.Messages.{Codec}
use dkgkit.Messages.Frost.{Round1Package, Round2Package, NoncePackage, SignatureSharePackage}

-- The bytes, when a test holds.
abbrev pub when : Bool → Bytes → String ⊎ Bytes
when true bytes = inr bytes
when false bytes = inl "unknown session"

pub when-inr :
    (test : Bool) (bytes : Bytes) {b : Bytes}
    → when test bytes ≡ inr b
    → (test ≡ true) × (bytes ≡ b)
when-inr true bytes h = (refl, cc h)
when-inr false bytes h = cc

pub inr_injective : {a b : Bytes} → ◌≡◌ {A = String ⊎ Bytes} (inr a) (inr b) → a ≡ b
inr_injective h = cc

abbrev is_s : String → Bool
is_s session = str_eq session "s"

pub in_session :
    (session : String) (bytes : Bytes) {b : Bytes}
    → when (is_s session) bytes ≡ inr b
    → (session ≡ "s") × (bytes ≡ b)
in_session session bytes h =
    let (same, written) = when-inr (is_s session) bytes h in
    ((str_eq_iff session "s").0 same, written)

abbrev pub is_nil {ℓ} : {A : Type ℓ} → List A → Bool
is_nil [] = true
is_nil (b ∷ bs) = false

pub is_nil_sound {ℓ} : {A : Type ℓ} (xs : List A) → is_nil xs ≡ true → xs ≡ []
is_nil_sound [] h = refl
is_nil_sound (x ∷ xs) h = cc

pub both_hold : (a b : Bool) → (a && b) ≡ true → (a ≡ true) × (b ≡ true)
both_hold true b h = (refl, h)
both_hold false b h = cc

abbrev decode_htss_nonce : Bytes → String ⊎ HtssNoncePackage
decode_htss_nonce [] = inl "empty"
decode_htss_nonce (id ∷ bytes) =
    inr (record { participant_id = id; signing_session_id = "s"; public_nonce_bytes = bytes })

instance abbrev pub htss_nonce_codec : Codec HtssNoncePackage
htss_nonce_codec = record {
  encode = λ p. when (is_s p.signing_session_id) (p.participant_id ∷ p.public_nonce_bytes);
  decode = decode_htss_nonce;
  decode-encode = λ p b h.
      let (same, written) =
        in_session p.signing_session_id (p.participant_id ∷ p.public_nonce_bytes) h in
      ap decode_htss_nonce (sym written)
      ∙ ap
          (λ (t : String). inr (record {
            participant_id = p.participant_id;
            signing_session_id = t;
            public_nonce_bytes = p.public_nonce_bytes;
          }))
          (sym same);
}

abbrev decode_htss_signature_share : Bytes → String ⊎ HtssSignatureSharePackage
decode_htss_signature_share [] = inl "empty"
decode_htss_signature_share (id ∷ bytes) =
    inr (record { participant_id = id; signing_session_id = "s"; signature_share_bytes = bytes })

instance abbrev pub htss_signature_share_codec : Codec HtssSignatureSharePackage
htss_signature_share_codec = record {
  encode = λ p. when (is_s p.signing_session_id) (p.participant_id ∷ p.signature_share_bytes);
  decode = decode_htss_signature_share;
  decode-encode = λ p b h.
      let (same, written) =
        in_session p.signing_session_id (p.participant_id ∷ p.signature_share_bytes) h in
      ap decode_htss_signature_share (sym written)
      ∙ ap
          (λ (t : String). inr (record {
            participant_id = p.participant_id;
            signing_session_id = t;
            signature_share_bytes = p.signature_share_bytes;
          }))
          (sym same);
}

abbrev decode_nonce : Bytes → String ⊎ NoncePackage
decode_nonce [] = inl "empty"
decode_nonce (id ∷ bytes) =
    inr (record { participant_id = id; signing_session_id = "s"; public_nonce_bytes = bytes })

instance abbrev pub nonce_codec : Codec NoncePackage
nonce_codec = record {
  encode = λ p. when (is_s p.signing_session_id) (p.participant_id ∷ p.public_nonce_bytes);
  decode = decode_nonce;
  decode-encode = λ p b h.
      let (same, written) =
        in_session p.signing_session_id (p.participant_id ∷ p.public_nonce_bytes) h in
      ap decode_nonce (sym written)
      ∙ ap
          (λ (t : String). inr (record {
            participant_id = p.participant_id;
            signing_session_id = t;
            public_nonce_bytes = p.public_nonce_bytes;
          }))
          (sym same);
}

abbrev decode_round2 : Bytes → String ⊎ HtssDkgRound2Package
decode_round2 (sender ∷ recipient ∷ rank ∷ bytes) = inr (record {
  sender = sender;
  recipient = recipient;
  recipient_rank = rank;
  share_value_bytes = bytes;
})
decode_round2 bytes = inl "too short"

instance abbrev pub htss_round2_codec : Codec HtssDkgRound2Package
htss_round2_codec = record {
  encode = λ p. inr (p.sender ∷ p.recipient ∷ p.recipient_rank ∷ p.share_value_bytes);
  decode = decode_round2;
  decode-encode = λ p b h. ap decode_round2 (inr_injective (sym h));
}

abbrev decode_frost_round1 : Bytes → String ⊎ Round1Package
decode_frost_round1 [] = inl "empty"
decode_frost_round1 (id ∷ bytes) = inr (record { participant_id = id; bytes = bytes })

instance abbrev pub round1_codec : Codec Round1Package
round1_codec = record {
  encode = λ p. inr (p.participant_id ∷ p.bytes);
  decode = decode_frost_round1;
  decode-encode = λ p b h. ap decode_frost_round1 (inr_injective (sym h));
}

abbrev decode_frost_round2 : Bytes → String ⊎ Round2Package
decode_frost_round2 (sender ∷ recipient ∷ bytes) =
    inr (record { sender = sender; recipient = recipient; bytes = bytes })
decode_frost_round2 bytes = inl "too short"

instance abbrev pub round2_codec : Codec Round2Package
round2_codec = record {
  encode = λ p. inr (p.sender ∷ p.recipient ∷ p.bytes);
  decode = decode_frost_round2;
  decode-encode = λ p b h. ap decode_frost_round2 (inr_injective (sym h));
}

-- Packages without commitments.
abbrev decode_htss_round1 : Bytes → String ⊎ HtssDkgRound1Package
decode_htss_round1 (id ∷ rank ∷ []) =
    inr (record { participant_id = id; rank = rank; commitment_bytes = [] })
decode_htss_round1 bytes = inl "too short"

instance abbrev pub htss_round1_codec : Codec HtssDkgRound1Package
htss_round1_codec = record {
  encode = λ p. when (is_nil p.commitment_bytes) (p.participant_id ∷ p.rank ∷ []);
  decode = decode_htss_round1;
  decode-encode = λ p b h.
      let (none_there, written) =
        when-inr (is_nil p.commitment_bytes) (p.participant_id ∷ p.rank ∷ []) h in
      ap decode_htss_round1 (sym written)
      ∙ ap
          (λ (t : List Bytes).
            inr (record { participant_id = p.participant_id; rank = p.rank; commitment_bytes = t }))
          (sym (is_nil_sound p.commitment_bytes none_there));
}

-- Packages without a public nonce.
pub session_and_nonce :
    (t : String) (n : Bytes) → t ≡ "s" → n ≡ [] → ◌≡◌ {A = String × Bytes} ("s", []) (t, n)
session_and_nonce t n same none_there = cc

abbrev decode_signature_share : Bytes → String ⊎ SignatureSharePackage
decode_signature_share [] = inl "empty"
decode_signature_share (id ∷ bytes) = inr (record {
  participant_id = id;
  signing_session_id = "s";
  public_nonce_bytes = [];
  signature_share_bytes = bytes;
})

instance abbrev pub signature_share_codec : Codec SignatureSharePackage
signature_share_codec = record {
  encode = λ p.
      when (is_s p.signing_session_id && is_nil p.public_nonce_bytes)
        (p.participant_id ∷ p.signature_share_bytes);
  decode = decode_signature_share;
  decode-encode = λ p b h.
      let (tests, written) =
        when-inr (is_s p.signing_session_id && is_nil p.public_nonce_bytes)
          (p.participant_id ∷ p.signature_share_bytes) h in
      let (same, none_there) = both_hold (is_s p.signing_session_id) _ tests in
      ap decode_signature_share (sym written)
      ∙ ap
          (λ ((t, n) : String × Bytes). inr (record {
            participant_id = p.participant_id;
            signing_session_id = t;
            public_nonce_bytes = n;
            signature_share_bytes = p.signature_share_bytes;
          }))
          (session_and_nonce p.signing_session_id p.public_nonce_bytes
            ((str_eq_iff p.signing_session_id "s").0 same)
            (is_nil_sound p.public_nonce_bytes none_there));
}
