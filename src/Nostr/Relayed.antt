-- ===== src/Nostr/Relayed.antt =====
-- crates/dkgkit-nostr/src/live.rs: what one participant publishes, another one reads.
use dkgkit.Prelude.{
  ℕ, ◌≤◌, ◌≡◌, refl, sym, ap, ◌∙◌, ◌⊎◌, inl, inr, true, List, [], ◌∷◌, String, Option, none, some,
  Bool-cases,
}
use dkgkit.Core.Error.{DkgKitError, text, protocol, Result, ok, err}
use dkgkit.Core.Ids.{ParticipantId}
use dkgkit.Core.Message.{ProtocolMessage, as_str}
use dkgkit.Messages.{Codec}
use dkgkit.Messages.Checks.{ok_injective}
use dkgkit.Nostr.{
  Utf8, NostrEnvelopeEvent, dkgkit_nostr_event_kind, dkgkit_nostr_app_tag, tags,
  to_protocol_message,
}
use dkgkit.Nostr.Live.{
  NostrSdk, find_tag, is_some, is_secret_kind, Event, tag_value, has_encrypted_marker,
  build_event_tags, parse_recipient, envelope_from_event, get_pubkey, send_to,
  LiveNostrTransportConfig, is_addressed, open_content, read_event,
}

-- The envelope of a message with a content.
abbrev pub envelope_of : ProtocolMessage → Option ℕ → String → NostrEnvelopeEvent
envelope_of m recipient content = record {
  kind = dkgkit_nostr_event_kind;
  app = dkgkit_nostr_app_tag;
  session_id = m.session_id;
  sender = m.sender;
  recipient = recipient;
  message_kind = as_str m.kind;
  content = content;
}

sum-cases : (x : String ⊎ String) → ((e : String) × (x ≡ inl e)) ⊎ ((c : String) × (x ≡ inr c))
sum-cases (inl e) = inl (e, refl)
sum-cases (inr c) = inr (c, refl)

err-ok {ℓ} : {A : Type ℓ} {e : DkgKitError} {a : A} → ¬ (◌≡◌ {A = Result A} (err e) (ok a))
err-ok h = cc

module _ (N : NostrSdk) where
  -- The event of an envelope, with its content as it is sent.
  abbrev pub event_of : N.EventId → N.PublicKey → List (List String) → String → Event N
  event_of id pubkey event_tags content = record {
    id = id;
    pubkey = pubkey;
    event_tags = event_tags;
    content = content;
  }

  module _ (m : ProtocolMessage) (vault plain sent : String) (id : N.EventId)
      (pk : N.PublicKey) where
    abbrev pub sent_event : Option ℕ → Option N.PublicKey → Event N
    sent_event recipient to =
        event_of id pk (build_event_tags N (envelope_of m recipient plain) vault to) sent

    marker-sent :
        (recipient : Option ℕ) (to : Option N.PublicKey)
        → has_encrypted_marker N (sent_event recipient to) ≡ is_some to
    unfolding build_event_tags tags find_tag
    marker-sent none none = refl
    marker-sent none (some k) = refl
    marker-sent (some r) none = refl
    marker-sent (some r) (some k) = refl

    app-sent :
        (recipient : Option ℕ) (to : Option N.PublicKey)
        → tag_value N (sent_event recipient to) "app" ≡ some dkgkit_nostr_app_tag
    unfolding build_event_tags tags find_tag
    app-sent recipient to = refl

    pub recipient-none :
        (to : Option N.PublicKey) → tag_value N (sent_event none to) "recipient" ≡ none
    unfolding build_event_tags tags find_tag
    recipient-none none = refl
    recipient-none (some k) = refl

    pub recipient-some :
        (r : ℕ) (to : Option N.PublicKey)
        → tag_value N (sent_event (some r) to) "recipient" ≡ some (N.to_string r)
    unfolding build_event_tags tags find_tag
    recipient-some r none = refl
    recipient-some r (some k) = refl

    envelope-sent :
        (recipient : Option ℕ) (to : Option N.PublicKey)
        → m.sender ≤ 65535
        → parse_recipient N (tag_value N (sent_event recipient to) "recipient") ≡ ok recipient
        → envelope_from_event N plain (sent_event recipient to) ≡ ok (envelope_of m recipient plain)
    unfolding envelope_from_event build_event_tags tags find_tag
    envelope-sent recipient to small parsed = rw (N.parse_u16-to_string m.sender small) (rw parsed)

    module _ ⦃J : Codec ProtocolMessage⦄ ⦃U : Utf8⦄ where
      pub read-sent :
          (keys : N.Keys) (self_id : ParticipantId) (recipient : Option ℕ) (to : Option N.PublicKey)
          → m.sender ≤ 65535
          → parse_recipient N (tag_value N (sent_event recipient to) "recipient") ≡ ok recipient
          → is_addressed N self_id (tag_value N (sent_event recipient to) "recipient") ≡ true
          → open_content N keys (sent_event recipient to) ≡ inr plain
          → to_protocol_message (envelope_of m recipient plain) ≡ ok m
          → read_event N keys self_id (sent_event recipient to) ≡ some m
      unfolding read_event
      read-sent keys self_id recipient to small parsed addressed opened read =
          rw (app-sent recipient to)
            (rw addressed (rw opened (rw (envelope-sent recipient to small parsed) (rw read))))

  module _ ⦃J : Codec ProtocolMessage⦄ ⦃U : Utf8⦄ (cfg : LiveNostrTransportConfig N)
      (receiver : N.Keys) (m : ProtocolMessage) (plain sent : String) (id : N.EventId)
      (event_tags : List (List String)) where
    abbrev pub relayed : Option ℕ → Option N.PublicKey → Event N
    relayed recipient to =
        sent_event m cfg.vault_tag plain sent id (N.public_key cfg.keys) recipient to

    abbrev pub tags_to : Option ℕ → Option N.PublicKey → List (List String)
    tags_to recipient to = build_event_tags N (envelope_of m recipient plain) cfg.vault_tag to

    -- The event that `send_to` makes is opened to the content of the envelope.
    abbrev pub IsOpened : Option ℕ → Type 0
    IsOpened recipient =
        (to : Option N.PublicKey) × (event_tags ≡ tags_to recipient to)
        × (open_content N receiver (relayed recipient to) ≡ inr plain)

    open-plain :
        (recipient : Option ℕ)
        → send_to N cfg m.kind (envelope_of m recipient plain) recipient
          ≡ ok (plain, tags_to recipient none)
        → send_to N cfg m.kind (envelope_of m recipient plain) recipient ≡ ok (sent, event_tags)
        → IsOpened recipient
    open-plain recipient made h =
        let same = ok_injective (sym made ∙ h) in
        (
          none,
          sym (ap (λ r. r.1) same),
          rw (marker-sent m cfg.vault_tag plain sent id (N.public_key cfg.keys) recipient none)
              (ap (λ (r : String × List (List String)). inr r.0) (sym same)),
        )

    pub open-send_to :
        (recipient : Option ℕ)
        → ((r : ℕ)
            → recipient ≡ some r
            → get_pubkey N cfg.directory r ≡ some (N.public_key receiver))
        → send_to N cfg m.kind (envelope_of m recipient plain) recipient ≡ ok (sent, event_tags)
        → IsOpened recipient
    unfolding send_to
    open-send_to none known h = open-plain none refl h
    open-send_to (some r) known h = elim (Bool-cases (is_secret_kind m.kind)) [
      | inr e ↦ open-plain (some r) (rw (e, send_to)) h
      | inl e ↦ elim (sum-cases (N.encrypt cfg.keys (N.public_key receiver) plain)) [
        | inl (x, failed) ↦
            let made : send_to N cfg m.kind (envelope_of m (some r) plain) (some r)
                ≡ err (protocol "nip44 encrypt failed: {}" (text x ∷ [])) =
              rw (e, send_to) (rw (known r refl) (rw failed)) in
            absurd (err-ok (sym made ∙ h))
        | inr (c, encrypted) ↦
            let made : send_to N cfg m.kind (envelope_of m (some r) plain) (some r)
                ≡ ok (c, tags_to (some r) (some (N.public_key receiver))) =
              rw (e, send_to) (rw (known r refl) (rw encrypted)) in
            let same = ok_injective (sym made ∙ h) in
            (
              some (N.public_key receiver),
              sym (ap (λ t. t.1) same),
              rw
                  (marker-sent m cfg.vault_tag plain sent id (N.public_key cfg.keys) (some r)
                    (some (N.public_key receiver)))
                  (ap (N.decrypt receiver (N.public_key cfg.keys)) (sym (ap (λ t. t.0) same))
                    ∙ N.decrypt-encrypt cfg.keys receiver plain c encrypted),
            )
      ]
    ]
