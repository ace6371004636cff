-- ===== src/Nostr/Live.antt =====
-- crates/dkgkit-nostr/src/live.rs: what the relay transport does with its messages. The keys, the
-- encryption, the relay thread and the printing of numbers are an interface.
pub mod Service
use Prim.Native.String.{◌++◌ as append_text}
use dkgkit.Prelude.{
  ℕ, ◌≤◌, ◌≡◌, ◌⊎◌, inl, inr, Bool, true, false, ◌&&◌, not, List, [], ◌∷◌, ◌++◌, String, Option,
  none, some, ◌==◌, str_eq, if◌then◌else◌, any, find_last, length,
}
use dkgkit.Core.Error.{num, protocol, transport, Result, ok, err, ◌>>=◌, ◌>>◌, fail_if, ok_or}
use dkgkit.Core.Ids.{ParticipantId, SessionId}
use dkgkit.Core.Message.{
  ProtocolMessage, ProtocolMessageKind, frost_dkg_round2, htss_dkg_round2, is_for,
}
use dkgkit.Frost.Dkg.{or_protocol}
use dkgkit.Messages.{Codec}
use dkgkit.Nostr.{
  Utf8, NostrEnvelopeEvent, dkgkit_nostr_event_kind, dkgkit_nostr_app_tag, tags,
  from_protocol_message, to_protocol_message,
}
use dkgkit.Transport.{retain_loop}

-- What the code uses of `nostr-sdk` and of numbers as text. A ciphertext is read with the key that it
-- was made for.
pub record NostrSdk : Type 1 where
  pub Keys : Type 0
  pub PublicKey : Type 0
  pub EventId : Type 0
  pub same_id : EventId → EventId → Bool
  pub public_key : Keys → PublicKey
  pub to_hex : PublicKey → String
  pub hashtag : String → String
  pub encrypt : Keys → PublicKey → String → String ⊎ String
  pub decrypt : Keys → PublicKey → String → String ⊎ String
  pub to_string : ℕ → String
  pub parse_u16 : String → String ⊎ ℕ
  pub decrypt-encrypt :
      (sender receiver : Keys) (plaintext ciphertext : String)
      → encrypt sender (public_key receiver) plaintext ≡ inr ciphertext
      → decrypt receiver (public_key sender) ciphertext ≡ inr plaintext
  pub parse_u16-to_string : (n : ℕ) → n ≤ 65535 → parse_u16 (to_string n) ≡ inr n

abbrev pub vault_hashtag : String → String
vault_hashtag vault_tag = append_text "dkgkit:" vault_tag

-- The second text of a tag with the key.
abbrev pub tag_text : String → List String → Option String
tag_text key [] = none
tag_text key (a ∷ []) = none
tag_text key (a ∷ b ∷ more) = if str_eq a key then some b else none

unfoldable pub find_tag : List (List String) → String → Option String
find_tag [] key = none
find_tag (tag ∷ rest) key = elim (tag_text key tag) [
  | none ↦ find_tag rest key
  | some value ↦ some value
]

abbrev pub is_text : String → Option String → Bool
is_text expected none = false
is_text expected (some value) = str_eq value expected

abbrev pub is_some {ℓ} : {A : Type ℓ} → Option A → Bool
is_some none = false
is_some (some a) = true

unfoldable pub is_secret_kind : ProtocolMessageKind → Bool
is_secret_kind frost_dkg_round2 = true
is_secret_kind htss_dkg_round2 = true
is_secret_kind kind = false

module _ (N : NostrSdk) where
  pub record Event : Type 0 where
    pub id : N.EventId
    pub pubkey : N.PublicKey
    pub event_tags : List (List String)
    pub content : String

  abbrev pub tag_value : Event → String → Option String
  tag_value event key = find_tag event.event_tags key

  abbrev pub has_encrypted_marker : Event → Bool
  has_encrypted_marker event = is_text "nip44" (tag_value event "encrypted")

  unfoldable pub build_event_tags :
      NostrEnvelopeEvent → String → Option N.PublicKey → List (List String)
  unfolding tags
  build_event_tags envelope vault_tag encrypted_recipient =
      (tags N.to_string envelope ++ ("t" ∷ N.hashtag (vault_hashtag vault_tag) ∷ []) ∷ [])
      ++ elim encrypted_recipient [
        | none ↦ []
        | some recipient ↦ ("p" ∷ N.to_hex recipient ∷ []) ∷ ("encrypted" ∷ "nip44" ∷ []) ∷ []
      ]

  -- An optional tag that is a number.
  abbrev pub parse_recipient : Option String → Result (Option ℕ)
  parse_recipient none = ok none
  parse_recipient (some value) =
      or_protocol "bad recipient tag: {}" (N.parse_u16 value) >>= λ recipient. ok (some recipient)

  abbrev pub or_app_tag : Option String → String
  or_app_tag none = dkgkit_nostr_app_tag
  or_app_tag (some app) = app

  unfoldable pub envelope_from_event : String → Event → Result NostrEnvelopeEvent
  unfolding find_tag
  envelope_from_event content event = do
    session_id ← ok_or (tag_value event "session") (protocol "missing session tag" [])
    sender_tag ← ok_or (tag_value event "sender") (protocol "missing sender tag" [])
    sender ← or_protocol "bad sender tag: {}" (N.parse_u16 sender_tag)
    recipient ← parse_recipient (tag_value event "recipient")
    message_kind ← ok_or (tag_value event "message_kind") (protocol "missing message_kind tag" [])
    ok (record {
      kind = dkgkit_nostr_event_kind;
      app = or_app_tag (tag_value event "app");
      session_id = session_id;
      sender = sender;
      recipient = recipient;
      message_kind = message_kind;
      content = content;
    })

  pub record ParticipantDirectory : Type 0 where
    pub by_participant : List (ParticipantId × N.PublicKey)

  abbrev pub insert_pubkey :
      ParticipantId → N.PublicKey → ParticipantDirectory → ParticipantDirectory
  insert_pubkey id pubkey d = record { by_participant = d.by_participant ++ (id, pubkey) ∷ [] }

  unfoldable pub get_pubkey : ParticipantDirectory → ParticipantId → Option N.PublicKey
  get_pubkey d id = elim (find_last (λ e. e.0 == id) d.by_participant) [
    | none ↦ none
    | some e ↦ some e.1
  ]

  -- Without the relays and the times to wait.
  pub record LiveNostrTransportConfig : Type 0 where
    pub vault_tag : String
    pub self_id : ParticipantId
    pub keys : N.Keys
    pub directory : ParticipantDirectory

  -- Whether a tag names no recipient or the participant.
  abbrev pub is_addressed : ParticipantId → Option String → Bool
  is_addressed id none = true
  is_addressed id (some value) = elim (N.parse_u16 value) [ inl e ↦ false | inr n ↦ n == id ]

  -- The content, decrypted if it is marked.
  abbrev pub open_content : N.Keys → Event → String ⊎ String
  open_content keys event =
      if has_encrypted_marker event
      then N.decrypt keys event.pubkey event.content
      else inr event.content

  module _ ⦃J : Codec ProtocolMessage⦄ ⦃U : Utf8⦄ where
    -- The message that an event carries for a participant, if any.
    unfoldable pub read_event : N.Keys → ParticipantId → Event → Option ProtocolMessage
    unfolding envelope_from_event to_protocol_message find_tag
    read_event keys self_id event =
        if is_text dkgkit_nostr_app_tag (tag_value event "app")
          && is_addressed self_id (tag_value event "recipient")
        then elim (open_content keys event) [
          | inl e ↦ none
          | inr content ↦ elim (envelope_from_event content event >>= to_protocol_message) [
            | err e ↦ none
            | ok message ↦ some message
          ]
        ]
        else none

    -- The state is the ids that were seen and the messages that wait.
    unfoldable pub handle_inbound_event :
        N.Keys
        → ParticipantId
        → Event
        → List N.EventId × List ProtocolMessage
        → List N.EventId × List ProtocolMessage
    unfolding read_event
    handle_inbound_event keys self_id event (seen, inbound) =
        if any (N.same_id event.id) seen then (seen, inbound) else (
          event.id ∷ seen,
          elim (read_event keys self_id event) [
            | none ↦ inbound
            | some message ↦ inbound ++ message ∷ []
          ],
        )

    -- The content and the tags of an envelope: encrypted for the recipient of a secret kind.
    unfoldable pub send_to :
        LiveNostrTransportConfig
        → ProtocolMessageKind
        → NostrEnvelopeEvent
        → Option ParticipantId
        → Result (String × List (List String))
    unfolding is_secret_kind get_pubkey build_event_tags
    send_to cfg kind envelope none =
        ok (envelope.content, build_event_tags envelope cfg.vault_tag none)
    send_to cfg kind envelope (some recipient_id) =
        if is_secret_kind kind
        then (ok_or (get_pubkey cfg.directory recipient_id)
              (transport "no directory pubkey for participant {}" (num recipient_id ∷ []))
            >>= λ recipient_pk.
                or_protocol "nip44 encrypt failed: {}"
                  (N.encrypt cfg.keys recipient_pk envelope.content)
                >>= λ ciphertext.
                    ok (ciphertext, build_event_tags envelope cfg.vault_tag (some recipient_pk)))
        else ok (envelope.content, build_event_tags envelope cfg.vault_tag none)

    -- The content and the tags that `publish` hands to the relay thread.
    unfoldable pub outgoing :
        LiveNostrTransportConfig → ProtocolMessage → Result (String × List (List String))
    unfolding from_protocol_message send_to
    outgoing cfg message = from_protocol_message message >>= λ envelope.
        send_to cfg message.kind envelope message.recipient
