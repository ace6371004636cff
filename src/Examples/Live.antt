-- ===== src/Examples/Live.antt =====
-- The relay transport with one message, over keys that are numbers.
use Prim.Native.Char.{nul}
use Prim.Native.String.{[] as empty, ◌∷◌ as add_char}
use dkgkit.Prelude.{
  ℕ, suc, zero, ◌≡◌, refl, sym, ap, ◌⊎◌, inl, inr, List, [], ◌∷◌, String, some, ◌==◌, arith,
}
use dkgkit.Core.Message.{as_str, is_for}
use dkgkit.Messages.{kind_eq}
use dkgkit.Nostr.{from_protocol_message}
use dkgkit.Nostr.Live.{
  NostrSdk, LiveNostrTransportConfig, handle_inbound_event, build_event_tags, is_secret_kind,
  get_pubkey, send_to, outgoing,
}
use dkgkit.Nostr.Relayed.{event_of}
use dkgkit.Nostr.Delivered.{handle_inbound_event-outgoing}
use dkgkit.Examples.Relay.{message, message_codec, utf8, event, proper}

-- A number as so many characters.
unary : ℕ → String
unary zero = empty
unary (suc n) = add_char nul (unary n)

read_unary : String → ℕ
read_unary empty = zero
read_unary (add_char c s) = suc (read_unary s)

read_unary-unary : (n : ℕ) → read_unary (unary n) ≡ n
unfolding unary read_unary
read_unary-unary zero = refl
read_unary-unary (suc n) = ap suc (read_unary-unary n)

-- A ciphertext has one character more than its plaintext.
abbrev strip : String → String ⊎ String
strip empty = inl "no ciphertext"
strip (add_char c s) = inr s

abbrev strip_result : String ⊎ String → String ⊎ String
strip_result (inl e) = inl e
strip_result (inr c) = strip c

abbrev toy_sdk : NostrSdk
toy_sdk = record {
  Keys = ℕ;
  PublicKey = ℕ;
  EventId = ℕ;
  same_id = ◌==◌;
  public_key = λ k. k;
  to_hex = unary;
  hashtag = λ s. s;
  encrypt = λ sender receiver plaintext. inr (add_char nul plaintext);
  decrypt = λ receiver sender ciphertext. strip ciphertext;
  to_string = unary;
  parse_u16 = λ s. inr (read_unary s);
  decrypt-encrypt = λ sender receiver plaintext ciphertext made. ap strip_result (sym made);
  parse_u16-to_string = λ n small. ap (λ k. inr k) (read_unary-unary n);
}

-- Participant 1 has the key 10, participant 2 the key 20.
abbrev config : LiveNostrTransportConfig toy_sdk
config = record {
  vault_tag = "vault";
  self_id = 1;
  keys = 10;
  directory = record { by_participant = (1, 10) ∷ (2, 20) ∷ [] };
}

abbrev sent_tags : List (List String)
sent_tags = build_event_tags toy_sdk event "vault" (some 20)

handle_inbound_event-outgoing_example :
    handle_inbound_event toy_sdk 20 2
      (event_of toy_sdk 7 10 sent_tags (add_char nul ""))
      (6 ∷ [], [])
    ≡ (7 ∷ 6 ∷ [], message ∷ [])
unfolding outgoing send_to is_secret_kind get_pubkey is_for from_protocol_message as_str kind_eq
handle_inbound_event-outgoing_example =
    handle_inbound_event-outgoing toy_sdk config 20 2 message (add_char nul "") sent_tags 7 (6 ∷ [])
      [] proper (omega arith) (omega arith) refl refl refl refl
