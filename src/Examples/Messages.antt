-- ===== src/Examples/Messages.antt =====
-- Sessions, messages and their transport.
use dkgkit.Core.Error.{ok}
use dkgkit.Core.Ids.{Participant}
use dkgkit.Core.Session.{SessionConfig, new_session_config}
use dkgkit.Core.Session.Accepted.{IsSession, new_session_config-ok_iff}
use dkgkit.Prelude.{◌↔◌, none, ◌≡◌, refl, Bool, true, List, [], ◌∷◌}
use dkgkit.Core.Message.{
  ProtocolMessage, custom, as_str, kind_from, broadcast, direct, is_for, session_manifest,
}
use dkgkit.Core.Message.Kinds.{is_shadowed, kind_from-as_str}
use dkgkit.Transport.{MemoryTransport, drain_matching}
use dkgkit.Transport.Drain.{IsDrain, is_taken, drain_matching-IsDrain}

chat_is_free : is_shadowed (custom "chat") ≡ Bool.false
unfolding is_shadowed
chat_is_free = refl

kind_from-as_str_example : kind_from (as_str (custom "chat")) ≡ custom "chat"
kind_from-as_str_example = kind_from-as_str (custom "chat") chat_is_free

-- A message to all of session "a", one to participant 2, one of session "b".
abbrev mail : MemoryTransport
mail = record {
  connected = true;
  messages =
      broadcast "a" 1 session_manifest (7 ∷ [])
      ∷ direct "a" 1 2 (custom "chat") []
      ∷ broadcast "b" 3 session_manifest []
      ∷ [];
}

abbrev for_two : ProtocolMessage → Bool
for_two m = is_for m 2

drain_matching-IsDrain_example :
    IsDrain
      (is_taken "a" for_two)
      mail.messages
      (drain_matching "a" for_two mail).0
      ((drain_matching "a" for_two mail).1).messages
    × (((drain_matching "a" for_two mail).1).connected ≡ true)
drain_matching-IsDrain_example = drain_matching-IsDrain "a" for_two mail

abbrev signers : List Participant
signers = record { id = 2; label = none } ∷ record { id = 1; label = none } ∷ []

abbrev session : SessionConfig
session = record {
  session_id = "demo";
  threshold = record { threshold = 1; participants = 2 };
  participants = signers;
}

new_session_config-ok_iff_example : (new_session_config "demo" 1 2 signers ≡ ok session) ↔ (
    (session ≡ record {
      session_id = "demo";
      threshold = record { threshold = 1; participants = 2 };
      participants = signers;
    })
    × IsSession "demo" 1 2 signers)
new_session_config-ok_iff_example = new_session_config-ok_iff "demo" 1 2 signers session
