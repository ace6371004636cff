-- ===== src/Examples/Sessions.antt =====
-- FROST sessions over a small stand-in for the library.
use dkgkit.Prelude.{
  ℕ, ◌+◌, ◌≤◌, ◌≡◌, refl, sym, ap, ◌∙◌, ◌⊎◌, inl, inr, ◌↔◌, [], ◌∷◌, String, Option, some, none,
  arith, length, All, IsDistinct,
}
use dkgkit.Core.Error.{DkgKitError, ok, err}
use dkgkit.Scalar.{Bytes}
use dkgkit.Scalar.Five.{Five, f0, five}
use dkgkit.Htss.{GroupKey}
use dkgkit.Htss.Keys.{bytes_eq}
use dkgkit.Messages.{Codec, encode_binary, decode_binary}
use dkgkit.Messages.Frost.{Round1Package, NoncePackage}
use dkgkit.Frost.{Schnorr, DkgSessionConfig, LocalKeyShare, SigningRequest, group_key_eq}
use dkgkit.Frost.Dkg.{FrostDkgSession, validate_round1_set, round2}
use dkgkit.Frost.Signing.{
  new_signing_session, start_nonce, nonce, check_signer, finish_share, sign_share, nonces_loop,
  nonces_to_map, insert_entry,
}
use dkgkit.Frost.Nonces.{
  Runs, started, nonce_called, sign_share_called, held, signing_session-bound,
}
use dkgkit.Examples.Codecs.{inr_injective}
use dkgkit.Frost.Rounds.{senders, validate_round1_set-ok_iff, round2-out_of_range}

abbrev unit_codec : Codec (Unit {0})
unit_codec = record { encode = λ u. inr []; decode = λ b. inr tt; decode-encode = λ u b h. refl }

abbrev scalar_of : Option Five → String ⊎ Five
scalar_of none = inl "no scalar"
scalar_of (some s) = inr s

scalar_decode :
    (a : Five) (b : Bytes)
    → ◌≡◌ {A = String ⊎ Bytes} (inr (five.to_bytes a)) (inr b)
    → scalar_of (five.from_bytes b) ≡ inr a
scalar_decode a b h =
    ap (λ t. scalar_of (five.from_bytes t)) (inr_injective (sym h))
    ∙ ap scalar_of (five.from_bytes-to_bytes a)

abbrev five_codec : Codec Five
five_codec = record {
  encode = λ s. inr (five.to_bytes s);
  decode = λ b. scalar_of (five.from_bytes b);
  decode-encode = scalar_decode;
}

-- Every object of the library is a unit, and every call succeeds.
abbrev stand_in : Schnorr Five
stand_in = record {
  Rng = Unit;
  KeygenInput = Unit;
  Coordinator = Unit;
  AggKeygenInput = Unit;
  SecretShare = Unit;
  PairedSecretShare = Unit;
  SharedKey = Unit;
  EvenPairedShare = Unit;
  EvenSharedKey = Unit;
  NonceKeyPair = Unit;
  Nonce = Unit;
  CoordinatorSession = Unit;
  Signature = Unit;
  keygen_input_codec = unit_codec;
  scalar_codec = five_codec;
  paired_share_codec = unit_codec;
  shared_key_codec = unit_codec;
  nonce_codec = unit_codec;
  signature_codec = unit_codec;
  gen_keygen_input = λ t indices own rng. (tt, []);
  new_coordinator = λ t n. tt;
  add_input = λ i input c. inr tt;
  finish = λ c. some tt;
  collect_secret_inputs = λ i ss. tt;
  receive_secret_share = λ a s. inr tt;
  shared_key = λ a. tt;
  even_paired_share = λ p. some tt;
  even_shared_key = λ k. some tt;
  xonly_public_key = λ k. [];
  gen_nonce = λ p s rng. tt;
  public_nonce = λ n. tt;
  coordinator_sign_session = λ k ns m. tt;
  party_sign = λ k c m p n. f0;
  verify_and_combine = λ c k ss. inr tt;
}

abbrev no_key : GroupKey
no_key = record { xonly_public_key = []; verification_key_bytes = [] }

abbrev request : SigningRequest
request = record { session_id = "s"; group_key = no_key; message_digest = []; signer_set = 1 ∷ [] }

abbrev local_share : LocalKeyShare
local_share = record { participant_id = 1; group_key = no_key; secret_share_bytes = [] }

abbrev own_nonce : NoncePackage
own_nonce = record { participant_id = 1; signing_session_id = "s"; public_nonce_bytes = [] }

-- One nonce, one share, and a second attempt without a nonce.
one_share :
    Runs stand_in (new_signing_session stand_in request) 1 1 (new_signing_session stand_in request)
unfolding nonce start_nonce group_key_eq bytes_eq encode_binary decode_binary sign_share
    check_signer finish_share nonces_to_map nonces_loop insert_entry
one_share =
    sign_share_called local_share (own_nonce ∷ [])
      (sign_share_called local_share (own_nonce ∷ []) (nonce_called tt local_share started))

signing_session-bound_example : 1 + held stand_in (new_signing_session stand_in request) ≤ 1
signing_session-bound_example =
    signing_session-bound stand_in request 1 1 (new_signing_session stand_in request) one_share

abbrev config : DkgSessionConfig
config = record {
  session_id = "s";
  threshold = record { threshold = 1; participants = 2 };
  participant_id = 3;
}

abbrev from : ℕ → Round1Package
from id = record { participant_id = id; bytes = [] }

validate_round1_set-ok_iff_example : (validate_round1_set config (from 2 ∷ from 1 ∷ []) ≡ ok tt) ↔ (
    (length (from 2 ∷ from 1 ∷ []) ≡ 2)
    × All (λ p. p.participant_id ≤ 2) (from 2 ∷ from 1 ∷ [])
    × IsDistinct (senders (from 2 ∷ from 1 ∷ [])))
validate_round1_set-ok_iff_example = validate_round1_set-ok_iff config (from 2 ∷ from 1 ∷ [])

abbrev three : FrostDkgSession
three = record { config = config; runtime = none }

round2-out_of_range_example :
    (e : DkgKitError) × ((round2 stand_in (from 3 ∷ from 1 ∷ []) three).0 ≡ err e)
round2-out_of_range_example =
    round2-out_of_range stand_in three (from 3 ∷ from 1 ∷ []) (omega arith) refl
