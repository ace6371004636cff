-- ===== src/Htss/Honest.antt =====
-- crates/dkgkit-frost/src/lib.rs: signers that follow HTSS signing. A seat is a signer with its
-- point, its nonce and its interpolation coefficient.
pub mod Nonces
pub mod Shares
pub mod Signing
pub mod Signature
pub mod Seats
pub mod Local
pub mod Complete
pub mod Success
use mathlib.Core.List.{map-map}
use dkgkit.Prelude.{
  suc, ◌≡◌, refl, sym, ap, subst, ◌∙◌, Bool, true, false, ◌||◌, List, [], ◌∷◌, map, none, arith,
  ◌==◌, ==_refl, length, All, contains, IsDistinct,
}
use dkgkit.Core.Error.{Result, ok}
use dkgkit.Core.Ids.{ParticipantId, SessionId}
use dkgkit.Scalar.{Bytes, Field}
use dkgkit.Scalar.Signs.{total}
use dkgkit.Birkhoff.{BirkhoffPoint}
use dkgkit.Birkhoff.Interpolation.{observed}
use dkgkit.Curve.{Curve}
use dkgkit.Htss.{HtssLocalKeyShare}
use dkgkit.Htss.Nonces.{HtssNoncePackage, HtssLocalNonce, Sender}
use dkgkit.Htss.Senders.{Agree, senders_of, IsPackageSet}

pub record Seat (S : Type 0) : Type 0 where
  pub point : BirkhoffPoint
  pub nonce : S
  pub weight : S

abbrev pub seat_id : {S : Type 0} → Seat S → ParticipantId
seat_id s = (s.point).participant_id

abbrev pub ids_of : {S : Type 0} → List (Seat S) → List ParticipantId
ids_of = map seat_id

module _ {S : Type 0} ⦃F : Field S⦄ where
  -- The share of a polynomial at a point.
  abbrev pub share_at : List S → BirkhoffPoint → HtssLocalKeyShare
  share_at f p = record {
    participant_id = p.participant_id;
    rank = p.derivative_order;
    share_value_bytes = F.to_bytes (observed f p);
  }

  -- The sum of the secret nonces.
  abbrev pub nonce_sum : List (Seat S) → S
  nonce_sum seats = total (map (λ s. s.nonce) seats)

-- Every id is in its own list.
All-weaken {ℓ κ} :
    {A : Type ℓ} (P Q : A → Type κ) (xs : List A) → ((x : A) → P x → Q x) → All P xs → All Q xs
All-weaken P Q [] h a = tt
All-weaken P Q (x ∷ xs) h a = (h x a.0, All-weaken P Q xs h a.1)

contains-cons :
    (xs : List ParticipantId) (y x : ParticipantId)
    → contains xs x ≡ true
    → contains (y ∷ xs) x ≡ true
contains-cons xs y x h = ground arith

pub All-contains : (xs : List ParticipantId) → All (λ x. contains xs x ≡ true) xs
All-contains [] = tt
All-contains (x ∷ xs) = (
  ground (arith, ==_refl x),
  All-weaken (λ z. contains xs z ≡ true) (λ z. contains (x ∷ xs) z ≡ true) xs (contains-cons xs x)
      (All-contains xs),
)

-- The senders of a session, one for each id.
abbrev pub all_in : SessionId → List ParticipantId → List Sender
all_in session = map (λ i. (i, session))

All-all_in :
    (session : SessionId) (P : ParticipantId → Type 0) (ids : List ParticipantId)
    → All P ids
    → All (λ s. P s.0) (all_in session ids)
All-all_in session P [] a = tt
All-all_in session P (i ∷ ids) a = (a.0, All-all_in session P ids a.1)

Agree-all_in :
    (session : SessionId) (ids : List ParticipantId) → All (λ s. session ≡ s.1) (all_in session ids)
Agree-all_in session [] = tt
Agree-all_in session (i ∷ ids) = (refl, Agree-all_in session ids)

all_in-Agree : (session : SessionId) (ids : List ParticipantId) → Agree none (all_in session ids)
all_in-Agree session [] = tt
all_in-Agree session (i ∷ ids) = Agree-all_in session ids

length-all_in :
    (session : SessionId) (ids : List ParticipantId) → length (all_in session ids) ≡ length ids
length-all_in session [] = refl
length-all_in session (i ∷ ids) = ap suc (length-all_in session ids)

senders_of-all_in :
    (session : SessionId) (ids : List ParticipantId) → senders_of (all_in session ids) ≡ ids
senders_of-all_in session [] = refl
senders_of-all_in session (i ∷ ids) = ap (λ t. i ∷ t) (senders_of-all_in session ids)

pub all_in-IsPackageSet :
    (session : SessionId) (ids : List ParticipantId)
    → IsDistinct ids
    → IsPackageSet ids (all_in session ids)
all_in-IsPackageSet session ids distinct = record {
  members = All-all_in session (λ i. contains ids i ≡ true) ids (All-contains ids);
  distinct = subst IsDistinct (sym (senders_of-all_in session ids)) distinct;
  one_session = all_in-Agree session ids;
  complete = length-all_in session ids;
}
