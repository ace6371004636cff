-- ===== src/Htss/Honest/Shares.antt =====
-- crates/dkgkit-frost/src/lib.rs: the signature shares of honest signers and their sum.
use dkgkit.Prelude.{
  ℕ, ◌≡◌, refl, sym, ap, subst, ◌∙◌, Bool, true, false, List, [], ◌∷◌, map, All, IsDistinct, some,
  find, ◌==◌, ==_refl, ==_iff, contains, arith, Bool-cases, inl, inr, length,
}
use dkgkit.Core.Error.{Result, ok, collect}
use dkgkit.Core.Ids.{ParticipantId, SessionId}
use dkgkit.Scalar.{Field, ◌⊕◌, ◌⊗◌, scalar_zero}
use dkgkit.Scalar.Laws.{add-zero}
use dkgkit.Scalar.Sum.{sum}
use dkgkit.Scalar.Signs.{signed, total, total-signed, total-add, mul-total}
use dkgkit.Birkhoff.{BirkhoffCoefficient}
use dkgkit.Birkhoff.Solver.{at}
use dkgkit.Birkhoff.Coefficients.{point}
use dkgkit.Birkhoff.Interpolation.{observed}
use dkgkit.Curve.{Curve}
use dkgkit.Htss.Nonces.{HtssSignatureSharePackage, validate_htss_signature_share_set}
use dkgkit.Htss.Senders.{IsPackageSet, validate_htss_signature_share_set-ok_iff}
use dkgkit.Htss.Sign.{sum_shares, answer}
use dkgkit.Htss.Honest.{
  Seat, seat_id, ids_of, nonce_sum, share_at, all_in, all_in-IsPackageSet, All-contains,
}
use dkgkit.Htss.Honest.Nonces.{local_nonce}

-- A `collect` that succeeds everywhere.
pub collect-map {ℓ κ μ} :
    {A : Type ℓ} {X : Type κ} {Y : Type μ} (k : X → Result Y) (g : A → X) (h : A → Y) (xs : List A)
    → All (λ a. k (g a) ≡ ok (h a)) xs
    → collect k (map g xs) ≡ ok (map h xs)
collect-map k g h [] a = refl
collect-map k g h (x ∷ xs) a = rw a.0 (rw (collect-map k g h xs a.1))

pub All-both {ℓ κ μ ν} :
    {A : Type ℓ} (P : A → Type κ) (Q : A → Type μ) (R : A → Type ν) (xs : List A)
    → ((x : A) → P x → Q x → R x)
    → All P xs
    → All Q xs
    → All R xs
All-both P Q R [] h a b = tt
All-both P Q R (x ∷ xs) h a b = (h x a.0 b.0, All-both P Q R xs h a.1 b.1)

-- Members and strangers of a list differ.
member-stranger :
    (xs : List ℕ) (x y : ℕ) → contains xs x ≡ false → contains xs y ≡ true → (x == y) ≡ false
member-stranger xs x y absent present = elim (Bool-cases (x == y)) [
  | inl e ↦ absurd (ground (arith, ap (contains xs) ((==_iff x y).0 e)))
  | inr e ↦ e
]

module _ {S : Type 0} ⦃F : Field S⦄ where
  abbrev pub coefficient_of : Seat S → BirkhoffCoefficient
  coefficient_of s = record {
    participant_id = seat_id s;
    derivative_order = (s.point).derivative_order;
    coefficient_bytes = F.to_bytes s.weight;
  }

  abbrev pub AreSeated : List (Seat S) → List (Seat S) → Type 0
  AreSeated seats = All (λ s. contains (ids_of seats) (seat_id s) ≡ true)

  All-seats :
      (P : ParticipantId → Type 0) (seats : List (Seat S))
      → All P (ids_of seats)
      → All (λ s. P (seat_id s)) seats
  All-seats P [] a = tt
  All-seats P (s ∷ seats) a = (a.0, All-seats P seats a.1)

  pub seats-AreSeated : (seats : List (Seat S)) → AreSeated seats seats
  seats-AreSeated seats =
      All-seats (λ i. contains (ids_of seats) i ≡ true) seats (All-contains (ids_of seats))

  -- Each seat finds its coefficient.
  pub find-coefficient_of :
      (seats : List (Seat S))
      → IsDistinct (ids_of seats)
      → All
          (λ s.
            find (λ k. k.participant_id == seat_id s) (map coefficient_of seats)
            ≡ some (coefficient_of s))
          seats
  find-coefficient_of [] distinct = tt
  find-coefficient_of (s ∷ seats) distinct = (
    rw (==_refl (seat_id s)),
    All-both _ _ _ seats
        (λ t seated found.
          rw (member-stranger (ids_of seats) (seat_id s) (seat_id t) distinct.0 seated) found)
        (seats-AreSeated seats) (find-coefficient_of seats distinct.1),
  )

  -- What a seat contributes to the secret, and what it replies to a challenge.
  abbrev pub contribution : List S → Seat S → S
  contribution f s = s.weight ⊗ observed f s.point

  abbrev pub reply : List S → Bool → S → Seat S → S
  reply f negated e s = signed negated s.nonce ⊕ e ⊗ contribution f s

  abbrev pub share_of_seat : SessionId → List S → Bool → S → Seat S → HtssSignatureSharePackage
  share_of_seat session f negated e s = record {
    participant_id = seat_id s;
    signing_session_id = session;
    signature_share_bytes = F.to_bytes (reply f negated e s);
  }

  sum_shares-replies :
      (session : SessionId) (f : List S) (negated : Bool) (e acc : S) (seats : List (Seat S))
      → sum_shares S acc (map (share_of_seat session f negated e) seats)
        ≡ ok (acc ⊕ total (map (reply f negated e) seats))
  unfolding sum_shares total
  sum_shares-replies session f negated e acc [] = ap ok (sym (add-zero acc))
  sum_shares-replies session f negated e acc (s ∷ seats) =
      rw (F.from_bytes-to_bytes (reply f negated e s)) (
        sum_shares-replies session f negated e (acc ⊕ reply f negated e s) seats
        ∙ ap ok (F.add_assoc acc _ _))

  total-replies :
      (f : List S) (negated : Bool) (e : S) (seats : List (Seat S))
      → total (map (reply f negated e) seats)
        ≡ signed negated (nonce_sum seats) ⊕ e ⊗ total (map (contribution f) seats)
  total-replies f negated e seats =
      total-add (λ s. signed negated s.nonce) (λ s. e ⊗ contribution f s) seats
      ∙ ap (λ t. t ⊕ total (map (λ s. e ⊗ contribution f s) seats))
          (total-signed negated (λ s. s.nonce) seats)
      ∙ ap (λ t. signed negated (nonce_sum seats) ⊕ t) (mul-total e (contribution f) seats)

  -- The shares sum to the signed nonce and the challenge times the contributions.
  pub sum_shares-seats :
      (session : SessionId) (f : List S) (negated : Bool) (e : S) (seats : List (Seat S))
      → sum_shares S scalar_zero (map (share_of_seat session f negated e) seats)
        ≡ ok (signed negated (nonce_sum seats) ⊕ e ⊗ total (map (contribution f) seats))
  sum_shares-seats session f negated e seats =
      sum_shares-replies session f negated e scalar_zero seats
      ∙ ap ok (F.zero-add _ ∙ total-replies f negated e seats)

  pub total-contributions :
      (f : List S) (seats : List (Seat S))
      → total (map (contribution f) seats)
        ≡ sum (length (map (λ s. s.point) seats)) (λ i.
          at (map (λ s. s.weight) seats) i ⊗ observed f (point (map (λ s. s.point) seats) i))
  unfolding total sum
  total-contributions f [] = refl
  total-contributions f (s ∷ seats) = ap (λ t. contribution f s ⊕ t) (total-contributions f seats)

  senders-shares :
      (session : SessionId) (f : List S) (negated : Bool) (e : S) (seats : List (Seat S))
      → map
          (λ n. (n.participant_id, n.signing_session_id))
          (map (share_of_seat session f negated e) seats)
        ≡ all_in session (ids_of seats)
  senders-shares session f negated e [] = refl
  senders-shares session f negated e (s ∷ seats) =
      ap (λ t. (seat_id s, session) ∷ t) (senders-shares session f negated e seats)

  pub validate-shares :
      (session : SessionId) (f : List S) (negated : Bool) (e : S) (seats : List (Seat S))
      → IsDistinct (ids_of seats)
      → validate_htss_signature_share_set
          (map (share_of_seat session f negated e) seats)
          (ids_of seats)
        ≡ ok tt
  validate-shares session f negated e seats distinct =
      (validate_htss_signature_share_set-ok_iff (map (share_of_seat session f negated e) seats)
          (ids_of seats)).1
        (subst (IsPackageSet (ids_of seats)) (sym (senders-shares session f negated e seats))
          (all_in-IsPackageSet session (ids_of seats) distinct))

module _ (S P : Type 0) ⦃F : Field S⦄ ⦃C : Curve S P⦄ where
  pub answer-seat :
      (session : SessionId) (f : List S) (negated : Bool) (e : S) (s : Seat S)
      → answer S P (share_at f s.point) (local_nonce S P session s) (coefficient_of s) negated e
        ≡ ok (share_of_seat session f negated e s)
  unfolding answer
  answer-seat session f negated e s = rw (F.from_bytes-to_bytes s.nonce) (
      rw (F.from_bytes-to_bytes s.weight) (
        rw (F.from_bytes-to_bytes (observed f s.point))
          (rw (C.conditional_negate_lem negated s.nonce))))
