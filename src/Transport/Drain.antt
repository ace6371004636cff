-- ===== src/Transport/Drain.antt =====
-- crates/dkgkit-transport/src/lib.rs: what a drain takes out of a MemoryTransport.
use dkgkit.Prelude.{
  Bool, true, false, ◌&&◌, ◌≡◌, refl, sym, ap, subst, ◌∙◌, List, [], ◌∷◌, ◌++◌, str_eq, All,
  Bool-cases, inl, inr,
}
use dkgkit.Core.Ids.{SessionId}
use dkgkit.Core.Message.{ProtocolMessage}
use dkgkit.Transport.{MemoryTransport, retain_loop, drain_matching}

-- The messages in the third list are those of the first two, each list in its order.
pub data Interleaving {ℓ} {A : Type ℓ} : List A → List A → List A → Type ℓ where
  nothing : Interleaving [] [] []
  left : {x : A} {xs ys zs : List A} → Interleaving xs ys zs → Interleaving (x ∷ xs) ys (x ∷ zs)
  right : {y : A} {xs ys zs : List A} → Interleaving xs ys zs → Interleaving xs (y ∷ ys) (y ∷ zs)

-- Whether a drain takes a message.
abbrev pub is_taken : SessionId → (ProtocolMessage → Bool) → ProtocolMessage → Bool
is_taken session_id predicate m = str_eq m.session_id session_id && predicate m

-- What a drain promises of the messages before it, the ones it returns and the ones it leaves.
pub record IsDrain (taken : ProtocolMessage → Bool) (before matched rest : List ProtocolMessage)
    : Type 0 where
  pub merged : Interleaving matched rest before
  pub wanted : All (λ m. taken m ≡ true) matched
  pub unwanted : All (λ m. taken m ≡ false) rest

pub append_end {ℓ} : {A : Type ℓ} (xs ys : List A) (x : A) → (xs ++ x ∷ []) ++ ys ≡ xs ++ x ∷ ys
append_end [] ys x = refl
append_end (z ∷ xs) ys x = ap (λ t. z ∷ t) (append_end xs ys x)

pub nil_end {ℓ} : {A : Type ℓ} (xs : List A) → xs ≡ xs ++ []
nil_end [] = refl
nil_end (x ∷ xs) = ap (λ t. x ∷ t) (nil_end xs)

pub retain_loop-IsDrain :
    (s : SessionId) (p : ProtocolMessage → Bool) (acc ms : List ProtocolMessage)
    → (found : List ProtocolMessage) × ((retain_loop s p acc ms).0 ≡ acc ++ found)
      × IsDrain (is_taken s p) ms found (retain_loop s p acc ms).1
unfolding retain_loop
retain_loop-IsDrain s p acc [] =
    ([], nil_end acc, record { merged = nothing; wanted = tt; unwanted = tt })
retain_loop-IsDrain s p acc (m ∷ ms) = elim (Bool-cases (is_taken s p m)) [
  | inl e ↦
      let (found, taken, d) = retain_loop-IsDrain s p (acc ++ m ∷ []) ms in
      rw (e, retain_loop)
        (
          m ∷ found,
          taken ∙ append_end acc found m,
          record { merged = left d.merged; wanted = (e, d.wanted); unwanted = d.unwanted },
        )
  | inr e ↦
      let (found, taken, d) = retain_loop-IsDrain s p acc ms in
      rw (e, retain_loop)
        (
          found,
          taken,
          record { merged = right d.merged; wanted = d.wanted; unwanted = (e, d.unwanted) },
        )
]

-- A drain returns the messages of its session that satisfy the predicate and leaves the others;
-- none is lost or copied, both keep the order of arrival, and the connection does not change.
pub drain_matching-IsDrain :
    (s : SessionId) (p : ProtocolMessage → Bool) (t : MemoryTransport)
    → IsDrain (is_taken s p) t.messages (drain_matching s p t).0 ((drain_matching s p t).1).messages
      × (((drain_matching s p t).1).connected ≡ t.connected)
unfolding drain_matching
drain_matching-IsDrain s p t =
    let (found, taken, d) = retain_loop-IsDrain s p [] t.messages in
    (
      subst (λ m. IsDrain (is_taken s p) t.messages m (retain_loop s p [] t.messages).1) (sym taken)
          d,
      refl,
    )
