-- ===== src/Curve.antt =====
-- The points and the BIP340 signatures of `secp256kfun` and `schnorr_fun`, two libraries that
-- crates/dkgkit-frost calls: the operations that it uses, and the laws that they document. Points
-- form a group that the generator's multiples are taken in, one of a point and its negation has an
-- even y, and a signature (R, s), R with an even y, verifies under a key P with an even y exactly
-- when s·G = R + e·P for its challenge e. It is written as the x of R and then s.
pub mod Laws
pub mod Five
use dkgkit.Prelude.{ℕ, ◌≡◌, ◌↔◌, Bool, true, false, Option, some, not, ◌++◌, length, if◌then◌else◌}
use dkgkit.Scalar.{Bytes, Field, ◌⊕◌, ◌⊖◌, ◌⊗◌, scalar_zero}

pub record Curve (S P : Type 0) ⦃F : Field S⦄ : Type 1 where
  pub zero : P
  pub add : P → P → P
  -- `g!(s * G)` and `g!(s * p)`
  pub base_mul : S → P
  pub point_mul : S → P → P
  pub is_identity : P → Bool
  pub to_bytes : P → Bytes
  -- A nonzero point from its 33 bytes.
  pub from_bytes : Bytes → Option P
  -- `Point<EvenY, Public, NonZero>`, and such a point as any other.
  pub EvenPoint : Type 0
  pub point : EvenPoint → P
  pub is_even_y : P → Bool
  pub into_even_y : P → EvenPoint × Bool
  -- The x coordinate, in 32 bytes.
  pub to_xonly_bytes : P → Bytes
  pub from_xonly_bytes : Bytes → Option EvenPoint
  pub conditional_negate : Bool → S → S
  -- The secret and the public key of a key pair.
  pub new_keypair : S → S × EvenPoint
  pub challenge : EvenPoint → EvenPoint → Bytes → S
  pub verify : EvenPoint → Bytes → EvenPoint → S → Bool
  pub sign : S × EvenPoint → Bytes → EvenPoint × S
  pub signature_to_bytes : EvenPoint → S → Bytes
  pub signature_to_bytes_lem :
      (r : EvenPoint) (s : S) → signature_to_bytes r s ≡ to_xonly_bytes (point r) ++ F.to_bytes s
  pub length-to_xonly_bytes : (p : P) → length (to_xonly_bytes p) ≡ 32
  pub add_assoc : (a b c : P) → add (add a b) c ≡ add a (add b c)
  pub add_comm : (a b : P) → add a b ≡ add b a
  pub zero-add : (a : P) → add zero a ≡ a
  pub add_cancel : (a b c : P) → add a c ≡ add b c → a ≡ b
  pub base_mul-add : (a b : S) → base_mul (a ⊕ b) ≡ add (base_mul a) (base_mul b)
  pub point_mul-base_mul : (a b : S) → point_mul a (base_mul b) ≡ base_mul (a ⊗ b)
  pub is_identity_iff : (p : P) → (is_identity p ≡ true) ↔ (p ≡ zero)
  pub base_mul_nonzero : (a : S) → F.is_zero a ≡ false → is_identity (base_mul a) ≡ false
  pub to_bytes_injective : (p q : P) → to_bytes p ≡ to_bytes q → p ≡ q
  pub from_bytes-to_bytes : (p : P) → is_identity p ≡ false → from_bytes (to_bytes p) ≡ some p
  pub length-to_bytes : (p : P) → is_identity p ≡ false → length (to_bytes p) ≡ 33
  pub point-even : (r : EvenPoint) → is_even_y (point r) ≡ true
  pub is_even_y-negated :
      (s : S)
      → is_identity (base_mul s) ≡ false
      → is_even_y (base_mul (scalar_zero ⊖ s)) ≡ not (is_even_y (base_mul s))
  pub into_even_y_lem :
      (s : S)
      → is_identity (base_mul s) ≡ false
      → point (into_even_y (base_mul s)).0
        ≡ base_mul (if (into_even_y (base_mul s)).1 then scalar_zero ⊖ s else s)
  pub from_xonly_bytes-to_xonly_bytes :
      (r : EvenPoint) → from_xonly_bytes (to_xonly_bytes (point r)) ≡ some r
  pub conditional_negate_lem :
      (b : Bool) (s : S) → conditional_negate b s ≡ (if b then scalar_zero ⊖ s else s)
  pub new_keypair_lem :
      (s : S)
      → F.is_zero s ≡ false
      → new_keypair s
        ≡ (conditional_negate (into_even_y (base_mul s)).1 s, (into_even_y (base_mul s)).0)
  pub verify_iff :
      (key : EvenPoint) (message : Bytes) (r : EvenPoint) (s : S)
      → (verify key message r s ≡ true)
        ↔ (base_mul s ≡ add (point r) (point_mul (challenge r key message) (point key)))
