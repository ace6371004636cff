-- ===== src/Scalar.antt =====
-- The scalars of `secp256kfun` (`Scalar<Public, Zero>`), a library that crates/dkgkit-frost calls:
-- its operations, and the field laws and byte round trip that it documents. Below them stand the
-- helpers `scalar_*` of crates/dkgkit-frost/src/lib.rs.
pub mod Laws
pub mod Sum
pub mod Signs
pub mod Five
use dkgkit.Prelude.{ℕ, zero, suc, ◌+◌, ◌≡◌, ◌↔◌, Bool, true, false, List, Option, some}

abbrev pub Bytes : Type 0
Bytes = List ℕ

pub record Field (S : Type 0) : Type 0 where
  pub zero : S
  pub from_u32 : ℕ → S
  pub add : S → S → S
  pub sub : S → S → S
  pub mul : S → S → S
  pub invert : S → S
  pub is_zero : S → Bool
  pub to_bytes : S → Bytes
  pub from_bytes : Bytes → Option S
  pub add_assoc : (a b c : S) → add (add a b) c ≡ add a (add b c)
  pub add_comm : (a b : S) → add a b ≡ add b a
  pub zero-add : (a : S) → add zero a ≡ a
  pub sub-add : (a b : S) → add (sub a b) b ≡ a
  pub add-sub : (a b : S) → sub (add a b) b ≡ a
  pub mul_assoc : (a b c : S) → mul (mul a b) c ≡ mul a (mul b c)
  pub mul_comm : (a b : S) → mul a b ≡ mul b a
  pub one-mul : (a : S) → mul (from_u32 1) a ≡ a
  pub mul-add : (a b c : S) → mul a (add b c) ≡ add (mul a b) (mul a c)
  pub from_u32-zero : from_u32 0 ≡ zero
  pub is_zero_iff : (a : S) → (is_zero a ≡ true) ↔ (a ≡ zero)
  pub mul-invert : (a : S) → is_zero a ≡ false → mul a (invert a) ≡ from_u32 1
  pub from_bytes-to_bytes : (a : S) → from_bytes (to_bytes a) ≡ some a

module _ {S : Type 0} ⦃F : Field S⦄ where
  infixl 65 ◌⊕◌ ◌⊖◌
  infixl 70 ◌⊗◌
  -- `scalar_add`, `scalar_sub` and `scalar_mul`
  abbrev pub ◌⊕◌ : S → S → S
  a ⊕ b = F.add a b

  abbrev pub ◌⊖◌ : S → S → S
  a ⊖ b = F.sub a b

  abbrev pub ◌⊗◌ : S → S → S
  a ⊗ b = F.mul a b

  abbrev pub scalar_zero : S
  scalar_zero = F.zero

  abbrev pub scalar_from_u32 : ℕ → S
  scalar_from_u32 n = F.from_u32 n

  abbrev pub scalar_one : S
  scalar_one = scalar_from_u32 1

  unfoldable pub pow_loop : S → S → ℕ → S
  pow_loop value base zero = value
  pow_loop value base (suc n) = pow_loop (value ⊗ base) base n

  unfoldable pub scalar_pow : S → ℕ → S
  scalar_pow base exponent = pow_loop scalar_one base exponent
