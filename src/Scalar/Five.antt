-- ===== src/Scalar/Five.antt =====
-- The field of five elements: an instance of `Field`, on which the witnesses evaluate.
use dkgkit.Prelude.{
  ℕ, zero, suc, ◌≡◌, refl, ◌↔◌, Bool, true, false, [], ◌∷◌, Option, none, some, arith, ◌==◌,
  if◌then◌else◌,
}
use dkgkit.Scalar.{Bytes, Field}

pub data Five : Type 0 where
  f0 f1 f2 f3 f4 : Five

abbrev next : Five → Five
next f0 = f1
next f1 = f2
next f2 = f3
next f3 = f4
next f4 = f0

abbrev pub from_u32 : ℕ → Five
from_u32 zero = f0
from_u32 (suc n) = next (from_u32 n)

abbrev pub add : Five → Five → Five
add f0 b = b
add f1 b = next b
add f2 b = next (next b)
add f3 b = next (next (next b))
add f4 b = next (next (next (next b)))

abbrev pub neg : Five → Five
neg f0 = f0
neg f1 = f4
neg f2 = f3
neg f3 = f2
neg f4 = f1

abbrev sub : Five → Five → Five
sub a b = add a (neg b)

abbrev pub mul : Five → Five → Five
mul f0 b = f0
mul f1 b = b
mul f2 b = add b b
mul f3 b = add b (add b b)
mul f4 b = neg b

abbrev invert : Five → Five
invert f0 = f0
invert f1 = f1
invert f2 = f3
invert f3 = f2
invert f4 = f4

abbrev pub is_zero : Five → Bool
is_zero f0 = true
is_zero _ = false

abbrev pub code : Five → ℕ
code f0 = 0
code f1 = 1
code f2 = 2
code f3 = 3
code f4 = 4

abbrev pub to_bytes : Five → Bytes
to_bytes a = code a ∷ []

abbrev pub of_code : ℕ → Option Five
of_code n =
    if n == 0
    then some f0
    else if n == 1
    then some f1
    else if n == 2
    then some f2
    else if n == 3
    then some f3
    else if n == 4
    then some f4
    else none

abbrev pub from_bytes : Bytes → Option Five
from_bytes (n ∷ []) = of_code n
from_bytes _ = none

pub add_comm : (a b : Five) → add a b ≡ add b a
add_comm a b = ground arith

next-add : (a b : Five) → add (next a) b ≡ next (add a b)
next-add a b = ground arith

pub add_assoc : (a b c : Five) → add (add a b) c ≡ add a (add b c)
add_assoc f0 b c = refl
add_assoc f1 b c = next-add b c
add_assoc f2 b c = ground (arith, next-add (next b) c, next-add b c)
add_assoc f3 b c = ground (arith, next-add (next (next b)) c, next-add (next b) c, next-add b c)
add_assoc f4 b c = ground (
  arith,
  next-add (next (next (next b))) c,
  next-add (next (next b)) c,
  next-add (next b) c,
  next-add b c,
)

pub sub-add : (a b : Five) → add (sub a b) b ≡ a
sub-add a b = ground arith

pub add-sub : (a b : Five) → sub (add a b) b ≡ a
add-sub a b = ground arith

pub mul_comm : (a b : Five) → mul a b ≡ mul b a
mul_comm a b = ground arith

pub mul_assoc : (a b c : Five) → mul (mul a b) c ≡ mul a (mul b c)
mul_assoc f0 b c = refl
mul_assoc f1 b c = refl
mul_assoc a f0 c = ground arith
mul_assoc a f1 c = ground arith
mul_assoc a b c = ground arith

pub mul-add : (a b c : Five) → mul a (add b c) ≡ add (mul a b) (mul a c)
mul-add f0 b c = refl
mul-add f1 b c = refl
mul-add f2 b c = ground arith
mul-add f3 b c = ground arith
mul-add f4 b c = ground arith

pub is_zero_iff : (a : Five) → (is_zero a ≡ true) ↔ (a ≡ f0)
is_zero_iff a = (λ h. ground arith, λ h. ground arith)

pub mul-invert : (a : Five) → is_zero a ≡ false → mul a (invert a) ≡ from_u32 1
mul-invert a h = ground arith

pub from_bytes-to_bytes : (a : Five) → from_bytes (to_bytes a) ≡ some a
from_bytes-to_bytes a = ground arith

instance abbrev pub five : Field Five
five = record {
  zero = f0;
  from_u32 = from_u32;
  add = add;
  sub = sub;
  mul = mul;
  invert = invert;
  is_zero = is_zero;
  to_bytes = to_bytes;
  from_bytes = from_bytes;
  add_assoc = add_assoc;
  add_comm = add_comm;
  zero-add = λ a. refl;
  sub-add = sub-add;
  add-sub = add-sub;
  mul_assoc = mul_assoc;
  mul_comm = mul_comm;
  one-mul = λ a. refl;
  mul-add = mul-add;
  from_u32-zero = refl;
  is_zero_iff = is_zero_iff;
  mul-invert = mul-invert;
  from_bytes-to_bytes = from_bytes-to_bytes;
}
