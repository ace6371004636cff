-- ===== src/Curve/Five.antt =====
-- The field of five elements as its own group of points: an instance of `Curve` for the witnesses.
use dkgkit.Prelude.{
  ℕ, zero, suc, ◌≡◌, refl, ◌↔◌, Bool, true, false, not, ◌==◌, [], ◌∷◌, ◌++◌, Option, none, some,
  arith, if◌then◌else◌,
}
use dkgkit.Scalar.{Bytes}
use dkgkit.Scalar.Five.{
  to_bytes, Five, f0, f1, f2, f3, f4, five, add, neg, mul, code, of_code, is_zero, add_comm,
  add_assoc, is_zero_iff,
}
use dkgkit.Curve.{Curve}

-- Bytes of padding.
abbrev pub padding : ℕ → Bytes
padding zero = []
padding (suc n) = 0 ∷ padding n

abbrev pub point_to_bytes : Five → Bytes
point_to_bytes a = code a ∷ padding 32

abbrev pub point_from_bytes : Bytes → Option Five
point_from_bytes [] = none
point_from_bytes (n ∷ rest) = of_code n

abbrev pub to_xonly_bytes : Five → Bytes
to_xonly_bytes a = code a ∷ padding 31

-- One and two are even, their negations odd.
pub data EvenFive : Type 0 where
  even1 : EvenFive
  even2 : EvenFive

abbrev pub point : EvenFive → Five
point even1 = f1
point even2 = f2

abbrev pub is_even_y : Five → Bool
is_even_y f1 = true
is_even_y f2 = true
is_even_y a = false

abbrev pub into_even_y : Five → EvenFive × Bool
into_even_y f0 = (even1, false)
into_even_y f1 = (even1, false)
into_even_y f2 = (even2, false)
into_even_y f3 = (even2, true)
into_even_y f4 = (even1, true)

abbrev pub from_xonly_bytes : Bytes → Option EvenFive
from_xonly_bytes [] = none
from_xonly_bytes (n ∷ rest) = if n == 1 then some even1 else if n == 2 then some even2 else none

abbrev pub conditional_negate : Bool → Five → Five
conditional_negate b a = if b then neg a else a

abbrev pub new_keypair : Five → Five × EvenFive
new_keypair s = (conditional_negate (into_even_y s).1 s, (into_even_y s).0)

abbrev pub challenge : EvenFive → EvenFive → Bytes → Five
challenge r key [] = f1
challenge r key (b ∷ rest) = add f1 (point r)

abbrev pub equal : Five → Five → Bool
equal a b = is_zero (add a (neg b))

abbrev pub verify : EvenFive → Bytes → EvenFive → Five → Bool
verify key message r s = equal s (add (point r) (mul (challenge r key message) (point key)))

abbrev pub sign : Five × EvenFive → Bytes → EvenFive × Five
sign (s, key) message = (even1, add f1 (mul (challenge even1 key message) s))

pub equal_iff : (a b : Five) → (equal a b ≡ true) ↔ (a ≡ b)
equal_iff a b = (λ h. ground arith, λ h. ground arith)

pub add_cancel : (a b c : Five) → add a c ≡ add b c → a ≡ b
add_cancel a b c h = ground arith

pub to_bytes_injective : (p q : Five) → point_to_bytes p ≡ point_to_bytes q → p ≡ q
to_bytes_injective p q h = ground arith

pub from_bytes-to_bytes : (p : Five) → point_from_bytes (point_to_bytes p) ≡ some p
from_bytes-to_bytes p = ground arith

pub into_even_y_lem :
    (s : Five)
    → is_zero s ≡ false
    → point (into_even_y s).0 ≡ (if (into_even_y s).1 then add f0 (neg s) else s)
into_even_y_lem f0 h = cc
into_even_y_lem f1 h = refl
into_even_y_lem f2 h = refl
into_even_y_lem f3 h = refl
into_even_y_lem f4 h = refl

pub point-even : (r : EvenFive) → is_even_y (point r) ≡ true
point-even even1 = refl
point-even even2 = refl

pub is_even_y-negated :
    (s : Five) → is_zero s ≡ false → is_even_y (add f0 (neg s)) ≡ not (is_even_y s)
is_even_y-negated f0 h = cc
is_even_y-negated f1 h = refl
is_even_y-negated f2 h = refl
is_even_y-negated f3 h = refl
is_even_y-negated f4 h = refl

pub from_xonly_bytes-to_xonly_bytes :
    (r : EvenFive) → from_xonly_bytes (to_xonly_bytes (point r)) ≡ some r
from_xonly_bytes-to_xonly_bytes even1 = refl
from_xonly_bytes-to_xonly_bytes even2 = refl

pub conditional_negate_lem :
    (b : Bool) (s : Five) → conditional_negate b s ≡ (if b then add f0 (neg s) else s)
conditional_negate_lem b s = ground arith

instance abbrev pub curve_five : Curve Five Five
curve_five = record {
  zero = f0;
  add = add;
  base_mul = λ s. s;
  point_mul = mul;
  is_identity = is_zero;
  to_bytes = point_to_bytes;
  from_bytes = point_from_bytes;
  EvenPoint = EvenFive;
  point = point;
  is_even_y = is_even_y;
  into_even_y = into_even_y;
  to_xonly_bytes = to_xonly_bytes;
  from_xonly_bytes = from_xonly_bytes;
  conditional_negate = conditional_negate;
  new_keypair = new_keypair;
  challenge = challenge;
  verify = verify;
  sign = sign;
  signature_to_bytes = λ r s. to_xonly_bytes (point r) ++ to_bytes s;
  signature_to_bytes_lem = λ r s. refl;
  length-to_xonly_bytes = λ p. refl;
  add_assoc = add_assoc;
  add_comm = add_comm;
  zero-add = λ a. refl;
  add_cancel = add_cancel;
  base_mul-add = λ a b. refl;
  point_mul-base_mul = λ a b. refl;
  is_identity_iff = is_zero_iff;
  base_mul_nonzero = λ a h. h;
  to_bytes_injective = to_bytes_injective;
  from_bytes-to_bytes = λ p _. from_bytes-to_bytes p;
  length-to_bytes = λ p _. refl;
  point-even = point-even;
  is_even_y-negated = is_even_y-negated;
  into_even_y_lem = into_even_y_lem;
  from_xonly_bytes-to_xonly_bytes = from_xonly_bytes-to_xonly_bytes;
  conditional_negate_lem = conditional_negate_lem;
  new_keypair_lem = λ s _. refl;
  verify_iff = λ key m r s. equal_iff s _;
}
