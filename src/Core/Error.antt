-- ===== src/Core/Error.antt =====
-- crates/dkgkit-core/src/lib.rs: `DkgKitError` and `Result`, with the `?` operator as `>>=`. A
-- formatted message is kept as its template and its arguments.
use dkgkit.Prelude.{
  ℕ, zero, suc, ◌<◌, ◌≡◌, refl, sym, ap, ◌∙◌, Bool, true, false, List, [], ◌∷◌, String, Option,
  none, some, arith, length, get_or,
}

-- An argument of a `format!`.
pub data Arg : Type 0 where
  num : ℕ → Arg
  text : String → Arg

pub data DkgKitError : Type 0 where
  invalid_threshold : ℕ → ℕ → DkgKitError
  invalid_participant_id : ℕ → DkgKitError
  participant_count_mismatch : ℕ → ℕ → DkgKitError
  duplicate_participant_id : ℕ → DkgKitError
  participant_out_of_range : ℕ → ℕ → DkgKitError
  missing_ranked_participant : ℕ → DkgKitError
  empty_session_id empty_message_kind : DkgKitError
  serialization : String → DkgKitError
  protocol : String → List Arg → DkgKitError
  transport : String → List Arg → DkgKitError
  not_implemented : String → DkgKitError

pub data Result {ℓ} (A : Type ℓ) : Type ℓ where
  err : DkgKitError → Result A
  ok : A → Result A

infixl 5 ◌>>=◌ ◌>>◌
abbrev pub ◌>>=◌ {ℓ κ} : {X : Type ℓ} {Y : Type κ} → Result X → (X → Result Y) → Result Y
err e >>= k = err e
ok x >>= k = k x

abbrev pub ◌>>◌ {ℓ κ} : {A : Type ℓ} {B : Type κ} → Result A → Result B → Result B
m >> k = m >>= λ _. k

-- `if b { return Err(e) }`
abbrev pub fail_if : Bool → DkgKitError → Result (Unit {0})
fail_if true e = err e
fail_if false e = ok tt

-- `Option::ok_or`
abbrev pub ok_or {ℓ} : {A : Type ℓ} → Option A → DkgKitError → Result A
ok_or none e = err e
ok_or (some a) e = ok a

-- `iter().map(f).collect::<Result<Vec<_>>>()`
abbrev pub collect {ℓ κ} : {A : Type ℓ} {B : Type κ} → (A → Result B) → List A → Result (List B)
collect f [] = ok []
collect f (x ∷ xs) = let rest = collect f xs in f x >>= λ y. rest >>= λ ys. ok (y ∷ ys)

pub >>=-eq-ok {ℓ κ} :
    {X : Type ℓ} {Y : Type κ} (r : Result X) (k : X → Result Y) {y : Y}
    → (r >>= k) ≡ ok y
    → (x : X) × (r ≡ ok x) × (k x ≡ ok y)
>>=-eq-ok (err e) k h = cc
>>=-eq-ok (ok x) k h = (x, refl, h)

pub fail_if-eq-ok : (b : Bool) (e : DkgKitError) → fail_if b e ≡ ok tt → b ≡ false
fail_if-eq-ok true e h = cc
fail_if-eq-ok false e h = refl

pub >>-eq-ok {ℓ κ} :
    {A : Type ℓ} {B : Type κ} (m : Result A) (k : Result B) {b : B}
    → (m >> k) ≡ ok b
    → (a : A) × (m ≡ ok a) × (k ≡ ok b)
>>-eq-ok (ok a) k h = (a, refl, h)
>>-eq-ok (err e) k h = cc

-- Inversion of a successful `collect` on a longer list.
pub collect-cons-eq-ok {ℓ κ} :
    {A : Type ℓ} {B : Type κ} (f : A → Result B) (x : A) (xs : List A) {zs : List B}
    → collect f (x ∷ xs) ≡ ok zs
    → (y : B) × (ys : List B) × (f x ≡ ok y) × (collect f xs ≡ ok ys) × (zs ≡ y ∷ ys)
collect-cons-eq-ok f x xs h =
    let (y, ey, h') = >>=-eq-ok (f x) _ h in
    let (ys, eys, h'') = >>=-eq-ok (collect f xs) _ h' in (y, ys, ey, eys, cc)

-- Inversion of a guard that let the rest run.
pub fail_if->>-eq-ok {ℓ} :
    {B : Type ℓ} (b : Bool) (e : DkgKitError) (k : Result B) {r : B}
    → (fail_if b e >> k) ≡ ok r
    → (b ≡ false) × (k ≡ ok r)
fail_if->>-eq-ok true e k h = cc
fail_if->>-eq-ok false e k h = (refl, h)

-- A successful `collect` has one result for each element, the one that the function gives there.
pub length-collect {ℓ κ} :
    {A : Type ℓ} {B : Type κ} (f : A → Result B) (xs : List A) {ys : List B}
    → collect f xs ≡ ok ys
    → length ys ≡ length xs
length-collect {B} f [] {ys} h = ap length {x = ys} {y = []} (cc h)
length-collect f (x ∷ xs) h =
    let (y, rest, _, er, e) = collect-cons-eq-ok f x xs h in
    ap length e ∙ ap suc (length-collect f xs er)

pub get_or-collect {ℓ κ} :
    {A : Type ℓ} {B : Type κ} (f : A → Result B) (xs : List A) {ys : List B} (a : A) (b : B) (i : ℕ)
    → collect f xs ≡ ok ys
    → i < length xs
    → f (get_or xs i a) ≡ ok (get_or ys i b)
get_or-collect f [] a b i h lt = elim lt [ ]
get_or-collect f (x ∷ xs) a b zero h lt =
    let (y, rest, ey, _, e) = collect-cons-eq-ok f x xs h in
    ey ∙ ap (λ l. ok (get_or l 0 b)) (sym e)
get_or-collect f (x ∷ xs) a b (suc i) h lt =
    let (y, rest, _, er, e) = collect-cons-eq-ok f x xs h in
    get_or-collect f xs a b i er (omega arith) ∙ ap (λ l. ok (get_or l (suc i) b)) (sym e)

pub ok_or-eq-ok {ℓ} :
    {A : Type ℓ} (o : Option A) (e : DkgKitError) {a : A} → ok_or o e ≡ ok a → o ≡ some a
ok_or-eq-ok none e h = cc
ok_or-eq-ok (some x) e h = cc
