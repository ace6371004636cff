-- ===== src/Policy/Ranks.antt =====
-- The rank rule on sorted ranks, counted on the ranks in any order.
use native.Mathlib.Nat.{zero-add}
use dkgkit.Prelude.{
  ℕ, zero, suc, ◌+◌, ◌≤◌, ◌<◌, ◌≡◌, refl, ◌↔◌, List, [], ◌∷◌, arith, leb, if◌then◌else◌, length,
  take, All,
}
use dkgkit.Core.Error.{ok}
use dkgkit.Policy.{sort_insert, sort, check_rank_rule}

-- How many ranks are `i` or higher in authority.
abbrev pub count_le : ℕ → List ℕ → ℕ
count_le i [] = 0
count_le i (x ∷ xs) = let rest = count_le i xs in if leb x i then suc rest else rest

abbrev IsSorted : List ℕ → Type 0
IsSorted [] = Unit
IsSorted (x ∷ xs) = All (λ y. x ≤ y) xs × IsSorted xs

count_le-sort_insert : (i x : ℕ) (l : List ℕ) → count_le i (sort_insert x l) ≡ count_le i (x ∷ l)
unfolding sort_insert
count_le-sort_insert i x [] = refl
count_le-sort_insert i x (y ∷ l) = ground (arith, count_le-sort_insert i x l)

pub count_le-sort : (i : ℕ) (l : List ℕ) → count_le i (sort l) ≡ count_le i l
unfolding sort
count_le-sort i [] = refl
count_le-sort i (x ∷ l) = ground (arith, count_le-sort_insert i x (sort l), count_le-sort i l)

length-sort_insert : (x : ℕ) (l : List ℕ) → length (sort_insert x l) ≡ suc (length l)
unfolding sort_insert
length-sort_insert x [] = refl
length-sort_insert x (y ∷ l) = ground (arith, length-sort_insert x l)

pub length-sort : (l : List ℕ) → length (sort l) ≡ length l
unfolding sort
length-sort [] = refl
length-sort (x ∷ l) = ground (arith, length-sort_insert x (sort l), length-sort l)

All-le_trans : (x y : ℕ) (l : List ℕ) → x ≤ y → All (λ z. y ≤ z) l → All (λ z. x ≤ z) l
All-le_trans x y [] h a = tt
All-le_trans x y (z ∷ l) h a = (omega arith, All-le_trans x y l h a.1)

All-le-sort_insert :
    (x y : ℕ) (l : List ℕ) → x ≤ y → All (λ z. x ≤ z) l → All (λ z. x ≤ z) (sort_insert y l)
unfolding sort_insert
All-le-sort_insert x y [] h a = (h, tt)
All-le-sort_insert x y (z ∷ l) h a = ground (arith, All-le-sort_insert x y l)

sort_insert-IsSorted : (x : ℕ) (l : List ℕ) → IsSorted l → IsSorted (sort_insert x l)
unfolding sort_insert
sort_insert-IsSorted x [] s = (tt, tt)
sort_insert-IsSorted x (y ∷ l) s =
    ground (arith, sort_insert-IsSorted x l, All-le-sort_insert y x l, All-le_trans x y l)

sort-IsSorted : (l : List ℕ) → IsSorted (sort l)
unfolding sort
sort-IsSorted [] = tt
sort-IsSorted (x ∷ l) = sort_insert-IsSorted x (sort l) (sort-IsSorted l)

count_le_above : (i x : ℕ) (l : List ℕ) → i < x → All (λ y. x ≤ y) l → count_le i l ≡ 0
count_le_above i x [] h a = refl
count_le_above i x (y ∷ l) h a = ground (arith, count_le_above i x l)

rule_sound :
    (k t : ℕ) (l : List ℕ)
    → check_rank_rule k (take t l) ≡ ok tt
    → t ≤ length l
    → (i : ℕ) → i < t
    → i < count_le (k + i) l
unfolding check_rank_rule
rule_sound k zero l h e i lt = absurd (omega arith)
rule_sound k (suc t) [] h e i lt = absurd (omega arith)
rule_sound k (suc t) (x ∷ l) h e zero lt = ground arith
rule_sound k (suc t) (x ∷ l) h e (suc i) lt =
    let rest = rule_sound (suc k) t l in
    let shift : suc k + i ≡ k + suc i = omega arith in
    ground (arith, rest (ground arith) (omega arith) i (omega arith), ap_count shift)
  where
    ap_count : suc k + i ≡ k + suc i → count_le (suc k + i) l ≡ count_le (k + suc i) l
    ap_count e = cc

rule_complete :
    (k t : ℕ) (l : List ℕ)
    → IsSorted l
    → ((i : ℕ) → i < t → i < count_le (k + i) l)
    → check_rank_rule k (take t l) ≡ ok tt
unfolding check_rank_rule
rule_complete k zero l s h = refl
rule_complete k (suc t) [] s h = refl
rule_complete k (suc t) (x ∷ l) s h =
    let rest = rule_complete (suc k) t l s.1 λ i lt. later i (h (suc i) (omega arith)) in
    ground (arith, h 0 (omega arith), count_le_above (k + 0) x (x ∷ l))
  where
    later : (i : ℕ) → suc i < count_le (k + suc i) (x ∷ l) → i < count_le (suc k + i) l
    later i p = let shift : suc k + i ≡ k + suc i = omega arith in rw shift (ground arith)

-- On sorted ranks the loop succeeds exactly when, for each index below the threshold, more than
-- that many of the ranks do not exceed it.
pub check_rank_rule-ok_iff :
    (t : ℕ) (l : List ℕ)
    → t ≤ length l
    → (check_rank_rule 0 (take t (sort l)) ≡ ok tt) ↔ ((i : ℕ) → i < t → i < count_le i l)
check_rank_rule-ok_iff t l e = (
  λ h i lt.
      rw (zero-add, count_le-sort) at
        (rule_sound 0 t (sort l) h (omega (arith, length-sort l)) i lt),
  λ h.
      rule_complete 0 t (sort l) (sort-IsSorted l)
        (λ i lt. rw (zero-add, count_le-sort i l) (h i lt)),
)
