-- ===== src/Prelude/Distinct.antt =====
-- Lists of distinct numbers.
use Prim.Native.Nat.{ℕ, ◌+◌, ◌≤◌}
use mathlib.Core.Path.{◌≡◌, refl, sym}
use mathlib.Core.Logic.{inl, inr}
use mathlib.Core.Bool.{Bool, true, false, not, ◌||◌}
use mathlib.Core.List.{List, [], ◌∷◌, ◌++◌}
use native.Mathlib.Omega.{arith}
use seatflow.Prelude.Tests.{◌==◌, if◌then◌else◌, ==_eq, ==_self, Bool-cases}
use seatflow.Prelude.Lists.{length, all, contains, is_distinct}

-- Removes the first occurrence.
abbrev remove : ℕ → List ℕ → List ℕ
remove n [] = []
remove n (x ∷ xs) = if x == n then xs else x ∷ remove n xs

length-remove : (n : ℕ) (xs : List ℕ) → contains xs n ≡ true → length (remove n xs) + 1 ≡ length xs
length-remove n [] e = cc
length-remove n (x ∷ xs) e = ground (arith, length-remove n xs)

contains-remove_ne :
    (n m : ℕ) (xs : List ℕ) → (n == m) ≡ false → contains (remove n xs) m ≡ contains xs m
contains-remove_ne n m [] e = refl
contains-remove_ne n m (x ∷ xs) e = ground (arith, contains-remove_ne n m xs)

all-remove :
    (n : ℕ) (xs ys : List ℕ)
    → contains xs n ≡ false
    → all (contains ys) xs ≡ true
    → all (contains (remove n ys)) xs ≡ true
all-remove n [] ys d e = refl
all-remove n (x ∷ xs) ys d e = ground (arith, all-remove n xs ys, contains-remove_ne n x ys)

-- Distinct numbers that all occur in a list of the same length are all the numbers of that list.
pub contains-same_length :
    (xs ys : List ℕ)
    → is_distinct xs ≡ true
    → all (contains ys) xs ≡ true
    → length xs ≡ length ys
    → (n : ℕ) → contains xs n ≡ contains ys n
contains-same_length [] [] d e l n = refl
contains-same_length [] (y ∷ ys) d e l n = absurd (omega arith)
contains-same_length (x ∷ xs) ys d e l n =
    let ih =
      contains-same_length xs (remove x ys) (ground arith)
        (all-remove x xs ys (ground arith) (ground arith)) (ground (arith, length-remove x ys)) n in
    elim (Bool-cases (x == n)) [
      | inl same ↦ ground (arith, ==_eq x n)
      | inr other ↦ ground (arith, ih, contains-remove_ne x n ys)
    ]

-- Distinct numbers that all occur in a list are no more than it has.
pub length-contains :
    (xs ys : List ℕ) → is_distinct xs ≡ true → all (contains ys) xs ≡ true → length xs ≤ length ys
length-contains [] ys d e = omega arith
length-contains (x ∷ xs) ys d e =
    let ih =
      length-contains xs (remove x ys) (ground arith)
        (all-remove x xs ys (ground arith) (ground arith)) in
    ground (arith, ih, length-remove x ys)

all-contains :
    (p : ℕ → Bool) (n : ℕ) (ys : List ℕ) → all p ys ≡ true → contains ys n ≡ true → p n ≡ true
all-contains p n [] e c = cc
all-contains p n (y ∷ ys) e c = elim (Bool-cases (y == n)) [
  | inl same ↦ rw (sym (==_eq y n same)) (ground (arith, e))
  | inr other ↦ all-contains p n ys (ground (arith, e)) (ground (arith, c, other))
]

pub all_through :
    (p : ℕ → Bool) (xs ys : List ℕ)
    → all p ys ≡ true
    → all (contains ys) xs ≡ true
    → all p xs ≡ true
all_through p [] ys e c = refl
all_through p (x ∷ xs) ys e c = ground (arith, c, all-contains p x ys, all_through p xs ys)

all_weaken :
    (p q : ℕ → Bool) (xs : List ℕ)
    → ((n : ℕ) → p n ≡ true → q n ≡ true)
    → all p xs ≡ true
    → all q xs ≡ true
all_weaken p q [] h e = refl
all_weaken p q (x ∷ xs) h e = ground (arith, e, h x, all_weaken p q xs h)

pub all-contains_self : (xs : List ℕ) → all (contains xs) xs ≡ true
all-contains_self [] = refl
all-contains_self (x ∷ xs) = ground (
  arith,
  ==_self x,
  all_weaken (contains xs) (contains (x ∷ xs)) xs (λ n e. ground (arith, e)) (all-contains_self xs),
)

pub contains-append :
    (xs ys : List ℕ) (n : ℕ) → contains (xs ++ ys) n ≡ contains xs n || contains ys n
contains-append [] ys n = refl
contains-append (x ∷ xs) ys n = ground (arith, contains-append xs ys n)

pub apart-cons :
    (x : ℕ) (xs ys : List ℕ)
    → all (λ y. not (contains (x ∷ xs) y)) ys ≡ true
    → (all (λ y. not (contains xs y)) ys ≡ true) × (contains ys x ≡ false)
apart-cons x xs [] h = (refl, refl)
apart-cons x xs (y ∷ ys) h = ground (arith, h, apart-cons x xs ys, ==_eq x y, ==_self x)

-- Two lists of distinct numbers with nothing in common make one.
pub is_distinct-append :
    (xs ys : List ℕ)
    → is_distinct xs ≡ true
    → is_distinct ys ≡ true
    → all (λ y. not (contains xs y)) ys ≡ true
    → is_distinct (xs ++ ys) ≡ true
is_distinct-append [] ys d e h = e
is_distinct-append (x ∷ xs) ys d e h =
    let (rest, apart) = apart-cons x xs ys h in
    ground (
      arith,
      d,
      apart,
      contains-append xs ys x,
      is_distinct-append xs ys (ground (arith, d)) e rest,
    )
