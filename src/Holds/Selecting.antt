-- ===== src/Holds/Selecting.antt =====
-- When two selections of seats are the same: `seatSelectionsMatch` of src/server/holds/hold-service.ts.
use seatflow.Prelude.{
  ℕ, ◌≡◌, refl, ◌∙◌, Bool, true, ◌&&◌, List, [], ◌∷◌, contains, all, arith, is_distinct, length,
  Bool-cases, inl, inr, contains-same_length, length-contains, all_through, all-contains_self,
}
use seatflow.Holds.Acquire.{seat_selections_match}

all-contains_same :
    (xs ys : List ℕ)
    → ((n : ℕ) → contains xs n ≡ contains ys n)
    → (l : List ℕ) → all (contains xs) l ≡ all (contains ys) l
all-contains_same xs ys h [] = refl
all-contains_same xs ys h (x ∷ l) = ground (arith, h x, all-contains_same xs ys h l)

-- Whether two lists name the same seats.
abbrev pub is_same_set : List ℕ → List ℕ → Bool
is_same_set xs ys = all (contains xs) ys && all (contains ys) xs

-- The comparison by length and one inclusion is that of the sets, for distinct seats.
pub match-same_set :
    (xs asked seats : List ℕ)
    → is_distinct xs ≡ true
    → all (contains asked) xs ≡ true
    → length xs ≡ length asked
    → is_distinct seats ≡ true
    → seat_selections_match xs seats ≡ is_same_set asked seats
unfolding seat_selections_match
match-same_set xs asked seats dx within counted ds =
    let same = contains-same_length xs asked dx within counted in
    elim (Bool-cases (seat_selections_match xs seats)) [
      | inl t ↦
          let back = contains-same_length seats xs ds (ground (arith, t)) (ground (arith, t)) in
          ground (
            arith,
            t,
            all-contains_same xs asked same seats,
            all-contains_same seats asked (λ n. back n ∙ same n) asked,
            all-contains_self asked,
          )
      | inr f ↦ elim (Bool-cases (is_same_set asked seats)) [
        | inr g ↦ ground (arith, f, g)
        | inl g ↦ ground (
          arith,
          f,
          g,
          all-contains_same xs asked same seats,
          length-contains seats asked ds,
          length-contains xs seats dx,
          all_through (contains seats) xs asked,
          within,
          counted,
        )
      ]
    ]
