-- ===== src/Prelude/Keyed.antt =====
-- Rows of a table under a key that is a number: reading one, and rewriting it.
use Prim.Native.Nat.{ℕ}
use mathlib.Core.Path.{◌≡◌, refl}
use mathlib.Core.Bool.{Bool, true, false}
use mathlib.Core.Option.{Option, none, some}
use mathlib.Core.List.{List, [], ◌∷◌, map}
use native.Mathlib.Omega.{arith}
use mathlib.Core.Logic.{inl, inr}
use seatflow.Prelude.Tests.{◌==◌, if◌then◌else◌, ==_eq, ==_self, Bool-cases}
use seatflow.Prelude.Lists.{all}

module _ {A : Type 0} (key : A → ℕ) where
  -- `findUnique`.
  abbrev pub find_by : ℕ → List A → Option A
  find_by i [] = none
  find_by i (x ∷ xs) = let rest = find_by i xs in if key x == i then some x else rest

  -- `update({ where: { id } })`, with the row as it is afterwards.
  abbrev pub put_by : A → List A → List A
  put_by new [] = []
  put_by new (x ∷ xs) =
      let rest = put_by new xs in if key x == key new then new ∷ rest else x ∷ rest

  pub find_by-key : (i : ℕ) (xs : List A) (x : A) → find_by i xs ≡ some x → key x ≡ i
  find_by-key i [] x e = cc
  find_by-key i (y ∷ xs) x e = ground (arith, e, find_by-key i xs x, ==_eq (key y) i)

  pub find_by-put_by :
      (i : ℕ) (xs : List A) (old new : A)
      → find_by i xs ≡ some old
      → key new ≡ i
      → find_by i (put_by new xs) ≡ some new
  find_by-put_by i [] old new e k = cc
  find_by-put_by i (y ∷ xs) old new e k =
      ground (arith, e, k, find_by-put_by i xs old new, ==_self i)

  pub find_by-put_by_other :
      (i : ℕ) (xs : List A) (new : A)
      → (key new == i) ≡ false
      → find_by i (put_by new xs) ≡ find_by i xs
  find_by-put_by_other i [] new k = refl
  find_by-put_by_other i (y ∷ xs) new k =
      ground (arith, k, find_by-put_by_other i xs new k, ==_eq (key y) (key new))

  pub map-put_by : (xs : List A) (new : A) → map key (put_by new xs) ≡ map key xs
  map-put_by [] new = refl
  map-put_by (y ∷ xs) new = ground (arith, map-put_by xs new, ==_eq (key y) (key new))

  pub all-put_by :
      (p : A → Bool) (new : A) (xs : List A)
      → p new ≡ true
      → all p xs ≡ true
      → all p (put_by new xs) ≡ true
  all-put_by p new [] n e = refl
  all-put_by p new (y ∷ xs) n e = elim (Bool-cases (key y == key new)) [
    | inl here ↦ ground (arith, n, e, here, all-put_by p new xs n (ground (arith, e)))
    | inr there ↦ ground (arith, e, there, all-put_by p new xs n (ground (arith, e)))
  ]

  pub find_by-all :
      (p : A → Bool) (i : ℕ) (xs : List A) (x : A)
      → find_by i xs ≡ some x
      → all p xs ≡ true
      → p x ≡ true
  find_by-all p i [] x e h = cc
  find_by-all p i (y ∷ xs) x e h = elim (Bool-cases (key y == i)) [
    | inl here ↦ ground (arith, e, h, here)
    | inr there ↦ find_by-all p i xs x (ground (arith, e, there)) (ground (arith, h))
  ]

  pub find_by-map :
      (f : A → A)
      → ((x : A) → key (f x) ≡ key x)
      → (i : ℕ) (xs : List A) (x : A) → find_by i xs ≡ some x
      → find_by i (map f xs) ≡ some (f x)
  find_by-map f same i [] x e = cc
  find_by-map f same i (y ∷ xs) x e = elim (Bool-cases (key y == i)) [
    | inl here ↦ ground (arith, e, here, same y)
    | inr there ↦
        ground (arith, e, there, same y, find_by-map f same i xs x (ground (arith, e, there)))
  ]
