-- ===== src/Payments/Booking.antt =====
-- The booking of a fulfilment (src/server/payments/webhook-service.ts) and the tables of payment.
use seatflow.Prelude.{
  ℕ, ◌==◌, ◌≡◌, refl, Bool, true, false, not, some, List, [], ◌∷◌, ◌++◌, map, all, contains, filter,
  arith, Bool-cases, Option-cases, inl, inr, ==_eq, ==_self, sym, ap, ◌∙◌, append_assoc, append-nil,
  contains-append,
}
use seatflow.Holds.Tables.{InventoryRow, SeatHold, SeatHoldItem, find_row}
use seatflow.Checkout.Tables.{OrderItem, Booking, item_ids}
use seatflow.Payments.Snapshots.{item_matches, matches_row, hold_item_for}
use seatflow.Payments.Fulfillment.{convert_row}
use seatflow.Payments.Soundness.{is_booked_at, is_booked_at-map, is_seated, booked_ids}

pub all-const_true : (rows : List InventoryRow) → all (λ r. true) rows ≡ true
all-const_true [] = refl
all-const_true (r ∷ rows) = all-const_true rows

pub convert_row-booked :
    (hold : ℕ) (ids : List ℕ) (rows : List InventoryRow) (i : ℕ)
    → is_booked_at rows i ≡ true
    → is_booked_at (map (convert_row hold ids) rows) i ≡ true
convert_row-booked hold ids rows i b =
    is_booked_at-map (λ r. true) (convert_row hold ids) (λ r. ground arith)
      (λ r t e. ground (arith, e)) rows (all-const_true rows) i b

-- A matched item has a row, which is one of the locked ones and held.
find_row-filter_inv :
    (ids : List ℕ) (i : ℕ) (rows : List InventoryRow) (r : InventoryRow)
    → contains ids i ≡ true
    → find_row i (filter (λ x. contains ids x.id) rows) ≡ some r
    → find_row i rows ≡ some r
unfolding find_row
find_row-filter_inv ids i [] r c e = cc
find_row-filter_inv ids i (x ∷ rows) r c e =
    ground (arith, e, c, ==_eq x.id i, find_row-filter_inv ids i rows r)

item_matches-row :
    (hold : SeatHold) (session : ℕ) (its : List SeatHoldItem) (rows : List InventoryRow)
    (o : OrderItem)
    → item_matches hold session its rows o ≡ true
    → (r : InventoryRow) × (find_row o.inventory_id rows ≡ some r)
      × (matches_row hold session o r ≡ true)
unfolding item_matches
item_matches-row hold session its rows o e =
    elim (Option-cases (hold_item_for o.inventory_id its)) [
      | inl nowhere ↦ absurd (ground (arith, e, nowhere))
      | inr (it, listed) ↦ elim (Option-cases (find_row o.inventory_id rows)) [
        | inl missing ↦ absurd (ground (arith, e, listed, missing))
        | inr (r, found) ↦ (r, found, ground (arith, e, listed, found))
      ]
    ]

find_row-map_ids :
    (f : InventoryRow → InventoryRow)
    → ((r : InventoryRow) → (f r).id ≡ r.id)
    → (i : ℕ) (rows : List InventoryRow) (r : InventoryRow) → find_row i rows ≡ some r
    → find_row i (map f rows) ≡ some (f r)
unfolding find_row
find_row-map_ids f same i [] r e = cc
find_row-map_ids f same i (x ∷ rows) r e =
    ground (arith, e, same x, find_row-map_ids f same i rows r)

find_row-id :
    (i : ℕ) (rows : List InventoryRow) (r : InventoryRow) → find_row i rows ≡ some r → r.id ≡ i
unfolding find_row
find_row-id i [] r e = cc
find_row-id i (x ∷ rows) r e = ground (arith, e, ==_eq x.id i, find_row-id i rows r)

-- Before the conversion the row of a matched item is not BOOKED, after it is.
module _ (hold : SeatHold) (session : ℕ) (its : List SeatHoldItem) (ids : List ℕ)
    (rows : List InventoryRow) where
  item-becomes_booked :
      (o : OrderItem)
      → contains ids o.inventory_id ≡ true
      → item_matches hold session its (filter (λ x. contains ids x.id) rows) o ≡ true
      → is_booked_at rows o.inventory_id ≡ false
        × is_booked_at (map (convert_row hold.id ids) rows) o.inventory_id ≡ true
  item-becomes_booked o c m =
      let (r, found, matched) =
        item_matches-row hold session its (filter (λ x. contains ids x.id) rows) o m in
      let here = find_row-filter_inv ids o.inventory_id rows r c found in
      let there =
        find_row-map_ids (convert_row hold.id ids) (λ x. ground arith) o.inventory_id rows r here in
      let same = find_row-id o.inventory_id rows r here in
      (
        ground (arith, here, matched),
        ground (arith, there, same, here, matched, c, ==_self hold.id),
      )

  -- Over all items.
  pub items-become_booked :
      (os : List OrderItem)
      → all (contains ids) (item_ids os) ≡ true
      → all (item_matches hold session its (filter (λ x. contains ids x.id) rows)) os ≡ true
      → all (λ i. not (is_booked_at rows i)) (item_ids os) ≡ true
        × all (is_booked_at (map (convert_row hold.id ids) rows)) (item_ids os) ≡ true
  items-become_booked [] c m = (refl, refl)
  items-become_booked (o ∷ os) c m =
      let (a, b) = item-becomes_booked o (ground (arith, c)) (ground (arith, m)) in
      let (before, after) = items-become_booked os (ground (arith, c)) (ground (arith, m)) in
      (ground (arith, a, before), ground (arith, b, after))

contains_of_all :
    (xs ys : List ℕ) → all (contains ys) xs ≡ true → (y : ℕ) → all (contains (y ∷ ys)) xs ≡ true
contains_of_all [] ys e y = refl
contains_of_all (x ∷ xs) ys e y = ground (arith, e, contains_of_all xs ys (ground (arith, e)) y)

pub all-contains_self : (xs : List ℕ) → all (contains xs) xs ≡ true
all-contains_self [] = refl
all-contains_self (x ∷ xs) =
    ground (arith, ==_self x, contains_of_all xs xs (all-contains_self xs) x)

pub booked_ids-append :
    (bs : List Booking) (b : Booking)
    → booked_ids (bs ++ b ∷ []) ≡ booked_ids bs ++ item_ids b.seats
booked_ids-append [] b = append-nil (item_ids b.seats)
booked_ids-append (x ∷ bs) b =
    ap (λ r. item_ids x.seats ++ r) (booked_ids-append bs b)
    ∙ sym (append_assoc (item_ids x.seats) (booked_ids bs) (item_ids b.seats))

all-contains :
    (p : ℕ → Bool) (xs : List ℕ) (i : ℕ) → all p xs ≡ true → contains xs i ≡ true → p i ≡ true
all-contains p [] i e c = cc
all-contains p (x ∷ xs) i e c = elim (Bool-cases (x == i)) [
  | inl here ↦ ground (arith, e, ==_eq x i)
  | inr there ↦ all-contains p xs i (ground (arith, e)) (ground (arith, c, there))
]

is_booked_at-booked :
    (rows : List InventoryRow) (bs : List Booking)
    → all (is_seated rows) bs ≡ true
    → (i : ℕ) → contains (booked_ids bs) i ≡ true
    → is_booked_at rows i ≡ true
is_booked_at-booked rows [] e i c = cc
is_booked_at-booked rows (b ∷ bs) e i c = elim (Bool-cases (contains (item_ids b.seats) i)) [
  | inl here ↦ all-contains (is_booked_at rows) (item_ids b.seats) i (ground (arith, e)) here
  | inr there ↦
      is_booked_at-booked rows bs (ground (arith, e)) i
        (ground (arith, c, there, contains-append (item_ids b.seats) (booked_ids bs) i))
]

-- Seats that are not BOOKED yet are in no booking.
pub not_booked-apart :
    (rows : List InventoryRow) (bs : List Booking) (ids : List ℕ)
    → all (is_seated rows) bs ≡ true
    → all (λ i. not (is_booked_at rows i)) ids ≡ true
    → all (λ i. not (contains (booked_ids bs) i)) ids ≡ true
not_booked-apart rows bs [] e h = refl
not_booked-apart rows bs (i ∷ ids) e h = elim (Bool-cases (contains (booked_ids bs) i)) [
  | inl sold ↦ absurd (ground (arith, h, is_booked_at-booked rows bs e i sold))
  | inr free ↦ ground (arith, h, free, not_booked-apart rows bs ids e (ground (arith, h)))
]
