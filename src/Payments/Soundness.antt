-- ===== src/Payments/Soundness.antt =====
-- What joins the tables of checkout and payment between two transactions.
use seatflow.Prelude.{
  ℕ, ◌==◌, ◌≡◌, refl, Bool, true, false, none, some, List, [], ◌∷◌, ◌++◌, map, all, is_distinct,
  arith, Bool-cases, inl, inr, find_by,
}
use seatflow.Domain.{SeatInventoryState}
use seatflow.Holds.Tables.{InventoryRow, Database, find_row}
use seatflow.Holds.Expiry.{release_row, release_rows}
use seatflow.Holds.Consistency.{IsConsistent, is_row_consistent}
use seatflow.Checkout.Tables.{CheckoutOrder, Booking, Store, item_ids, order_key, booking_order}
use seatflow.Payments.Processing.{is_fulfilled_order}

abbrev pub is_booked : SeatInventoryState → Bool
is_booked SeatInventoryState.booked = true
is_booked _ = false

abbrev pub is_booked_at : List InventoryRow → ℕ → Bool
is_booked_at rows i = elim (find_row i rows) [ none ↦ false | some r ↦ is_booked r.state ]

abbrev pub is_seated : List InventoryRow → Booking → Bool
is_seated rows b = all (is_booked_at rows) (item_ids b.seats)

-- The inventory rows of all bookings.
abbrev pub booked_ids : List Booking → List ℕ
booked_ids [] = []
booked_ids (b ∷ bs) = item_ids b.seats ++ booked_ids bs

abbrev pub has_fulfilled_order : List CheckoutOrder → Booking → Bool
has_fulfilled_order orders b = elim (find_by order_key b.order_id orders) [
  | none ↦ false
  | some o ↦ is_fulfilled_order o.status
]

abbrev pub has_distinct_items : CheckoutOrder → Bool
has_distinct_items o = is_distinct (item_ids o.items)

pub record IsSound (s : Store) : Type 0 where
  pub consistent : IsConsistent s.db
  -- every seat of a booking is BOOKED, in no other booking, and the order of the booking is FULFILLED
  pub seated : all (is_seated s.db.inventory) s.bookings ≡ true
  pub sold_once : is_distinct (booked_ids s.bookings) ≡ true
  pub fulfilled : all (has_fulfilled_order s.orders) s.bookings ≡ true
  -- the unique indexes on the order of a booking and on the items of an order
  pub distinct_orders : is_distinct (map booking_order s.bookings) ≡ true
  pub distinct_items : all has_distinct_items s.orders ≡ true

-- Rows that a change of the tables keeps BOOKED.
pub is_booked_at-map :
    (p : InventoryRow → Bool) (f : InventoryRow → InventoryRow)
    → ((r : InventoryRow) → (f r).id ≡ r.id)
    → ((r : InventoryRow) → p r ≡ true → is_booked r.state ≡ true → is_booked (f r).state ≡ true)
    → (rows : List InventoryRow) → all p rows ≡ true
    → (i : ℕ) → is_booked_at rows i ≡ true
    → is_booked_at (map f rows) i ≡ true
unfolding find_row
is_booked_at-map p f same keep [] a i e = e
is_booked_at-map p f same keep (r ∷ rows) a i e = elim (Bool-cases (r.id == i)) [
  | inl here ↦ ground (arith, e, here, same r, keep r (ground (arith, a)) (ground (arith, e, here)))
  | inr there ↦ ground (
    arith,
    e,
    there,
    same r,
    is_booked_at-map p f same keep rows (ground (arith, a)) i (ground (arith, e, there)),
  )
]

all-imp :
    (p q : ℕ → Bool)
    → ((i : ℕ) → p i ≡ true → q i ≡ true)
    → (xs : List ℕ) → all p xs ≡ true
    → all q xs ≡ true
all-imp p q h [] e = refl
all-imp p q h (x ∷ xs) e = ground (arith, e, h x, all-imp p q h xs)

pub seated_mono :
    (rows rows' : List InventoryRow)
    → ((i : ℕ) → is_booked_at rows i ≡ true → is_booked_at rows' i ≡ true)
    → (bs : List Booking) → all (is_seated rows) bs ≡ true
    → all (is_seated rows') bs ≡ true
seated_mono rows rows' h [] e = refl
seated_mono rows rows' h (b ∷ bs) e = ground (
  arith,
  e,
  all-imp (is_booked_at rows) (is_booked_at rows') h (item_ids b.seats),
  seated_mono rows rows' h bs,
)

-- The rule for every change of the tables of holds.
pub database-IsSound :
    (s : Store) (db : Database)
    → IsConsistent db
    → ((i : ℕ) → is_booked_at s.db.inventory i ≡ true → is_booked_at db.inventory i ≡ true)
    → IsSound s
    → IsSound (record s { db = db })
database-IsSound s db c h i = record {
  consistent = c;
  seated = seated_mono s.db.inventory db.inventory h s.bookings i.seated;
  sold_once = i.sold_once;
  fulfilled = i.fulfilled;
  distinct_orders = i.distinct_orders;
  distinct_items = i.distinct_items;
}

-- Freeing rows leaves the BOOKED ones alone.
pub release_rows-booked :
    (ids : List ℕ) (db : Database)
    → IsConsistent db
    → (i : ℕ) → is_booked_at db.inventory i ≡ true
    → is_booked_at (release_rows ids db.inventory) i ≡ true
unfolding is_row_consistent
release_rows-booked ids db c =
    is_booked_at-map (is_row_consistent db.holds db.items) (release_row ids) (λ r. ground arith)
      (λ r e b. ground (arith, e, b)) db.inventory c.rows
