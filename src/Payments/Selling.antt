-- ===== src/Payments/Selling.antt =====
-- A fulfilment of src/server/payments/webhook-service.ts as one change of the tables: when it
-- commits, and that it keeps them sound.
use seatflow.Prelude.{
  ℕ, ◌==◌, ◌≡◌, refl, Bool, true, false, none, some, List, [], ◌∷◌, ◌++◌, map, all, contains, ok,
  find_by, put_by, find_by-put_by, find_by-put_by_other, arith, Bool-cases, inl, is_distinct, inr,
  ==_eq, ==_self, is_distinct-append, find_by-all, all-put_by,
}
use seatflow.Holds.Tables.{SeatHold, items_of}
use seatflow.Checkout.Tables.{
  CheckoutOrder, PaymentAttempt, Webhook, Booking, Store, order_key, attempt_key, booking_order,
  item_ids, create_booking, ProcessingStatus, put_attempt, put_order,
}
use seatflow.Payments.Snapshots.{snapshots_match}
use seatflow.Payments.Fulfillment.{
  convert_row, convert_hold, booking_for, finish_webhook, fulfill_order, fulfillment_events,
  enqueue_ticket_issuance, paid_attempt, fulfilled,
}
use seatflow.Payments.Converting.{snapshots_match-covers, convert_hold-IsConsistent}
use seatflow.Payments.Processing.{locked_items}
use seatflow.Payments.Soundness.{
  IsSound, is_seated, booked_ids, has_fulfilled_order, has_distinct_items, seated_mono,
}
use seatflow.Payments.Keeping.{enqueue_events-IsConsistent}
use seatflow.Payments.Booking.{
  convert_row-booked, items-become_booked, all-contains_self, booked_ids-append, not_booked-apart,
}

module _ (now fresh : ℕ) (w : Webhook) (a : PaymentAttempt) (o : CheckoutOrder) (hold : SeatHold)
    (s : Store) where
  -- All writes at once.
  abbrev pub sold_store : Store
  sold_store = finish_webhook ProcessingStatus.processed none w (record {
    db = fulfillment_events fresh o (convert_hold now hold.id (item_ids o.items) s.db);
    orders = put_by order_key (fulfilled o) s.orders;
    attempts = put_by attempt_key (paid_attempt a) s.attempts;
    webhooks = s.webhooks;
    bookings = s.bookings ++ booking_for fresh o ∷ [];
    issuance = enqueue_ticket_issuance fresh s.issuance;
  })

  pub fulfill_order-ok :
      (s' : Store) → fulfill_order now fresh w a o hold s ≡ ok s' → s' ≡ sold_store
  unfolding fulfill_order create_booking put_attempt put_order
  fulfill_order-ok s' e = ground (arith, e)

all-append {ℓ} :
    {A : Type ℓ} (p : A → Bool) (xs ys : List A)
    → all p xs ≡ true
    → all p ys ≡ true
    → all p (xs ++ ys) ≡ true
all-append p [] ys e h = h
all-append p (x ∷ xs) ys e h = ground (arith, e, all-append p xs ys (ground (arith, e)) h)

contains-orders :
    (bs : List Booking) (b : Booking) (i : ℕ)
    → contains (map booking_order bs) i ≡ false
    → (b.order_id == i) ≡ false
    → contains (map booking_order (bs ++ b ∷ [])) i ≡ false
contains-orders [] b i f g = ground (arith, g)
contains-orders (x ∷ bs) b i f g = ground (arith, f, contains-orders bs b i (ground (arith, f)) g)

orders-append :
    (bs : List Booking) (b : Booking)
    → is_distinct (map booking_order bs) ≡ true
    → contains (map booking_order bs) b.order_id ≡ false
    → is_distinct (map booking_order (bs ++ b ∷ [])) ≡ true
orders-append [] b d c = refl
orders-append (x ∷ bs) b d c = ground (
  arith,
  orders-append bs b (ground (arith, d)) (ground (arith, c)),
  contains-orders bs b x.order_id (ground (arith, d))
      (ground (arith, c, ==_eq b.order_id x.order_id, ==_self b.order_id)),
)

fulfilled-put_fulfilled :
    (o old : CheckoutOrder) (orders : List CheckoutOrder) (bs : List Booking)
    → find_by order_key o.id orders ≡ some old
    → all (has_fulfilled_order orders) bs ≡ true
    → all (has_fulfilled_order (put_by order_key (fulfilled o) orders)) bs ≡ true
fulfilled-put_fulfilled o old orders [] f e = refl
fulfilled-put_fulfilled o old orders (b ∷ bs) f e = elim (Bool-cases (o.id == b.order_id)) [
  | inl here ↦ ground (
    arith,
    ==_eq o.id b.order_id,
    find_by-put_by order_key o.id orders old (fulfilled o) f refl,
    fulfilled-put_fulfilled o old orders bs f (ground (arith, e)),
  )
  | inr there ↦ ground (
    arith,
    e,
    find_by-put_by_other order_key b.order_id orders (fulfilled o) there,
    fulfilled-put_fulfilled o old orders bs f (ground (arith, e)),
  )
]

-- With matching snapshots for an order without a booking, the new tables are sound.
pub sold_store-IsSound :
    (now fresh : ℕ) (w : Webhook) (a : PaymentAttempt) (o : CheckoutOrder) (hold : SeatHold)
    (s : Store)
    → find_by order_key o.id s.orders ≡ some o
    → contains (map booking_order s.bookings) o.id ≡ false
    → snapshots_match hold o.session_id o.items (items_of hold.id s.db.items) (locked_items o s.db)
      ≡ true
    → IsSound s
    → IsSound (sold_store now fresh w a o hold s)
unfolding snapshots_match
sold_store-IsSound now fresh w a o hold s f c m i =
    let ids = item_ids o.items in
    let rows = s.db.inventory in
    let distinct = find_by-all order_key has_distinct_items o.id s.orders o f i.distinct_items in
    let (unsold, sold) =
      items-become_booked hold o.session_id (items_of hold.id s.db.items) ids rows o.items
        (all-contains_self ids) (ground (arith, m)) in
    record {
      consistent = enqueue_events-IsConsistent _ _ (
          convert_hold-IsConsistent now hold.id ids s.db
            (snapshots_match-covers hold o.session_id o.items s.db.items (locked_items o s.db) m
              distinct)
            i.consistent);
      seated =
          all-append (is_seated (map (convert_row hold.id ids) rows)) s.bookings
            (booking_for fresh o ∷ [])
            (seated_mono rows (map (convert_row hold.id ids) rows)
              (convert_row-booked hold.id ids rows) s.bookings i.seated)
            (ground (arith, sold));
      sold_once = rw (booked_ids-append s.bookings (booking_for fresh o)) (
          is_distinct-append (booked_ids s.bookings) ids i.sold_once distinct
            (not_booked-apart rows s.bookings ids i.seated unsold));
      fulfilled =
          all-append (has_fulfilled_order (put_by order_key (fulfilled o) s.orders)) s.bookings
            (booking_for fresh o ∷ [])
            (fulfilled-put_fulfilled o o s.orders s.bookings f i.fulfilled)
            (ground (arith, find_by-put_by order_key o.id s.orders o (fulfilled o) f refl));
      distinct_orders = orders-append s.bookings (booking_for fresh o) i.distinct_orders c;
      distinct_items =
          all-put_by order_key has_distinct_items (fulfilled o) s.orders distinct i.distinct_items;
    }
