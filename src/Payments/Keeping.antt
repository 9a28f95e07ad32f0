-- ===== src/Payments/Keeping.antt =====
-- The single writes of a payment keep the tables of src/server/payments/webhook-service.ts sound.
use seatflow.Prelude.{
  ◌≡◌, refl, true, false, some, List, [], ◌∷◌, map, all, contains, ok, find_by, put_by, all-put_by,
  find_by-all, find_by-put_by_other, arith, Bool-cases, inl, inr, ==_eq, ==_self,
}
use seatflow.Holds.Tables.{Database, OutboxEntry}
use seatflow.Holds.Consistency.{IsConsistent}
use seatflow.Checkout.Tables.{
  CheckoutOrder, PaymentAttempt, Webhook, Booking, Store, order_key, attempt_key, booking_order,
  put_attempt, put_order, put_webhook, enqueue_events, allows_order, allows_attempt,
}
use seatflow.Payments.Soundness.{IsSound, has_distinct_items, has_fulfilled_order, database-IsSound}

-- What a write did when its trigger let it through.
pub put_attempt-ok :
    (old new : PaymentAttempt) (s s' : Store)
    → put_attempt old new s ≡ ok s'
    → s' ≡ record s { attempts = put_by attempt_key new s.attempts }
unfolding put_attempt
put_attempt-ok old new s s' e = elim (Bool-cases (allows_attempt old new)) [
  | inl allowed ↦ ground (arith, e, allowed)
  | inr refused ↦ ground (arith, e, refused)
]

pub put_order-ok :
    (old new : CheckoutOrder) (s s' : Store)
    → put_order old new s ≡ ok s'
    → s' ≡ record s { orders = put_by order_key new s.orders }
unfolding put_order
put_order-ok old new s s' e = elim (Bool-cases (allows_order old new)) [
  | inl allowed ↦ ground (arith, e, allowed)
  | inr refused ↦ ground (arith, e, refused)
]

pub enqueue_events-IsConsistent :
    (es : List OutboxEntry) (db : Database) → IsConsistent db → IsConsistent (enqueue_events es db)
enqueue_events-IsConsistent es db c = record {
  rows = c.rows;
  distinct_rows = c.distinct_rows;
  distinct_holds = c.distinct_holds;
  distinct_seats = c.distinct_seats;
  owned_items = c.owned_items;
}

pub enqueue_events-IsSound :
    (es : List OutboxEntry) (s : Store)
    → IsSound s
    → IsSound (record s { db = enqueue_events es s.db })
enqueue_events-IsSound es s i =
    database-IsSound s (enqueue_events es s.db) (enqueue_events-IsConsistent es s.db i.consistent)
      (λ r b. b) i

pub put_webhook-IsSound : (w : Webhook) (s : Store) → IsSound s → IsSound (put_webhook w s)
put_webhook-IsSound w s i = record {
  consistent = i.consistent;
  seated = i.seated;
  sold_once = i.sold_once;
  fulfilled = i.fulfilled;
  distinct_orders = i.distinct_orders;
  distinct_items = i.distinct_items;
}

pub put_attempt-IsSound :
    (old new : PaymentAttempt) (s s' : Store)
    → put_attempt old new s ≡ ok s'
    → IsSound s
    → IsSound s'
put_attempt-IsSound old new s s' e i = rw (put_attempt-ok old new s s' e) (record {
  consistent = i.consistent;
  seated = i.seated;
  sold_once = i.sold_once;
  fulfilled = i.fulfilled;
  distinct_orders = i.distinct_orders;
  distinct_items = i.distinct_items;
})

fulfilled-put_order :
    (new : CheckoutOrder) (orders : List CheckoutOrder) (bs : List Booking)
    → contains (map booking_order bs) new.id ≡ false
    → all (has_fulfilled_order orders) bs ≡ true
    → all (has_fulfilled_order (put_by order_key new orders)) bs ≡ true
fulfilled-put_order new orders [] c e = refl
fulfilled-put_order new orders (b ∷ bs) c e = ground (
  arith,
  e,
  find_by-put_by_other order_key b.order_id orders new
      (ground (arith, c, ==_eq new.id b.order_id, ==_self new.id)),
  fulfilled-put_order new orders bs (ground (arith, c)) (ground (arith, e)),
)

-- An order without a booking can be rewritten, its items kept.
pub put_order-IsSound :
    (old new : CheckoutOrder) (s s' : Store)
    → put_order old new s ≡ ok s'
    → find_by order_key new.id s.orders ≡ some old
    → new.items ≡ old.items
    → contains (map booking_order s.bookings) new.id ≡ false
    → IsSound s
    → IsSound s'
put_order-IsSound old new s s' e f same c i = rw (put_order-ok old new s s' e) (record {
  consistent = i.consistent;
  seated = i.seated;
  sold_once = i.sold_once;
  fulfilled = fulfilled-put_order new s.orders s.bookings c i.fulfilled;
  distinct_orders = i.distinct_orders;
  distinct_items =
      all-put_by order_key has_distinct_items new s.orders
        (ground (
          arith,
          same,
          find_by-all order_key has_distinct_items new.id s.orders old f i.distinct_items,
        ))
        i.distinct_items;
})
