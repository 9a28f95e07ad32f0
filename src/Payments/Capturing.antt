-- ===== src/Payments/Capturing.antt =====
-- The two ends of captured money in src/server/payments/webhook-service.ts: a sale and a review.
use seatflow.Prelude.{
  ℕ, ◌≡◌, refl, true, false, not, ◌||◌, none, some, List, [], ◌∷◌, ◌++◌, all, any, contains, ok,
  find_by, put_by, length, arith, ==_self, find_by-put_by, ◌∙◌, apart-cons,
}
use seatflow.Holds.Tables.{SeatHold, Database, items_of, find_hold}
use seatflow.Holds.Consistency.{find_hold-update_holds}
use seatflow.Checkout.Lifecycle.{is_terminal_checkout_status}
use seatflow.Checkout.Tables.{
  SafeCode, CheckoutOrder, PaymentAttempt, Webhook, Booking, Store, order_key, attempt_key,
  webhook_key, ProcessingStatus, put_attempt, put_order, create_booking, is_terminal_payment_status,
  item_ids, has_booked, OrderItem,
}
use seatflow.Payments.Snapshots.{snapshots_match}
use seatflow.Payments.Fulfillment.{
  finish_webhook, finished, fulfill_order, mark_webhook_review, succeeded, put_in_review,
  review_events, booking_for, fulfilled, paid_attempt, converted, has_hold_id,
}
use seatflow.Payments.Processing.{locked_items}
use seatflow.Payments.Converting.{snapshots_match-convertible}
use seatflow.Payments.Soundness.{IsSound, is_booked_at, booked_ids}
use seatflow.Payments.Booking.{items-become_booked, all-contains_self, not_booked-apart}
use seatflow.Payments.Outcomes.{IsUnbooked}
use seatflow.Payments.Selling.{sold_store}

-- An index on the seats of bookings is not hit by seats that no booking has.
any-apart :
    (xs ids : List ℕ) → all (λ i. not (contains xs i)) ids ≡ true → any (contains ids) xs ≡ false
any-apart [] ids e = refl
any-apart (x ∷ xs) ids e =
    let (rest, free) = apart-cons x xs ids e in ground (arith, free, any-apart xs ids rest)

any-seats :
    (ids : List ℕ) (its : List OrderItem) (xs : List ℕ)
    → any (contains ids) (item_ids its ++ xs)
      ≡ (any (λ it. contains ids it.inventory_id) its || any (contains ids) xs)
any-seats ids [] xs = refl
any-seats ids (it ∷ its) xs = ground (arith, any-seats ids its xs)

has_booked-any :
    (ids : List ℕ) (bs : List Booking) → has_booked ids bs ≡ any (contains ids) (booked_ids bs)
has_booked-any ids [] = refl
has_booked-any ids (b ∷ bs) =
    ground (arith, has_booked-any ids bs, any-seats ids b.seats (booked_ids bs))

-- The store of a review of captured money.
abbrev pub reviewed_store :
    SafeCode → Webhook → PaymentAttempt → CheckoutOrder → Database → Store → Store
reviewed_store code w a o db s =
    finish_webhook ProcessingStatus.requires_review (some code) w (record s {
      db = review_events true o db;
      orders = put_by order_key (put_in_review code true o) s.orders;
      attempts = put_by attempt_key (succeeded a) s.attempts;
    })

pub mark_webhook_review-paid :
    (code : SafeCode) (w : Webhook) (a : PaymentAttempt) (o : CheckoutOrder) (db : Database)
    (s : Store)
    → is_terminal_payment_status a.status ≡ false
    → is_terminal_checkout_status o.status ≡ false
    → mark_webhook_review code true false w a o (record s { db = db })
      ≡ ok (reviewed_store code w a o db s)
unfolding mark_webhook_review put_attempt put_order
mark_webhook_review-paid code w a o db s t u = ground (arith, t, u)

pub fulfill_order-sold :
    (now fresh : ℕ) (w : Webhook) (a : PaymentAttempt) (o : CheckoutOrder) (hold : SeatHold)
    (s : Store)
    → is_terminal_payment_status a.status ≡ false
    → is_terminal_checkout_status o.status ≡ false
    → IsUnbooked o s
    → IsSound s
    → snapshots_match hold o.session_id o.items (items_of hold.id s.db.items) (locked_items o s.db)
      ≡ true
    → fulfill_order now fresh w a o hold s ≡ ok (sold_store now fresh w a o hold s)
unfolding fulfill_order create_booking put_attempt put_order snapshots_match
fulfill_order-sold now fresh w a o hold s t v u i m =
    let ids = item_ids o.items in
    let (unsold, sold) =
      items-become_booked hold o.session_id (items_of hold.id s.db.items) ids s.db.inventory o.items
        (all-contains_self ids) (ground (arith, m)) in
    let free =
      has_booked-any ids s.bookings
      ∙ any-apart (booked_ids s.bookings) ids
          (not_booked-apart s.db.inventory s.bookings ids i.seated unsold) in
    let found =
      snapshots_match-convertible hold o.session_id o.items (items_of hold.id s.db.items)
        s.db.inventory i.consistent.distinct_rows m in
    ground (arith, t, v, u.unbooked, free, found, ==_self (length ids))

-- The rows that a writer has locked: what it read is what the tables hold.
pub record IsLocked (w : Webhook) (a : PaymentAttempt) (o : CheckoutOrder) (hold : SeatHold)
    (s : Store) : Type 0 where
  pub stored_webhook : find_by webhook_key w.id s.webhooks ≡ some w
  pub stored_attempt : find_by attempt_key a.id s.attempts ≡ some a
  pub stored_order : find_by order_key o.id s.orders ≡ some o
  pub stored_hold : find_hold hold.id s.db.holds ≡ some hold

-- A booking of all items was made: the order is FULFILLED, the attempt SUCCEEDED, the hold CONVERTED,
-- the seats are BOOKED and the webhook is PROCESSED.
pub record IsSold (now fresh : ℕ) (w : Webhook) (a : PaymentAttempt) (o : CheckoutOrder)
    (hold : SeatHold) (s s' : Store) : Type 0 where
  pub bookings : s'.bookings ≡ s.bookings ++ booking_for fresh o ∷ []
  pub seats : all (is_booked_at s'.db.inventory) (item_ids o.items) ≡ true
  pub order : find_by order_key o.id s'.orders ≡ some (fulfilled o)
  pub attempt : find_by attempt_key a.id s'.attempts ≡ some (paid_attempt a)
  pub sold_hold : find_hold hold.id s'.db.holds ≡ some (converted now hold)
  pub webhook :
      find_by webhook_key w.id s'.webhooks ≡ some (finished ProcessingStatus.processed none w)

-- Nothing was sold: the order is PAID_UNFULFILLED with a code, the attempt SUCCEEDED and the webhook
-- REQUIRES_REVIEW with the same code.
pub record IsReviewed (w : Webhook) (a : PaymentAttempt) (o : CheckoutOrder) (s s' : Store)
    : Type 0 where
  pub code : SafeCode
  pub bookings : s'.bookings ≡ s.bookings
  pub order : find_by order_key o.id s'.orders ≡ some (put_in_review code true o)
  pub attempt : find_by attempt_key a.id s'.attempts ≡ some (succeeded a)
  pub webhook :
      find_by webhook_key w.id s'.webhooks
      ≡ some (finished ProcessingStatus.requires_review (some code) w)

pub reviewed_store-IsReviewed :
    (code : SafeCode) (w : Webhook) (a : PaymentAttempt) (o : CheckoutOrder) (hold : SeatHold)
    (db : Database) (s : Store)
    → IsLocked w a o hold s
    → IsReviewed w a o s (reviewed_store code w a o db s)
reviewed_store-IsReviewed code w a o hold db s k = record {
  code = code;
  bookings = refl;
  order = find_by-put_by order_key o.id s.orders o (put_in_review code true o) k.stored_order refl;
  attempt = find_by-put_by attempt_key a.id s.attempts a (succeeded a) k.stored_attempt refl;
  webhook =
      find_by-put_by webhook_key w.id s.webhooks w
        (finished ProcessingStatus.requires_review (some code) w) k.stored_webhook refl;
}

pub sold_store-IsSold :
    (now fresh : ℕ) (w : Webhook) (a : PaymentAttempt) (o : CheckoutOrder) (hold : SeatHold)
    (s : Store)
    → IsLocked w a o hold s
    → snapshots_match hold o.session_id o.items (items_of hold.id s.db.items) (locked_items o s.db)
      ≡ true
    → IsSold now fresh w a o hold s (sold_store now fresh w a o hold s)
unfolding snapshots_match
sold_store-IsSold now fresh w a o hold s k m =
    let ids = item_ids o.items in
    let (unsold, sold) =
      items-become_booked hold o.session_id (items_of hold.id s.db.items) ids s.db.inventory o.items
        (all-contains_self ids) (ground (arith, m)) in
    record {
      bookings = refl;
      seats = sold;
      order = find_by-put_by order_key o.id s.orders o (fulfilled o) k.stored_order refl;
      attempt = find_by-put_by attempt_key a.id s.attempts a (paid_attempt a) k.stored_attempt refl;
      sold_hold = ground (
        arith,
        find_hold-update_holds (has_hold_id hold.id) (converted now) (λ h. refl) hold.id s.db.holds
            hold k.stored_hold,
        ==_self hold.id,
      );
      webhook =
          find_by-put_by webhook_key w.id s.webhooks w (finished ProcessingStatus.processed none w)
            k.stored_webhook refl;
    }
