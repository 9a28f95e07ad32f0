-- ===== src/Payments/Outcomes.antt =====
-- The outcomes of the transaction of src/server/payments/webhook-service.ts keep the tables sound.
use seatflow.Prelude.{
  ℕ, ◌≡◌, refl, Bool, true, false, ◌&&◌, some, map, contains, ok, find_by, if◌then◌else◌, arith,
  Bool-cases, inl, inr, >>=-eq-ok, ok-injective,
}
use seatflow.Domain.{PaymentAttemptStatus}
use seatflow.Holds.Tables.{SeatHold, Session, Database, items_of, is_active, hold_ids}
use seatflow.Holds.Expiry.{release_expired_holds_for_session, is_overdue_in}
use seatflow.Holds.Closing.{release_expired-IsConsistent}
use seatflow.Checkout.Lifecycle.{FulfillmentReview, fulfill, idempotent, review}
use seatflow.Checkout.Tables.{
  SafeCode, decided, CheckoutOrder, PaymentAttempt, Webhook, Store, order_key, booking_order,
  put_attempt, put_order,
}
use seatflow.Payments.Snapshots.{snapshots_match}
use seatflow.Payments.Fulfillment.{
  mark_webhook_review, mark_attempt, mark_order, succeeded, put_in_review, review_events,
}
use seatflow.Payments.Processing.{
  locked_items, process_failure, process_pending, tidy_expired, decide, process_paid,
  process_success, fail_attempt, fail_order, is_open_order, is_expired_review,
}
use seatflow.Payments.Soundness.{IsSound, database-IsSound, release_rows-booked}
use seatflow.Payments.Keeping.{
  put_attempt-IsSound, put_order-IsSound, put_webhook-IsSound, enqueue_events-IsSound,
  put_attempt-ok,
}
use seatflow.Payments.Selling.{fulfill_order-ok, sold_store-IsSound}

-- The order that a transaction has locked: it is in the table and without a booking.
pub record IsUnbooked (o : CheckoutOrder) (s : Store) : Type 0 where
  pub stored : find_by order_key o.id s.orders ≡ some o
  pub unbooked : contains (map booking_order s.bookings) o.id ≡ false

mark_attempt-IsSound :
    (paid : Bool) (a : PaymentAttempt) (o : CheckoutOrder) (s s' : Store)
    → mark_attempt paid a s ≡ ok s'
    → IsUnbooked o s
    → IsSound s
    → IsUnbooked o s' × IsSound s'
mark_attempt-IsSound true a o s s' e u i = (
  rw (put_attempt-ok a (succeeded a) s s' e) (record { stored = u.stored; unbooked = u.unbooked }),
  put_attempt-IsSound a (succeeded a) s s' e i,
)
mark_attempt-IsSound false a o s s' e u i = rw (ok-injective e) (u, i)

review_events-IsSound :
    (paid : Bool) (o : CheckoutOrder) (s : Store)
    → IsSound s
    → IsSound (record s { db = review_events paid o s.db })
review_events-IsSound true o s i = enqueue_events-IsSound _ s i
review_events-IsSound false o s i = enqueue_events-IsSound _ s i

mark_order-IsSound :
    (code : SafeCode) (paid preserve : Bool) (o : CheckoutOrder) (s s' : Store)
    → mark_order code paid preserve o s ≡ ok s'
    → IsUnbooked o s
    → IsSound s
    → IsSound s'
mark_order-IsSound code paid true o s s' e u i = rw (ok-injective e) i
mark_order-IsSound code paid false o s s' e u i =
    put_order-IsSound o (put_in_review code paid o) s s' e u.stored refl u.unbooked i

pub mark_webhook_review-IsSound :
    (code : SafeCode) (paid preserve : Bool) (w : Webhook) (a : PaymentAttempt) (o : CheckoutOrder)
    (s s' : Store)
    → mark_webhook_review code paid preserve w a o s ≡ ok s'
    → IsUnbooked o s
    → IsSound s
    → IsSound s'
unfolding mark_webhook_review
mark_webhook_review-IsSound code paid preserve w a o s s' e u i =
    let (s₁, e₁, r₁) = >>=-eq-ok (mark_attempt paid a s) _ e in
    let (u₁, i₁) = mark_attempt-IsSound paid a o s s₁ e₁ u i in
    let (s₂, e₂, r₂) = >>=-eq-ok (mark_order code paid preserve o s₁) _ r₁ in
    rw (ok-injective r₂) (
      put_webhook-IsSound _ _
        (review_events-IsSound paid o s₂ (mark_order-IsSound code paid preserve o s₁ s₂ e₂ u₁ i₁)))

fail_order-IsSound :
    (unsettled : Bool) (status : PaymentAttemptStatus) (o : CheckoutOrder) (s s' : Store)
    → (if unsettled then put_order o (fail_order status o) s else ok s) ≡ ok s'
    → IsUnbooked o s
    → IsSound s
    → IsSound s'
fail_order-IsSound true status o s s' e u i =
    put_order-IsSound o (fail_order status o) s s' e u.stored refl u.unbooked i
fail_order-IsSound false status o s s' e u i = rw (ok-injective e) i

pub attempt-step :
    (old new : PaymentAttempt) (o : CheckoutOrder) (s s' : Store)
    → put_attempt old new s ≡ ok s'
    → IsUnbooked o s
    → IsUnbooked o s'
attempt-step old new o s s' e u =
    rw (put_attempt-ok old new s s' e) (record { stored = u.stored; unbooked = u.unbooked })

pub process_failure-IsSound :
    (status : PaymentAttemptStatus) (w : Webhook) (a : PaymentAttempt) (o : CheckoutOrder)
    (s s' : Store)
    → process_failure status w a o s ≡ ok s'
    → IsUnbooked o s
    → IsSound s
    → IsSound s'
unfolding process_failure
process_failure-IsSound status w a o s s' e u i =
    let (s₁, e₁, r₁) = >>=-eq-ok (put_attempt a (fail_attempt status a) s) _ e in
    let (s₂, e₂, r₂) =
      >>=-eq-ok (if is_open_order o.status then put_order o (fail_order status o) s₁ else ok s₁) _
        r₁ in
    rw (ok-injective r₂) (
      put_webhook-IsSound _ _ (
        enqueue_events-IsSound _ s₂ (
          fail_order-IsSound (is_open_order o.status) status o s₁ s₂ e₂
            (attempt-step a (fail_attempt status a) o s s₁ e₁ u)
            (put_attempt-IsSound a (fail_attempt status a) s s₁ e₁ i))))

pub process_pending-IsSound :
    (w : Webhook) (a : PaymentAttempt) (s s' : Store)
    → process_pending w a s ≡ ok s'
    → IsSound s
    → IsSound s'
unfolding process_pending
process_pending-IsSound w a s s' e i =
    let (s₁, e₁, r₁) =
      >>=-eq-ok (put_attempt a (record a { status = PaymentAttemptStatus.pending }) s) _ e in
    rw (ok-injective r₁) (put_webhook-IsSound _ _ (put_attempt-IsSound a _ s s₁ e₁ i))

pub release_expired-IsSound :
    (session now : ℕ) (s : Store)
    → IsSound s
    → IsSound (record s { db = (release_expired_holds_for_session session now s.db).0 })
unfolding release_expired_holds_for_session
release_expired-IsSound session now s i =
    database-IsSound s (release_expired_holds_for_session session now s.db).0
      (release_expired-IsConsistent session now s.db i.consistent)
      (release_rows-booked (hold_ids (is_overdue_in session now) s.db.holds) s.db i.consistent) i

database-choice :
    (test : Bool) (s : Store) (db : Database)
    → IsSound s
    → IsSound (record s { db = db })
    → IsSound (record s { db = if test then db else s.db })
database-choice true s db i j = j
database-choice false s db i j = database-IsSound s s.db i.consistent (λ r b. b) i

tidy_expired-IsSound :
    (code : FulfillmentReview) (now : ℕ) (o : CheckoutOrder) (hold : SeatHold) (s : Store)
    → IsSound s
    → IsSound (record s { db = tidy_expired code now o hold s.db })
tidy_expired-IsSound code now o hold s i =
    database-choice (is_expired_review code && is_active hold.status) s
      (release_expired_holds_for_session o.session_id now s.db).0 i
      (release_expired-IsSound o.session_id now s i)

process_paid-IsSound :
    (now fresh : ℕ) (w : Webhook) (a : PaymentAttempt) (o : CheckoutOrder) (hold : SeatHold)
    (s s' : Store)
    → process_paid now fresh w a o hold s ≡ ok s'
    → IsUnbooked o s
    → IsSound s
    → IsSound s'
unfolding process_paid
process_paid-IsSound now fresh w a o hold s s' e u i =
    elim (Bool-cases (
      snapshots_match hold o.session_id o.items (items_of hold.id s.db.items)
        (locked_items o s.db))) [
          | inl m ↦
              rw (fulfill_order-ok now fresh w a o hold s s' (ground (arith, e, m)))
                (sold_store-IsSound now fresh w a o hold s u.stored u.unbooked m i)
          | inr m ↦
              mark_webhook_review-IsSound SafeCode.fulfillment_snapshot_mismatch true false w a o s
                s' (ground (arith, e, m)) u i
        ]

pub process_success-IsSound :
    (now fresh : ℕ) (w : Webhook) (a : PaymentAttempt) (o : CheckoutOrder) (hold : SeatHold)
    (session : Session) (s s' : Store)
    → process_success now fresh w a o hold session s ≡ ok s'
    → IsUnbooked o s
    → IsSound s
    → IsSound s'
unfolding process_success
process_success-IsSound now fresh w a o hold session s s' =
    elim (decide now o hold session)
      as (λ d.
        elim d [
          | fulfill ↦ process_paid now fresh w a o hold s
          | idempotent ↦ process_paid now fresh w a o hold s
          | review code ↦
              mark_webhook_review (decided code) true false w a o
                (record s { db = tidy_expired code now o hold s.db })
        ]
          ≡ ok s'
        → IsUnbooked o s
        → IsSound s
        → IsSound s') [
          | fulfill ↦ process_paid-IsSound now fresh w a o hold s s'
          | idempotent ↦ process_paid-IsSound now fresh w a o hold s s'
          | review code ↦ λ e u i.
              mark_webhook_review-IsSound (decided code) true false w a o
                (record s { db = tidy_expired code now o hold s.db }) s' e
                (record { stored = u.stored; unbooked = u.unbooked })
                (tidy_expired-IsSound code now o hold s i)
        ]
