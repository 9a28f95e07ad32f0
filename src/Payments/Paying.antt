-- ===== src/Payments/Paying.antt =====
-- What becomes of captured money: a SUCCEEDED event in the transaction of
-- src/server/payments/webhook-service.ts.
use seatflow.Prelude.{
  ℕ, ◌≡◌, refl, Bool, true, false, ◌&&◌, some, List, [], ◌∷◌, map, all, contains, ok, err, find_by,
  arith, Bool-cases, inl, ==_eq, inr, ◌⊎◌, ◌∙◌,
}
use seatflow.Domain.{CheckoutOrderStatus, PaymentAttemptStatus}
use seatflow.Holds.Tables.{SeatHold, Session, items_of}
use seatflow.Checkout.Lifecycle.{
  PaidFulfillmentDecision, fulfill, idempotent, review, is_terminal_checkout_status, is_fulfill,
  decide_paid_fulfillment,
}
use seatflow.Checkout.Tables.{
  SafeCode, decided, CheckoutOrder, PaymentAttempt, Webhook, Booking, Store, PaymentError,
  order_key, booking_order, put_attempt, put_order, is_contradictory_terminal_status,
  is_terminal_payment_status,
}
use seatflow.Payments.Snapshots.{snapshots_match}
use seatflow.Payments.Fulfillment.{mark_webhook_review}
use seatflow.Payments.Processing.{
  locked_items, tidy_expired, decide, process_paid, process_success, process_order, amount_matches,
  is_fulfilled_order,
}
use seatflow.Payments.Soundness.{IsSound, has_fulfilled_order}
use seatflow.Payments.Processing.{is_open_order}
use seatflow.Payments.Outcomes.{IsUnbooked}
use seatflow.Payments.Selling.{sold_store}
use seatflow.Payments.Capturing.{
  IsLocked, IsSold, IsReviewed, reviewed_store, reviewed_store-IsReviewed, sold_store-IsSold,
  mark_webhook_review-paid, fulfill_order-sold,
}

pub no_booking :
    (o : CheckoutOrder) (orders : List CheckoutOrder) (bs : List Booking)
    → find_by order_key o.id orders ≡ some o
    → is_fulfilled_order o.status ≡ false
    → all (has_fulfilled_order orders) bs ≡ true
    → contains (map booking_order bs) o.id ≡ false
no_booking o orders [] f t e = refl
no_booking o orders (b ∷ bs) f t e =
    ground (arith, f, t, e, ==_eq b.order_id o.id, no_booking o orders bs f t (ground (arith, e)))

-- Whether the decision is FULFILL and the snapshots match.
abbrev pub is_sellable : ℕ → CheckoutOrder → SeatHold → Session → Store → Bool
is_sellable now o hold session s =
    is_fulfill (decide now o hold session)
    && snapshots_match hold o.session_id o.items (items_of hold.id s.db.items) (locked_items o s.db)

module _ (now fresh : ℕ) (w : Webhook) (a : PaymentAttempt) (o : CheckoutOrder) (hold : SeatHold)
    (session : Session) (s : Store) where
  abbrev pub IsSettled : Type 0
  IsSettled =
      (s' : Store) × (process_order now fresh PaymentAttemptStatus.succeeded w a o hold session s
        ≡ ok s')
      × ((is_sellable now o hold session s ≡ true) × IsSold now fresh w a o hold s s'
          ⊎ (is_sellable now o hold session s ≡ false) × IsReviewed w a o s s')

  process_order-success :
      contains (map booking_order s.bookings) o.id ≡ false
      → is_terminal_payment_status a.status ≡ false
      → is_terminal_checkout_status o.status ≡ false
      → amount_matches w a o ≡ true
      → process_order now fresh PaymentAttemptStatus.succeeded w a o hold session s
        ≡ process_success now fresh w a o hold session s
  unfolding process_order is_contradictory_terminal_status is_terminal_checkout_status
  process_order-success c t u m = ground (arith, c, t, u, m)

  decide-new :
      decide now o hold session ≡ idempotent → is_terminal_checkout_status o.status ≡ false → ⊥
  unfolding decide_paid_fulfillment is_terminal_checkout_status
  decide-new e t = ground (arith, e, t)

  process_success-settled :
      (d : PaidFulfillmentDecision)
      → decide now o hold session ≡ d
      → IsUnbooked o s
      → IsSound s
      → IsLocked w a o hold s
      → is_terminal_payment_status a.status ≡ false
      → is_terminal_checkout_status o.status ≡ false
      → (s' : Store) × (process_success now fresh w a o hold session s ≡ ok s')
        × ((is_sellable now o hold session s ≡ true) × IsSold now fresh w a o hold s s'
            ⊎ (is_sellable now o hold session s ≡ false) × IsReviewed w a o s s')
  unfolding process_success process_paid
  process_success-settled fulfill e u i k t v =
      elim (Bool-cases (
        snapshots_match hold o.session_id o.items (items_of hold.id s.db.items)
          (locked_items o s.db))) [
            | inl m ↦ (
              sold_store now fresh w a o hold s,
              ground (arith, e, m, fulfill_order-sold now fresh w a o hold s t v u i m),
              inl (ground (arith, e, m), sold_store-IsSold now fresh w a o hold s k m),
            )
            | inr m ↦ (
              reviewed_store SafeCode.fulfillment_snapshot_mismatch w a o s.db s,
              ground (
                arith,
                e,
                m,
                mark_webhook_review-paid SafeCode.fulfillment_snapshot_mismatch w a o s.db s t v,
              ),
              inr (
                ground (arith, e, m),
                reviewed_store-IsReviewed SafeCode.fulfillment_snapshot_mismatch w a o hold s.db s
                    k,
              ),
            )
          ]
  process_success-settled idempotent e u i k t v = absurd (decide-new e v)
  process_success-settled (review code) e u i k t v =
      let db = tidy_expired code now o hold s.db in
      (
        reviewed_store (decided code) w a o db s,
        ground (arith, e, mark_webhook_review-paid (decided code) w a o db s t v),
        inr (ground (arith, e), reviewed_store-IsReviewed (decided code) w a o hold db s k),
      )

-- A SUCCEEDED event for the right amount always commits when the attempt is not in a terminal status
-- and the order is PENDING or PAYMENT_PENDING. The order is booked with all its seats exactly when it is decided as FULFILL and
-- the snapshots match; in every other case it is left PAID_UNFULFILLED, with the attempt SUCCEEDED and
-- the webhook in review. The tables are sound and hold the rows that were read.
pub process_order-captures :
    (now fresh : ℕ) (w : Webhook) (a : PaymentAttempt) (o : CheckoutOrder) (hold : SeatHold)
    (session : Session) (s : Store)
    → IsSound s
    → IsLocked w a o hold s
    → is_terminal_payment_status a.status ≡ false
    → is_open_order o.status ≡ true
    → amount_matches w a o ≡ true
    → IsSettled now fresh w a o hold session s
unfolding is_terminal_checkout_status
process_order-captures now fresh w a o hold session s i k t p m =
    let v : is_terminal_checkout_status o.status ≡ false = ground (arith, p) in
    let c = no_booking o s.orders s.bookings k.stored_order (ground (arith, p)) i.fulfilled in
    let u : IsUnbooked o s = record { stored = k.stored_order; unbooked = c } in
    let (s', e, outcome) =
      process_success-settled now fresh w a o hold session s (decide now o hold session) refl u i k
        t v in
    (s', process_order-success now fresh w a o hold session s c t v m ∙ e, outcome)

abbrev pub is_paid_unfulfilled : CheckoutOrderStatus → Bool
is_paid_unfulfilled CheckoutOrderStatus.paid_unfulfilled = true
is_paid_unfulfilled _ = false

-- A SUCCEEDED event for the right amount, on an attempt that is not in a terminal status, whose order
-- is FAILED, CANCELLED, EXPIRED or REQUIRES_REVIEW never commits: the trigger refuses the status
-- PAID_UNFULFILLED. The tables are sound and hold the order.
pub process_order-late :
    (now fresh : ℕ) (w : Webhook) (a : PaymentAttempt) (o : CheckoutOrder) (hold : SeatHold)
    (session : Session) (s : Store)
    → IsSound s
    → find_by order_key o.id s.orders ≡ some o
    → is_terminal_payment_status a.status ≡ false
    → is_terminal_checkout_status o.status ≡ true
    → is_fulfilled_order o.status ≡ false
    → is_paid_unfulfilled o.status ≡ false
    → amount_matches w a o ≡ true
    → process_order now fresh PaymentAttemptStatus.succeeded w a o hold session s
      ≡ err PaymentError.refused_by_trigger
unfolding process_order process_success decide_paid_fulfillment is_terminal_checkout_status
    mark_webhook_review put_attempt put_order is_contradictory_terminal_status
process_order-late now fresh w a o hold session s i k t v f p m =
    let c = no_booking o s.orders s.bookings k f i.fulfilled in ground (arith, c, t, v, f, p, m)
