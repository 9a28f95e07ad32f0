-- ===== src/Payments/Processing.antt =====
-- The routing of `processVerifiedWebhookRecord` of src/server/payments/webhook-service.ts.
use seatflow.Prelude.{
  ℕ, ◌==◌, Bool, true, false, ◌&&◌, ◌||◌, not, none, some, List, [], ◌∷◌, filter, contains,
  is_some_of, Result, ok, ◌>>=◌, ◌>>◌, guard, or_throw, find_by, map, if◌then◌else◌,
}
use seatflow.Domain.{
  same_currency, CheckoutOrderStatus, PaymentAttemptStatus, same_payment_attempt_status,
}
use seatflow.Holds.Tables.{
  SeatHold, Session, InventoryEventType, Database, InventoryRow, is_active, find_hold, find_session,
  items_of,
}
use seatflow.Holds.Expiry.{release_expired_holds_for_session}
use seatflow.Checkout.Lifecycle.{
  FulfillmentReview, PaidFulfillmentDecision, fulfill, idempotent, review, decide_paid_fulfillment,
}
use seatflow.Checkout.Tables.{
  SafeCode, decided, CheckoutOrder, PaymentAttempt, WebhookCategory, ProcessingStatus, Webhook,
  Store, PaymentError, order_key, attempt_key, webhook_key, booking_order, item_ids, event_of,
  enqueue_events, is_terminal_payment_status, is_contradictory_terminal_status, put_attempt,
  put_order,
}
use seatflow.Payments.Snapshots.{snapshots_match}
use seatflow.Payments.Fulfillment.{finish_webhook, mark_webhook_review, fulfill_order}

-- `["PROCESSED", "REQUIRES_REVIEW"].includes(status)`.
abbrev pub is_settled : ProcessingStatus → Bool
is_settled ProcessingStatus.processed = true
is_settled ProcessingStatus.requires_review = true
is_settled _ = false

abbrev pub is_payment_category : WebhookCategory → Bool
is_payment_category WebhookCategory.payment = true
is_payment_category _ = false

abbrev pub is_success : PaymentAttemptStatus → Bool
is_success PaymentAttemptStatus.succeeded = true
is_success _ = false

abbrev pub is_failure : PaymentAttemptStatus → Bool
is_failure PaymentAttemptStatus.failed = true
is_failure PaymentAttemptStatus.cancelled = true
is_failure _ = false

abbrev pub is_fulfilled_order : CheckoutOrderStatus → Bool
is_fulfilled_order CheckoutOrderStatus.fulfilled = true
is_fulfilled_order _ = false

abbrev pub is_order_in_review : CheckoutOrderStatus → Bool
is_order_in_review CheckoutOrderStatus.paid_unfulfilled = true
is_order_in_review CheckoutOrderStatus.requires_review = true
is_order_in_review _ = false

abbrev pub is_open_order : CheckoutOrderStatus → Bool
is_open_order CheckoutOrderStatus.pending = true
is_open_order CheckoutOrderStatus.payment_pending = true
is_open_order _ = false

-- `amountMatches`.
abbrev pub amount_matches : Webhook → PaymentAttempt → CheckoutOrder → Bool
amount_matches w a o =
    is_some_of w.provider_intent_id a.provider_intent_id
    && w.amount_minor == a.amount_minor
    && same_currency w.currency a.currency
    && o.total_minor == a.amount_minor
    && same_currency o.currency a.currency

-- The code of a FAILED or a CANCELLED result.
abbrev pub failure_code : PaymentAttemptStatus → SafeCode
failure_code PaymentAttemptStatus.cancelled = SafeCode.payment_cancelled
failure_code _ = SafeCode.payment_failed

abbrev pub fail_attempt : PaymentAttemptStatus → PaymentAttempt → PaymentAttempt
fail_attempt status a = record a { status = status; safe_failure_code = some (failure_code status) }

abbrev pub fail_order : PaymentAttemptStatus → CheckoutOrder → CheckoutOrder
fail_order status o = record o {
  status = CheckoutOrderStatus.failed;
  safe_failure_code = some (failure_code status);
}

-- A FAILED or CANCELLED event for the right amount.
unfoldable pub process_failure :
    PaymentAttemptStatus
    → Webhook
    → PaymentAttempt
    → CheckoutOrder
    → Store
    → Result PaymentError Store
process_failure status w a o s₀ = do
  s₁ ← put_attempt a (fail_attempt status a) s₀
  s₂ ← if is_open_order o.status then put_order o (fail_order status o) s₁ else ok s₁
  let event = event_of InventoryEventType.payment_failed o.session_id o.id
  ok (
      finish_webhook ProcessingStatus.processed none w
        (record s₂ { db = enqueue_events (event ∷ []) s₂.db }))

-- A CREATED, PENDING or REQUIRES_REVIEW event; `safeProcessingError` stays as it is.
unfoldable pub process_pending : Webhook → PaymentAttempt → Store → Result PaymentError Store
process_pending w a s₀ = do
  s₁ ← put_attempt a (record a { status = PaymentAttemptStatus.pending }) s₀
  ok (finish_webhook ProcessingStatus.processed w.safe_processing_error w s₁)

abbrev pub is_expired_review : FulfillmentReview → Bool
is_expired_review FulfillmentReview.hold_expired = true
is_expired_review _ = false

-- `if (decision.code === "HOLD_EXPIRED" && hold.status === "ACTIVE")`.
abbrev pub tidy_expired : FulfillmentReview → ℕ → CheckoutOrder → SeatHold → Database → Database
tidy_expired code now o hold db =
    if is_expired_review code && is_active hold.status
    then (release_expired_holds_for_session o.session_id now db).0
    else db

-- The rows of `SELECT ... WHERE "id" IN (inventoryIds) FOR UPDATE`.
abbrev pub locked_items : CheckoutOrder → Database → List InventoryRow
locked_items o db = filter (λ r. contains (item_ids o.items) r.id) db.inventory

abbrev pub decide : ℕ → CheckoutOrder → SeatHold → Session → PaidFulfillmentDecision
decide now o hold session = decide_paid_fulfillment (record {
  order_status = o.status;
  hold_status = hold.status;
  hold_expires_at = hold.expires_at;
  event_status = session.event_status;
  session_status = session.status;
  now = now;
})

-- FULFILL, and IDEMPOTENT, which `decidePaidFulfillment` answers for FULFILLED orders alone.
unfoldable pub process_paid :
    (now fresh : ℕ)
    → Webhook
    → PaymentAttempt
    → CheckoutOrder
    → SeatHold
    → Store
    → Result PaymentError Store
process_paid now fresh w a o hold s =
    if snapshots_match hold o.session_id o.items (items_of hold.id s.db.items) (locked_items o s.db)
    then fulfill_order now fresh w a o hold s
    else mark_webhook_review SafeCode.fulfillment_snapshot_mismatch true false w a o s

unfoldable pub process_success :
    (now fresh : ℕ)
    → Webhook
    → PaymentAttempt
    → CheckoutOrder
    → SeatHold
    → Session
    → Store
    → Result PaymentError Store
unfolding process_paid
process_success now fresh w a o hold session s = elim (decide now o hold session) [
  | fulfill ↦ process_paid now fresh w a o hold s
  | idempotent ↦ process_paid now fresh w a o hold s
  | review code ↦
      mark_webhook_review (decided code) true false w a o
        (record s { db = tidy_expired code now o hold s.db })
]

-- `order.booking || order.status === "FULFILLED"`.
abbrev pub is_booked_order : CheckoutOrder → Store → Bool
is_booked_order o s = contains (map booking_order s.bookings) o.id || is_fulfilled_order o.status

-- What follows the locks.
unfoldable pub process_order :
    (now fresh : ℕ)
    → PaymentAttemptStatus
    → Webhook
    → PaymentAttempt
    → CheckoutOrder
    → SeatHold
    → Session
    → Store
    → Result PaymentError Store
unfolding process_failure process_pending process_success
process_order now fresh status w a o hold session s =
    if is_booked_order o s
    then ok (finish_webhook ProcessingStatus.processed none w s)
    else if is_contradictory_terminal_status a.status status
    then mark_webhook_review SafeCode.contradictory_terminal_status false true w a o s
    else if is_terminal_payment_status a.status && same_payment_attempt_status a.status status
    then ok (
        finish_webhook
          (if is_order_in_review o.status
            then ProcessingStatus.requires_review
            else ProcessingStatus.processed)
          o.safe_failure_code w s)
    else if not (amount_matches w a o)
    then mark_webhook_review SafeCode.payment_amount_or_currency_mismatch (is_success status) false
        w a o s
    else if is_failure status
    then process_failure status w a o s
    else if not (is_success status)
    then process_pending w a s
    else process_success now fresh w a o hold session s

-- The reads under locks; foreign keys make them succeed.
unfoldable pub process_attempt :
    (now fresh : ℕ) → PaymentAttemptStatus → Webhook → ℕ → Store → Result PaymentError Store
unfolding process_order
process_attempt now fresh status w i s = do
  a ← or_throw (find_by attempt_key i s.attempts) PaymentError.not_found
  o ← or_throw (find_by order_key a.order_id s.orders) PaymentError.not_found
  hold ← or_throw (find_hold o.source_hold_id s.db.holds) PaymentError.not_found
  session ← or_throw (find_session o.session_id s.db.sessions) PaymentError.not_found
  process_order now fresh status w a o hold session s

-- A webhook that is not settled yet.
unfoldable pub process_webhook : (now fresh : ℕ) → Webhook → Store → Result PaymentError Store
unfolding process_attempt
process_webhook now fresh w s = do
  guard w.is_verified PaymentError.webhook_signature
  guard (is_payment_category w.category) PaymentError.webhook_validation
  status ← or_throw w.normalized_status PaymentError.webhook_validation
  elim w.payment_attempt_id [
    | none ↦
        ok (
          finish_webhook ProcessingStatus.requires_review (some SafeCode.unknown_payment_intent) w
            s)
    | some i ↦ process_attempt now fresh status w i s
  ]

-- The transaction.
unfoldable pub process_transaction : (now fresh webhook : ℕ) → Store → Result PaymentError Store
unfolding process_webhook
process_transaction now fresh i s = do
  w ← or_throw (find_by webhook_key i s.webhooks) PaymentError.not_found
  if is_settled w.processing_status then ok s else process_webhook now fresh w s
