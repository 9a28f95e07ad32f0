-- ===== src/Payments/Fulfillment.antt =====
-- `markWebhookReview` and the transaction of `processVerifiedWebhookRecord` of
-- src/server/payments/webhook-service.ts. An error stands for a rollback.
use seatflow.Prelude.{
  ℕ, ◌+◌, ◌==◌, Bool, true, false, ◌&&◌, Option, none, some, List, [], ◌∷◌, ◌++◌, map, filter,
  length, contains, is_some_of, Result, ok, ◌>>=◌, ◌>>◌, guard, if◌then◌else◌,
}
use seatflow.Domain.{
  CheckoutOrderStatus, PaymentAttemptStatus, BookingStatus, SeatInventoryState, SeatHoldStatus,
}
use seatflow.Holds.Tables.{InventoryRow, SeatHold, InventoryEventType, Database, update_holds}
use seatflow.Checkout.Tables.{
  SafeCode, CheckoutOrder, PaymentAttempt, ProcessingStatus, Webhook, Booking, Store, PaymentError,
  item_ids, event_of, enqueue_events, put_attempt, put_order, put_webhook, create_booking,
}
use seatflow.Payments.Snapshots.{is_held}

-- The last update of the webhook row.
abbrev pub finished : ProcessingStatus → Option SafeCode → Webhook → Webhook
finished status code w = record w {
  processing_status = status;
  safe_processing_error = code;
  attempt_count = w.attempt_count + 1;
}

abbrev pub finish_webhook : ProcessingStatus → Option SafeCode → Webhook → Store → Store
finish_webhook status code w = put_webhook (finished status code w)

abbrev pub succeeded : PaymentAttempt → PaymentAttempt
succeeded a = record a { status = PaymentAttemptStatus.succeeded }

abbrev pub put_in_review : SafeCode → Bool → CheckoutOrder → CheckoutOrder
put_in_review code paid o = record o {
  status =
      if paid then CheckoutOrderStatus.paid_unfulfilled else CheckoutOrderStatus.requires_review;
  safe_failure_code = some code;
}

abbrev pub mark_attempt : Bool → PaymentAttempt → Store → Result PaymentError Store
mark_attempt true a s = put_attempt a (succeeded a) s
mark_attempt false a s = ok s

abbrev pub mark_order :
    SafeCode → (paid preserve : Bool) → CheckoutOrder → Store → Result PaymentError Store
mark_order code paid true o s = ok s
mark_order code paid false o s = put_order o (put_in_review code paid o) s

abbrev pub review_events : Bool → CheckoutOrder → Database → Database
review_events true o = enqueue_events (
    event_of InventoryEventType.payment_succeeded o.session_id o.id
    ∷ event_of InventoryEventType.payment_requires_review o.session_id o.id
    ∷ [])
review_events false o =
    enqueue_events (event_of InventoryEventType.payment_requires_review o.session_id o.id ∷ [])

-- `markWebhookReview` for an attempt and its order; without them only the webhook is updated.
unfoldable pub mark_webhook_review :
    SafeCode
    → (paid preserve : Bool) → Webhook
    → PaymentAttempt
    → CheckoutOrder
    → Store
    → Result PaymentError Store
mark_webhook_review code paid preserve w a o s₀ = do
  s₁ ← mark_attempt paid a s₀
  s₂ ← mark_order code paid preserve o s₁
  ok (
      finish_webhook ProcessingStatus.requires_review (some code) w
        (record s₂ { db = review_events paid o s₂.db }))

-- `updateMany({ where: { id: { in: inventoryIds }, state: "HELD", currentHoldId: hold.id } })`.
abbrev pub is_convertible : ℕ → List ℕ → InventoryRow → Bool
is_convertible hold ids r =
    contains ids r.id && is_held r.state && is_some_of hold r.current_hold_id

abbrev pub booked_row : InventoryRow → InventoryRow
booked_row r = record r {
  state = SeatInventoryState.booked;
  current_hold_id = none;
  hold_expires_at = none;
}

abbrev pub convert_row : ℕ → List ℕ → InventoryRow → InventoryRow
convert_row hold ids r = if is_convertible hold ids r then booked_row r else r

abbrev pub has_hold_id : ℕ → SeatHold → Bool
has_hold_id i h = h.id == i

abbrev pub converted : ℕ → SeatHold → SeatHold
converted now h = record h { status = SeatHoldStatus.converted; converted_at = some now }

-- The rows and the hold after the conversion.
abbrev pub convert_hold : ℕ → ℕ → List ℕ → Database → Database
convert_hold now hold ids db = record db {
  inventory = map (convert_row hold ids) db.inventory;
  holds = update_holds (has_hold_id hold) (converted now) db.holds;
}

abbrev pub booking_for : ℕ → CheckoutOrder → Booking
booking_for fresh o = record {
  id = fresh;
  order_id = o.id;
  user_id = o.user_id;
  organization_id = o.organization_id;
  event_id = o.event_id;
  session_id = o.session_id;
  status = BookingStatus.confirmed;
  currency = o.currency;
  total_minor = o.total_minor;
  seats = o.items;
}

-- `enqueueTicketIssuance`, an upsert.
abbrev pub enqueue_ticket_issuance : ℕ → List ℕ → List ℕ
enqueue_ticket_issuance booking requests =
    if contains requests booking then requests else requests ++ booking ∷ []

abbrev pub fulfillment_events : ℕ → CheckoutOrder → Database → Database
fulfillment_events fresh o = enqueue_events (
    event_of InventoryEventType.payment_succeeded o.session_id o.id
    ∷ event_of InventoryEventType.inventory_booked o.session_id fresh
    ∷ event_of InventoryEventType.booking_confirmed o.session_id fresh
    ∷ [])

abbrev pub paid_attempt : PaymentAttempt → PaymentAttempt
paid_attempt a = record a { status = PaymentAttemptStatus.succeeded; safe_failure_code = none }

abbrev pub fulfilled : CheckoutOrder → CheckoutOrder
fulfilled o = record o { status = CheckoutOrderStatus.fulfilled; safe_failure_code = none }

-- The writes of a fulfilment; `fresh` is the id of the new booking.
unfoldable pub fulfill_order :
    (now fresh : ℕ)
    → Webhook
    → PaymentAttempt
    → CheckoutOrder
    → SeatHold
    → Store
    → Result PaymentError Store
fulfill_order now fresh w a o hold s₀ = do
  s₁ ← put_attempt a (paid_attempt a) s₀
  s₂ ← create_booking (booking_for fresh o) s₁
  let ids = item_ids o.items
  guard (length (filter (is_convertible hold.id ids) s₂.db.inventory) == length ids)
      PaymentError.inventory_conflict
  s₃ ← put_order o (fulfilled o) s₂
  ok (
      finish_webhook ProcessingStatus.processed none w (record s₃ {
        db = fulfillment_events fresh o (convert_hold now hold.id ids s₃.db);
        issuance = enqueue_ticket_issuance fresh s₃.issuance;
      }))
