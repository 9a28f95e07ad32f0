-- ===== src/Checkout/Tables.antt =====
-- The tables of checkout and payment (prisma/schema.prisma: CheckoutOrder, CheckoutOrderItem,
-- PaymentAttempt, PaymentWebhookEvent, Booking, BookingSeat, TicketIssuanceRequest) beside those of
-- seat holds, and the writes that triggers of
-- prisma/migrations/20260718060000_phase_5a_checkout_payments_bookings/migration.sql can refuse. The
-- labels and names that items copy from the seat map are left out.
use seatflow.Prelude.{
  ℕ, ◌==◌, Bool, true, false, ◌&&◌, ◌||◌, not, Option, List, [], ◌∷◌, ◌++◌, map, any, contains,
  Result, ok, ◌>>◌, guard, put_by,
}
use seatflow.Domain.{
  Currency, CheckoutOrderStatus, PaymentAttemptStatus, BookingStatus, same_payment_attempt_status,
}
use seatflow.Holds.Tables.{Database, InventoryEventType, OutboxEntry}
use seatflow.Holds.Eligibility.{SaleBlockReason}
use seatflow.Checkout.Lifecycle.{is_terminal_checkout_status, FulfillmentReview}

pub record OrderItem : Type 0 where
  pub inventory_id : ℕ
  pub seat_id : ℕ
  pub section_id : ℕ
  pub price_tier_id : ℕ
  pub price_minor : ℕ
  pub currency : Currency

-- The codes that the services store in `safeFailureCode` and `safeProcessingError`.
pub data SafeCode : Type 0 where
  unknown_payment_intent contradictory_terminal_status : SafeCode
  payment_amount_or_currency_mismatch fulfillment_snapshot_mismatch : SafeCode
  payment_cancelled payment_failed checkout_expired : SafeCode
  processing_retry_required payment_requires_review : SafeCode
  decided : FulfillmentReview → SafeCode

pub record CheckoutOrder : Type 0 where
  pub id : ℕ
  pub user_id : ℕ
  pub organization_id : ℕ
  pub event_id : ℕ
  pub session_id : ℕ
  pub source_hold_id : ℕ
  pub status : CheckoutOrderStatus
  pub currency : Currency
  pub total_minor : ℕ
  pub idempotency_key : ℕ
  pub checkout_expires_at : ℕ
  pub items : List OrderItem
  pub safe_failure_code : Option SafeCode

pub record PaymentAttempt : Type 0 where
  pub id : ℕ
  pub order_id : ℕ
  pub provider : ℕ
  pub provider_intent_id : Option ℕ
  pub provider_idempotency_key : ℕ
  pub status : PaymentAttemptStatus
  pub amount_minor : ℕ
  pub currency : Currency
  pub safe_failure_code : Option SafeCode

pub data WebhookCategory : Type 0 where
  payment refund dispute : WebhookCategory

pub data ProcessingStatus : Type 0 where
  received processed requires_review failed : ProcessingStatus

pub record Webhook : Type 0 where
  pub id : ℕ
  pub provider : ℕ
  pub provider_event_id : ℕ
  pub category : WebhookCategory
  pub provider_intent_id : ℕ
  pub payment_attempt_id : Option ℕ
  pub normalized_status : Option PaymentAttemptStatus
  pub amount_minor : ℕ
  pub currency : Currency
  pub is_verified : Bool
  pub processing_status : ProcessingStatus
  pub safe_processing_error : Option SafeCode
  pub attempt_count : ℕ

-- A Booking with its BookingSeat rows.
pub record Booking : Type 0 where
  pub id : ℕ
  pub order_id : ℕ
  pub user_id : ℕ
  pub organization_id : ℕ
  pub event_id : ℕ
  pub session_id : ℕ
  pub status : BookingStatus
  pub currency : Currency
  pub total_minor : ℕ
  pub seats : List OrderItem

-- All tables. `issuance` holds the bookings that have a TicketIssuanceRequest.
pub record Store : Type 0 where
  pub db : Database
  pub orders : List CheckoutOrder
  pub attempts : List PaymentAttempt
  pub webhooks : List Webhook
  pub bookings : List Booking
  pub issuance : List ℕ

pub data PaymentError : Type 0 where
  authentication authorization conflict not_found : PaymentError
  webhook_signature webhook_validation webhook_too_large inventory_conflict : PaymentError
  refused_by_trigger unique_violation provider_unavailable : PaymentError
  validation hold_not_active hold_empty checkout_expired total_rejected : PaymentError
  unsellable_session : SaleBlockReason → PaymentError

abbrev pub order_key : CheckoutOrder → ℕ
order_key o = o.id

abbrev pub attempt_key : PaymentAttempt → ℕ
attempt_key a = a.id

abbrev pub webhook_key : Webhook → ℕ
webhook_key w = w.id

abbrev pub booking_order : Booking → ℕ
booking_order b = b.order_id

abbrev pub item_ids : List OrderItem → List ℕ
item_ids = map (λ it. it.inventory_id)

-- `enqueueInventoryEvent`.
abbrev pub event_of : InventoryEventType → ℕ → ℕ → OutboxEntry
event_of t session aggregate = record {
  event_type = t;
  session_id = session;
  aggregate_id = aggregate;
}

abbrev pub enqueue_events : List OutboxEntry → Database → Database
enqueue_events es db = record db { outbox = db.outbox ++ es }

unfoldable pub is_terminal_payment_status : PaymentAttemptStatus → Bool
is_terminal_payment_status PaymentAttemptStatus.succeeded = true
is_terminal_payment_status PaymentAttemptStatus.failed = true
is_terminal_payment_status PaymentAttemptStatus.cancelled = true
is_terminal_payment_status PaymentAttemptStatus.requires_review = true
is_terminal_payment_status _ = false

-- The arguments: the current and the incoming status.
unfoldable pub is_contradictory_terminal_status : PaymentAttemptStatus → PaymentAttemptStatus → Bool
unfolding is_terminal_payment_status
is_contradictory_terminal_status current incoming =
    is_terminal_payment_status current && not (same_payment_attempt_status current incoming)

-- `PaymentAttempt_protect_identity`: the first terminal result of an attempt stays.
unfoldable pub allows_attempt : PaymentAttempt → PaymentAttempt → Bool
unfolding is_terminal_payment_status
allows_attempt old new =
    not (is_terminal_payment_status old.status) || same_payment_attempt_status old.status new.status

abbrev pub order_status_index : CheckoutOrderStatus → ℕ
order_status_index CheckoutOrderStatus.pending = 0
order_status_index CheckoutOrderStatus.payment_pending = 1
order_status_index CheckoutOrderStatus.paid = 2
order_status_index CheckoutOrderStatus.fulfilled = 3
order_status_index CheckoutOrderStatus.failed = 4
order_status_index CheckoutOrderStatus.cancelled = 5
order_status_index CheckoutOrderStatus.expired = 6
order_status_index CheckoutOrderStatus.paid_unfulfilled = 7
order_status_index CheckoutOrderStatus.requires_review = 8

abbrev pub same_order_status : CheckoutOrderStatus → CheckoutOrderStatus → Bool
same_order_status a b = order_status_index a == order_status_index b

-- `CheckoutOrder_protect_identity`: a terminal status of an order stays.
unfoldable pub allows_order : CheckoutOrder → CheckoutOrder → Bool
allows_order old new =
    not (is_terminal_checkout_status old.status) || same_order_status old.status new.status

-- The arguments: the row as it was read under its lock, and as it is written.
unfoldable pub put_attempt : PaymentAttempt → PaymentAttempt → Store → Result PaymentError Store
unfolding allows_attempt
put_attempt old new s = do
  guard (allows_attempt old new) PaymentError.refused_by_trigger
  ok (record s { attempts = put_by attempt_key new s.attempts })

unfoldable pub put_order : CheckoutOrder → CheckoutOrder → Store → Result PaymentError Store
unfolding allows_order
put_order old new s = do
  guard (allows_order old new) PaymentError.refused_by_trigger
  ok (record s { orders = put_by order_key new s.orders })

abbrev pub put_webhook : Webhook → Store → Store
put_webhook new s = record s { webhooks = put_by webhook_key new s.webhooks }

-- Whether some booking has a seat of the given inventory rows.
abbrev pub has_booked : List ℕ → List Booking → Bool
has_booked ids [] = false
has_booked ids (b ∷ bs) = any (λ it. contains ids it.inventory_id) b.seats || has_booked ids bs

-- `booking.create` and `bookingSeat.createMany`, under the unique indexes on `Booking.orderId` and
-- `BookingSeat.inventoryId`.
unfoldable pub create_booking : Booking → Store → Result PaymentError Store
create_booking b s = do
  guard (not (contains (map booking_order s.bookings) b.order_id)) PaymentError.unique_violation
  guard (not (has_booked (item_ids b.seats) s.bookings)) PaymentError.unique_violation
  ok (record s { bookings = s.bookings ++ b ∷ [] })
