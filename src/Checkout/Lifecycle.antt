-- ===== src/Checkout/Lifecycle.antt =====
-- src/features/checkout/lifecycle.ts.
use seatflow.Prelude.{ℕ, ◌≡◌, Bool, true, false, ◌&&◌, ◌||◌, not, leb, ltb, if◌then◌else◌, arith}
use seatflow.Domain.{CheckoutOrderStatus, SeatHoldStatus, EventStatus, EventSessionStatus}

unfoldable pub is_terminal_checkout_status : CheckoutOrderStatus → Bool
is_terminal_checkout_status CheckoutOrderStatus.fulfilled = true
is_terminal_checkout_status CheckoutOrderStatus.failed = true
is_terminal_checkout_status CheckoutOrderStatus.cancelled = true
is_terminal_checkout_status CheckoutOrderStatus.expired = true
is_terminal_checkout_status CheckoutOrderStatus.paid_unfulfilled = true
is_terminal_checkout_status CheckoutOrderStatus.requires_review = true
is_terminal_checkout_status _ = false

abbrev awaits_payment : CheckoutOrderStatus → Bool
awaits_payment CheckoutOrderStatus.pending = true
awaits_payment CheckoutOrderStatus.payment_pending = true
awaits_payment _ = false

-- The arguments: `status`, `checkoutExpiresAt` and `now`.
unfoldable pub is_checkout_expired : CheckoutOrderStatus → ℕ → ℕ → Bool
is_checkout_expired s expires_at now = awaits_payment s && leb expires_at now

pub data FulfillmentReview : Type 0 where
  hold_released hold_expired hold_not_active : FulfillmentReview
  session_cancelled session_unavailable order_terminal_conflict : FulfillmentReview

pub data PaidFulfillmentDecision : Type 0 where
  fulfill idempotent : PaidFulfillmentDecision
  review : FulfillmentReview → PaidFulfillmentDecision

pub record FulfillmentInput : Type 0 where
  pub order_status : CheckoutOrderStatus
  pub hold_status : SeatHoldStatus
  pub hold_expires_at : ℕ
  pub event_status : EventStatus
  pub session_status : EventSessionStatus
  pub now : ℕ

abbrev is_fulfilled : CheckoutOrderStatus → Bool
is_fulfilled CheckoutOrderStatus.fulfilled = true
is_fulfilled _ = false

-- The five statuses of the second test.
abbrev is_closed : CheckoutOrderStatus → Bool
is_closed CheckoutOrderStatus.failed = true
is_closed CheckoutOrderStatus.cancelled = true
is_closed CheckoutOrderStatus.expired = true
is_closed CheckoutOrderStatus.paid_unfulfilled = true
is_closed CheckoutOrderStatus.requires_review = true
is_closed _ = false

abbrev is_released_hold : SeatHoldStatus → Bool
is_released_hold SeatHoldStatus.released = true
is_released_hold _ = false

abbrev is_expired_hold : SeatHoldStatus → Bool
is_expired_hold SeatHoldStatus.expired = true
is_expired_hold _ = false

abbrev is_active_hold : SeatHoldStatus → Bool
is_active_hold SeatHoldStatus.active = true
is_active_hold _ = false

abbrev is_cancelled_session : EventSessionStatus → Bool
is_cancelled_session EventSessionStatus.cancelled = true
is_cancelled_session _ = false

abbrev is_published : EventStatus → Bool
is_published EventStatus.published = true
is_published _ = false

abbrev is_fulfillable_session : EventSessionStatus → Bool
is_fulfillable_session EventSessionStatus.scheduled = true
is_fulfillable_session EventSessionStatus.on_sale = true
is_fulfillable_session EventSessionStatus.sales_paused = true
is_fulfillable_session _ = false

unfoldable pub decide_paid_fulfillment : FulfillmentInput → PaidFulfillmentDecision
decide_paid_fulfillment i =
    if is_fulfilled i.order_status
    then idempotent
    else if is_closed i.order_status
    then review order_terminal_conflict
    else if is_released_hold i.hold_status
    then review hold_released
    else if is_expired_hold i.hold_status || leb i.hold_expires_at i.now
    then review hold_expired
    else if not (is_active_hold i.hold_status)
    then review hold_not_active
    else if is_cancelled_session i.session_status
    then review session_cancelled
    else if not (is_published i.event_status) || not (is_fulfillable_session i.session_status)
    then review session_unavailable
    else fulfill

abbrev pub is_fulfill : PaidFulfillmentDecision → Bool
is_fulfill fulfill = true
is_fulfill _ = false

-- A paid order is fulfilled exactly when it is not in a terminal status, its hold is ACTIVE and not
-- past its expiry, the event is published and the session is scheduled, on sale or paused.
pub decide_paid_fulfillment_iff :
    (i : FulfillmentInput)
    → is_fulfill (decide_paid_fulfillment i) ≡ (
        not (is_terminal_checkout_status i.order_status)
        && is_active_hold i.hold_status
        && ltb i.now i.hold_expires_at
        && is_published i.event_status
        && is_fulfillable_session i.session_status)
unfolding decide_paid_fulfillment is_terminal_checkout_status
decide_paid_fulfillment_iff i = ground arith
