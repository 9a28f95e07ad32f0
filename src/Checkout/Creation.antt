-- ===== src/Checkout/Creation.antt =====
-- `createCheckoutOrder` of src/server/payments/checkout-service.ts.
use seatflow.Prelude.{
  ℕ, ◌==◌, Bool, true, false, ◌&&◌, not, Option, none, some, List, [], ◌∷◌, ◌++◌, map, any, all,
  contains, Result, ok, err, ◌>>=◌, ◌>>◌, guard, or_throw, if◌then◌else◌, filter, length, is_empty,
  is_distinct, ltb, is_some_of,
}
use seatflow.Domain.{CheckoutOrderStatus, PaymentAttemptStatus, JsNumber}
use seatflow.Holds.Tables.{
  InventoryRow, SeatHold, SeatHoldItem, Session, InventoryEventType, find_by_token, find_row,
  find_session, items_of, is_active,
}
use seatflow.Holds.Eligibility.{
  SalesEligibility, sellable, unsellable, evaluate_session_sales_eligibility,
}
use seatflow.Checkout.Totals.{CheckoutPricedItem, CheckoutTotal, calculate_checkout_total}
use seatflow.Checkout.Tables.{
  OrderItem, CheckoutOrder, PaymentAttempt, Store, PaymentError, item_ids, event_of, enqueue_events,
  unsellable_session,
}
use seatflow.Payments.Snapshots.{is_held}

-- The raw input after trimming, with a token and a key of the shapes that zod accepts.
pub record CheckoutInput : Type 0 where
  pub hold_token : ℕ
  pub idempotency_key : ℕ

-- What `cuid()` and `generateProviderIdempotencyKey()` give one request.
pub record GeneratedOrder : Type 0 where
  pub order_id : ℕ
  pub attempt_id : ℕ
  pub provider_key : ℕ

-- `CreateCheckoutResult`; the public reference stands for the id.
pub record CheckoutResult : Type 0 where
  pub order_id : ℕ
  pub replayed : Bool

-- `hold.checkoutOrder`.
unfoldable pub order_of_hold : ℕ → List CheckoutOrder → Option CheckoutOrder
order_of_hold hold [] = none
order_of_hold hold (o ∷ os) = if o.source_hold_id == hold then some o else order_of_hold hold os

abbrev pub is_of_hold : SeatHold → InventoryRow → Bool
is_of_hold hold r =
    is_held r.state
    && is_some_of hold.id r.current_hold_id
    && is_some_of hold.expires_at r.hold_expires_at

abbrev pub guard_session : SalesEligibility → Result PaymentError (Unit {0})
guard_session sellable = ok tt
guard_session (unsellable reason) = err (unsellable_session reason)

-- The eligibility of the session of a hold.
abbrev pub session_eligibility : ℕ → Session → SalesEligibility
session_eligibility now session = evaluate_session_sales_eligibility (record {
  event_status = session.event_status;
  session_status = session.status;
  session_start_at = session.start_at;
  sales_start_at = session.sales_start_at;
  sales_end_at = session.sales_end_at;
  has_inventory = true;
  now = now;
})

abbrev pub priced_item : SeatHoldItem → CheckoutPricedItem
priced_item it = record { price_minor = JsNumber.whole it.price_minor; currency = it.currency }

abbrev pub checkout_total : List SeatHoldItem → Result PaymentError CheckoutTotal
checkout_total its = elim (calculate_checkout_total (map priced_item its)) [
  | ok total ↦ ok total
  | err reason ↦ err PaymentError.total_rejected
]

abbrev pub order_item : SeatHoldItem → InventoryRow → OrderItem
order_item it r = record {
  inventory_id = it.inventory_id;
  seat_id = r.seat_id;
  section_id = r.section_id;
  price_tier_id = r.price_tier_id;
  price_minor = it.price_minor;
  currency = it.currency;
}

-- The items of the order. The foreign key from items to inventory rows makes every lookup succeed.
unfoldable pub order_items : List InventoryRow → List SeatHoldItem → List OrderItem
order_items rows [] = []
order_items rows (it ∷ its) = elim (find_row it.inventory_id rows) [
  | none ↦ order_items rows its
  | some r ↦ order_item it r ∷ order_items rows its
]

abbrev pub new_order :
    (user : ℕ)
    → CheckoutInput
    → GeneratedOrder
    → SeatHold
    → Session
    → CheckoutTotal
    → List OrderItem
    → CheckoutOrder
new_order user input gen hold session total items = record {
  id = gen.order_id;
  user_id = user;
  organization_id = session.organization_id;
  event_id = session.event_id;
  session_id = hold.session_id;
  source_hold_id = hold.id;
  status = CheckoutOrderStatus.pending;
  currency = total.currency;
  total_minor = total.total_minor;
  idempotency_key = input.idempotency_key;
  checkout_expires_at = hold.expires_at;
  items = items;
  safe_failure_code = none;
}

abbrev pub new_attempt : (provider : ℕ) → GeneratedOrder → CheckoutTotal → PaymentAttempt
new_attempt provider gen total = record {
  id = gen.attempt_id;
  order_id = gen.order_id;
  provider = provider;
  provider_intent_id = none;
  provider_idempotency_key = gen.provider_key;
  status = PaymentAttemptStatus.created;
  amount_minor = total.total_minor;
  currency = total.currency;
  safe_failure_code = none;
}

-- `checkoutOrder.create` and `checkoutOrderItem.createMany` under the primary key, the unique index on
-- the source hold and the one on the rows of an order.
unfoldable pub create_order : CheckoutOrder → Store → Result PaymentError Store
create_order o s = do
  guard (not (any (λ x. x.id == o.id) s.orders)) PaymentError.unique_violation
  guard (not (any (λ x. x.source_hold_id == o.source_hold_id) s.orders))
      PaymentError.unique_violation
  guard (is_distinct (item_ids o.items)) PaymentError.unique_violation
  ok (record s { orders = s.orders ++ o ∷ [] })

-- `paymentAttempt.create`, under the primary key and two unique indexes.
unfoldable pub create_attempt : PaymentAttempt → Store → Result PaymentError Store
create_attempt a s = do
  guard (not (any (λ x. x.id == a.id) s.attempts)) PaymentError.unique_violation
  guard (not (any (λ x. x.provider_idempotency_key == a.provider_idempotency_key) s.attempts))
      PaymentError.unique_violation
  guard (not (any (λ x. x.order_id == a.order_id && x.provider == a.provider) s.attempts))
      PaymentError.unique_violation
  ok (record s { attempts = s.attempts ++ a ∷ [] })

-- The checks on a hold that has no order yet, and the total.
unfoldable pub check_hold :
    (now : ℕ) → SeatHold → Store → Result PaymentError (Session × CheckoutTotal)
check_hold now hold s = do
  let its = items_of hold.id s.db.items
  let ids = map (λ it. it.inventory_id) its
  let locked = filter (λ r. contains ids r.id) s.db.inventory
  guard (is_active hold.status && ltb now hold.expires_at) PaymentError.hold_not_active
  guard (not (is_empty its)) PaymentError.hold_empty
  guard (length locked == length ids && all (is_of_hold hold) locked) PaymentError.conflict
  session ← or_throw (find_session hold.session_id s.db.sessions) PaymentError.not_found
  guard_session (session_eligibility now session)
  total ← checkout_total its
  ok (session, total)

-- The writes.
unfoldable pub write_order :
    (provider user : ℕ)
    → CheckoutInput
    → GeneratedOrder
    → SeatHold
    → Session × CheckoutTotal
    → Store
    → Result PaymentError (CheckoutResult × Store)
unfolding order_items create_order create_attempt
write_order provider user input gen hold (session, total) s₀ = do
  let items = order_items s₀.db.inventory (items_of hold.id s₀.db.items)
  s₁ ← create_order (new_order user input gen hold session total items) s₀
  s₂ ← create_attempt (new_attempt provider gen total) s₁
  let event = event_of InventoryEventType.checkout_created hold.session_id gen.order_id
  ok (
    record { order_id = gen.order_id; replayed = false },
    record s₂ { db = enqueue_events (event ∷ []) s₂.db },
  )

-- A hold that already has an order.
unfoldable pub replay_order :
    (user : ℕ)
    → CheckoutInput
    → CheckoutOrder
    → Store
    → Result PaymentError (CheckoutResult × Store)
replay_order user input o s =
    if o.user_id == user && o.idempotency_key == input.idempotency_key
    then ok (record { order_id = o.id; replayed = true }, s)
    else err PaymentError.conflict

-- The transaction. An absent hold and a foreign one are refused alike.
unfoldable pub create_checkout_transaction :
    (provider now user : ℕ)
    → CheckoutInput
    → GeneratedOrder
    → Store
    → Result PaymentError (CheckoutResult × Store)
unfolding order_of_hold check_hold write_order replay_order
create_checkout_transaction provider now user input gen s = do
  hold ← or_throw (find_by_token input.hold_token s.db.holds) PaymentError.authorization
  guard (hold.user_id == user) PaymentError.authorization
  elim (order_of_hold hold.id s.orders) [
    | some o ↦ replay_order user input o s
    | none ↦ check_hold now hold s >>= λ checked. write_order provider user input gen hold checked s
  ]

-- The arguments: the actor, if there is one, and the input, if it parses.
unfoldable pub create_checkout_order :
    (provider now : ℕ)
    → Option ℕ
    → Option CheckoutInput
    → GeneratedOrder
    → Store
    → Result PaymentError (CheckoutResult × Store)
unfolding create_checkout_transaction
create_checkout_order provider now actor raw gen s = do
  user ← or_throw actor PaymentError.authentication
  input ← or_throw raw PaymentError.validation
  create_checkout_transaction provider now user input gen s
