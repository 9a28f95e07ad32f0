-- ===== src/Examples/Payments.antt =====
-- One hold of one seat, its order, payment and webhook.
use seatflow.Prelude.{◌≡◌, refl, true, false, none, some, List, [], ◌∷◌, Result, ok, err}
use seatflow.Domain.{
  Currency, EventStatus, EventSessionStatus, SeatInventoryState, SeatHoldStatus,
  CheckoutOrderStatus, PaymentAttemptStatus,
}
use seatflow.Holds.Tables.{
  InventoryRow, SeatHold, Session, Database, find_hold, find_session, find_row, has_item,
  InventoryEventType,
}
use seatflow.Holds.Consistency.{IsConsistent, is_row_consistent, has_distinct_seats}
use seatflow.Holds.Eligibility.{evaluate_session_sales_eligibility}
use seatflow.Checkout.Lifecycle.{is_terminal_checkout_status, decide_paid_fulfillment}
use seatflow.Checkout.Totals.{CheckoutTotal, calculate_checkout_total, total_from}
use seatflow.Checkout.Tables.{
  CheckoutOrder, PaymentAttempt, Webhook, WebhookCategory, ProcessingStatus, Store, PaymentError,
  put_attempt, put_order, create_booking, is_terminal_payment_status,
  is_contradictory_terminal_status,
}
use seatflow.Checkout.Creation.{
  CheckoutInput, GeneratedOrder, check_hold, write_order, new_order, new_attempt, order_items,
  create_order, create_attempt,
}
use seatflow.Payments.Snapshots.{hold_item_for, item_matches, snapshots_match}
use seatflow.Payments.Fulfillment.{fulfill_order}
use seatflow.Payments.Processing.{
  process_transaction, process_order, process_success, process_paid, process_webhook,
  process_attempt, is_settled,
}
use seatflow.Payments.Soundness.{IsSound}
use seatflow.Payments.Selling.{sold_store}
use seatflow.Payments.Capturing.{IsLocked}
use seatflow.Payments.Paying.{IsSettled, is_sellable, process_order-captures, process_order-late}
use seatflow.Payments.Interleaving.{StoreStep, StoreReach, StoreReach-IsSound}
use seatflow.Payments.SeatLifecycle.{SeatStep}
use seatflow.Payments.SeatRefinement.{StoreReach-refines}
use seatflow.Payments.Delivery.{
  PaymentEvent, WebhookResult, deliver_payment, route_stored, webhook_of_event,
  store_verified_webhook, attempt_of_intent, process_verified_webhook_record, load_existing_result,
  booking_of_attempt,
}
use seatflow.Payments.Redelivery.{process_transaction-settles}
use seatflow.Payments.ExactlyOnce.{deliver_payment-once}
use seatflow.Payments.Payable.{write_order-IsSellable, has_row_price}
use seatflow.Checkout.Tables.{webhook_key, event_of}
use seatflow.Prelude.{find_by, all}

abbrev row : InventoryRow
row = record {
  id = 2;
  session_id = 1;
  seat_id = 22;
  section_id = 3;
  price_tier_id = 4;
  price_minor = 5000;
  currency = Currency.eur;
  state = SeatInventoryState.held;
  current_hold_id = some 7;
  hold_expires_at = some 900;
}

abbrev hold : SeatHold
hold = record {
  id = 7;
  public_token = 70;
  session_id = 1;
  user_id = 40;
  status = SeatHoldStatus.active;
  idempotency_key = 50;
  expires_at = 900;
  released_at = none;
  expired_at = none;
  converted_at = none;
}

abbrev session : Session
session = record {
  id = 1;
  event_id = 11;
  organization_id = 12;
  status = EventSessionStatus.on_sale;
  event_status = EventStatus.published;
  start_at = 9000;
  sales_start_at = 100;
  sales_end_at = 8000;
}

abbrev tables : Database
tables = record {
  inventory = row ∷ [];
  holds = hold ∷ [];
  items =
      record { hold_id = 7; inventory_id = 2; price_minor = 5000; currency = Currency.eur } ∷ [];
  outbox = [];
  sessions = session ∷ [];
  hold_conflicts = 0;
}

abbrev order : CheckoutOrder
order = record {
  id = 21;
  user_id = 40;
  organization_id = 12;
  event_id = 11;
  session_id = 1;
  source_hold_id = 7;
  status = CheckoutOrderStatus.payment_pending;
  currency = Currency.eur;
  total_minor = 5000;
  idempotency_key = 60;
  checkout_expires_at = 900;
  items =
      record {
        inventory_id = 2;
        seat_id = 22;
        section_id = 3;
        price_tier_id = 4;
        price_minor = 5000;
        currency = Currency.eur;
      }
      ∷ [];
  safe_failure_code = none;
}

abbrev attempt : PaymentAttempt
attempt = record {
  id = 31;
  order_id = 21;
  provider = 1;
  provider_intent_id = some 61;
  provider_idempotency_key = 62;
  status = PaymentAttemptStatus.pending;
  amount_minor = 5000;
  currency = Currency.eur;
  safe_failure_code = none;
}

abbrev paid_event : PaymentEvent
paid_event = record {
  provider_event_id = 71;
  provider_intent_id = 61;
  status = PaymentAttemptStatus.succeeded;
  amount_minor = 5000;
  currency = Currency.eur;
}

abbrev store_with : CheckoutOrder → List Webhook → Store
store_with o ws = record {
  db = tables;
  orders = o ∷ [];
  attempts = attempt ∷ [];
  webhooks = ws;
  bookings = [];
  issuance = [];
}

abbrev webhook : Webhook
webhook = record {
  id = 41;
  provider = 1;
  provider_event_id = 71;
  category = WebhookCategory.payment;
  provider_intent_id = 61;
  payment_attempt_id = some 31;
  normalized_status = some PaymentAttemptStatus.succeeded;
  amount_minor = 5000;
  currency = Currency.eur;
  is_verified = true;
  processing_status = ProcessingStatus.received;
  safe_processing_error = none;
  attempt_count = 0;
}

abbrev paying : Store
paying = store_with order (webhook ∷ [])

abbrev late_order : CheckoutOrder
late_order = record order { status = CheckoutOrderStatus.expired }

tables-IsConsistent : IsConsistent tables
unfolding is_row_consistent has_item find_hold has_distinct_seats
tables-IsConsistent = record {
  rows = refl;
  distinct_rows = refl;
  distinct_holds = refl;
  distinct_seats = refl;
  owned_items = refl;
}

paying-IsSound : IsSound paying
paying-IsSound = record {
  consistent = tables-IsConsistent;
  seated = refl;
  sold_once = refl;
  fulfilled = refl;
  distinct_orders = refl;
  distinct_items = refl;
}

late-IsSound : IsSound (store_with late_order (webhook ∷ []))
late-IsSound = record {
  consistent = tables-IsConsistent;
  seated = refl;
  sold_once = refl;
  fulfilled = refl;
  distinct_orders = refl;
  distinct_items = refl;
}

paying-IsLocked : IsLocked webhook attempt order hold paying
unfolding find_hold
paying-IsLocked = record {
  stored_webhook = refl;
  stored_attempt = refl;
  stored_order = refl;
  stored_hold = refl;
}

abbrev sold : Store
sold = sold_store 500 91 webhook attempt order hold paying

processed_at_500 : process_transaction 500 91 41 paying ≡ ok sold
unfolding process_transaction process_webhook process_attempt process_order process_success
    process_paid fulfill_order find_hold find_session decide_paid_fulfillment snapshots_match
    item_matches hold_item_for find_row put_attempt put_order create_booking
    is_terminal_payment_status is_terminal_checkout_status is_contradictory_terminal_status
processed_at_500 = refl

StoreReach-IsSound_example : IsSound sold
StoreReach-IsSound_example =
    StoreReach-IsSound paying-IsSound
      (StoreReach.next StoreReach.here (StoreStep.on_payment 500 91 41 processed_at_500))

StoreReach-refines_example :
    SeatStep (some SeatInventoryState.held) (some SeatInventoryState.booked)
unfolding find_row
StoreReach-refines_example =
    StoreReach-refines paying-IsSound StoreReach.here
      (StoreStep.on_payment 500 91 41 processed_at_500) 2

process_order-captures_example : IsSettled 500 91 webhook attempt order hold session paying
unfolding is_terminal_payment_status is_terminal_checkout_status
process_order-captures_example =
    process_order-captures 500 91 webhook attempt order hold session paying paying-IsSound
      paying-IsLocked refl refl refl

process_order-late_example :
    process_order 500 91 PaymentAttemptStatus.succeeded webhook attempt late_order hold session
      (store_with late_order (webhook ∷ []))
    ≡ err PaymentError.refused_by_trigger
unfolding is_terminal_payment_status is_terminal_checkout_status
process_order-late_example =
    process_order-late 500 91 webhook attempt late_order hold session
      (store_with late_order (webhook ∷ [])) late-IsSound refl refl refl refl refl refl

process_transaction-settles_example :
    (w : Webhook) × (find_by webhook_key 41 sold.webhooks ≡ some w)
    × (is_settled w.processing_status ≡ true)
process_transaction-settles_example =
    process_transaction-settles 500 91 41 paying sold processed_at_500

abbrev delivered : Result PaymentError WebhookResult × Store
delivered = deliver_payment (λ x. x) (λ x. x) 1 500 41 91 paid_event (store_with order [])

delivered_once : delivered ≡ (ok (WebhookResult.booked 91 false), sold)
unfolding deliver_payment route_stored store_verified_webhook webhook_of_event attempt_of_intent
    process_verified_webhook_record load_existing_result booking_of_attempt process_transaction
    process_webhook process_attempt process_order process_success process_paid fulfill_order
    find_hold find_session decide_paid_fulfillment snapshots_match item_matches hold_item_for
    find_row put_attempt put_order create_booking is_terminal_payment_status
    is_terminal_checkout_status is_contradictory_terminal_status
delivered_once = refl

deliver_payment-once_example :
    deliver_payment (λ x. x) (λ x. x) 1 600 42 92 paid_event sold
    ≡ (ok (WebhookResult.booked 91 true), sold)
deliver_payment-once_example =
    deliver_payment-once 1 500 41 91 paid_event (store_with order []) sold
      (WebhookResult.booked 91 false) 600 42 92 refl refl delivered_once

abbrev unordered : Store
unordered = record {
  db = tables;
  orders = [];
  attempts = [];
  webhooks = [];
  bookings = [];
  issuance = [];
}

abbrev eur_total : CheckoutTotal
eur_total = record {
  subtotal_minor = 5000;
  total_minor = 5000;
  currency = Currency.eur;
  seat_count = 1;
}

abbrev input : CheckoutInput
input = record { hold_token = 70; idempotency_key = 60 }

abbrev generated : GeneratedOrder
generated = record { order_id = 21; attempt_id = 31; provider_key = 62 }

abbrev first_order : CheckoutOrder
first_order = new_order 40 input generated hold session eur_total order.items

abbrev first_attempt : PaymentAttempt
first_attempt = new_attempt 1 generated eur_total

abbrev ordered : Store
ordered = record unordered {
  orders = first_order ∷ [];
  attempts = first_attempt ∷ [];
  db = record tables { outbox = event_of InventoryEventType.checkout_created 1 21 ∷ [] };
}

checked_hold : check_hold 400 hold unordered ≡ ok (session, eur_total)
unfolding check_hold find_session evaluate_session_sales_eligibility calculate_checkout_total
    total_from
checked_hold = refl

written_order :
    write_order 1 40 input generated hold (session, eur_total) unordered
    ≡ ok (record { order_id = 21; replayed = false }, ordered)
unfolding write_order order_items find_row create_order create_attempt
written_order = refl

has_price : all (has_row_price hold (row ∷ [])) tables.items ≡ true
unfolding find_row
has_price = refl

write_order-IsSellable_example : is_sellable 899 first_order hold session ordered ≡ true
unfolding order_items find_row
write_order-IsSellable_example =
    write_order-IsSellable 1 400 40 899 input generated hold session eur_total unordered
      (record { order_id = 21; replayed = false }, ordered) checked_hold written_order has_price
      refl
