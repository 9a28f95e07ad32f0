-- ===== src/Checkout/Intent.antt =====
-- `ensurePaymentIntent` and `createCheckoutAndPayment` of src/server/payments/checkout-service.ts. The
-- texts and addresses that a provider answers are left out.
use seatflow.Prelude.{
  ℕ, ◌==◌, Bool, true, false, ◌&&◌, not, Option, none, some, List, [], ◌∷◌, any, Result, ok, ◌>>=◌,
  ◌>>◌, guard, or_throw, if◌then◌else◌, leb, find_by, is_some_of,
}
use seatflow.Domain.{Currency, CheckoutOrderStatus, PaymentAttemptStatus}
use seatflow.Holds.Tables.{InventoryEventType}
use seatflow.Checkout.Tables.{
  CheckoutOrder, PaymentAttempt, Store, PaymentError, order_key, attempt_key, put_order,
  put_attempt, event_of, enqueue_events,
}
use seatflow.Checkout.Creation.{
  CheckoutInput, GeneratedOrder, CheckoutResult, create_checkout_order,
}

-- What a provider is asked for, and what it answers.
pub record IntentRequest : Type 0 where
  pub order_id : ℕ
  pub amount_minor : ℕ
  pub currency : Currency
  pub idempotency_key : ℕ
  pub expires_at : ℕ

pub record ProviderIntent : Type 0 where
  pub provider_intent_id : ℕ
  pub status : PaymentAttemptStatus

-- `PaymentIntentResult`.
pub record IntentResult : Type 0 where
  pub attempt_id : ℕ
  pub intent : ProviderIntent
  pub replayed : Bool

abbrev pub stored_intent : PaymentAttempt → ℕ → IntentResult
stored_intent a i = record {
  attempt_id = a.id;
  intent = record { provider_intent_id = i; status = a.status };
  replayed = true;
}

-- `paymentAttempt.findFirst({ where: { orderId, provider } })`.
unfoldable pub attempt_of_order : (order provider : ℕ) → List PaymentAttempt → Option PaymentAttempt
attempt_of_order order provider [] = none
attempt_of_order order provider (a ∷ rest) =
    if a.order_id == order && a.provider == provider
    then some a
    else attempt_of_order order provider rest

abbrev pub with_intent : ℕ → PaymentAttempt → PaymentAttempt
with_intent i a = record a { provider_intent_id = some i; status = PaymentAttemptStatus.pending }

-- The unique index on (provider, providerIntentId).
abbrev pub owns_intent : (provider i : ℕ) → PaymentAttempt → Bool
owns_intent provider i a = a.provider == provider && is_some_of i a.provider_intent_id

abbrev pub is_new_order : CheckoutOrderStatus → Bool
is_new_order CheckoutOrderStatus.pending = true
is_new_order _ = false

abbrev pub start_payment : CheckoutOrder → Store → Result PaymentError Store
start_payment o s =
    if is_new_order o.status
    then put_order o (record o { status = CheckoutOrderStatus.payment_pending }) s
    else ok s

-- The writes of a new intent.
unfoldable pub write_intent :
    PaymentAttempt
    → CheckoutOrder
    → ProviderIntent
    → Store
    → Result PaymentError (IntentResult × Store)
write_intent a o intent s₀ = do
  guard (not (any (owns_intent a.provider intent.provider_intent_id) s₀.attempts))
      PaymentError.unique_violation
  s₁ ← put_attempt a (with_intent intent.provider_intent_id a) s₀
  s₂ ← start_payment o s₁
  let event = event_of InventoryEventType.payment_intent_created o.session_id a.id
  ok (
    record { attempt_id = a.id; intent = intent; replayed = false },
    record s₂ { db = enqueue_events (event ∷ []) s₂.db },
  )

-- The transaction after the call of the provider.
unfoldable pub store_intent :
    (attempt : ℕ) → ProviderIntent → Store → Result PaymentError (IntentResult × Store)
unfolding write_intent
store_intent i intent s = do
  a ← or_throw (find_by attempt_key i s.attempts) PaymentError.not_found
  o ← or_throw (find_by order_key a.order_id s.orders) PaymentError.not_found
  elim a.provider_intent_id [
    | some known ↦ ok (stored_intent a known, s)
    | none ↦ write_intent a o intent s
  ]

abbrev pub intent_request : CheckoutOrder → PaymentAttempt → IntentRequest
intent_request o a = record {
  order_id = o.id;
  amount_minor = a.amount_minor;
  currency = a.currency;
  idempotency_key = a.provider_idempotency_key;
  expires_at = o.checkout_expires_at;
}

-- `provider.createPaymentIntent`, which may throw, and what other requests commit during the call.
module _ (create_payment_intent : IntentRequest → Option ProviderIntent)
    (between : Store → Store) where
  unfoldable pub request_intent :
      (now : ℕ) → PaymentAttempt → Store → Result PaymentError (IntentResult × Store)
  unfolding store_intent
  request_intent now a s = do
    o ← or_throw (find_by order_key a.order_id s.orders) PaymentError.not_found
    guard (not (leb o.checkout_expires_at now)) PaymentError.checkout_expired
    intent ← or_throw (create_payment_intent (intent_request o a)) PaymentError.provider_unavailable
    store_intent a.id intent (between s)

  unfoldable pub ensure_payment_intent :
      (provider now order : ℕ) → Store → Result PaymentError (IntentResult × Store)
  unfolding attempt_of_order request_intent
  ensure_payment_intent provider now order s = do
    a ← or_throw (attempt_of_order order provider s.attempts) PaymentError.conflict
    elim a.provider_intent_id [
      | some known ↦ ok (stored_intent a known, s)
      | none ↦ request_intent now a s
    ]

  unfoldable pub create_checkout_and_payment :
      (provider now : ℕ)
      → Option ℕ
      → Option CheckoutInput
      → GeneratedOrder
      → Store
      → Result PaymentError ((CheckoutResult × IntentResult) × Store)
  unfolding ensure_payment_intent
  create_checkout_and_payment provider now actor raw gen s₀ = do
    (order, s₁) ← create_checkout_order provider now actor raw gen s₀
    (payment, s₂) ← ensure_payment_intent provider now order.order_id s₁
    ok ((order, payment), s₂)
