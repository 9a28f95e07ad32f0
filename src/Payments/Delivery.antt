-- ===== src/Payments/Delivery.antt =====
-- The delivery of payment webhooks: `storeVerifiedWebhook`, `loadExistingResult`, the catch of
-- `processVerifiedWebhookRecord` and `processPaymentWebhook` of src/server/payments/webhook-service.ts.
-- The tickets that may be issued right after the commit are left out.
use seatflow.Prelude.{
  ℕ, ◌+◌, ◌==◌, Bool, true, false, ◌&&◌, not, Option, none, some, List, [], ◌∷◌, ◌++◌, map, Result,
  ok, err, ◌>>=◌, ◌>>◌, guard, or_throw, if◌then◌else◌, find_by, leb, is_some_of,
}
use seatflow.Domain.{Currency, PaymentAttemptStatus}
use seatflow.Checkout.Tables.{
  SafeCode, PaymentAttempt, Booking, Webhook, WebhookCategory, ProcessingStatus, Store,
  PaymentError, attempt_key, webhook_key, booking_order,
}
use seatflow.Payments.Processing.{is_settled, is_failure, process_transaction}

-- `NormalizedPaymentWebhookEvent`.
pub record PaymentEvent : Type 0 where
  pub provider_event_id : ℕ
  pub provider_intent_id : ℕ
  pub status : PaymentAttemptStatus
  pub amount_minor : ℕ
  pub currency : Currency

-- `WebhookProcessingResult` of the payment route, each with `duplicate`.
pub data WebhookResult : Type 0 where
  booked : (booking : ℕ) (duplicate : Bool) → WebhookResult
  failed pending unsupported : (duplicate : Bool) → WebhookResult
  in_review : SafeCode → (duplicate : Bool) → WebhookResult

abbrev pub or_review : Option SafeCode → SafeCode
or_review none = SafeCode.payment_requires_review
or_review (some code) = code

-- `webhook.paymentAttempt?.order.booking`.
unfoldable pub booking_of_attempt : Option ℕ → Store → Option Booking
booking_of_attempt none s = none
booking_of_attempt (some i) s = elim (find_by attempt_key i s.attempts) [
  | none ↦ none
  | some a ↦ find_by booking_order a.order_id s.bookings
]

abbrev pub is_failed_status : Option PaymentAttemptStatus → Bool
is_failed_status none = false
is_failed_status (some status) = is_failure status

abbrev pub is_in_review : ProcessingStatus → Bool
is_in_review ProcessingStatus.requires_review = true
is_in_review _ = false

abbrev pub result_of_webhook : Webhook → Bool → Store → WebhookResult
result_of_webhook w duplicate s = elim (booking_of_attempt w.payment_attempt_id s) [
  | some b ↦ WebhookResult.booked b.id duplicate
  | none ↦
      if is_in_review w.processing_status
      then WebhookResult.in_review (or_review w.safe_processing_error) duplicate
      else if is_failed_status w.normalized_status
      then WebhookResult.failed duplicate
      else WebhookResult.pending duplicate
]

unfoldable pub load_existing_result :
    (webhook : ℕ) → Bool → Store → Result PaymentError WebhookResult
unfolding booking_of_attempt
load_existing_result i duplicate s = do
  w ← or_throw (find_by webhook_key i s.webhooks) PaymentError.not_found
  ok (result_of_webhook w duplicate s)

-- `paymentAttempt.findFirst({ where: { provider, providerIntentId } })`.
unfoldable pub attempt_of_intent : (provider intent : ℕ) → List PaymentAttempt → Option ℕ
attempt_of_intent provider intent [] = none
attempt_of_intent provider intent (a ∷ rest) =
    if a.provider == provider && is_some_of intent a.provider_intent_id
    then some a.id
    else attempt_of_intent provider intent rest

-- The unique pair (provider, providerEventId).
unfoldable pub webhook_of_event : (provider event : ℕ) → List Webhook → Option Webhook
webhook_of_event provider event [] = none
webhook_of_event provider event (w ∷ ws) =
    if w.provider == provider && w.provider_event_id == event
    then some w
    else webhook_of_event provider event ws

abbrev pub received_webhook : (provider fresh : ℕ) → PaymentEvent → Store → Webhook
received_webhook provider fresh e s = record {
  id = fresh;
  provider = provider;
  provider_event_id = e.provider_event_id;
  category = WebhookCategory.payment;
  provider_intent_id = e.provider_intent_id;
  payment_attempt_id = attempt_of_intent provider e.provider_intent_id s.attempts;
  normalized_status = some e.status;
  amount_minor = e.amount_minor;
  currency = e.currency;
  is_verified = true;
  processing_status = ProcessingStatus.received;
  safe_processing_error = none;
  attempt_count = 0;
}

-- `storeVerifiedWebhook`: the webhook, whether it is a duplicate, and the store. `fresh` is the id
-- that a new row gets.
unfoldable pub store_verified_webhook :
    (provider fresh : ℕ) → PaymentEvent → Store → Webhook × Bool × Store
unfolding webhook_of_event attempt_of_intent
store_verified_webhook provider fresh e s =
    elim (webhook_of_event provider e.provider_event_id s.webhooks) [
      | some w ↦ (w, true, s)
      | none ↦
          let w = received_webhook provider fresh e s in
          (w, false, record s { webhooks = s.webhooks ++ w ∷ [] })
    ]

-- `updateMany({ where: { id, processingStatus: { in: ["RECEIVED", "FAILED"] } } })`.
abbrev pub retry_webhook : (webhook : ℕ) → Webhook → Webhook
retry_webhook i w =
    if w.id == i && not (is_settled w.processing_status)
    then record w {
      processing_status = ProcessingStatus.failed;
      safe_processing_error = some SafeCode.processing_retry_required;
      attempt_count = w.attempt_count + 1;
    }
    else w

abbrev pub is_signature_error : PaymentError → Bool
is_signature_error PaymentError.webhook_signature = true
is_signature_error _ = false

abbrev pub mark_retry : (webhook : ℕ) → PaymentError → Store → Store
mark_retry i e s =
    if is_signature_error e then s else record s { webhooks = map (retry_webhook i) s.webhooks }

-- `processVerifiedWebhookRecord`. `between` is what other requests commit before the stored outcome is
-- read, or before the retry is noted.
unfoldable pub process_verified_webhook_record :
    (between : Store → Store)
    → (now fresh webhook : ℕ) → Store
    → Result PaymentError WebhookResult × Store
unfolding load_existing_result
process_verified_webhook_record between now fresh i s = elim (process_transaction now fresh i s) [
  | ok done ↦ (load_existing_result i false (between done), between done)
  | err e ↦ (err e, mark_retry i e (between s))
]

abbrev pub with_duplicate : Bool → WebhookResult → WebhookResult
with_duplicate d (WebhookResult.booked b _) = WebhookResult.booked b d
with_duplicate d (WebhookResult.failed _) = WebhookResult.failed d
with_duplicate d (WebhookResult.pending _) = WebhookResult.pending d
with_duplicate d (WebhookResult.unsupported _) = WebhookResult.unsupported d
with_duplicate d (WebhookResult.in_review code _) = WebhookResult.in_review code d

abbrev pub with_result :
    Bool → Result PaymentError WebhookResult × Store → Result PaymentError WebhookResult × Store
with_result d (ok r, s) = (ok (with_duplicate d r), s)
with_result d (err e, s) = (err e, s)

-- What is done with a stored event: a duplicate whose webhook is settled by now is answered from the
-- store, and any other is processed.
unfoldable pub route_stored :
    (between : Store → Store)
    → (now fresh webhook : ℕ) → Bool
    → Store
    → Result PaymentError WebhookResult × Store
unfolding process_verified_webhook_record
route_stored between now fresh i false s =
    with_result false (process_verified_webhook_record between now fresh i s)
route_stored between now fresh i true s = elim (find_by webhook_key i s.webhooks) [
  | none ↦ (err PaymentError.not_found, s)
  | some w ↦
      if is_settled w.processing_status
      then (load_existing_result i true (between s), between s)
      else with_result true (process_verified_webhook_record between now fresh i s)
]

-- The route of a PAYMENT event; the ids are those that a new webhook and a new booking would get.
-- `first` and `second` are what other requests commit between its transactions: after the event is
-- stored, and before the outcome is read.
unfoldable pub deliver_payment :
    (first second : Store → Store)
    → (provider now fresh fresh_booking : ℕ) → PaymentEvent
    → Store
    → Result PaymentError WebhookResult × Store
unfolding store_verified_webhook route_stored
deliver_payment first second provider now fresh fresh_booking e s =
    let (w, duplicate, stored) = store_verified_webhook provider fresh e s in
    route_stored second now fresh_booking w.id duplicate (first stored)

-- What a provider normalizes a payload to; refund and dispute events keep their own shapes.
pub data NormalizedEvent (Refund Dispute : Type 0) : Type 0 where
  payment : PaymentEvent → NormalizedEvent Refund Dispute
  refund : Refund → NormalizedEvent Refund Dispute
  dispute : Dispute → NormalizedEvent Refund Dispute
  not_modelled : NormalizedEvent Refund Dispute

-- The provider's own checks: `verifyWebhook` and `normalizeWebhookEvent`, which may throw.
module _ {Payload Refund Dispute : Type 0} (byte_length : Payload → ℕ)
    (verify : Payload → (signature : ℕ) → Bool)
    (normalize : Payload → Option (NormalizedEvent Refund Dispute)) where
  -- What comes before anything is stored.
  unfoldable pub accept_webhook :
      (limit : ℕ) → Payload → (signature : ℕ) → Result PaymentError (NormalizedEvent Refund Dispute)
  accept_webhook limit body signature = do
    guard (leb 1 limit && leb (byte_length body) limit) PaymentError.webhook_too_large
    guard (verify body signature) PaymentError.webhook_signature
    or_throw (normalize body) PaymentError.webhook_validation
