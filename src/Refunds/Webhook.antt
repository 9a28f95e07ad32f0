-- ===== src/Refunds/Webhook.antt =====
-- `processVerifiedRefundRecord` of src/server/payments/webhook-service.ts, on the webhook's row and the
-- payment of its refund.
use seatflow.Prelude.{
  ℕ, ◌+◌, ◌≡◌, refl, Bool, true, false, Option, none, some, Result, ok, ◌>>=◌, ◌>>◌, guard,
  or_throw, if◌then◌else◌, arith, Bool-cases, inl, inr, >>=-eq-ok,
}
use seatflow.Domain.{Currency, RefundStatus}
use seatflow.Checkout.Tables.{ProcessingStatus}
use seatflow.Payments.Processing.{is_settled}
use seatflow.Refunds.Payment.{Payment}
use seatflow.Refunds.Settlement.{
  SettleInput, SettlementOutcome, SettlementReason, SettlementReview, applied, ignored, reviewed,
  unknown_refund, settle_refund,
}

pub data RefundCode : Type 0 where
  unknown_provider_refund : RefundCode
  settlement : SettlementReview → RefundCode

pub data RefundIgnored : Type 0 where
  already_processed : RefundIgnored
  settlement_reason : SettlementReason → RefundIgnored

-- A PaymentWebhookEvent of the category REFUND.
pub record RefundWebhook : Type 0 where
  pub id : ℕ
  pub provider_refund_id : Option ℕ
  pub normalized_refund_status : Option RefundStatus
  pub amount_minor : ℕ
  pub currency : Currency
  pub occurred_at : Option ℕ
  pub is_verified : Bool
  pub processing_status : ProcessingStatus
  pub safe_processing_error : Option RefundCode
  pub attempt_count : ℕ

pub data RefundWebhookError : Type 0 where
  webhook_signature webhook_validation refused_by_database : RefundWebhookError

-- The part of `WebhookProcessingResult` that this route answers, with `duplicate`.
pub data RefundAnswer : Type 0 where
  refund_settled : RefundStatus → (duplicate : Bool) → RefundAnswer
  in_review : RefundCode → (duplicate : Bool) → RefundAnswer
  refund_ignored : RefundIgnored → (duplicate : Bool) → RefundAnswer

abbrev pub review_code : SettlementOutcome → Option RefundCode
review_code (reviewed code) = some (settlement code)
review_code unknown_refund = some unknown_provider_refund
review_code _ = none

abbrev pub status_after : SettlementOutcome → ProcessingStatus
status_after o = elim (review_code o) [
  | none ↦ ProcessingStatus.processed
  | some code ↦ ProcessingStatus.requires_review
]

abbrev pub processed_webhook : SettlementOutcome → RefundWebhook → RefundWebhook
processed_webhook o w = record w {
  processing_status = status_after o;
  attempt_count = w.attempt_count + 1;
  safe_processing_error = review_code o;
}

abbrev pub answer_of : SettlementOutcome → RefundAnswer
answer_of (applied status) = refund_settled status false
answer_of (reviewed code) = in_review (settlement code) false
answer_of unknown_refund = in_review unknown_provider_refund false
answer_of (ignored reason) = refund_ignored (settlement_reason reason) false

abbrev pub settle_input : (now : ℕ) → RefundWebhook → (refund : ℕ) → RefundStatus → SettleInput
settle_input now w refund status = record {
  webhook_id = w.id;
  provider_refund_id = refund;
  incoming_status = status;
  amount_minor = w.amount_minor;
  currency = w.currency;
  occurred_at = w.occurred_at;
  now = now;
}

-- A webhook that is not settled yet. A settlement that the database refuses rolls back.
unfoldable pub settle_webhook :
    (now : ℕ)
    → RefundWebhook
    → Payment
    → Result RefundWebhookError (RefundAnswer × RefundWebhook × Payment)
settle_webhook now w p = do
  guard w.is_verified webhook_signature
  refund ← or_throw w.provider_refund_id webhook_validation
  status ← or_throw w.normalized_refund_status webhook_validation
  (o, q) ← or_throw (settle_refund (settle_input now w refund status) p) refused_by_database
  ok (answer_of o, processed_webhook o w, q)

unfoldable pub process_verified_refund_record :
    (now : ℕ)
    → RefundWebhook
    → Payment
    → Result RefundWebhookError (RefundAnswer × RefundWebhook × Payment)
unfolding settle_webhook
process_verified_refund_record now w p =
    if is_settled w.processing_status
    then ok (refund_ignored already_processed true, w, p)
    else settle_webhook now w p

processed_webhook-settled :
    (o : SettlementOutcome) (w : RefundWebhook)
    → is_settled (processed_webhook o w).processing_status ≡ true
processed_webhook-settled (applied status) w = refl
processed_webhook-settled (ignored reason) w = refl
processed_webhook-settled (reviewed code) w = refl
processed_webhook-settled unknown_refund w = refl

settle_webhook-settled :
    (now : ℕ) (w w' : RefundWebhook) (p q : Payment) (a : RefundAnswer)
    → settle_webhook now w p ≡ ok (a, w', q)
    → is_settled w'.processing_status ≡ true
unfolding settle_webhook
settle_webhook-settled now w w' p q a e =
    let (_, _, r₁) = >>=-eq-ok (guard w.is_verified webhook_signature) _ e in
    let (refund, _, r₂) = >>=-eq-ok (or_throw w.provider_refund_id webhook_validation) _ r₁ in
    let (status, _, r₃) = >>=-eq-ok (or_throw w.normalized_refund_status webhook_validation) _ r₂ in
    let ((o, q'), _, r₄) =
      >>=-eq-ok (or_throw (settle_refund (settle_input now w refund status) p) refused_by_database)
        _ r₃ in
    ground (arith, r₄, processed_webhook-settled o w)

-- A refund webhook that was processed once settles its refund no more: processing it again, at any
-- time, answers ALREADY_PROCESSED and leaves the webhook and the payment as they are.
pub process_verified_refund_record-once :
    (now later : ℕ) (w w' : RefundWebhook) (p q : Payment) (a : RefundAnswer)
    → process_verified_refund_record now w p ≡ ok (a, w', q)
    → process_verified_refund_record later w' q ≡ ok (refund_ignored already_processed true, w', q)
unfolding process_verified_refund_record
process_verified_refund_record-once now later w w' p q a e =
    elim (Bool-cases (is_settled w.processing_status)) [
      | inl settled ↦ ground (arith, e, settled)
      | inr todo ↦ ground (arith, settle_webhook-settled now w w' p q a (ground (arith, e, todo)))
    ]
