-- ===== src/Payments/Redelivery.antt =====
-- Webhooks of src/server/payments/webhook-service.ts that are delivered again.
use seatflow.Prelude.{
  ℕ, ◌≡◌, true, some, ok, find_by, arith, Bool-cases, inl, inr, >>=-eq-ok, or_throw, or_throw-ok,
  find_by-key, find_by-put_by, ap, ◌∙◌,
}
use seatflow.Checkout.Tables.{Webhook, Store, PaymentError, webhook_key}
use seatflow.Payments.Fulfillment.{finished}
use seatflow.Payments.Processing.{is_settled, process_transaction}
use seatflow.Payments.Delivery.{
  PaymentEvent, deliver_payment, route_stored, store_verified_webhook, webhook_of_event,
  load_existing_result,
}
use seatflow.Payments.Finishing.{process_webhook-Finishes}

-- A transaction that commits leaves the webhook in a settled status.
pub process_transaction-settles :
    (now fresh webhook : ℕ) (s s' : Store)
    → process_transaction now fresh webhook s ≡ ok s'
    → (w : Webhook) × (find_by webhook_key webhook s'.webhooks ≡ some w)
      × (is_settled w.processing_status ≡ true)
unfolding process_transaction
process_transaction-settles now fresh webhook s s' e =
    let (w, found, r) =
      >>=-eq-ok (or_throw (find_by webhook_key webhook s.webhooks) PaymentError.not_found) _ e in
    let row = or_throw-ok (find_by webhook_key webhook s.webhooks) PaymentError.not_found w found in
    elim (Bool-cases (is_settled w.processing_status)) [
      | inl settled ↦ (w, ground (arith, r, settled, row), settled)
      | inr todo ↦
          let (status, code, h, written, _) =
            process_webhook-Finishes now fresh w s s' (ground (arith, r, todo)) in
          (
            finished status code w,
            ap (find_by webhook_key webhook) written
                ∙ find_by-put_by webhook_key webhook s.webhooks w (finished status code w) row
                    (find_by-key webhook_key webhook s.webhooks w row),
            h,
          )
    ]

-- With nothing committed in between, an event whose webhook is settled changes nothing, whatever ids and times the delivery comes with;
-- the answer is the stored outcome, marked as a duplicate.
pub deliver_payment-settled :
    (provider now fresh fresh_booking : ℕ) (e : PaymentEvent) (w : Webhook) (s : Store)
    → webhook_of_event provider e.provider_event_id s.webhooks ≡ some w
    → find_by webhook_key w.id s.webhooks ≡ some w
    → is_settled w.processing_status ≡ true
    → deliver_payment (λ x. x) (λ x. x) provider now fresh fresh_booking e s
      ≡ (load_existing_result w.id true s, s)
unfolding deliver_payment store_verified_webhook route_stored
deliver_payment-settled provider now fresh fresh_booking e w s found row settled =
    ground (arith, found, row, settled)
