-- ===== src/Payments/ExactlyOnce.antt =====
-- One payment event of src/server/payments/webhook-service.ts, delivered twice.
use seatflow.Prelude.{
  ℕ, ◌==◌, ◌≡◌, refl, Bool, true, false, ◌&&◌, Option, none, some, List, [], ◌∷◌, ◌++◌, map,
  contains, Result, ok, err, find_by, put_by, arith, Bool-cases, Option-cases, Result-cases, inl,
  inr, ==_eq, ==_self, is_distinct, find_by-put_by, ap, ◌∙◌,
}
use seatflow.Checkout.Tables.{SafeCode, Webhook, ProcessingStatus, Store, PaymentError, webhook_key}
use seatflow.Payments.Fulfillment.{finished}
use seatflow.Payments.Processing.{is_settled, process_transaction, process_webhook}
use seatflow.Payments.Delivery.{
  PaymentEvent, WebhookResult, deliver_payment, route_stored, store_verified_webhook,
  webhook_of_event, load_existing_result, process_verified_webhook_record, received_webhook,
  with_result, with_duplicate, result_of_webhook,
}
use seatflow.Payments.Finishing.{process_webhook-Finishes}
use seatflow.Payments.Redelivery.{deliver_payment-settled}

webhook_of_event-keys :
    (provider event : ℕ) (ws : List Webhook) (w : Webhook)
    → webhook_of_event provider event ws ≡ some w
    → (w.provider == provider && w.provider_event_id == event) ≡ true
unfolding webhook_of_event
webhook_of_event-keys provider event [] w e = cc
webhook_of_event-keys provider event (x ∷ ws) w e =
    ground (arith, e, webhook_of_event-keys provider event ws w)

webhook_of_event-put_by :
    (provider event : ℕ) (ws : List Webhook) (w new : Webhook)
    → webhook_of_event provider event ws ≡ some w
    → new.id ≡ w.id
    → new.provider ≡ w.provider
    → new.provider_event_id ≡ w.provider_event_id
    → webhook_of_event provider event (put_by webhook_key new ws) ≡ some new
unfolding webhook_of_event
webhook_of_event-put_by provider event [] w new e i p v = cc
webhook_of_event-put_by provider event (x ∷ ws) w new e i p v =
    let keys = webhook_of_event-keys provider event (x ∷ ws) w e in
    elim (Bool-cases (x.provider == provider && x.provider_event_id == event)) [
      | inl here ↦ ground (arith, e, here, i, p, v, keys, ==_self w.id)
      | inr there ↦ ground (
        arith,
        e,
        there,
        p,
        v,
        keys,
        webhook_of_event-put_by provider event ws w new (ground (arith, e, there)) i p v,
      )
    ]

webhook_of_event-append :
    (provider event : ℕ) (ws : List Webhook) (w : Webhook)
    → webhook_of_event provider event ws ≡ none
    → w.provider ≡ provider
    → w.provider_event_id ≡ event
    → webhook_of_event provider event (ws ++ w ∷ []) ≡ some w
unfolding webhook_of_event
webhook_of_event-append provider event [] w e p v =
    ground (arith, p, v, ==_self provider, ==_self event)
webhook_of_event-append provider event (x ∷ ws) w e p v =
    ground (arith, e, p, v, webhook_of_event-append provider event ws w)

find_by-append_new :
    (ws : List Webhook) (w : Webhook)
    → contains (map webhook_key ws) w.id ≡ false
    → find_by webhook_key w.id (ws ++ w ∷ []) ≡ some w
find_by-append_new [] w e = ground (arith, ==_self w.id)
find_by-append_new (x ∷ ws) w e = ground (arith, e, find_by-append_new ws w)

contains-webhook :
    (provider event : ℕ) (ws : List Webhook) (w : Webhook)
    → webhook_of_event provider event ws ≡ some w
    → contains (map webhook_key ws) w.id ≡ true
unfolding webhook_of_event
contains-webhook provider event [] w e = cc
contains-webhook provider event (x ∷ ws) w e =
    ground (arith, e, ==_self w.id, contains-webhook provider event ws w)

find_by-webhook :
    (provider event : ℕ) (ws : List Webhook) (w : Webhook)
    → is_distinct (map webhook_key ws) ≡ true
    → webhook_of_event provider event ws ≡ some w
    → find_by webhook_key w.id ws ≡ some w
unfolding webhook_of_event
find_by-webhook provider event [] w d e = cc
find_by-webhook provider event (x ∷ ws) w d e = ground (
  arith,
  d,
  e,
  ==_self w.id,
  ==_eq x.id w.id,
  find_by-webhook provider event ws w,
  contains-webhook provider event ws w,
)

result_of_webhook-duplicate :
    (w : Webhook) (s : Store)
    → result_of_webhook w true s ≡ with_duplicate true (result_of_webhook w false s)
result_of_webhook-duplicate w s = ground arith

-- What the second delivery finds.
abbrev Repeats : (provider event : ℕ) → WebhookResult → Store → Type 0
Repeats provider event r s =
    (w : Webhook) × (webhook_of_event provider event s.webhooks ≡ some w)
    × (find_by webhook_key w.id s.webhooks ≡ some w)
    × (is_settled w.processing_status ≡ true)
    × (load_existing_result w.id true s ≡ ok (with_duplicate true r))

written-Repeats :
    (provider event : ℕ) (status : ProcessingStatus) (code : Option SafeCode) (w : Webhook)
    (s t : Store) (r : WebhookResult)
    → webhook_of_event provider event s.webhooks ≡ some w
    → find_by webhook_key w.id s.webhooks ≡ some w
    → is_settled status ≡ true
    → t.webhooks ≡ put_by webhook_key (finished status code w) s.webhooks
    → load_existing_result w.id false t ≡ ok r
    → Repeats provider event r t
unfolding load_existing_result
written-Repeats provider event status code w s t r found row settled put loaded =
    let done = finished status code w in
    let here : find_by webhook_key w.id t.webhooks ≡ some done =
      ap (find_by webhook_key w.id) put
      ∙ find_by-put_by webhook_key w.id s.webhooks w done row refl in
    (
      done,
      ap (webhook_of_event provider event) put
          ∙ webhook_of_event-put_by provider event s.webhooks w done found refl refl refl,
      here,
      settled,
      ground (arith, here, loaded, result_of_webhook-duplicate done t),
    )

module _ (provider event now fresh : ℕ) (w : Webhook) (s s' : Store) (r : WebhookResult) where
  process_record-Repeats :
      webhook_of_event provider event s.webhooks ≡ some w
      → find_by webhook_key w.id s.webhooks ≡ some w
      → is_settled w.processing_status ≡ false
      → process_verified_webhook_record (λ x. x) now fresh w.id s ≡ (ok r, s')
      → Repeats provider event r s'
  unfolding process_verified_webhook_record process_transaction
  process_record-Repeats found row todo e = elim (Result-cases (process_webhook now fresh w s)) [
    | inr (thrown, failed) ↦ absurd (ground (arith, e, row, todo, failed))
    | inl (t, written) ↦
        let (status, code, settled, put, _) = process_webhook-Finishes now fresh w s t written in
        let same : s' ≡ t = ground (arith, e, row, todo, written) in
        let loaded : load_existing_result w.id false t ≡ ok r =
          ground (arith, e, row, todo, written) in
        rw same (written-Repeats provider event status code w s t r found row settled put loaded)
  ]

with_result-ok :
    (d : Bool) (p : Result PaymentError WebhookResult × Store) (r : WebhookResult) (s' : Store)
    → with_result d p ≡ (ok r, s')
    → (q : WebhookResult) × (p ≡ (ok q, s')) × (with_duplicate true r ≡ with_duplicate true q)
with_result-ok d (ok q, t) r s' e = (q, ground (arith, e), ground (arith, e))
with_result-ok d (err x, t) r s' e = absurd cc

with_result-Repeats :
    (provider event : ℕ) (r q : WebhookResult) (s : Store)
    → with_duplicate true r ≡ with_duplicate true q
    → Repeats provider event q s
    → Repeats provider event r s
with_result-Repeats provider event r q s e (w, found, row, settled, loaded) =
    (w, found, row, settled, ground (arith, e, loaded))

with_duplicate_again :
    (r : WebhookResult) → with_duplicate true (with_duplicate true r) ≡ with_duplicate true r
with_duplicate_again r = ground arith

settled-Repeats :
    (provider event : ℕ) (w : Webhook) (s : Store) (r : WebhookResult)
    → webhook_of_event provider event s.webhooks ≡ some w
    → find_by webhook_key w.id s.webhooks ≡ some w
    → is_settled w.processing_status ≡ true
    → load_existing_result w.id true s ≡ ok r
    → Repeats provider event r s
unfolding load_existing_result
settled-Repeats provider event w s r found row settled loaded = (
  w,
  found,
  row,
  settled,
  ground (
    arith,
    row,
    loaded,
    result_of_webhook-duplicate w s,
    with_duplicate_again (result_of_webhook w false s),
  ),
)

deliver_payment-Repeats :
    (provider now fresh fresh_booking : ℕ) (e : PaymentEvent) (s s' : Store) (r : WebhookResult)
    → is_distinct (map webhook_key s.webhooks) ≡ true
    → contains (map webhook_key s.webhooks) fresh ≡ false
    → deliver_payment (λ x. x) (λ x. x) provider now fresh fresh_booking e s ≡ (ok r, s')
    → Repeats provider e.provider_event_id r s'
unfolding deliver_payment store_verified_webhook route_stored
deliver_payment-Repeats provider now fresh fresh_booking e s s' r d c h =
    elim (Option-cases (webhook_of_event provider e.provider_event_id s.webhooks)) [
      | inl missing ↦
          let w = received_webhook provider fresh e s in
          let t = record s { webhooks = s.webhooks ++ w ∷ [] } in
          let (q, done, same) =
            with_result-ok false (process_verified_webhook_record (λ x. x) now fresh_booking w.id t)
              r s' (ground (arith, h, missing)) in
          with_result-Repeats provider e.provider_event_id r q s' same (
            process_record-Repeats provider e.provider_event_id now fresh_booking w t s' q
              (webhook_of_event-append provider e.provider_event_id s.webhooks w missing refl refl)
              (find_by-append_new s.webhooks w c) refl done)
      | inr (w, found) ↦
          let row = find_by-webhook provider e.provider_event_id s.webhooks w d found in
          elim (Bool-cases (is_settled w.processing_status)) [
            | inl settled ↦
                let same : s' ≡ s = ground (arith, h, found, row, settled) in
                rw same (
                  settled-Repeats provider e.provider_event_id w s r found row settled
                    (ground (arith, h, found, row, settled)))
            | inr todo ↦
                let (q, done, same) =
                  with_result-ok true
                    (process_verified_webhook_record (λ x. x) now fresh_booking w.id s) r s'
                    (ground (arith, h, found, row, todo)) in
                with_result-Repeats provider e.provider_event_id r q s' same (
                  process_record-Repeats provider e.provider_event_id now fresh_booking w s s' q
                    found row todo done)
          ]
    ]

-- A payment event that was delivered with an answer changes nothing when it is delivered again, at any
-- time and whatever ids would be generated: the answer is the first one, marked as a duplicate. The
-- ids of webhooks are distinct, the first delivery generates a new one, and nothing is committed in
-- between by other requests.
pub deliver_payment-once :
    (provider now fresh fresh_booking : ℕ) (e : PaymentEvent) (s s' : Store) (r : WebhookResult)
    (later fresh' fresh_booking' : ℕ)
    → is_distinct (map webhook_key s.webhooks) ≡ true
    → contains (map webhook_key s.webhooks) fresh ≡ false
    → deliver_payment (λ x. x) (λ x. x) provider now fresh fresh_booking e s ≡ (ok r, s')
    → deliver_payment (λ x. x) (λ x. x) provider later fresh' fresh_booking' e s'
      ≡ (ok (with_duplicate true r), s')
deliver_payment-once provider now fresh fresh_booking e s s' r later fresh' fresh_booking' d c h =
    let (w, found, row, settled, loaded) =
      deliver_payment-Repeats provider now fresh fresh_booking e s s' r d c h in
    deliver_payment-settled provider later fresh' fresh_booking' e w s' found row settled
    ∙ ap (λ x. (x, s')) loaded
