-- ===== src/Payments/Finishing.antt =====
-- What every committed transaction of src/server/payments/webhook-service.ts has written to its webhook
-- and to the inventory.
use seatflow.Prelude.{
  ℕ, ◌≡◌, refl, Bool, true, false, not, ◌&&◌, Option, none, some, Result, ok, err, find_by, put_by,
  if◌then◌else◌, arith, Bool-cases, inl, inr, ok-injective, guard, or_throw, ◌>>=◌,
}
use seatflow.Domain.{PaymentAttemptStatus, same_payment_attempt_status}
use seatflow.Holds.Tables.{SeatHold, Session, find_hold, find_session, items_of}
use seatflow.Checkout.Lifecycle.{FulfillmentReview, fulfill, idempotent, review}
use seatflow.Checkout.Tables.{
  SafeCode, decided, CheckoutOrder, PaymentAttempt, Webhook, ProcessingStatus, Store, PaymentError,
  attempt_key, order_key, webhook_key, put_attempt, put_order, create_booking,
  is_contradictory_terminal_status, is_terminal_payment_status,
}
use seatflow.Payments.Fulfillment.{finished, finish_webhook, mark_webhook_review, fulfill_order}
use seatflow.Payments.Processing.{
  is_settled, process_failure, process_pending, process_paid, process_success, process_order,
  process_attempt, process_webhook, locked_items, decide, tidy_expired, is_booked_order,
  is_order_in_review, amount_matches, is_success, is_failure, is_payment_category,
}
use seatflow.Payments.Snapshots.{snapshots_match}
use seatflow.Payments.Fulfillment.{convert_row}
use seatflow.Payments.Processing.{is_expired_review}
use seatflow.Holds.Tables.{InventoryRow, hold_ids, is_active, Database}
use seatflow.Holds.Expiry.{release_expired_holds_for_session, release_rows, is_overdue_in}
use seatflow.Checkout.Tables.{item_ids}
use seatflow.Prelude.{map, List}

-- What a transaction can do to the inventory rows: nothing, or free those of expired holds, or sell
-- those of one hold.
pub data RowChange (before after : List InventoryRow) : Type 0 where
  kept : after ≡ before → RowChange before after
  freed : (ids : List ℕ) → after ≡ release_rows ids before → RowChange before after
  sold :
      (hold : ℕ) (ids : List ℕ) → after ≡ map (convert_row hold ids) before → RowChange before after

-- A computation that ends with the update of the webhook row to a settled status.
abbrev pub Finishes : Webhook → Store → Result PaymentError Store → Type 0
Finishes w s r =
    (s' : Store)
    → r ≡ ok s'
    → (status : ProcessingStatus) × (code : Option SafeCode) × (is_settled status ≡ true)
      × (s'.webhooks ≡ put_by webhook_key (finished status code w) s.webhooks)
      × RowChange s.db.inventory s'.db.inventory

mark_webhook_review-Finishes :
    (code : SafeCode) (paid preserve : Bool) (w : Webhook) (a : PaymentAttempt) (o : CheckoutOrder)
    (s : Store)
    → Finishes w s (mark_webhook_review code paid preserve w a o s)
unfolding mark_webhook_review put_attempt put_order
mark_webhook_review-Finishes code true true w a o s s' e = (
  ProcessingStatus.requires_review,
  some code,
  refl,
  ground (arith, e),
  RowChange.kept (ground (arith, e)),
)
mark_webhook_review-Finishes code true false w a o s s' e = (
  ProcessingStatus.requires_review,
  some code,
  refl,
  ground (arith, e),
  RowChange.kept (ground (arith, e)),
)
mark_webhook_review-Finishes code false true w a o s s' e = (
  ProcessingStatus.requires_review,
  some code,
  refl,
  ground (arith, e),
  RowChange.kept (ground (arith, e)),
)
mark_webhook_review-Finishes code false false w a o s s' e = (
  ProcessingStatus.requires_review,
  some code,
  refl,
  ground (arith, e),
  RowChange.kept (ground (arith, e)),
)

mark_webhook_review-keeps :
    (code : SafeCode) (w : Webhook) (a : PaymentAttempt) (o : CheckoutOrder) (s s' : Store)
    → mark_webhook_review code true false w a o s ≡ ok s'
    → s'.db.inventory ≡ s.db.inventory
unfolding mark_webhook_review put_attempt put_order
mark_webhook_review-keeps code w a o s s' e = ground (arith, e)

process_failure-Finishes :
    (status : PaymentAttemptStatus) (w : Webhook) (a : PaymentAttempt) (o : CheckoutOrder)
    (s : Store)
    → Finishes w s (process_failure status w a o s)
unfolding process_failure put_attempt put_order
process_failure-Finishes status w a o s s' e =
    (ProcessingStatus.processed, none, refl, ground (arith, e), RowChange.kept (ground (arith, e)))

process_pending-Finishes :
    (w : Webhook) (a : PaymentAttempt) (s : Store) → Finishes w s (process_pending w a s)
unfolding process_pending put_attempt
process_pending-Finishes w a s s' e = (
  ProcessingStatus.processed,
  w.safe_processing_error,
  refl,
  ground (arith, e),
  RowChange.kept (ground (arith, e)),
)

fulfill_order-Finishes :
    (now fresh : ℕ) (w : Webhook) (a : PaymentAttempt) (o : CheckoutOrder) (hold : SeatHold)
    (s : Store)
    → Finishes w s (fulfill_order now fresh w a o hold s)
unfolding fulfill_order put_attempt put_order create_booking
fulfill_order-Finishes now fresh w a o hold s s' e = (
  ProcessingStatus.processed,
  none,
  refl,
  ground (arith, e),
  RowChange.sold hold.id (item_ids o.items) (ground (arith, e)),
)

if-Finishes :
    (w : Webhook) (s : Store) (test : Bool) (r q : Result PaymentError Store)
    → Finishes w s r
    → Finishes w s q
    → Finishes w s (if test then r else q)
if-Finishes w s true r q f g = f
if-Finishes w s false r q f g = g

bind-Finishes :
    {A : Type 0} (w : Webhook) (s : Store) (r : Result PaymentError A)
    (next : A → Result PaymentError Store)
    → ((a : A) → Finishes w s (next a))
    → Finishes w s (r >>= next)
bind-Finishes w s (ok a) next f s' e = f a s' e
bind-Finishes w s (err e) next f s' c = absurd cc

process_paid-Finishes :
    (now fresh : ℕ) (w : Webhook) (a : PaymentAttempt) (o : CheckoutOrder) (hold : SeatHold)
    (s : Store)
    → Finishes w s (process_paid now fresh w a o hold s)
unfolding process_paid
process_paid-Finishes now fresh w a o hold s =
    if-Finishes w s
      (snapshots_match hold o.session_id o.items (items_of hold.id s.db.items)
        (locked_items o s.db))
      (fulfill_order now fresh w a o hold s)
      (mark_webhook_review SafeCode.fulfillment_snapshot_mismatch true false w a o s)
      (fulfill_order-Finishes now fresh w a o hold s)
      (mark_webhook_review-Finishes SafeCode.fulfillment_snapshot_mismatch true false w a o s)

-- A review keeps the rows that the cleanup of an expired hold left.
tidied :
    (code : FulfillmentReview) (now : ℕ) (o : CheckoutOrder) (hold : SeatHold) (db : Database)
    (after : List InventoryRow)
    → (after ≡ (tidy_expired code now o hold db).inventory)
    → RowChange db.inventory after
unfolding release_expired_holds_for_session
tidied code now o hold db after e =
    elim (Bool-cases (is_expired_review code && is_active hold.status)) [
      | inl tidy ↦
          RowChange.freed (hold_ids (is_overdue_in o.session_id now) db.holds)
            (ground (arith, e, tidy))
      | inr keep ↦ RowChange.kept (ground (arith, e, keep))
    ]

process_success-Finishes :
    (now fresh : ℕ) (w : Webhook) (a : PaymentAttempt) (o : CheckoutOrder) (hold : SeatHold)
    (session : Session) (s : Store)
    → Finishes w s (process_success now fresh w a o hold session s)
unfolding process_success
process_success-Finishes now fresh w a o hold session s =
    elim (decide now o hold session)
      as (λ d. Finishes w s (elim d [
        | fulfill ↦ process_paid now fresh w a o hold s
        | idempotent ↦ process_paid now fresh w a o hold s
        | review code ↦
            mark_webhook_review (decided code) true false w a o
              (record s { db = tidy_expired code now o hold s.db })
      ])) [
        | fulfill ↦ process_paid-Finishes now fresh w a o hold s
        | idempotent ↦ process_paid-Finishes now fresh w a o hold s
        | review code ↦ λ s' e.
            let tidy = record s { db = tidy_expired code now o hold s.db } in
            let (status, note, h, written, _) =
              mark_webhook_review-Finishes (decided code) true false w a o tidy s' e in
            (
              status,
              note,
              h,
              written,
              tidied code now o hold s.db s'.db.inventory
                  (mark_webhook_review-keeps (decided code) w a o tidy s' e),
            )
      ]

finish-Finishes :
    (status : ProcessingStatus) (code : Option SafeCode) (w : Webhook) (s : Store)
    → is_settled status ≡ true
    → Finishes w s (ok (finish_webhook status code w s))
finish-Finishes status code w s h s' e =
    (status, code, h, rw (ok-injective e) refl, RowChange.kept (rw (ok-injective e) refl))

review_or_processed :
    (test : Bool)
    → is_settled (if test then ProcessingStatus.requires_review else ProcessingStatus.processed)
      ≡ true
review_or_processed true = refl
review_or_processed false = refl

process_order-Finishes :
    (now fresh : ℕ) (status : PaymentAttemptStatus) (w : Webhook) (a : PaymentAttempt)
    (o : CheckoutOrder) (hold : SeatHold) (session : Session) (s : Store)
    → Finishes w s (process_order now fresh status w a o hold session s)
unfolding process_order
process_order-Finishes now fresh status w a o hold session s =
    let success = process_success now fresh w a o hold session s in
    let pends = process_pending w a s in
    let fails = process_failure status w a o s in
    let mismatch =
      mark_webhook_review SafeCode.payment_amount_or_currency_mismatch (is_success status) false w a
        o s in
    let again =
      finish_webhook
        (if is_order_in_review o.status
          then ProcessingStatus.requires_review
          else ProcessingStatus.processed)
        o.safe_failure_code w s in
    let against = mark_webhook_review SafeCode.contradictory_terminal_status false true w a o s in
    let lasts = if not (is_success status) then pends else success in
    let routed = if is_failure status then fails else lasts in
    let exact = if not (amount_matches w a o) then mismatch else routed in
    let first =
      if is_terminal_payment_status a.status && same_payment_attempt_status a.status status
      then ok again
      else exact in
    let todo = if is_contradictory_terminal_status a.status status then against else first in
    if-Finishes w s (is_booked_order o s) (ok (finish_webhook ProcessingStatus.processed none w s))
      todo (finish-Finishes ProcessingStatus.processed none w s refl)
      (if-Finishes w s (is_contradictory_terminal_status a.status status) against first
        (mark_webhook_review-Finishes SafeCode.contradictory_terminal_status false true w a o s)
        (if-Finishes w s
          (is_terminal_payment_status a.status && same_payment_attempt_status a.status status)
          (ok again) exact
          (finish-Finishes _ o.safe_failure_code w s
            (review_or_processed (is_order_in_review o.status)))
          (if-Finishes w s (not (amount_matches w a o)) mismatch routed
            (mark_webhook_review-Finishes SafeCode.payment_amount_or_currency_mismatch
              (is_success status) false w a o s)
            (if-Finishes w s (is_failure status) fails lasts
              (process_failure-Finishes status w a o s)
              (if-Finishes w s (not (is_success status)) pends success
                (process_pending-Finishes w a s)
                (process_success-Finishes now fresh w a o hold session s))))))

process_attempt-Finishes :
    (now fresh : ℕ) (status : PaymentAttemptStatus) (w : Webhook) (i : ℕ) (s : Store)
    → Finishes w s (process_attempt now fresh status w i s)
unfolding process_attempt
process_attempt-Finishes now fresh status w i s =
    bind-Finishes w s (or_throw (find_by attempt_key i s.attempts) PaymentError.not_found) _ (λ a.
      bind-Finishes w s (or_throw (find_by order_key a.order_id s.orders) PaymentError.not_found) _
        (λ o.
          bind-Finishes w s
            (or_throw (find_hold o.source_hold_id s.db.holds) PaymentError.not_found) _
            (λ hold.
              bind-Finishes w s
                (or_throw (find_session o.session_id s.db.sessions) PaymentError.not_found) _
                (λ session. process_order-Finishes now fresh status w a o hold session s))))

for_attempt-Finishes :
    (now fresh : ℕ) (w : Webhook) (s : Store) (status : PaymentAttemptStatus) (attempt : Option ℕ)
    → Finishes w s (elim attempt [
      | none ↦ ok (
          finish_webhook ProcessingStatus.requires_review
            (some SafeCode.unknown_payment_intent)
            w
            s)
      | some i ↦ process_attempt now fresh status w i s
    ])
for_attempt-Finishes now fresh w s status none =
    finish-Finishes ProcessingStatus.requires_review (some SafeCode.unknown_payment_intent) w s refl
for_attempt-Finishes now fresh w s status (some i) = process_attempt-Finishes now fresh status w i s

pub process_webhook-Finishes :
    (now fresh : ℕ) (w : Webhook) (s : Store) → Finishes w s (process_webhook now fresh w s)
unfolding process_webhook
process_webhook-Finishes now fresh w s =
    bind-Finishes w s (guard w.is_verified PaymentError.webhook_signature) _ (λ _.
      bind-Finishes w s (guard (is_payment_category w.category) PaymentError.webhook_validation) _
        (λ _.
          bind-Finishes w s (or_throw w.normalized_status PaymentError.webhook_validation) _
            (λ status. for_attempt-Finishes now fresh w s status w.payment_attempt_id)))
