-- ===== src/Payments/Routing.antt =====
-- Every route of the transaction of src/server/payments/webhook-service.ts keeps the tables sound.
use seatflow.Prelude.{
  ℕ, ◌≡◌, refl, Bool, true, false, not, ◌&&◌, Option, none, some, Result, ok, find_by,
  if◌then◌else◌, arith, Bool-cases, inl, inr, or_throw, or_throw-ok, guard, >>=-eq-ok, ok-injective,
  find_by-key,
}
use seatflow.Domain.{PaymentAttemptStatus, same_payment_attempt_status}
use seatflow.Holds.Tables.{SeatHold, Session, find_hold, find_session}
use seatflow.Checkout.Tables.{
  SafeCode, CheckoutOrder, PaymentAttempt, Webhook, Store, PaymentError, order_key, attempt_key,
  webhook_key, ProcessingStatus, is_contradictory_terminal_status, is_terminal_payment_status,
}
use seatflow.Payments.Fulfillment.{finish_webhook, finished}
use seatflow.Payments.Processing.{
  process_failure, process_pending, process_success, process_order, process_attempt,
  process_webhook, process_transaction, is_booked_order, is_settled, is_order_in_review, is_failure,
  is_success, amount_matches, is_payment_category,
}
use seatflow.Payments.Soundness.{IsSound}
use seatflow.Payments.Keeping.{put_webhook-IsSound}
use seatflow.Payments.Outcomes.{
  IsUnbooked, mark_webhook_review-IsSound, process_failure-IsSound, process_pending-IsSound,
  process_success-IsSound,
}

-- A computation that leaves sound tables whenever it commits.
abbrev IsSafe : Result PaymentError Store → Type 0
IsSafe r = (s' : Store) → r ≡ ok s' → IsSound s'

if-IsSafe :
    (test : Bool) (r q : Result PaymentError Store)
    → (test ≡ true → IsSafe r)
    → (test ≡ false → IsSafe q)
    → IsSafe (if test then r else q)
if-IsSafe true r q f g = f refl
if-IsSafe false r q f g = g refl

finish-IsSafe :
    (status : ProcessingStatus) (code : Option SafeCode) (w : Webhook) (s : Store)
    → IsSound s
    → IsSafe (ok (finish_webhook status code w s))
finish-IsSafe status code w s i s' e =
    rw (ok-injective e) (put_webhook-IsSound (finished status code w) s i)

-- The routes for the right amount.
routed-IsSafe :
    (now fresh : ℕ) (status : PaymentAttemptStatus) (w : Webhook) (a : PaymentAttempt)
    (o : CheckoutOrder) (hold : SeatHold) (session : Session) (s : Store)
    → IsUnbooked o s
    → IsSound s
    → IsSafe (
        if is_failure status
        then process_failure status w a o s
        else if not (is_success status)
        then process_pending w a s
        else process_success now fresh w a o hold session s)
routed-IsSafe now fresh status w a o hold session s u i s' e =
    elim (Bool-cases (is_failure status)) [
      | inl fails ↦ process_failure-IsSound status w a o s s' (ground (arith, e, fails)) u i
      | inr lasts ↦ elim (Bool-cases (is_success status)) [
        | inl pays ↦
            process_success-IsSound now fresh w a o hold session s s'
              (ground (arith, e, lasts, pays)) u i
        | inr waits ↦ process_pending-IsSound w a s s' (ground (arith, e, lasts, waits)) i
      ]
    ]

process_order-IsSafe :
    (now fresh : ℕ) (status : PaymentAttemptStatus) (w : Webhook) (a : PaymentAttempt)
    (o : CheckoutOrder) (hold : SeatHold) (session : Session) (s : Store)
    → find_by order_key o.id s.orders ≡ some o
    → IsSound s
    → IsSafe (process_order now fresh status w a o hold session s)
unfolding process_order
process_order-IsSafe now fresh status w a o hold session s f i s' e =
    elim (Bool-cases (is_booked_order o s)) [
      | inl done ↦ finish-IsSafe ProcessingStatus.processed none w s i s' (ground (arith, e, done))
      | inr todo ↦
          let u : IsUnbooked o s = record { stored = f; unbooked = ground (arith, todo) } in
          elim (Bool-cases (is_contradictory_terminal_status a.status status)) [
            | inl against ↦
                mark_webhook_review-IsSound SafeCode.contradictory_terminal_status false true w a o
                  s s' (ground (arith, e, todo, against)) u i
            | inr for_it ↦
                elim (Bool-cases (
                  is_terminal_payment_status a.status
                  && same_payment_attempt_status a.status status)) [
                    | inl again ↦
                        finish-IsSafe
                          (if is_order_in_review o.status
                            then ProcessingStatus.requires_review
                            else ProcessingStatus.processed)
                          o.safe_failure_code w s i s' (ground (arith, e, todo, for_it, again))
                    | inr first ↦ elim (Bool-cases (amount_matches w a o)) [
                      | inr off ↦
                          mark_webhook_review-IsSound SafeCode.payment_amount_or_currency_mismatch
                            (is_success status) false w a o s s'
                            (ground (arith, e, todo, for_it, first, off)) u i
                      | inl exact ↦
                          routed-IsSafe now fresh status w a o hold session s u i s'
                            (ground (arith, e, todo, for_it, first, exact))
                    ]
                  ]
          ]
    ]

process_attempt-IsSafe :
    (now fresh : ℕ) (status : PaymentAttemptStatus) (w : Webhook) (i : ℕ) (s : Store)
    → IsSound s
    → IsSafe (process_attempt now fresh status w i s)
unfolding process_attempt
process_attempt-IsSafe now fresh status w i s sound s' e =
    let (a, _, r₁) =
      >>=-eq-ok (or_throw (find_by attempt_key i s.attempts) PaymentError.not_found) _ e in
    let (o, found, r₂) =
      >>=-eq-ok (or_throw (find_by order_key a.order_id s.orders) PaymentError.not_found) _ r₁ in
    let (hold, _, r₃) =
      >>=-eq-ok (or_throw (find_hold o.source_hold_id s.db.holds) PaymentError.not_found) _ r₂ in
    let (session, _, r₄) =
      >>=-eq-ok (or_throw (find_session o.session_id s.db.sessions) PaymentError.not_found) _ r₃ in
    let row = or_throw-ok (find_by order_key a.order_id s.orders) PaymentError.not_found o found in
    process_order-IsSafe now fresh status w a o hold session s
      (rw (find_by-key order_key a.order_id s.orders o row) row) sound s' r₄

for_attempt-IsSafe :
    (now fresh : ℕ) (w : Webhook) (s : Store)
    → IsSound s
    → (status : PaymentAttemptStatus) (attempt : Option ℕ)
    → IsSafe (elim attempt [
      | none ↦ ok (
          finish_webhook ProcessingStatus.requires_review
            (some SafeCode.unknown_payment_intent)
            w
            s)
      | some i ↦ process_attempt now fresh status w i s
    ])
for_attempt-IsSafe now fresh w s sound status none = finish-IsSafe _ _ w s sound
for_attempt-IsSafe now fresh w s sound status (some i) =
    process_attempt-IsSafe now fresh status w i s sound

process_webhook-IsSafe :
    (now fresh : ℕ) (w : Webhook) (s : Store) → IsSound s → IsSafe (process_webhook now fresh w s)
unfolding process_webhook
process_webhook-IsSafe now fresh w s sound s' e =
    let (_, _, r₁) = >>=-eq-ok (guard w.is_verified PaymentError.webhook_signature) _ e in
    let (_, _, r₂) =
      >>=-eq-ok (guard (is_payment_category w.category) PaymentError.webhook_validation) _ r₁ in
    let (status, _, r₃) =
      >>=-eq-ok (or_throw w.normalized_status PaymentError.webhook_validation) _ r₂ in
    for_attempt-IsSafe now fresh w s sound status w.payment_attempt_id s' r₃

-- A transaction that processes a webhook leaves sound tables sound, whatever it decides.
pub process_transaction-IsSound :
    (now fresh webhook : ℕ) (s s' : Store)
    → process_transaction now fresh webhook s ≡ ok s'
    → IsSound s
    → IsSound s'
unfolding process_transaction
process_transaction-IsSound now fresh webhook s s' e i =
    let (w, _, r₁) =
      >>=-eq-ok (or_throw (find_by webhook_key webhook s.webhooks) PaymentError.not_found) _ e in
    if-IsSafe (is_settled w.processing_status) (ok s) (process_webhook now fresh w s)
      (λ _ t same. rw (ok-injective same) i) (λ _. process_webhook-IsSafe now fresh w s i) s' r₁
