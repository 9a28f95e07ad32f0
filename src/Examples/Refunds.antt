-- ===== src/Examples/Refunds.antt =====
-- The theorems on refunds at a captured payment of 10,000 with one refund of 4,000 under way.
use seatflow.Prelude.{
  ◌+◌, ◌≡◌, refl, true, false, none, some, List, [], ◌∷◌, ok, err, arith, map, sum, all,
  is_distinct,
}
use seatflow.Domain.{
  Currency, RefundStatus, RefundScope, BookingStatus, TicketStatus, CheckoutOrderStatus,
  EventSessionStatus, whole,
}
use seatflow.Refunds.Lifecycle.{decide_refund_transition, apply, is_in_flight_refund_status}
use seatflow.Refunds.Calculation.{
  RefundableSeatSnapshot, RefundCapacity, calculate_seat_refund, calculate_full_booking_refund,
  calculate_fixed_refund, RefundQuote, unique, remaining_refundable_minor, select_seats, seat_by_id,
}
use seatflow.Refunds.Pricing.{
  IsCovered, calculate-IsCovered, is_open_seat, price_of, calculate_seat_refund-exact,
}
use seatflow.Refunds.Ordering.{settle_all, settle_all-first_success_wins}
use seatflow.Refunds.Payment.{
  Refund, Ticket, TicketCredentialStatus, Payment, find_by_provider_id, store_refunds,
  respects_checks, allows_times,
}
use seatflow.Refunds.Settlement.{SettleInput, SettlementOutcome, settle_refund, applied}
use seatflow.Refunds.Settling.{
  IsAccounted, Succeeded, settle_refund-succeeds, settle_refund-cancelled,
}
use seatflow.Refunds.Redelivery.{settle_refund-redelivery}
use seatflow.Checkout.Tables.{ProcessingStatus}
use seatflow.Refunds.Webhook.{
  RefundWebhook, processed_webhook, process_verified_refund_record, settle_webhook, refund_settled,
  refund_ignored, already_processed, process_verified_refund_record-once,
}
use seatflow.Refunds.Reviewing.{IsUnchanged}
use seatflow.Refunds.Authorization.{RefundActorRole, authorize_refund_request}
use seatflow.Refunds.Request.{
  Booking, Actor, RefundRequestInput, CreateRefundResult, request_refund, find_by_key,
  refunded_seat_ids, verifies_seat_total, price_of_seat,
}
use seatflow.Refunds.Requesting.{Reserved, request_refund-reserves, request_refund-replay}

abbrev pending_refund : Refund
pending_refund = record {
  id = 1;
  provider_refund_id = some 21;
  provider_idempotency_key = 31;
  requested_amount_minor = 4000;
  currency = Currency.eur;
  scope = RefundScope.selected_seats;
  status = RefundStatus.processing;
  seats = 101 ∷ [];
  requested_at = 400;
  submitted_at = some 500;
  succeeded_at = none;
  failed_at = none;
  cancelled_at = none;
  review_required_at = none;
}

abbrev ticket : Ticket
ticket = record {
  id = 201;
  booking_seat_id = 101;
  status = TicketStatus.active;
  credentials = TicketCredentialStatus.active ∷ [];
}

abbrev payment : Payment
payment = record {
  captured_minor = 10000;
  currency = Currency.eur;
  refunded_minor = 0;
  in_flight_minor = 4000;
  refunds = pending_refund ∷ [];
  booking_status = BookingStatus.confirmed;
  tickets = ticket ∷ [];
  journal = [];
  outbox = [];
  under_review = false;
}

payment-IsAccounted : IsAccounted payment
unfolding is_in_flight_refund_status
payment-IsAccounted = record { refunded = refl; in_flight = refl; covered = omega arith }

abbrev event : RefundStatus → SettleInput
event s = record {
  webhook_id = 41;
  provider_refund_id = 21;
  incoming_status = s;
  amount_minor = 4000;
  currency = Currency.eur;
  occurred_at = some 600;
  now = 700;
}

settle_refund-succeeds_example :
    (q : Payment) × (settle_refund (event RefundStatus.succeeded) payment
      ≡ some (applied RefundStatus.succeeded, q))
    × Succeeded (event RefundStatus.succeeded) payment pending_refund q
unfolding find_by_provider_id is_in_flight_refund_status respects_checks
settle_refund-succeeds_example =
    settle_refund-succeeds (event RefundStatus.succeeded) payment pending_refund payment-IsAccounted
      refl refl refl refl refl (omega arith) refl refl refl refl

settle_refund-cancelled_example :
    (decide_refund_transition RefundStatus.processing RefundStatus.cancelled
      ≡ apply RefundStatus.cancelled)
    × (allows_times RefundStatus.cancelled
          (record pending_refund { status = RefundStatus.cancelled; submitted_at = some 700 })
        ≡ false)
    × (settle_refund (event RefundStatus.cancelled) payment ≡ none)
unfolding find_by_provider_id is_in_flight_refund_status respects_checks
settle_refund-cancelled_example =
    settle_refund-cancelled (event RefundStatus.cancelled) payment pending_refund refl refl refl
      refl refl refl refl

settled :
    (q : Payment) × (settle_refund (event RefundStatus.succeeded) payment
      ≡ some (applied RefundStatus.succeeded, q))
    × Succeeded (event RefundStatus.succeeded) payment pending_refund q
unfolding find_by_provider_id is_in_flight_refund_status respects_checks
settled =
    settle_refund-succeeds (event RefundStatus.succeeded) payment pending_refund payment-IsAccounted
      refl refl refl refl refl (omega arith) refl refl refl refl

settle_refund-redelivery_example :
    (o : SettlementOutcome) × (q : Payment) × (settle_refund
        (record (event RefundStatus.succeeded) { now = 950 })
        settled.0
      ≡ some (o, q))
    × IsUnchanged settled.0 q
settle_refund-redelivery_example =
    settle_refund-redelivery (event RefundStatus.succeeded) 950 payment
      (applied RefundStatus.succeeded) settled.0 (omega arith) refl settled.1

abbrev booking : Booking
booking = record {
  owner_user_id = 5;
  organization_id = 9;
  order_status = CheckoutOrderStatus.fulfilled;
  session_status = EventSessionStatus.scheduled;
  seats =
      record { id = 101; price_minor = 4000; currency = Currency.eur }
      ∷ record { id = 102; price_minor = 6000; currency = Currency.eur }
      ∷ [];
}

abbrev owner : Actor
owner = record {
  user_id = 5;
  role = RefundActorRole.customer;
  organization_ids = [];
  is_platform_admin = false;
}

abbrev second_seat : RefundRequestInput
second_seat = record { is_seat_scoped = true; booking_seat_ids = 102 ∷ []; idempotency_key = 77 }

abbrev whole_booking : RefundRequestInput
whole_booking = record { is_seat_scoped = false; booking_seat_ids = []; idempotency_key = 77 }

-- What the request for the second seat answers and leaves.
abbrev requested : CreateRefundResult × Payment
requested =
    elim (request_refund (λ k. k + 1000) owner second_seat 600 2 (some booking) (some payment)) [
      | ok done ↦ done
      | err _ ↦ (
        record {
          refund_id = 0;
          amount_minor = 0;
          currency = Currency.eur;
          status = RefundStatus.failed;
          replayed = true;
        },
        payment,
      )
    ]

is_requested :
    request_refund (λ k. k + 1000) owner second_seat 600 2 (some booking) (some payment)
    ≡ ok (requested.0, requested.1)
unfolding request_refund authorize_refund_request find_by_key remaining_refundable_minor
    calculate_seat_refund unique select_seats seat_by_id refunded_seat_ids
    is_in_flight_refund_status store_refunds verifies_seat_total price_of_seat
is_requested = refl

is_new : requested.0.replayed ≡ false
unfolding request_refund authorize_refund_request find_by_key remaining_refundable_minor
    calculate_seat_refund unique select_seats seat_by_id refunded_seat_ids
    is_in_flight_refund_status store_refunds verifies_seat_total price_of_seat
is_new = refl

request_refund-reserves_example : Reserved requested.0 payment requested.1
request_refund-reserves_example =
    request_refund-reserves (λ k. k + 1000) owner booking payment requested.0 requested.1
      second_seat 600 2 payment-IsAccounted is_requested is_new

request_refund-replay_example :
    request_refund (λ k. k + 1000) owner whole_booking 610 3 (some booking) (some requested.1)
    ≡ ok (record requested.0 { replayed = true }, requested.1)
request_refund-replay_example =
    request_refund-replay (λ k. k + 1000) owner booking payment requested.0 requested.1 second_seat
      whole_booking 600 610 2 3 is_requested refl

abbrev first_seat : RefundableSeatSnapshot
first_seat = record {
  booking_seat_id = 101;
  price_minor = 4000;
  currency = Currency.eur;
  already_refunded = false;
}

abbrev other_seat : RefundableSeatSnapshot
other_seat = record {
  booking_seat_id = 102;
  price_minor = 6000;
  currency = Currency.eur;
  already_refunded = false;
}

abbrev seats : List RefundableSeatSnapshot
seats = first_seat ∷ other_seat ∷ []

abbrev capacity : RefundCapacity
capacity = record {
  captured_minor = 10000;
  refunded_minor = 1000;
  in_flight_minor = 0;
  currency = Currency.eur;
}

calculate-IsCovered_example :
    IsCovered capacity (calculate_full_booking_refund seats capacity)
    × IsCovered capacity (calculate_seat_refund seats (101 ∷ []) capacity)
    × IsCovered capacity (calculate_fixed_refund (whole 500) capacity)
calculate-IsCovered_example = calculate-IsCovered seats (101 ∷ []) (whole 500) capacity

abbrev both_seats : RefundQuote
both_seats = record {
  scope = RefundScope.selected_seats;
  amount_minor = 9000;
  currency = Currency.eur;
  booking_seat_ids = 101 ∷ 102 ∷ [];
}

abbrev one_seat : RefundQuote
one_seat = record both_seats { amount_minor = 4000; booking_seat_ids = 101 ∷ [] }

calculate_seat_refund-exact_example :
    (one_seat.booking_seat_ids ≡ unique (101 ∷ 101 ∷ []))
    × (is_distinct one_seat.booking_seat_ids ≡ true)
    × (all (is_open_seat seats) one_seat.booking_seat_ids ≡ true)
    × (one_seat.amount_minor ≡ sum (map (price_of seats) one_seat.booking_seat_ids))
unfolding calculate_seat_refund unique select_seats seat_by_id
calculate_seat_refund-exact_example =
    calculate_seat_refund-exact seats (101 ∷ 101 ∷ []) capacity one_seat refl

abbrev succeeded_refund : Refund
succeeded_refund = record pending_refund {
  status = RefundStatus.succeeded;
  succeeded_at = some 700;
}

abbrev refunded_payment : Payment
refunded_payment = record payment {
  refunds = succeeded_refund ∷ [];
  refunded_minor = 4000;
  in_flight_minor = 0;
}

refunded_payment-IsAccounted : IsAccounted refunded_payment
refunded_payment-IsAccounted = record { refunded = refl; in_flight = refl; covered = omega arith }

-- A FAILED event of before the success is dropped, and one of later escalates.
abbrev later_events : List SettleInput
later_events =
    event RefundStatus.failed
    ∷ record (event RefundStatus.failed) { occurred_at = some 800; now = 900 }
    ∷ event RefundStatus.succeeded
    ∷ []

settle_all-first_success_wins_example :
    let q = settle_all later_events refunded_payment in
    (r : Refund) × (find_by_provider_id 21 q.refunds ≡ some r)
    × (r.succeeded_at ≡ some 700)
    × (r.status ≡ RefundStatus.requires_review)
    × (q.refunded_minor ≡ 4000)
    × (q.in_flight_minor ≡ 0)
    × (q.journal ≡ [])
    × (q.tickets ≡ ticket ∷ [])
    × (q.booking_status ≡ BookingStatus.confirmed)
unfolding find_by_provider_id respects_checks
settle_all-first_success_wins_example =
    settle_all-first_success_wins 700 21 succeeded_refund refunded_payment later_events
      refunded_payment-IsAccounted refl refl refl refl refl refl

abbrev refund_webhook : RefundWebhook
refund_webhook = record {
  id = 41;
  provider_refund_id = some 21;
  normalized_refund_status = some RefundStatus.succeeded;
  amount_minor = 4000;
  currency = Currency.eur;
  occurred_at = some 600;
  is_verified = true;
  processing_status = ProcessingStatus.received;
  safe_processing_error = none;
  attempt_count = 0;
}

abbrev processed_once : RefundWebhook
processed_once = processed_webhook (applied RefundStatus.succeeded) refund_webhook

processed_at_700 :
    process_verified_refund_record 700 refund_webhook payment
    ≡ ok (refund_settled RefundStatus.succeeded false, processed_once, settled.0)
unfolding process_verified_refund_record settle_webhook
processed_at_700 = rw (settled.1) refl

process_verified_refund_record-once_example :
    process_verified_refund_record 950 processed_once settled.0
    ≡ ok (refund_ignored already_processed true, processed_once, settled.0)
process_verified_refund_record-once_example =
    process_verified_refund_record-once 700 950 refund_webhook processed_once payment settled.0
      (refund_settled RefundStatus.succeeded false) processed_at_700
