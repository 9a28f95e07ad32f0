-- ===== src/Refunds/Payment.antt =====
-- One captured payment with its refunds, as settlement and submission see it: the PaymentAttempt
-- row, its Refund and RefundSeat rows, the tickets and status of its booking, its journal and the
-- financial outbox. The aggregates are kept by the trigger `Refund_maintain_payment_aggregate` of
-- prisma/migrations/20260719120000_phase_5c2a_refunds_disputes_ledger/migration.sql, and a CHECK on
-- PaymentAttempt refuses a transaction that would bring them above the captured amount. The CHECKs
-- on the times of a Refund and the trigger `Refund_protect_identity` refuse some updates of a row.
use seatflow.Prelude.{
  ℕ, ◌+◌, ◌==◌, Bool, true, ◌&&◌, ◌||◌, not, Option, none, some, List, [], ◌∷◌, ◌++◌, any, leb,
  if◌then◌else◌, is_none, is_some_of,
}
use seatflow.Domain.{
  Currency, RefundStatus, same_refund_status, RefundScope, BookingStatus, TicketStatus,
}
use seatflow.Ledger.Entries.{LedgerEntryDraft}
use seatflow.Refunds.Lifecycle.{
  is_in_flight_refund_status, is_terminal_refund_status, is_under_review,
}
use seatflow.Refunds.Calculation.{RefundCapacity}

pub record Refund : Type 0 where
  pub id : ℕ
  pub provider_refund_id : Option ℕ
  pub provider_idempotency_key : ℕ
  pub requested_amount_minor : ℕ
  pub currency : Currency
  pub scope : RefundScope
  pub status : RefundStatus
  pub seats : List ℕ
  pub requested_at : ℕ
  pub submitted_at : Option ℕ
  pub succeeded_at : Option ℕ
  pub failed_at : Option ℕ
  pub cancelled_at : Option ℕ
  pub review_required_at : Option ℕ

-- `Refund_time_order_check` of the same migration: no time is before the request.
abbrev pub is_not_before : ℕ → Option ℕ → Bool
is_not_before requested none = true
is_not_before requested (some at) = leb requested at

unfoldable pub respects_time_order : Refund → Bool
respects_time_order r =
    is_not_before r.requested_at r.submitted_at
    && is_not_before r.requested_at r.succeeded_at
    && is_not_before r.requested_at r.failed_at
    && is_not_before r.requested_at r.cancelled_at
    && is_not_before r.requested_at r.review_required_at

-- `Refund_outcome_exclusivity_check`.
abbrev pub time_count : Option ℕ → ℕ
time_count at = if is_none at then 0 else 1

unfoldable pub has_one_outcome : Refund → Bool
has_one_outcome r =
    leb (time_count r.succeeded_at + time_count r.failed_at + time_count r.cancelled_at) 1

-- `Refund_lifecycle_check`, for a status and the row's times. Its tests of `safeFailureCode` are left
-- out: each of the updates writes the code that its status asks for.
unfoldable pub allows_times : RefundStatus → Refund → Bool
allows_times RefundStatus.requested r =
    is_none r.submitted_at
    && is_none r.succeeded_at
    && is_none r.failed_at
    && is_none r.cancelled_at
    && is_none r.review_required_at
allows_times RefundStatus.submitting r =
    not (is_none r.submitted_at)
    && is_none r.succeeded_at
    && is_none r.failed_at
    && is_none r.cancelled_at
    && is_none r.review_required_at
allows_times RefundStatus.processing r =
    not (is_none r.submitted_at)
    && is_none r.succeeded_at
    && is_none r.failed_at
    && is_none r.cancelled_at
    && is_none r.review_required_at
allows_times RefundStatus.succeeded r =
    not (is_none r.succeeded_at)
    && is_none r.failed_at
    && is_none r.cancelled_at
    && is_none r.review_required_at
allows_times RefundStatus.failed r =
    not (is_none r.failed_at)
    && is_none r.succeeded_at
    && is_none r.cancelled_at
    && is_none r.review_required_at
allows_times RefundStatus.cancelled r =
    not (is_none r.cancelled_at)
    && is_none r.succeeded_at
    && is_none r.failed_at
    && is_none r.review_required_at
allows_times RefundStatus.requires_review r = not (is_none r.review_required_at)

-- The row rules that every refund satisfies.
unfoldable pub respects_checks : Refund → Bool
unfolding respects_time_order has_one_outcome allows_times
respects_checks r = respects_time_order r && has_one_outcome r && allows_times r.status r

-- The update rules of `Refund_protect_identity`: times are written once, review is not left, and a
-- final status only becomes review.
abbrev pub is_kept : Option ℕ → Option ℕ → Bool
is_kept none new = true
is_kept (some at) new = is_some_of at new

unfoldable pub allows_status : RefundStatus → RefundStatus → Bool
allows_status old new =
    same_refund_status old new
    || not (is_terminal_refund_status old || is_under_review old)
    || is_terminal_refund_status old && is_under_review new

unfoldable pub keeps_times : Refund → Refund → Bool
keeps_times r r' =
    is_kept r.succeeded_at r'.succeeded_at
    && is_kept r.failed_at r'.failed_at
    && is_kept r.cancelled_at r'.cancelled_at
    && is_kept r.submitted_at r'.submitted_at

unfoldable pub allows_update : Refund → Refund → Bool
unfolding respects_checks allows_status keeps_times
allows_update r r' = keeps_times r r' && allows_status r.status r'.status && respects_checks r'

pub data TicketCredentialStatus : Type 0 where
  active revoked replaced used : TicketCredentialStatus

pub record Ticket : Type 0 where
  pub id : ℕ
  pub booking_seat_id : ℕ
  pub status : TicketStatus
  pub credentials : List TicketCredentialStatus

pub data FinancialEventType : Type 0 where
  refund_requested refund_succeeded refund_failed : FinancialEventType
  refund_requires_review ticket_revocation_requested : FinancialEventType

pub record FinancialEvent : Type 0 where
  pub event_type : FinancialEventType
  pub refund_id : ℕ

pub record Payment : Type 0 where
  pub captured_minor : ℕ
  pub currency : Currency
  pub refunded_minor : ℕ
  pub in_flight_minor : ℕ
  pub refunds : List Refund
  pub booking_status : BookingStatus
  pub tickets : List Ticket
  pub journal : List LedgerEntryDraft
  pub outbox : List FinancialEvent
  -- `order.financialReviewState !== "NONE"`
  pub under_review : Bool

abbrev pub capacity_of : Payment → RefundCapacity
capacity_of p = record {
  captured_minor = p.captured_minor;
  refunded_minor = p.refunded_minor;
  in_flight_minor = p.in_flight_minor;
  currency = p.currency;
}

-- What one refund counts for in each aggregate: `succeededAt`, not the status, makes it refunded.
abbrev pub refunded_part : Refund → ℕ
refunded_part r = if is_none r.succeeded_at then 0 else r.requested_amount_minor

abbrev pub in_flight_part : Refund → ℕ
in_flight_part r =
    if is_none r.succeeded_at && is_in_flight_refund_status r.status
    then r.requested_amount_minor
    else 0

abbrev pub total : (Refund → ℕ) → List Refund → ℕ
total part [] = 0
total part (r ∷ rs) = part r + total part rs

-- Writing refunds: the trigger recomputes the aggregates, and the CHECK refuses an overdraft.
unfoldable pub store_refunds : List Refund → Payment → Option Payment
store_refunds refunds p =
    let refunded = total refunded_part refunds in
    let in_flight = total in_flight_part refunds in
    if leb (refunded + in_flight) p.captured_minor
    then some
        (record p { refunds = refunds; refunded_minor = refunded; in_flight_minor = in_flight })
    else none

unfoldable pub find_refund : ℕ → List Refund → Option Refund
find_refund i [] = none
find_refund i (r ∷ rs) = if r.id == i then some r else find_refund i rs

unfoldable pub find_by_provider_id : ℕ → List Refund → Option Refund
find_by_provider_id i [] = none
find_by_provider_id i (r ∷ rs) =
    if is_some_of i r.provider_refund_id then some r else find_by_provider_id i rs

-- `refund.update({ where: { id } })`: the one row with the id.
unfoldable pub put_refund : Refund → List Refund → List Refund
put_refund r' [] = []
put_refund r' (r ∷ rs) = if r.id == r'.id then r' ∷ rs else r ∷ put_refund r' rs

-- The update of the row `r` to `r'` within its payment.
unfoldable pub update_refund : Refund → Refund → Payment → Option Payment
unfolding allows_update store_refunds put_refund
update_refund r r' p =
    if allows_update r r' then store_refunds (put_refund r' p.refunds) p else none

abbrev pub event_index : FinancialEventType → ℕ
event_index refund_requested = 0
event_index refund_succeeded = 1
event_index refund_failed = 2
event_index refund_requires_review = 3
event_index ticket_revocation_requested = 4

abbrev pub same_event : FinancialEvent → FinancialEvent → Bool
same_event a b = event_index a.event_type == event_index b.event_type && a.refund_id == b.refund_id

-- `enqueueFinancialEvent`: the deduplication key names the event and the refund.
unfoldable pub enqueue : FinancialEventType → ℕ → List FinancialEvent → List FinancialEvent
enqueue t i outbox =
    let e : FinancialEvent = record { event_type = t; refund_id = i } in
    if any (same_event e) outbox then outbox else outbox ++ e ∷ []
