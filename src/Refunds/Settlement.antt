-- ===== src/Refunds/Settlement.antt =====
-- src/server/refunds/settlement-service.ts: what a verified provider event does to a payment.
use seatflow.Prelude.{
  ℕ, ◌==◌, Bool, true, false, ◌&&◌, not, Option, none, some, List, map, contains, filter, length,
  ltb, if◌then◌else◌,
}
use seatflow.Domain.{
  Currency, same_currency, RefundStatus, RefundScope, BookingStatus, TicketStatus, LedgerEntryType,
}
use seatflow.Ledger.Entries.{LedgerEntryDraft, direction_for_entry_type}
use seatflow.Ledger.Journal.{append_entry}
use seatflow.Refunds.Lifecycle.{
  IgnoreReason, ReviewCode, apply, ignore, review, decide_refund_transition,
  is_stale_provider_event,
}
use seatflow.Refunds.Authorization.{
  is_confirmed, revoke, no_action, decide_refund_ticket_consequence,
}
use seatflow.Refunds.Payment.{
  Refund, Ticket, TicketCredentialStatus, Payment, FinancialEventType, update_refund,
  find_by_provider_id, enqueue,
}

pub data SettlementReason : Type 0 where
  stale_provider_event : SettlementReason
  transition : IgnoreReason → SettlementReason

pub data SettlementReview : Type 0 where
  refund_amount_or_currency_mismatch : SettlementReview
  decided : ReviewCode → SettlementReview

pub data SettlementOutcome : Type 0 where
  applied : RefundStatus → SettlementOutcome
  ignored : SettlementReason → SettlementOutcome
  reviewed : SettlementReview → SettlementOutcome
  unknown_refund : SettlementOutcome

pub record SettleInput : Type 0 where
  pub webhook_id : ℕ
  pub provider_refund_id : ℕ
  pub incoming_status : RefundStatus
  pub amount_minor : ℕ
  pub currency : Currency
  pub occurred_at : Option ℕ
  pub now : ℕ

-- `ticketCredential.updateMany({ where: { status: "ACTIVE" } })`.
abbrev pub revoke_credential : TicketCredentialStatus → TicketCredentialStatus
revoke_credential TicketCredentialStatus.active = TicketCredentialStatus.revoked
revoke_credential s = s

abbrev pub is_selected_scope : RefundScope → Bool
is_selected_scope RefundScope.selected_seats = true
is_selected_scope _ = false

-- The tickets that a refund concerns: a seat-scoped one revokes only the seats it covered.
abbrev pub concerns : Refund → Ticket → Bool
concerns r t = if is_selected_scope r.scope then contains r.seats t.booking_seat_id else true

abbrev pub revoked_ticket : Ticket → Ticket
revoked_ticket t = record t {
  status = TicketStatus.revoked;
  credentials = map revoke_credential t.credentials;
}

unfoldable pub settle_ticket : Refund → Ticket → Ticket
unfolding decide_refund_ticket_consequence
settle_ticket r t =
    if concerns r t
    then elim (decide_refund_ticket_consequence t.status true) [
      | revoke ↦ revoked_ticket t
      | no_action _ ↦ t
    ]
    else t

abbrev pub is_active_ticket : TicketStatus → Bool
is_active_ticket TicketStatus.active = true
is_active_ticket _ = false

-- `consequences.revoked`.
abbrev pub revoked_count : Refund → List Ticket → ℕ
revoked_count r ts = length (filter (λ t. concerns r t && is_active_ticket t.status) ts)

unfoldable pub mark_refund_under_review : Refund → ℕ → Payment → Option Payment
mark_refund_under_review r now p =
    let r' = record r { status = RefundStatus.requires_review; review_required_at = some now } in
    elim (update_refund r r' p) [
      | none ↦ none
      | some q ↦ some (record q {
        under_review = true;
        outbox = enqueue FinancialEventType.refund_requires_review r.id q.outbox;
      })
    ]

abbrev pub ledger_entry : LedgerEntryType → Refund → ℕ → LedgerEntryDraft
ledger_entry t r cause = record {
  entry_type = t;
  direction = direction_for_entry_type t;
  amount_minor = r.requested_amount_minor;
  idempotency_key = record { entry_type = t; cause = cause };
}

-- `maybeMarkBookingFullyRefunded`.
unfoldable pub maybe_mark_fully_refunded : Payment → Payment
maybe_mark_fully_refunded p =
    if ltb p.refunded_minor p.captured_minor
    then p
    else if not (is_confirmed p.booking_status)
    then p
    else record p { booking_status = BookingStatus.refunded }

-- What follows the update of the refund's row.
unfoldable pub record_success : Refund → SettleInput → Payment → Payment
record_success r input q =
    let count = revoked_count r q.tickets in
    let events = enqueue FinancialEventType.refund_succeeded r.id q.outbox in
    maybe_mark_fully_refunded (record q {
      journal =
          append_entry (ledger_entry LedgerEntryType.refund_succeeded r input.webhook_id) q.journal;
      tickets = map (settle_ticket r) q.tickets;
      outbox =
          if ltb 0 count
          then enqueue FinancialEventType.ticket_revocation_requested r.id events
          else events;
    })

unfoldable pub settle_success : Refund → SettleInput → Payment → Option Payment
settle_success r input p =
    let r' = record r { status = RefundStatus.succeeded; succeeded_at = some input.now } in
    elim (update_refund r r' p) [ none ↦ none | some q ↦ some (record_success r input q) ]

unfoldable pub settle_failure : Refund → SettleInput → Payment → Option Payment
settle_failure r input p =
    let r' = record r { status = RefundStatus.failed; failed_at = some input.now } in
    elim (update_refund r r' p) [
      | none ↦ none
      | some q ↦ some (record q {
        journal =
            append_entry (ledger_entry LedgerEntryType.refund_failed r input.webhook_id) q.journal;
        outbox = enqueue FinancialEventType.refund_failed r.id q.outbox;
      })
    ]

-- The remaining advancing states. The update writes `submittedAt` whatever the status is.
unfoldable pub settle_progress : RefundStatus → Refund → SettleInput → Payment → Option Payment
settle_progress s r input p =
    update_refund r (record r { status = s; submitted_at = some input.now }) p

unfoldable pub settle_apply : RefundStatus → Refund → SettleInput → Payment → Option Payment
unfolding settle_success settle_failure settle_progress
settle_apply RefundStatus.succeeded r input p = settle_success r input p
settle_apply RefundStatus.failed r input p = settle_failure r input p
settle_apply s r input p = settle_progress s r input p

abbrev pub outcome_of : SettlementOutcome → Option Payment → Option (SettlementOutcome × Payment)
outcome_of o none = none
outcome_of o (some p) = some (o, p)

-- `refund.succeededAt ?? refund.failedAt`.
abbrev pub last_applied_at : Refund → Option ℕ
last_applied_at r = elim r.succeeded_at [ none ↦ r.failed_at | some t ↦ some t ]

-- `settleRefundFromVerifiedEvent`; `none` is a transaction that the database aborts.
unfoldable pub settle_found : Refund → SettleInput → Payment → Option (SettlementOutcome × Payment)
settle_found r input p =
    if not
      (input.amount_minor == r.requested_amount_minor && same_currency input.currency r.currency)
    then outcome_of (reviewed refund_amount_or_currency_mismatch)
        (mark_refund_under_review r input.now p)
    else if is_stale_provider_event (last_applied_at r) input.occurred_at
    then some (ignored stale_provider_event, p)
    else elim (decide_refund_transition r.status input.incoming_status) [
      | ignore reason ↦ some (ignored (transition reason), p)
      | review code ↦ outcome_of (reviewed (decided code)) (mark_refund_under_review r input.now p)
      | apply s ↦ outcome_of (applied s) (settle_apply s r input p)
    ]

unfoldable pub settle_refund : SettleInput → Payment → Option (SettlementOutcome × Payment)
settle_refund input p = elim (find_by_provider_id input.provider_refund_id p.refunds) [
  | none ↦ some (unknown_refund, p)
  | some r ↦ settle_found r input p
]
