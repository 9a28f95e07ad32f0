-- ===== src/Refunds/Settling.antt =====
-- What settling a verified refund event does to the payment's amounts, journal and tickets, and
-- what a second delivery does.
use seatflow.Prelude.{
  ℕ, ◌+◌, ◌≡◌, ◌≤◌, refl, true, false, none, some, List, [], ◌∷◌, map, is_distinct, if◌then◌else◌,
  arith, ap, ltb, ◌++◌, ◌∙◌,
}
use seatflow.Domain.{
  RefundStatus, same_currency, same_refund_status, LedgerEntryType, BookingStatus,
}
use seatflow.Ledger.Entries.{LedgerEntryDraft, is_settling_entry_type, direction_for_entry_type}
use seatflow.Ledger.Journal.{debited, credited, append_entry, has_entry}
use seatflow.Refunds.Lifecycle.{
  is_terminal_refund_status, is_in_flight_refund_status, decide_refund_transition,
  is_contradictory_refund_outcome, is_stale_provider_event, apply,
}
use seatflow.Refunds.Payment.{
  Refund, Payment, find_by_provider_id, put_refund, total, store_refunds, refunded_part,
  in_flight_part, update_refund, allows_update, respects_checks, allows_times,
}
use seatflow.Refunds.Settlement.{
  SettleInput, settle_refund, settle_found, settle_apply, settle_success, settle_progress,
  settle_ticket, ledger_entry, applied, maybe_mark_fully_refunded, outcome_of, record_success,
}
use seatflow.Refunds.Rows.{refund_ids, total-put_refund}
use seatflow.Refunds.Allowing.{success_row, in_flight-open, success-allowed}

-- The aggregates are those of the rows, and no more than was captured.
pub record IsAccounted (p : Payment) : Type 0 where
  pub refunded : p.refunded_minor ≡ total refunded_part p.refunds
  pub in_flight : p.in_flight_minor ≡ total in_flight_part p.refunds
  pub covered : p.refunded_minor + p.in_flight_minor ≤ p.captured_minor

abbrev rewritten : Refund → Payment → Payment
rewritten r p = record p {
  refunds = put_refund r p.refunds;
  refunded_minor = total refunded_part (put_refund r p.refunds);
  in_flight_minor = total in_flight_part (put_refund r p.refunds);
}

-- A transaction that rewrites the row of a refund commits when the row counts for no more than before.
pub store_refunds-commits :
    (i : ℕ) (p : Payment) (r r' : Refund)
    → IsAccounted p
    → is_distinct (refund_ids p.refunds) ≡ true
    → find_by_provider_id i p.refunds ≡ some r
    → r'.id ≡ r.id
    → refunded_part r' + in_flight_part r' ≤ refunded_part r + in_flight_part r
    → store_refunds (put_refund r' p.refunds) p ≡ some (rewritten r' p)
unfolding store_refunds
store_refunds-commits i p r r' acc d e h le = ground (
  arith,
  acc.refunded,
  acc.in_flight,
  acc.covered,
  total-put_refund refunded_part i p.refunds r r' d e h,
  total-put_refund in_flight_part i p.refunds r r' d e h,
)

debited-snoc :
    (r : Refund) (cause : ℕ) (j : List LedgerEntryDraft)
    → (debited (j ++ ledger_entry LedgerEntryType.refund_succeeded r cause ∷ [])
        ≡ debited j + r.requested_amount_minor)
      × (credited (j ++ ledger_entry LedgerEntryType.refund_succeeded r cause ∷ []) ≡ credited j)
unfolding is_settling_entry_type direction_for_entry_type
debited-snoc r cause [] = ground arith
debited-snoc r cause (x ∷ j) = ground (arith, debited-snoc r cause j)

-- What a first success does: the amount moves from reserved to refunded, in the journal too, the
-- tickets follow, and the booking counts as refunded once all that was captured is.
pub record Succeeded (input : SettleInput) (p : Payment) (r : Refund) (q : Payment) : Type 0 where
  pub refunded : q.refunded_minor ≡ p.refunded_minor + r.requested_amount_minor
  pub in_flight : q.in_flight_minor + r.requested_amount_minor ≡ p.in_flight_minor
  pub journal_debits : debited q.journal ≡ debited p.journal + r.requested_amount_minor
  pub journal_credits : credited q.journal ≡ credited p.journal
  pub tickets : q.tickets ≡ map (settle_ticket r) p.tickets
  pub booking :
      q.booking_status
      ≡ (if ltb q.refunded_minor p.captured_minor then p.booking_status else BookingStatus.refunded)

success-commits :
    (input : SettleInput) (p : Payment) (r : Refund)
    → IsAccounted p
    → is_distinct (refund_ids p.refunds) ≡ true
    → find_by_provider_id input.provider_refund_id p.refunds ≡ some r
    → r.succeeded_at ≡ none
    → is_in_flight_refund_status r.status ≡ true
    → allows_update r (success_row r input.now) ≡ true
    → update_refund r (success_row r input.now) p ≡ some (rewritten (success_row r input.now) p)
unfolding update_refund
success-commits input p r acc d e s fl allowed = ground (
  arith,
  allowed,
  store_refunds-commits input.provider_refund_id p r (success_row r input.now) acc d e refl
      (ground (arith, s, fl)),
)

record_success-Succeeded :
    (input : SettleInput) (p : Payment) (r : Refund)
    → IsAccounted p
    → is_distinct (refund_ids p.refunds) ≡ true
    → find_by_provider_id input.provider_refund_id p.refunds ≡ some r
    → r.succeeded_at ≡ none
    → is_in_flight_refund_status r.status ≡ true
    → has_entry
        (ledger_entry LedgerEntryType.refund_succeeded r input.webhook_id).idempotency_key
        p.journal
      ≡ false
    → Succeeded input p r (record_success r input (rewritten (success_row r input.now) p))
unfolding record_success append_entry maybe_mark_fully_refunded
record_success-Succeeded input p r acc d e s fl fresh =
    let moved =
      total-put_refund refunded_part input.provider_refund_id p.refunds r (success_row r input.now)
        d e refl in
    let freed =
      total-put_refund in_flight_part input.provider_refund_id p.refunds r (success_row r input.now)
        d e refl in
    let entry = debited-snoc r input.webhook_id p.journal in
    record {
      refunded = ground (arith, moved, s);
      in_flight = ground (arith, freed, s, fl);
      journal_debits = ground (arith, entry);
      journal_credits = ground (arith, entry);
      tickets = ground arith;
      booking = ground arith;
    }

settle_success-Succeeded :
    (input : SettleInput) (p : Payment) (r : Refund)
    → IsAccounted p
    → is_distinct (refund_ids p.refunds) ≡ true
    → find_by_provider_id input.provider_refund_id p.refunds ≡ some r
    → r.succeeded_at ≡ none
    → is_in_flight_refund_status r.status ≡ true
    → allows_update r (success_row r input.now) ≡ true
    → has_entry
        (ledger_entry LedgerEntryType.refund_succeeded r input.webhook_id).idempotency_key
        p.journal
      ≡ false
    → (q : Payment) × (settle_success r input p ≡ some q) × Succeeded input p r q
unfolding settle_success
settle_success-Succeeded input p r acc d e s fl allowed fresh = (
  record_success r input (rewritten (success_row r input.now) p),
  rw (success-commits input p r acc d e s fl allowed, settle_success) refl,
  record_success-Succeeded input p r acc d e s fl fresh,
)

-- What `decide_refund_transition` answers to a success before there is an outcome.
decide-success :
    (s : RefundStatus)
    → is_in_flight_refund_status s ≡ true
    → same_refund_status s RefundStatus.requires_review ≡ false
    → decide_refund_transition s RefundStatus.succeeded ≡ apply RefundStatus.succeeded
unfolding decide_refund_transition is_contradictory_refund_outcome is_terminal_refund_status
    is_in_flight_refund_status
decide-success s fl nr = ground arith

settle_found-success :
    (input : SettleInput) (p : Payment) (r : Refund)
    → r.succeeded_at ≡ none
    → r.failed_at ≡ none
    → is_in_flight_refund_status r.status ≡ true
    → same_refund_status r.status RefundStatus.requires_review ≡ false
    → input.incoming_status ≡ RefundStatus.succeeded
    → input.amount_minor ≡ r.requested_amount_minor
    → same_currency input.currency r.currency ≡ true
    → settle_found r input p
      ≡ outcome_of (applied RefundStatus.succeeded) (settle_success r input p)
unfolding settle_found settle_apply is_stale_provider_event
settle_found-success input p r s f fl nr inc am cur = ground (arith, decide-success r.status fl nr)

-- On a payment whose aggregates are those of its refunds, are covered by what was captured, and
-- whose refunds have distinct ids, take a refund in flight and not in review whose row satisfies the
-- row checks. A SUCCEEDED event for its amount and currency, processed at no earlier time than the
-- refund was requested, whose webhook is not yet in the journal, always commits as APPLIED: the
-- amount leaves the reserve and enters refunded, the journal's debits grow by it, the tickets follow,
-- and the booking becomes REFUNDED when everything that was captured is refunded and keeps its status
-- otherwise.
pub settle_refund-succeeds :
    (input : SettleInput) (p : Payment) (r : Refund)
    → IsAccounted p
    → is_distinct (refund_ids p.refunds) ≡ true
    → find_by_provider_id input.provider_refund_id p.refunds ≡ some r
    → respects_checks r ≡ true
    → is_in_flight_refund_status r.status ≡ true
    → same_refund_status r.status RefundStatus.requires_review ≡ false
    → r.requested_at ≤ input.now
    → input.incoming_status ≡ RefundStatus.succeeded
    → input.amount_minor ≡ r.requested_amount_minor
    → same_currency input.currency r.currency ≡ true
    → has_entry
        (ledger_entry LedgerEntryType.refund_succeeded r input.webhook_id).idempotency_key
        p.journal
      ≡ false
    → (q : Payment) × (settle_refund input p ≡ some (applied RefundStatus.succeeded, q))
      × Succeeded input p r q
unfolding settle_refund
settle_refund-succeeds input p r acc d e c fl nr le inc am cur fresh =
    let (s, f, _, _) = in_flight-open r c fl nr in
    let allowed = success-allowed r input.now c fl nr le in
    let done = settle_success-Succeeded input p r acc d e s fl allowed fresh in
    (
      done.0,
      rw (e, settle_refund)
          (settle_found-success input p r s f fl nr inc am cur
            ∙ ap (outcome_of (applied RefundStatus.succeeded)) done.1),
      done.2,
    )

-- A CANCELLED event for the amount and currency of a refund in flight and not in review whose row
-- satisfies the row checks, which the decision is to apply, always aborts: the update leaves a row
-- that the lifecycle check refuses, since it writes no `cancelledAt`.
pub settle_refund-cancelled :
    (input : SettleInput) (p : Payment) (r : Refund)
    → find_by_provider_id input.provider_refund_id p.refunds ≡ some r
    → respects_checks r ≡ true
    → is_in_flight_refund_status r.status ≡ true
    → same_refund_status r.status RefundStatus.requires_review ≡ false
    → input.incoming_status ≡ RefundStatus.cancelled
    → input.amount_minor ≡ r.requested_amount_minor
    → same_currency input.currency r.currency ≡ true
    → (decide_refund_transition r.status input.incoming_status ≡ apply RefundStatus.cancelled)
      × (allows_times RefundStatus.cancelled
            (record r { status = RefundStatus.cancelled; submitted_at = some input.now })
          ≡ false)
      × (settle_refund input p ≡ none)
unfolding settle_refund settle_found settle_apply settle_progress update_refund allows_update
    respects_checks allows_times is_stale_provider_event decide_refund_transition
    is_contradictory_refund_outcome is_terminal_refund_status is_in_flight_refund_status
settle_refund-cancelled input p r e c fl nr inc am cur =
    let opened = in_flight-open r c fl nr in ground (arith, opened)
