-- ===== src/Examples/Others.antt =====
-- The theorems on the ledger, row labels, checkout, disputes and event delivery at concrete data.
use seatflow.Prelude.{◌≡◌, ◌≤◌, refl, true, false, some, [], ◌∷◌, ok, err, arith, ◌>>=◌, length}
use seatflow.Domain.{
  Currency, DisputeStatus, LedgerEntryType, LedgerDirection, CheckoutOrderStatus, SeatHoldStatus,
  EventStatus, EventSessionStatus, PaymentAttemptStatus, whole,
}
use seatflow.Prelude.{sub_ℕ}
use seatflow.Ledger.Entries.{
  LedgerEntryDraft, calculate_settled_balance_minor, is_settling_entry_type,
}
use seatflow.Ledger.Journal.{credited, debited, settled_balance-eq}
use seatflow.Refunds.Reconciliation.{
  ReviewedAttempt, attempt_findings, reports, attempt_findings_iff, ledger_disagrees_with_aggregate,
  over_refund_risk, refund_dispute_overlap, refunded_booking_not_terminal,
}
use seatflow.SeatMaps.RowLabels.{
  number_to_row_label, row_label_to_number, number_to_row_label-round_trip,
}
use seatflow.Checkout.Lifecycle.{
  FulfillmentInput, decide_paid_fulfillment, is_fulfill, decide_paid_fulfillment_iff,
  is_terminal_checkout_status,
}
use seatflow.Checkout.Totals.{
  CheckoutPricedItem, calculate_checkout_total, value_of, no_seats, calculate_checkout_total-eq,
}
use seatflow.Disputes.{deliver, deliver_dispute-first_outcome_wins, is_terminal_dispute_status}
use seatflow.Delivery.{
  InventoryEventCursor, InventoryEvent, decide_inventory_event, cursor_of, stamp, is_apply,
  decide_inventory_event-once,
}

abbrev refund_entry : LedgerEntryDraft
refund_entry = record {
  entry_type = LedgerEntryType.refund_succeeded;
  direction = LedgerDirection.debit;
  amount_minor = 4000;
  idempotency_key = record { entry_type = LedgerEntryType.refund_succeeded; cause = 41 };
}

settled_balance-eq_example :
    calculate_settled_balance_minor (refund_entry ∷ [])
    ≡ sub_ℕ (credited (refund_entry ∷ [])) (debited (refund_entry ∷ []))
settled_balance-eq_example = settled_balance-eq (refund_entry ∷ [])

-- A payment of 10,000 with one settled refund and no capture entry.
abbrev refunded_attempt : ReviewedAttempt
refunded_attempt = record {
  id = 3;
  order_id = 2;
  status = PaymentAttemptStatus.succeeded;
  amount_minor = 10000;
  refunded_minor = 4000;
  in_flight_refund_minor = 0;
  entries = refund_entry ∷ [];
  refund_count = 1;
  disputes = record { status = DisputeStatus.opened; disputed_amount_minor = 500 } ∷ [];
}

attempt_findings_iff_example :
    (reports ledger_disagrees_with_aggregate (attempt_findings refunded_attempt) ≡ true)
    × (reports over_refund_risk (attempt_findings refunded_attempt) ≡ false)
    × (reports refund_dispute_overlap (attempt_findings refunded_attempt) ≡ true)
    × (reports refunded_booking_not_terminal (attempt_findings refunded_attempt) ≡ false)
unfolding is_settling_entry_type
attempt_findings_iff_example = attempt_findings_iff refunded_attempt

number_to_row_label-round_trip_example : (number_to_row_label 703 >>= row_label_to_number) ≡ ok 703
number_to_row_label-round_trip_example =
    number_to_row_label-round_trip 703 (omega arith) (omega arith)

abbrev paid_order : FulfillmentInput
paid_order = record {
  order_status = CheckoutOrderStatus.paid;
  hold_status = SeatHoldStatus.active;
  hold_expires_at = 900;
  event_status = EventStatus.published;
  session_status = EventSessionStatus.on_sale;
  now = 800;
}

decide_paid_fulfillment_iff_example : is_fulfill (decide_paid_fulfillment paid_order) ≡ true
unfolding is_terminal_checkout_status
decide_paid_fulfillment_iff_example = decide_paid_fulfillment_iff paid_order

abbrev item : CheckoutPricedItem
item = record { price_minor = whole 2500; currency = Currency.gbp }

calculate_checkout_total-eq_example :
    (calculate_checkout_total [] ≡ err no_seats)
    × (value_of (calculate_checkout_total (item ∷ item ∷ []))
        ≡ some (record {
          subtotal_minor = 5000;
          total_minor = 5000;
          currency = Currency.gbp;
          seat_count = 2;
        }))
calculate_checkout_total-eq_example = calculate_checkout_total-eq item (item ∷ [])

deliver_dispute-first_outcome_wins_example :
    deliver DisputeStatus.won (DisputeStatus.under_review ∷ DisputeStatus.lost ∷ [])
    ≡ DisputeStatus.requires_review
unfolding is_terminal_dispute_status
deliver_dispute-first_outcome_wins_example =
    deliver_dispute-first_outcome_wins DisputeStatus.won
      (DisputeStatus.under_review ∷ DisputeStatus.lost ∷ []) refl

abbrev cursor : InventoryEventCursor
cursor = record { last_server_timestamp = some 100; seen_event_ids = 1 ∷ 2 ∷ [] }

abbrev arrival : InventoryEvent
arrival = record { event_id = 3; server_timestamp = 120 }

decide_inventory_event-once_example :
    (100 ≤ stamp (cursor_of (decide_inventory_event cursor arrival 2)).last_server_timestamp)
    × (length (cursor_of (decide_inventory_event cursor arrival 2)).seen_event_ids ≤ 2)
    × (is_apply
          (decide_inventory_event (cursor_of (decide_inventory_event cursor arrival 2)) arrival 2)
        ≡ false)
decide_inventory_event-once_example =
    decide_inventory_event-once cursor arrival 2 (omega arith) (omega arith)
