-- ===== src/Refunds/Lifecycle.antt =====
-- src/features/refunds/lifecycle.ts.
use seatflow.Prelude.{ℕ, Bool, true, false, ◌&&◌, not, Option, some, ltb, if◌then◌else◌}
use seatflow.Domain.{RefundStatus, same_refund_status}

unfoldable pub is_terminal_refund_status : RefundStatus → Bool
is_terminal_refund_status RefundStatus.succeeded = true
is_terminal_refund_status RefundStatus.failed = true
is_terminal_refund_status RefundStatus.cancelled = true
is_terminal_refund_status _ = false

unfoldable pub is_in_flight_refund_status : RefundStatus → Bool
is_in_flight_refund_status RefundStatus.requested = true
is_in_flight_refund_status RefundStatus.submitting = true
is_in_flight_refund_status RefundStatus.processing = true
is_in_flight_refund_status RefundStatus.requires_review = true
is_in_flight_refund_status _ = false

-- The arguments: the current and the incoming status.
unfoldable pub is_contradictory_refund_outcome : RefundStatus → RefundStatus → Bool
unfolding is_terminal_refund_status
is_contradictory_refund_outcome current incoming =
    if is_terminal_refund_status current && is_terminal_refund_status incoming
    then not (same_refund_status current incoming)
    else false

pub data IgnoreReason : Type 0 where
  already_under_review duplicate_status stale_event_after_terminal non_advancing_status :
      IgnoreReason

pub data ReviewCode : Type 0 where
  contradictory_refund_outcome provider_requested_review : ReviewCode

pub data RefundTransitionDecision : Type 0 where
  apply : RefundStatus → RefundTransitionDecision
  ignore : IgnoreReason → RefundTransitionDecision
  review : ReviewCode → RefundTransitionDecision

abbrev pub is_under_review : RefundStatus → Bool
is_under_review RefundStatus.requires_review = true
is_under_review _ = false

abbrev pub is_requested : RefundStatus → Bool
is_requested RefundStatus.requested = true
is_requested _ = false

unfoldable pub decide_refund_transition : RefundStatus → RefundStatus → RefundTransitionDecision
unfolding is_contradictory_refund_outcome
decide_refund_transition current incoming =
    if is_under_review current
    then ignore already_under_review
    else if same_refund_status current incoming
    then ignore duplicate_status
    else if is_contradictory_refund_outcome current incoming
    then review contradictory_refund_outcome
    else if is_terminal_refund_status current
    then ignore stale_event_after_terminal
    else if is_under_review incoming
    then review provider_requested_review
    else if is_requested incoming
    then ignore non_advancing_status
    else apply incoming

-- The arguments: `lastAppliedAt` and `incomingOccurredAt`.
unfoldable pub is_stale_provider_event : Option ℕ → Option ℕ → Bool
is_stale_provider_event (some last) (some occurred) = ltb occurred last
is_stale_provider_event _ _ = false
