-- ===== src/Refunds/Allowing.antt =====
-- Which updates of a refund's row the database lets through.
use seatflow.Prelude.{ℕ, ◌≡◌, ◌≤◌, refl, true, false, Option, none, some, arith, ==_self}
use seatflow.Domain.{RefundStatus, same_refund_status}
use seatflow.Refunds.Lifecycle.{is_in_flight_refund_status, is_terminal_refund_status}
use seatflow.Refunds.Payment.{
  Refund, allows_update, respects_checks, respects_time_order, has_one_outcome, allows_times,
  allows_status, keeps_times, is_kept,
}

abbrev pub reviewed_row : Refund → ℕ → Refund
reviewed_row r now = record r {
  status = RefundStatus.requires_review;
  review_required_at = some now;
}

abbrev pub success_row : Refund → ℕ → Refund
success_row r now = record r { status = RefundStatus.succeeded; succeeded_at = some now }

kept_self : (at : Option ℕ) → is_kept at at ≡ true
kept_self none = refl
kept_self (some at) = ==_self at

pub again-allowed :
    (r : Refund) (now later : ℕ)
    → now ≤ later
    → allows_update r (reviewed_row r now) ≡ true
    → allows_update (reviewed_row r now) (reviewed_row r later) ≡ true
unfolding allows_update respects_checks respects_time_order has_one_outcome allows_times
    allows_status keeps_times
again-allowed r now later le e = ground (
  arith,
  kept_self r.succeeded_at,
  kept_self r.failed_at,
  kept_self r.cancelled_at,
  kept_self r.submitted_at,
)

-- A stored refund that is in flight and not in review has no outcome.
pub in_flight-open :
    (r : Refund)
    → respects_checks r ≡ true
    → is_in_flight_refund_status r.status ≡ true
    → same_refund_status r.status RefundStatus.requires_review ≡ false
    → (r.succeeded_at ≡ none)
      × (r.failed_at ≡ none)
      × (r.cancelled_at ≡ none)
      × (r.review_required_at ≡ none)
unfolding respects_checks allows_times is_in_flight_refund_status
in_flight-open r c fl nr = ground arith

in_flight-status :
    (s t : RefundStatus)
    → is_in_flight_refund_status s ≡ true
    → same_refund_status s RefundStatus.requires_review ≡ false
    → allows_status s t ≡ true
unfolding allows_status is_in_flight_refund_status is_terminal_refund_status
in_flight-status s t fl nr = ground arith

pub success-allowed :
    (r : Refund) (now : ℕ)
    → respects_checks r ≡ true
    → is_in_flight_refund_status r.status ≡ true
    → same_refund_status r.status RefundStatus.requires_review ≡ false
    → r.requested_at ≤ now
    → allows_update r (success_row r now) ≡ true
unfolding allows_update respects_checks keeps_times respects_time_order has_one_outcome allows_times
success-allowed r now c fl nr le =
    let opened = in_flight-open r c fl nr in
    let moves = in_flight-status r.status RefundStatus.succeeded fl nr in
    ground (arith, opened, moves, kept_self r.submitted_at)

-- A refund that succeeded may go to review at any time after the request, more than once.
pub review-allowed :
    (r : Refund) (at now : ℕ)
    → respects_checks r ≡ true
    → r.succeeded_at ≡ some at
    → r.requested_at ≤ now
    → allows_update r (reviewed_row r now) ≡ true
unfolding allows_update respects_checks keeps_times respects_time_order has_one_outcome allows_times
    allows_status is_terminal_refund_status
review-allowed r at now c s le = ground (
  arith,
  kept_self r.succeeded_at,
  kept_self r.failed_at,
  kept_self r.cancelled_at,
  kept_self r.submitted_at,
)
