-- ===== src/Disputes.antt =====
-- Disputes: src/features/disputes/lifecycle.ts.
use seatflow.Prelude.{
  ℕ, ◌+◌, ◌≡◌, refl, Bool, true, false, ◌&&◌, ◌||◌, not, Option, none, some, List, [], ◌∷◌, any,
  ltb, if◌then◌else◌, arith,
}
use seatflow.Domain.{DisputeStatus, same_dispute_status, TicketStatus, DisputeOutcome}

unfoldable pub is_terminal_dispute_status : DisputeStatus → Bool
is_terminal_dispute_status DisputeStatus.won = true
is_terminal_dispute_status DisputeStatus.lost = true
is_terminal_dispute_status DisputeStatus.closed = true
is_terminal_dispute_status _ = false

unfoldable pub is_open_dispute_status : DisputeStatus → Bool
is_open_dispute_status DisputeStatus.opened = true
is_open_dispute_status DisputeStatus.needs_response = true
is_open_dispute_status DisputeStatus.under_review = true
is_open_dispute_status _ = false

unfoldable pub outcome_for_terminal_status : DisputeStatus → Option DisputeOutcome
outcome_for_terminal_status DisputeStatus.won = some DisputeOutcome.won
outcome_for_terminal_status DisputeStatus.lost = some DisputeOutcome.lost
outcome_for_terminal_status _ = none

pub data DisputeIgnoreReason : Type 0 where
  already_under_review duplicate_status stale_event_after_terminal : DisputeIgnoreReason

pub data DisputeReviewCode : Type 0 where
  provider_requested_review contradictory_dispute_outcome : DisputeReviewCode

pub data DisputeTransitionDecision : Type 0 where
  apply : DisputeStatus → Option DisputeOutcome → DisputeTransitionDecision
  ignore : DisputeIgnoreReason → DisputeTransitionDecision
  review : DisputeReviewCode → DisputeTransitionDecision

abbrev is_under_review : DisputeStatus → Bool
is_under_review DisputeStatus.requires_review = true
is_under_review _ = false

-- The arguments: the current and the incoming status.
unfoldable pub decide_dispute_transition : DisputeStatus → DisputeStatus → DisputeTransitionDecision
unfolding is_terminal_dispute_status outcome_for_terminal_status
decide_dispute_transition current incoming =
    if is_under_review current
    then ignore already_under_review
    else if same_dispute_status current incoming
    then ignore duplicate_status
    else if is_under_review incoming
    then review provider_requested_review
    else if is_terminal_dispute_status current
    then (if is_terminal_dispute_status incoming
        then review contradictory_dispute_outcome
        else ignore stale_event_after_terminal)
    else apply incoming (outcome_for_terminal_status incoming)

pub data DisputeTicketPolicy : Type 0 where
  preserve_on_open revoke_on_open : DisputeTicketPolicy

pub data TicketConsequence : Type 0 where
  no_change revoke preserve_used : TicketConsequence

abbrev is_lost : DisputeStatus → Bool
is_lost DisputeStatus.lost = true
is_lost _ = false

abbrev revokes_on_open : DisputeTicketPolicy → Bool
revokes_on_open revoke_on_open = true
revokes_on_open preserve_on_open = false

unfoldable pub decide_dispute_ticket_consequence :
    DisputeStatus → TicketStatus → DisputeTicketPolicy → TicketConsequence
unfolding is_open_dispute_status
decide_dispute_ticket_consequence s TicketStatus.used policy = preserve_used
decide_dispute_ticket_consequence s TicketStatus.revoked policy = no_change
decide_dispute_ticket_consequence s TicketStatus.active policy =
    if is_lost s
    then revoke
    else if is_open_dispute_status s && revokes_on_open policy
    then revoke
    else no_change

pub record RefundDisputeOverlap : Type 0 where
  pub overlapping : Bool
  pub exceeds_captured : Bool
  pub combined_minor : ℕ

-- The arguments: the succeeded refunds, the disputed and the captured amount.
unfoldable pub detect_refund_dispute_overlap : ℕ → ℕ → ℕ → RefundDisputeOverlap
detect_refund_dispute_overlap refunded disputed captured = record {
  overlapping = ltb 0 refunded && ltb 0 disputed;
  exceeds_captured = ltb captured (refunded + disputed);
  combined_minor = refunded + disputed;
}

-- The status that a decision leaves.
abbrev pub status_after : DisputeStatus → DisputeTransitionDecision → DisputeStatus
status_after current (apply s _) = s
status_after current (ignore _) = current
status_after current (review _) = DisputeStatus.requires_review

abbrev pub deliver : DisputeStatus → List DisputeStatus → DisputeStatus
deliver current [] = current
deliver current (s ∷ rest) =
    deliver (status_after current (decide_dispute_transition current s)) rest

-- Whether an event is against the outcome `t`: another outcome, or a request for review.
abbrev pub contests : DisputeStatus → DisputeStatus → Bool
contests t s = (is_terminal_dispute_status s && not (same_dispute_status t s)) || is_under_review s

deliver-review :
    (events : List DisputeStatus)
    → deliver DisputeStatus.requires_review events ≡ DisputeStatus.requires_review
unfolding decide_dispute_transition
deliver-review [] = refl
deliver-review (s ∷ rest) = ground (arith, deliver-review rest)

-- Whatever provider events follow a final outcome, in whatever order, the dispute keeps the outcome,
-- unless one of them reports another outcome or asks for review: then, and only then, it ends in
-- review.
pub deliver_dispute-first_outcome_wins :
    (t : DisputeStatus) (events : List DisputeStatus)
    → is_terminal_dispute_status t ≡ true
    → deliver t events ≡ (if any (contests t) events then DisputeStatus.requires_review else t)
unfolding decide_dispute_transition is_terminal_dispute_status
deliver_dispute-first_outcome_wins t [] h = ground (arith, h)
deliver_dispute-first_outcome_wins t (s ∷ rest) h =
    ground (arith, h, deliver_dispute-first_outcome_wins t rest h, deliver-review rest)
