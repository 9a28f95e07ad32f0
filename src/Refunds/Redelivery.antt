-- ===== src/Refunds/Redelivery.antt =====
-- What a second delivery of a verified refund event does.
use seatflow.Prelude.{
  ℕ, ◌==◌, ◌≡◌, ◌≤◌, refl, true, false, ◌&&◌, Option, none, some, is_distinct, arith, Bool-cases,
  Option-cases, Bool, inl, inr, ◌∙◌,
}
use seatflow.Domain.{RefundStatus, same_currency}
use seatflow.Refunds.Lifecycle.{
  is_terminal_refund_status, decide_refund_transition, RefundTransitionDecision,
  is_contradictory_refund_outcome, is_stale_provider_event, ignore, apply, review, IgnoreReason,
  already_under_review, duplicate_status,
}
use seatflow.Refunds.Payment.{
  Refund, Payment, find_by_provider_id, put_refund, store_refunds, update_refund,
}
use seatflow.Refunds.Settlement.{
  SettleInput, SettlementOutcome, settle_refund, settle_found, settle_apply, settle_success,
  settle_failure, settle_progress, mark_refund_under_review, last_applied_at, outcome_of,
  record_success, maybe_mark_fully_refunded, ignored, stale_provider_event, transition,
  unknown_refund, reviewed, refund_amount_or_currency_mismatch,
}
use seatflow.Refunds.Rows.{refund_ids, find_by_provider_id-put_refund}
use seatflow.Refunds.Allowing.{reviewed_row}
use seatflow.Refunds.Reviewing.{
  IsUnchanged, same-IsUnchanged, marked_again, mark-refunds, mark-again,
}

-- The row that an applied status leaves.
abbrev applied_row : RefundStatus → Refund → ℕ → Refund
applied_row RefundStatus.succeeded r now = record r {
  status = RefundStatus.succeeded;
  succeeded_at = some now;
}
applied_row RefundStatus.failed r now = record r {
  status = RefundStatus.failed;
  failed_at = some now;
}
applied_row s r now = record r { status = s; submitted_at = some now }

applied_row-facts :
    (s : RefundStatus) (r : Refund) (now : ℕ)
    → ((applied_row s r now).id ≡ r.id)
      × ((applied_row s r now).provider_refund_id ≡ r.provider_refund_id)
      × ((applied_row s r now).requested_amount_minor ≡ r.requested_amount_minor)
      × ((applied_row s r now).currency ≡ r.currency)
      × ((applied_row s r now).status ≡ s)
applied_row-facts s r now = ground arith

apply-row :
    (s : RefundStatus) (r : Refund) (input : SettleInput) (p q : Payment)
    → settle_apply s r input p ≡ some q
    → q.refunds ≡ put_refund (applied_row s r input.now) p.refunds
unfolding settle_apply settle_success settle_failure settle_progress update_refund store_refunds
    record_success maybe_mark_fully_refunded
apply-row s r input p q e = ground (arith, e)

-- A status that arrives again is ignored, and only the incoming status is ever applied.
decide-again :
    (current incoming s : RefundStatus)
    → decide_refund_transition current incoming ≡ apply s
    → decide_refund_transition s incoming ≡ ignore duplicate_status
unfolding decide_refund_transition is_contradictory_refund_outcome is_terminal_refund_status
decide-again current incoming s e = ground (arith, e)

decide-under_review :
    (incoming : RefundStatus)
    → decide_refund_transition RefundStatus.requires_review incoming ≡ ignore already_under_review
unfolding decide_refund_transition
decide-under_review incoming = ground arith

-- What `settle_found` does on a row of the same amount and currency whose status ignores the event.
settle_found-ignored :
    (r r' : Refund) (input : SettleInput) (q : Payment) (reason : IgnoreReason)
    → (input.amount_minor == r'.requested_amount_minor && same_currency input.currency r'.currency)
      ≡ true
    → decide_refund_transition r'.status input.incoming_status ≡ ignore reason
    → (o : SettlementOutcome) × (settle_found r' input q ≡ some (o, q))
unfolding settle_found
settle_found-ignored r r' input q reason m i =
    elim (Bool-cases (is_stale_provider_event (last_applied_at r') input.occurred_at)) [
      | inl t ↦ (ignored stale_provider_event, ground (arith, m, i, t))
      | inr f ↦ (ignored (transition reason), ground (arith, m, i, f))
    ]

outcome_of-some :
    (o o' : SettlementOutcome) (m : Option Payment) (q : Payment)
    → outcome_of o m ≡ some (o', q)
    → m ≡ some q
outcome_of-some o o' none q e = ground (arith, e)
outcome_of-some o o' (some x) q e = ground (arith, e)

-- The same event, delivered at another time.
abbrev delivered_at : ℕ → SettleInput → SettleInput
delivered_at later input = record input { now = later }

module _ (input : SettleInput) (later : ℕ) (p : Payment) (r : Refund) (o : SettlementOutcome)
    (q : Payment) (d : is_distinct (refund_ids p.refunds) ≡ true)
    (found : find_by_provider_id input.provider_refund_id p.refunds ≡ some r)
    (le : input.now ≤ later) where
  abbrev DoneAgain : Type 0
  DoneAgain =
      (o' : SettlementOutcome) × (q' : Payment) × (settle_refund (delivered_at later input) q
        ≡ some (o', q'))
      × IsUnchanged q q'

  abbrev is_matching : Bool
  is_matching =
      input.amount_minor == r.requested_amount_minor && same_currency input.currency r.currency

  refound :
      (r' : Refund)
      → r'.id ≡ r.id
      → r'.provider_refund_id ≡ r.provider_refund_id
      → q.refunds ≡ put_refund r' p.refunds
      → settle_refund (delivered_at later input) q ≡ settle_found r' (delivered_at later input) q
  unfolding settle_refund
  refound r' h k e =
      let f = find_by_provider_id-put_refund input.provider_refund_id p.refunds r r' d found h k in
      ground (arith, e, f)

  -- An event that is ignored the second time.
  ignored-again :
      (r' : Refund) (reason : IgnoreReason)
      → r'.id ≡ r.id
      → r'.provider_refund_id ≡ r.provider_refund_id
      → (input.amount_minor == r'.requested_amount_minor
          && same_currency input.currency r'.currency)
        ≡ true
      → q.refunds ≡ put_refund r' p.refunds
      → decide_refund_transition r'.status input.incoming_status ≡ ignore reason
      → DoneAgain
  ignored-again r' reason h k m e i =
      let (o', next) = settle_found-ignored r r' (delivered_at later input) q reason m i in
      (o', q, refound r' h k e ∙ next, same-IsUnchanged q)

  mismatch-again : is_matching ≡ false → settle_found r input p ≡ some (o, q) → DoneAgain
  unfolding settle_found
  mismatch-again m e =
      let marked : mark_refund_under_review r input.now p ≡ some q = ground (arith, m, e) in
      let (again, same) = mark-again r input.now later p q le marked in
      (
        reviewed refund_amount_or_currency_mismatch,
        marked_again (reviewed_row r input.now) later q,
        refound (reviewed_row r input.now) refl refl (mark-refunds r input.now p q marked)
            ∙ ground (arith, m, again),
        same,
      )

  decided-again :
      (dec : RefundTransitionDecision)
      → is_matching ≡ true
      → is_stale_provider_event (last_applied_at r) input.occurred_at ≡ false
      → decide_refund_transition r.status input.incoming_status ≡ dec
      → settle_found r input p ≡ some (o, q)
      → DoneAgain
  unfolding settle_found settle_refund
  decided-again (ignore reason) m st h e =
      (ignored (transition reason), q, ground (arith, m, st, h, e, found), same-IsUnchanged q)
  decided-again (review code) m st h e =
      let marked : mark_refund_under_review r input.now p ≡ some q = ground (arith, m, st, h, e) in
      ignored-again (reviewed_row r input.now) already_under_review refl refl m
        (mark-refunds r input.now p q marked) (decide-under_review input.incoming_status)
  decided-again (apply s) m st h e =
      let facts = applied_row-facts s r input.now in
      let done : settle_apply s r input p ≡ some q = ground (arith, m, st, h, e) in
      ignored-again (applied_row s r input.now) duplicate_status facts.0 facts.1
        (ground (arith, m, facts)) (apply-row s r input p q done)
        (ground (arith, facts, decide-again r.status input.incoming_status s h))

  found-again : settle_found r input p ≡ some (o, q) → DoneAgain
  unfolding settle_found settle_refund
  found-again e = elim (Bool-cases is_matching) [
    | inr f ↦ mismatch-again f e
    | inl m ↦ elim (Bool-cases (is_stale_provider_event (last_applied_at r) input.occurred_at)) [
      | inl t ↦
          (ignored stale_provider_event, q, ground (arith, m, t, e, found), same-IsUnchanged q)
      | inr st ↦ decided-again (decide_refund_transition r.status input.incoming_status) m st refl e
    ]
  ]

-- On a payment whose refunds have distinct ids, whatever one delivery of a verified refund event did
-- when it committed, delivering the same event again, at no earlier time, commits and leaves the amounts,
-- the booking, the tickets, the journal, the outbox and the review flag as they are.
pub settle_refund-redelivery :
    (input : SettleInput) (later : ℕ) (p : Payment) (o : SettlementOutcome) (q : Payment)
    → input.now ≤ later
    → is_distinct (refund_ids p.refunds) ≡ true
    → settle_refund input p ≡ some (o, q)
    → (o' : SettlementOutcome) × (q' : Payment) × (settle_refund (record input { now = later }) q
        ≡ some (o', q'))
      × IsUnchanged q q'
unfolding settle_refund
settle_refund-redelivery input later p o q le d e =
    elim (Option-cases (find_by_provider_id input.provider_refund_id p.refunds)) [
      | inl n ↦ (unknown_refund, q, ground (arith, n, e), same-IsUnchanged q)
      | inr (r, f) ↦ found-again input later p r o q d f le (ground (arith, f, e))
    ]
