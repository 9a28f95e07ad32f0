-- ===== src/Refunds/Ordering.antt =====
-- What any sequence of provider events does to a refund that succeeded, as
-- src/server/refunds/settlement-service.ts processes them.
use seatflow.Prelude.{
  ℕ, ◌==◌, ◌≡◌, ◌≤◌, refl, Bool, true, false, ◌&&◌, ◌||◌, not, none, some, List, [], ◌∷◌, any, all,
  arith, if◌then◌else◌, is_distinct, ltb, leb, Bool-cases, inl, inr, ==_eq, ◌∙◌,
}
use seatflow.Domain.{RefundStatus, same_currency}
use seatflow.Refunds.Lifecycle.{
  decide_refund_transition, is_contradictory_refund_outcome, is_stale_provider_event,
  is_terminal_refund_status,
}
use seatflow.Refunds.Payment.{
  Refund, Payment, find_by_provider_id, refunded_part, in_flight_part, update_refund,
  respects_checks, allows_update,
}
use seatflow.Refunds.Settlement.{SettleInput, settle_refund, settle_found, mark_refund_under_review}
use seatflow.Refunds.Rows.{
  refund_ids, refund_ids-put_refund, find_by_provider_id-put_refund, total-put_refund,
}
use seatflow.Refunds.Allowing.{reviewed_row, review-allowed}
use seatflow.Refunds.Reviewing.{marked_again}
use seatflow.Refunds.Settling.{IsAccounted, store_refunds-commits}

-- The payment after one event; a transaction that aborts leaves it as it was.
abbrev pub settle_next : SettleInput → Payment → Payment
settle_next e p = elim (settle_refund e p) [ none ↦ p | some (_, q) ↦ q ]

pub settle_all : List SettleInput → Payment → Payment
settle_all [] p = p
settle_all (e ∷ es) p = settle_all es (settle_next e p)

-- Whether an event is about another amount or currency.
abbrev pub disagrees : Refund → SettleInput → Bool
disagrees r e =
    not (e.amount_minor == r.requested_amount_minor && same_currency e.currency r.currency)

-- Whether an event says that it happened before a time.
abbrev pub is_older : ℕ → SettleInput → Bool
is_older at e = elim e.occurred_at [ none ↦ false | some t ↦ ltb t at ]

abbrev pub claims_no_success : RefundStatus → Bool
claims_no_success RefundStatus.failed = true
claims_no_success RefundStatus.cancelled = true
claims_no_success _ = false

-- Whether an event has to be looked at by a person.
abbrev pub escalates : ℕ → Refund → SettleInput → Bool
escalates at r e = disagrees r e || not (is_older at e) && claims_no_success e.incoming_status

abbrev has_succeeded : RefundStatus → Bool
has_succeeded RefundStatus.succeeded = true
has_succeeded _ = false

abbrev is_escalated : RefundStatus → Bool
is_escalated RefundStatus.requires_review = true
is_escalated _ = false

-- What is known of the refund and its payment at every point of the sequence.
record Standing (at i : ℕ) (first : Refund) (start : Payment) (r : Refund) (p : Payment)
    : Type 0 where
  accounted : IsAccounted p
  distinct : is_distinct (refund_ids p.refunds) ≡ true
  found : find_by_provider_id i p.refunds ≡ some r
  checked : respects_checks r ≡ true
  succeeded : r.succeeded_at ≡ some at
  kept : has_succeeded r.status || is_escalated r.status ≡ true
  amount : r.requested_amount_minor ≡ first.requested_amount_minor
  currency : r.currency ≡ first.currency
  requested : r.requested_at ≡ first.requested_at
  refunded : p.refunded_minor ≡ start.refunded_minor
  in_flight : p.in_flight_minor ≡ start.in_flight_minor
  journal : p.journal ≡ start.journal
  tickets : p.tickets ≡ start.tickets
  booking : p.booking_status ≡ start.booking_status

module _ (at i : ℕ) (first : Refund) (start : Payment) where
  marked :
      (r : Refund) (p : Payment) (now : ℕ)
      → Standing at i first start r p
      → first.requested_at ≤ now
      → mark_refund_under_review r now p ≡ some (marked_again r now p)
  unfolding mark_refund_under_review update_refund
  marked r p now k le =
      let allowed = review-allowed r at now k.checked k.succeeded (ground (arith, k.requested)) in
      let stored =
        store_refunds-commits i p r (reviewed_row r now) k.accounted k.distinct k.found refl
          (ground (arith, k.succeeded)) in
      ground (arith, allowed, stored)

  marked-Standing :
      (r : Refund) (p : Payment) (now : ℕ)
      → Standing at i first start r p
      → first.requested_at ≤ now
      → Standing at i first start (reviewed_row r now) (marked_again r now p)
  unfolding allows_update
  marked-Standing r p now k le =
      let allowed = review-allowed r at now k.checked k.succeeded (ground (arith, k.requested)) in
      let moved =
        total-put_refund refunded_part i p.refunds r (reviewed_row r now) k.distinct k.found refl in
      let freed =
        total-put_refund in_flight_part i p.refunds r (reviewed_row r now) k.distinct k.found
          refl in
      record {
        accounted = record {
          refunded = refl;
          in_flight = refl;
          covered = ground (arith, moved, freed, k.succeeded, k.accounted);
        };
        distinct = rw (refund_ids-put_refund (reviewed_row r now) p.refunds) (k.distinct);
        found =
            find_by_provider_id-put_refund i p.refunds r (reviewed_row r now) k.distinct k.found
              refl refl;
        checked = ground (arith, allowed);
        succeeded = k.succeeded;
        kept = refl;
        amount = k.amount;
        currency = k.currency;
        requested = k.requested;
        refunded = ground (arith, moved, k.succeeded, k.accounted, k.refunded);
        in_flight = ground (arith, freed, k.succeeded, k.accounted, k.in_flight);
        journal = k.journal;
        tickets = k.tickets;
        booking = k.booking;
      }

  -- Whether an event has an effect on a refund in this standing.
  abbrev touches : Refund → SettleInput → Bool
  touches r e =
      disagrees first e
      || has_succeeded r.status && (not (is_older at e) && claims_no_success e.incoming_status)

  settle_next-eq :
      (r : Refund) (p : Payment) (e : SettleInput)
      → Standing at i first start r p
      → e.provider_refund_id ≡ i
      → first.requested_at ≤ e.now
      → settle_next e p ≡ (if touches r e then marked_again r e.now p else p)
  unfolding settle_refund settle_found is_stale_provider_event decide_refund_transition
      is_contradictory_refund_outcome is_terminal_refund_status
  settle_next-eq r p e k same le =
      ground (arith, marked r p e.now k le, k.found, k.succeeded, k.kept, k.amount, k.currency)

  abbrev Ends : List SettleInput → Refund → Payment → Type 0
  Ends es r p =
      (r' : Refund) × Standing at i first start r' (settle_all es p)
      × (r'.status ≡ (
          if is_escalated r.status || any (escalates at first) es
          then RefundStatus.requires_review
          else RefundStatus.succeeded))

  abbrev is_for : SettleInput → Bool
  is_for e = e.provider_refund_id == i && leb first.requested_at e.now

  settle_all-Ends :
      (es : List SettleInput) (r : Refund) (p : Payment)
      → Standing at i first start r p
      → all is_for es ≡ true
      → Ends es r p
  unfolding settle_all
  settle_all-Ends [] r p k h = (r, k, ground (arith, k.kept))
  settle_all-Ends (e ∷ es) r p k h =
      let same : e.provider_refund_id ≡ i = ==_eq e.provider_refund_id i (ground (arith, h)) in
      let le : first.requested_at ≤ e.now = ground (arith, h) in
      let step = settle_next-eq r p e k same le in
      elim (Bool-cases (touches r e)) [
        | inl t ↦
            let next : settle_next e p ≡ marked_again r e.now p = step ∙ (rw t refl) in
            let (r', k', s) =
              settle_all-Ends es (reviewed_row r e.now) (marked_again r e.now p)
                (marked-Standing r p e.now k le) (ground (arith, h)) in
            (r', rw next k', ground (arith, s, t, k.kept))
        | inr f ↦
            let next : settle_next e p ≡ p = step ∙ (rw f refl) in
            let (r', k', s) = settle_all-Ends es r p k (ground (arith, h)) in
            (r', rw next k', ground (arith, s, f, k.kept))
      ]

-- Take a refund that succeeded, on a payment whose aggregates are those of its refunds, are covered
-- by what was captured, and whose refunds have distinct ids. Whatever events for it are processed
-- afterwards, in whatever order and none at an earlier time than the request, its time of success,
-- the amounts, the journal, the tickets and the booking stay as they are. Its status stays
-- SUCCEEDED, unless some event is about another amount or currency, or claims FAILED or CANCELLED
-- and does not say that it happened before the success was recorded: then, and only then, the refund
-- ends in review.
pub settle_all-first_success_wins :
    (at i : ℕ) (r : Refund) (p : Payment) (es : List SettleInput)
    → IsAccounted p
    → is_distinct (refund_ids p.refunds) ≡ true
    → find_by_provider_id i p.refunds ≡ some r
    → respects_checks r ≡ true
    → r.status ≡ RefundStatus.succeeded
    → r.succeeded_at ≡ some at
    → all (λ e. e.provider_refund_id == i && leb r.requested_at e.now) es ≡ true
    → let q = settle_all es p in
      (r' : Refund) × (find_by_provider_id i q.refunds ≡ some r')
      × (r'.succeeded_at ≡ some at)
      × (r'.status ≡ (
          if any (escalates at r) es then RefundStatus.requires_review else RefundStatus.succeeded))
      × (q.refunded_minor ≡ p.refunded_minor)
      × (q.in_flight_minor ≡ p.in_flight_minor)
      × (q.journal ≡ p.journal)
      × (q.tickets ≡ p.tickets)
      × (q.booking_status ≡ p.booking_status)
settle_all-first_success_wins at i r p es acc d found c st s h =
    let (r', k, status) =
      settle_all-Ends at i r p es r p
        (record {
          accounted = acc;
          distinct = d;
          found = found;
          checked = c;
          succeeded = s;
          kept = ground (arith, st);
          amount = refl;
          currency = refl;
          requested = refl;
          refunded = refl;
          in_flight = refl;
          journal = refl;
          tickets = refl;
          booking = refl;
        })
        h in
    (
      r',
      k.found,
      k.succeeded,
      ground (arith, status, st),
      k.refunded,
      k.in_flight,
      k.journal,
      k.tickets,
      k.booking,
    )
