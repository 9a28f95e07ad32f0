-- ===== src/Refunds/Reviewing.antt =====
-- Sending a refund to review, once and again.
use seatflow.Prelude.{ℕ, ◌≡◌, ◌≤◌, refl, true, some, List, arith, [], ◌∷◌}
use seatflow.Refunds.Payment.{
  Refund, Payment, put_refund, total, store_refunds, enqueue, update_refund, allows_update,
  refunded_part, in_flight_part, FinancialEventType,
}
use seatflow.Refunds.Settlement.{mark_refund_under_review}
use seatflow.Refunds.Rows.{enqueue_idem}
use seatflow.Refunds.Allowing.{reviewed_row, again-allowed}

total-rewritten :
    (part : Refund → ℕ) (r r' : Refund) (rs : List Refund)
    → r.id ≡ r'.id
    → part r ≡ part r'
    → total part (put_refund r' (put_refund r rs)) ≡ total part (put_refund r rs)
unfolding put_refund
total-rewritten part r r' [] h k = refl
total-rewritten part r r' (x ∷ rs) h k = ground (arith, h, k, total-rewritten part r r' rs h k)

-- What a delivery leaves as it is: all but the rows of the refunds.
pub record IsUnchanged (p q : Payment) : Type 0 where
  pub refunded : q.refunded_minor ≡ p.refunded_minor
  pub in_flight : q.in_flight_minor ≡ p.in_flight_minor
  pub booking : q.booking_status ≡ p.booking_status
  pub tickets : q.tickets ≡ p.tickets
  pub journal : q.journal ≡ p.journal
  pub outbox : q.outbox ≡ p.outbox
  pub review : q.under_review ≡ p.under_review

pub same-IsUnchanged : (p : Payment) → IsUnchanged p p
same-IsUnchanged p = record {
  refunded = refl;
  in_flight = refl;
  booking = refl;
  tickets = refl;
  journal = refl;
  outbox = refl;
  review = refl;
}

pub mark-refunds :
    (r : Refund) (now : ℕ) (p q : Payment)
    → mark_refund_under_review r now p ≡ some q
    → q.refunds ≡ put_refund (reviewed_row r now) p.refunds
unfolding mark_refund_under_review update_refund store_refunds
mark-refunds r now p q e = ground (arith, e)

mark-allowed :
    (r : Refund) (now : ℕ) (p q : Payment)
    → mark_refund_under_review r now p ≡ some q
    → allows_update r (reviewed_row r now) ≡ true
unfolding mark_refund_under_review update_refund
mark-allowed r now p q e = ground (arith, e)

abbrev pub marked_again : Refund → ℕ → Payment → Payment
marked_again r now q = record q {
  refunds = put_refund (reviewed_row r now) q.refunds;
  refunded_minor = total refunded_part (put_refund (reviewed_row r now) q.refunds);
  in_flight_minor = total in_flight_part (put_refund (reviewed_row r now) q.refunds);
  under_review = true;
  outbox = enqueue FinancialEventType.refund_requires_review r.id q.outbox;
}

-- Marking a refund again, at no earlier time, commits and leaves all but the time of the review.
pub mark-again :
    (r : Refund) (now later : ℕ) (p q : Payment)
    → now ≤ later
    → mark_refund_under_review r now p ≡ some q
    → (mark_refund_under_review (reviewed_row r now) later q
        ≡ some (marked_again (reviewed_row r now) later q))
      × IsUnchanged q (marked_again (reviewed_row r now) later q)
unfolding mark_refund_under_review update_refund store_refunds
mark-again r now later p q le e =
    let allowed = again-allowed r now later le (mark-allowed r now p q e) in
    let refunded =
      total-rewritten refunded_part (reviewed_row r now) (reviewed_row r later) p.refunds refl
        refl in
    let in_flight =
      total-rewritten in_flight_part (reviewed_row r now) (reviewed_row r later) p.refunds refl
        refl in
    let sent = enqueue_idem FinancialEventType.refund_requires_review r.id p.outbox in
    (
      ground (arith, e, refunded, in_flight, allowed),
      record {
        refunded = ground (arith, e, refunded);
        in_flight = ground (arith, e, in_flight);
        booking = refl;
        tickets = refl;
        journal = refl;
        outbox = ground (arith, e, sent);
        review = ground (arith, e);
      },
    )
