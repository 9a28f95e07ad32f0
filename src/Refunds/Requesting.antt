-- ===== src/Refunds/Requesting.antt =====
-- What a refund request reserves, and what a repeated one does.
use seatflow.Prelude.{
  ℕ, ◌+◌, ◌-◌, ◌≡◌, ◌≤◌, ◌<◌, refl, true, false, none, some, List, [], ◌∷◌, ◌++◌, if◌then◌else◌, ok,
  err, >>=-eq-ok, arith, Option-cases, inl, inr,
}
use mathlib.Core.Path.{subst}
use seatflow.Domain.{not_whole}
use seatflow.Refunds.Lifecycle.{is_in_flight_refund_status}
use seatflow.Refunds.Calculation.{
  RefundQuote, calculate_seat_refund, calculate_full_booking_refund, RefundCalculationResult,
}
use seatflow.Refunds.Pricing.{IsCovered, calculate-IsCovered}
use seatflow.Refunds.Payment.{
  Refund, Payment, capacity_of, store_refunds, total, refunded_part, in_flight_part,
}
use seatflow.Refunds.Settling.{IsAccounted}
use seatflow.Refunds.Request.{
  Booking, Actor, RefundRequestInput, CreateRefundResult, authorize, eligibility, quote, rejected,
  new_refund, result_of, create_refund, create_new, request_refund, find_by_key, snapshots,
}

total-snoc :
    (part : Refund → ℕ) (rs : List Refund) (r : Refund)
    → total part (rs ++ r ∷ []) ≡ total part rs + part r
total-snoc part [] r = omega arith
total-snoc part (x ∷ rs) r = omega (arith, total-snoc part rs r)

quote-IsCovered :
    (input : RefundRequestInput) (b : Booking) (p : Payment)
    → IsCovered (capacity_of p) (quote input b p)
unfolding quote
quote-IsCovered input b p =
    let priced =
      calculate-IsCovered (snapshots b p) input.booking_seat_ids not_whole (capacity_of p) in
    elim input.is_seat_scoped
      as (λ t. IsCovered (capacity_of p) (
        if t
        then calculate_seat_refund (snapshots b p) input.booking_seat_ids (capacity_of p)
        else calculate_full_booking_refund (snapshots b p) (capacity_of p))) [
          | true ↦ priced.1
          | false ↦ priced.0
        ]

-- An eligible quote never meets the CHECK: the reserve that it asks for is there.
quote-commits :
    (p : Payment) (now fresh key : ℕ) (q : RefundQuote)
    → IsAccounted p
    → IsCovered (capacity_of p) (ok q)
    → store_refunds (p.refunds ++ new_refund now fresh key q ∷ []) p
      ≡ some (record p {
        refunds = p.refunds ++ new_refund now fresh key q ∷ [];
        refunded_minor = p.refunded_minor;
        in_flight_minor = p.in_flight_minor + q.amount_minor;
      })
unfolding store_refunds is_in_flight_refund_status
quote-commits p now fresh key q acc c = ground (
  arith,
  acc.refunded,
  acc.in_flight,
  acc.covered,
  c,
  total-snoc refunded_part p.refunds (new_refund now fresh key q),
  total-snoc in_flight_part p.refunds (new_refund now fresh key q),
)

-- What `create_new` went through when it commits.
record Created (now fresh key : ℕ) (input : RefundRequestInput) (b : Booking) (p : Payment)
    (res : CreateRefundResult) (q : Payment) : Type 0 where
  priced : RefundQuote
  is_quoted : quote input b p ≡ ok priced
  is_stored : create_refund (new_refund now fresh key priced) b p ≡ ok q
  is_answered : res ≡ result_of false (new_refund now fresh key priced)

rejected-ok : (r : RefundCalculationResult) (q : RefundQuote) → rejected r ≡ ok q → r ≡ ok q
rejected-ok (ok x) q e = ground (arith, e)
rejected-ok (err x) q e = ground (arith, e)

create_new-Created :
    (now fresh key : ℕ) (input : RefundRequestInput) (b : Booking) (p : Payment)
    (res : CreateRefundResult) (q : Payment)
    → create_new now fresh key input b p ≡ ok (res, q)
    → Created now fresh key input b p res q
unfolding create_new
create_new-Created now fresh key input b p res q e =
    let (u, is_eligible, e1) = >>=-eq-ok (eligibility b p) _ e in
    let (x, is_quoted, e2) = >>=-eq-ok (rejected (quote input b p)) _ e1 in
    let (stored, is_stored, e3) = >>=-eq-ok (create_refund (new_refund now fresh key x) b p) _ e2 in
    record {
      priced = x;
      is_quoted = rejected-ok (quote input b p) x is_quoted;
      is_stored = ground (arith, is_stored, e3);
      is_answered = ground (arith, e3);
    }

-- What a new request does to the amounts: it sets its own aside, out of what was left.
pub record Reserved (res : CreateRefundResult) (p q : Payment) : Type 0 where
  pub refunded : q.refunded_minor ≡ p.refunded_minor
  pub reserved : q.in_flight_minor ≡ p.in_flight_minor + res.amount_minor
  pub positive : 0 < res.amount_minor
  pub within : res.amount_minor ≤ p.captured_minor - p.refunded_minor - p.in_flight_minor
  pub accounted : IsAccounted q

Created-Reserved :
    (now fresh key : ℕ) (input : RefundRequestInput) (b : Booking) (p : Payment)
    (res : CreateRefundResult) (q : Payment)
    → IsAccounted p
    → Created now fresh key input b p res q
    → Reserved res p q
unfolding create_refund is_in_flight_refund_status
Created-Reserved now fresh key input b p res q acc c =
    let covered : IsCovered (capacity_of p) (ok c.priced) =
      subst (IsCovered (capacity_of p)) c.is_quoted (quote-IsCovered input b p) in
    let commits = quote-commits p now fresh key c.priced acc covered in
    let refunds = total-snoc refunded_part p.refunds (new_refund now fresh key c.priced) in
    let in_flight = total-snoc in_flight_part p.refunds (new_refund now fresh key c.priced) in
    record {
      refunded = ground (arith, c.is_stored, commits);
      reserved = ground (arith, c.is_stored, c.is_answered, commits);
      positive = ground (arith, covered, c.is_answered);
      within = ground (arith, covered, c.is_answered);
      accounted = record {
        refunded = ground (arith, c.is_stored, commits, acc.refunded, refunds);
        in_flight = ground (arith, c.is_stored, commits, acc.in_flight, in_flight);
        covered = ground (arith, c.is_stored, commits, acc.covered, covered);
      };
    }

find_by_key-snoc :
    (key : ℕ) (rs : List Refund) (r : Refund)
    → find_by_key key rs ≡ none
    → r.provider_idempotency_key ≡ key
    → find_by_key key (rs ++ r ∷ []) ≡ some r
unfolding find_by_key
find_by_key-snoc key [] r n k = ground (arith, k)
find_by_key-snoc key (x ∷ rs) r n k = ground (arith, n, find_by_key-snoc key rs r, k)

Created-find_by_key :
    (now fresh key : ℕ) (input : RefundRequestInput) (b : Booking) (p : Payment)
    (res : CreateRefundResult) (q : Payment)
    → (c : Created now fresh key input b p res q) → find_by_key key p.refunds ≡ none
    → find_by_key key q.refunds ≡ some (new_refund now fresh key c.priced)
unfolding create_refund store_refunds
Created-find_by_key now fresh key input b p res q c n =
    let found = find_by_key-snoc key p.refunds (new_refund now fresh key c.priced) n refl in
    ground (arith, c.is_stored, found)

module _ (derive : ℕ → ℕ) (actor : Actor) (b : Booking) (p : Payment) (res : CreateRefundResult)
    (q : Payment) where
  -- On a payment whose aggregates are those of its refunds and are covered by what was captured, a
  -- request that commits a new refund reserves a positive amount that was left, touches nothing
  -- else of the amounts, and leaves such a payment.
  pub request_refund-reserves :
      (input : RefundRequestInput) (now fresh : ℕ)
      → IsAccounted p
      → request_refund derive actor input now fresh (some b) (some p) ≡ ok (res, q)
      → res.replayed ≡ false
      → Reserved res p q
  unfolding request_refund
  request_refund-reserves input now fresh acc e new =
      let (u, is_authorized, e1) = >>=-eq-ok (authorize actor b) _ e in
      elim (Option-cases (find_by_key (derive input.idempotency_key) p.refunds)) [
        | inl n ↦ Created-Reserved now fresh (derive input.idempotency_key) input b p res q acc (
            create_new-Created now fresh (derive input.idempotency_key) input b p res q
              (ground (arith, n, e1)))
        | inr (r, f) ↦ absurd (ground (arith, e1, f, new))
      ]

  -- Asking again with the same key, for whatever seats, by the same actor, creates nothing and answers
  -- with the refund that the first request made.
  pub request_refund-replay :
      (input again : RefundRequestInput) (now later fresh other : ℕ)
      → request_refund derive actor input now fresh (some b) (some p) ≡ ok (res, q)
      → again.idempotency_key ≡ input.idempotency_key
      → request_refund derive actor again later other (some b) (some q)
        ≡ ok (record res { replayed = true }, q)
  unfolding request_refund
  request_refund-replay input again now later fresh other e k =
      let (u, is_authorized, e1) = >>=-eq-ok (authorize actor b) _ e in
      elim (Option-cases (find_by_key (derive input.idempotency_key) p.refunds)) [
        | inl n ↦
            let created =
              create_new-Created now fresh (derive input.idempotency_key) input b p res q
                (ground (arith, n, e1)) in
            ground (
              arith,
              is_authorized,
              k,
              created.is_answered,
              Created-find_by_key now fresh (derive input.idempotency_key) input b p res q created
                  n,
            )
        | inr (r, f) ↦ ground (arith, is_authorized, k, e1, f)
      ]
