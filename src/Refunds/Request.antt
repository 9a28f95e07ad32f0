-- ===== src/Refunds/Request.antt =====
-- `requestRefund` of src/server/refunds/refund-service.ts. The session and reference strings that the
-- result copies are left out; the two random identifiers of the new row are an argument.
use seatflow.Prelude.{
  ℕ, ◌+◌, ◌==◌, Bool, true, false, ◌&&◌, ◌||◌, not, Option, none, some, List, [], ◌∷◌, ◌++◌, map,
  contains, is_empty, is_none, if◌then◌else◌, Result, ok, err, ◌>>=◌, ◌>>◌, guard, or_throw,
}
use seatflow.Domain.{
  Currency, RefundStatus, RefundScope, CheckoutOrderStatus, PaymentAttemptStatus,
  EventSessionStatus, LedgerEntryType,
}
use seatflow.Ledger.Journal.{append_entry}
use seatflow.Refunds.Lifecycle.{is_in_flight_refund_status}
use seatflow.Refunds.Calculation.{
  RefundableSeatSnapshot, RefundQuote, RefundRejectionReason, RefundCalculationResult,
  remaining_refundable_minor, calculate_full_booking_refund, calculate_seat_refund,
}
use seatflow.Refunds.Authorization.{
  RefundEligibilityReason, eligible, ineligible, evaluate_refund_eligibility, RefundActorRole,
  ActorInput, allowed, denied, RefundAuthorizationDenial, authorize_refund_request,
}
use seatflow.Refunds.Payment.{
  Refund, Payment, capacity_of, store_refunds, enqueue, FinancialEventType,
}
use seatflow.Refunds.Settlement.{ledger_entry}

-- `seats: { select: { id, priceMinor, currency } }`.
pub record BookingSeat : Type 0 where
  pub id : ℕ
  pub price_minor : ℕ
  pub currency : Currency

-- What is read of the booking, its order and its session.
pub record Booking : Type 0 where
  pub owner_user_id : ℕ
  pub organization_id : ℕ
  pub order_status : CheckoutOrderStatus
  pub session_status : EventSessionStatus
  pub seats : List BookingSeat

-- The actor with the memberships and the platform role that are loaded for it.
pub record Actor : Type 0 where
  pub user_id : ℕ
  pub role : RefundActorRole
  pub organization_ids : List ℕ
  pub is_platform_admin : Bool

pub record RefundRequestInput : Type 0 where
  pub is_seat_scoped : Bool
  pub booking_seat_ids : List ℕ
  pub idempotency_key : ℕ

pub data RefundRequestError : Type 0 where
  refund_target_not_found payment_not_captured refused_by_database : RefundRequestError
  unauthorized : RefundAuthorizationDenial → RefundRequestError
  ineligible_for : RefundEligibilityReason → RefundRequestError
  rejected_as : RefundRejectionReason → RefundRequestError

pub record CreateRefundResult : Type 0 where
  pub refund_id : ℕ
  pub amount_minor : ℕ
  pub currency : Currency
  pub status : RefundStatus
  pub replayed : Bool

abbrev pub authorization_error : RefundAuthorizationDenial → RefundRequestError
authorization_error RefundAuthorizationDenial.not_booking_owner = refund_target_not_found
authorization_error reason = unauthorized reason

abbrev pub actor_input : Actor → Booking → ActorInput
actor_input a b = record {
  role = a.role;
  actor_user_id = a.user_id;
  booking_owner_user_id = b.owner_user_id;
  booking_organization_id = b.organization_id;
  actor_organization_ids = a.organization_ids;
  is_platform_admin = a.is_platform_admin;
}

unfoldable pub authorize : Actor → Booking → Result RefundRequestError (Unit {0})
authorize a b = elim (authorize_refund_request (actor_input a b)) [
  | allowed _ _ ↦ ok tt
  | denied reason ↦ err (authorization_error reason)
]

-- The refunds of the `OR`, and the seats that they cover.
abbrev pub is_live : Refund → Bool
is_live r = not (is_none r.succeeded_at) || is_in_flight_refund_status r.status

unfoldable pub refunded_seat_ids : List Refund → List ℕ
refunded_seat_ids [] = []
refunded_seat_ids (r ∷ rs) =
    let rest = refunded_seat_ids rs in if is_live r then r.seats ++ rest else rest

abbrev pub snapshot : List ℕ → BookingSeat → RefundableSeatSnapshot
snapshot taken s = record {
  booking_seat_id = s.id;
  price_minor = s.price_minor;
  currency = s.currency;
  already_refunded = contains taken s.id;
}

abbrev pub snapshots : Booking → Payment → List RefundableSeatSnapshot
snapshots b p = map (snapshot (refunded_seat_ids p.refunds)) b.seats

unfoldable pub eligibility : Booking → Payment → Result RefundRequestError (Unit {0})
unfolding evaluate_refund_eligibility
eligibility b p =
    elim (evaluate_refund_eligibility (record {
      booking_status = p.booking_status;
      order_status = b.order_status;
      payment_status = PaymentAttemptStatus.succeeded;
      session_status = b.session_status;
      remaining_refundable_minor = remaining_refundable_minor (capacity_of p);
      is_under_financial_review = p.under_review;
    })) [ eligible ↦ ok tt | ineligible reason ↦ err (ineligible_for reason) ]

abbrev pub rejected : RefundCalculationResult → Result RefundRequestError RefundQuote
rejected (ok q) = ok q
rejected (err reason) = err (rejected_as reason)

unfoldable pub quote : RefundRequestInput → Booking → Payment → RefundCalculationResult
quote input b p =
    if input.is_seat_scoped
    then calculate_seat_refund (snapshots b p) input.booking_seat_ids (capacity_of p)
    else calculate_full_booking_refund (snapshots b p) (capacity_of p)

unfoldable pub find_by_key : ℕ → List Refund → Option Refund
find_by_key k [] = none
find_by_key k (r ∷ rs) = if r.provider_idempotency_key == k then some r else find_by_key k rs

-- The price of a named seat of the booking.
unfoldable pub price_of_seat : ℕ → List BookingSeat → ℕ
price_of_seat i [] = 0
price_of_seat i (s ∷ seats) = if s.id == i then s.price_minor else price_of_seat i seats

abbrev pub price_of_seats : List BookingSeat → List ℕ → ℕ
price_of_seats seats [] = 0
price_of_seats seats (i ∷ ids) = price_of_seat i seats + price_of_seats seats ids

-- The deferred trigger `Refund_verify_seat_total` of the same migration as the aggregates.
unfoldable pub verifies_seat_total : RefundScope → ℕ → List ℕ → List BookingSeat → Bool
verifies_seat_total RefundScope.selected_seats amount ids seats =
    not (is_empty ids) && (price_of_seats seats ids == amount)
verifies_seat_total RefundScope.full_booking amount ids seats =
    is_empty ids || (price_of_seats seats ids == amount)
verifies_seat_total RefundScope.fixed_amount amount ids seats = is_empty ids

abbrev pub new_refund : (now fresh key : ℕ) → RefundQuote → Refund
new_refund now i key q = record {
  id = i;
  provider_refund_id = none;
  provider_idempotency_key = key;
  requested_amount_minor = q.amount_minor;
  currency = q.currency;
  scope = q.scope;
  status = RefundStatus.requested;
  seats = q.booking_seat_ids;
  requested_at = now;
  submitted_at = none;
  succeeded_at = none;
  failed_at = none;
  cancelled_at = none;
  review_required_at = none;
}

abbrev pub result_of : Bool → Refund → CreateRefundResult
result_of replayed r = record {
  refund_id = r.id;
  amount_minor = r.requested_amount_minor;
  currency = r.currency;
  status = r.status;
  replayed = replayed;
}

-- The writes: the row and its seats, the ledger entry and the outbox event.
unfoldable pub create_refund : Refund → Booking → Payment → Result RefundRequestError Payment
create_refund r b p = do
  stored ← or_throw (store_refunds (p.refunds ++ r ∷ []) p) refused_by_database
  guard (verifies_seat_total r.scope r.requested_amount_minor r.seats b.seats) refused_by_database
  ok (record stored {
    journal = append_entry (ledger_entry LedgerEntryType.refund_requested r r.id) stored.journal;
    outbox = enqueue FinancialEventType.refund_requested r.id stored.outbox;
  })

unfoldable pub create_new :
    (now fresh key : ℕ)
    → RefundRequestInput
    → Booking
    → Payment
    → Result RefundRequestError (CreateRefundResult × Payment)
unfolding eligibility quote create_refund
create_new now fresh key input b p = do
  eligibility b p
  q ← rejected (quote input b p)
  let r = new_refund now fresh key q
  stored ← create_refund r b p
  ok (result_of false r, stored)

-- `deriveProviderIdempotencyKey` is an HMAC of node's crypto module.
module _ (derive_provider_idempotency_key : ℕ → ℕ) where
  unfoldable pub request_refund :
      Actor
      → RefundRequestInput
      → (now fresh : ℕ) → Option Booking
      → Option Payment
      → Result RefundRequestError (CreateRefundResult × Payment)
  unfolding authorize create_new
  request_refund actor input now fresh booking attempt = do
    b ← or_throw booking refund_target_not_found
    authorize actor b
    p ← or_throw attempt payment_not_captured
    let key = derive_provider_idempotency_key input.idempotency_key
    elim (find_by_key key p.refunds) [
      | some existing ↦ ok (result_of true existing, p)
      | none ↦ create_new now fresh key input b p
    ]
