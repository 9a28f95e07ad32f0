-- ===== src/Refunds/Calculation.antt =====
-- src/features/refunds/calculation.ts. Snapshot amounts come from PostgreSQL INTEGER columns with
-- CHECKs against negative values, and are natural numbers, so `x <= 0` is `x == 0`.
use seatflow.Prelude.{
  ℕ, ◌-◌, ◌==◌, Bool, ◌&&◌, not, Option, none, some, List, [], ◌∷◌, map, filter, any, leb,
  if◌then◌else◌, min, sum, Result, ok, err, ◌>>=◌, ◌>>◌, guard, is_empty,
}
use seatflow.Domain.{Currency, RefundScope, same_currency, JsNumber, whole, negative, not_whole}

pub record RefundableSeatSnapshot : Type 0 where
  pub booking_seat_id : ℕ
  pub price_minor : ℕ
  pub currency : Currency
  pub already_refunded : Bool

pub record RefundCapacity : Type 0 where
  pub captured_minor : ℕ
  pub refunded_minor : ℕ
  pub in_flight_minor : ℕ
  pub currency : Currency

-- `Math.max(0, captured - refunded - inFlight)`: the subtraction of ℕ stops at 0.
unfoldable pub remaining_refundable_minor : RefundCapacity → ℕ
remaining_refundable_minor c = c.captured_minor - c.refunded_minor - c.in_flight_minor

pub data RefundRejectionReason : Type 0 where
  nothing_refundable seat_not_in_booking seat_already_refunded : RefundRejectionReason
  no_seats_selected mixed_currency exceeds_remaining amount_not_positive : RefundRejectionReason

-- The ELIGIBLE result.
pub record RefundQuote : Type 0 where
  pub scope : RefundScope
  pub amount_minor : ℕ
  pub currency : Currency
  pub booking_seat_ids : List ℕ

abbrev pub RefundCalculationResult : Type 0
RefundCalculationResult = Result RefundRejectionReason RefundQuote

abbrev pub total_price : List RefundableSeatSnapshot → ℕ
total_price seats = sum (map (λ s. s.price_minor) seats)

abbrev pub seat_ids : List RefundableSeatSnapshot → List ℕ
seat_ids = map (λ s. s.booking_seat_id)

abbrev pub is_foreign : Currency → RefundableSeatSnapshot → Bool
is_foreign c s = not (same_currency s.currency c)

abbrev pub open_seats : List RefundableSeatSnapshot → List RefundableSeatSnapshot
open_seats = filter (λ s. not s.already_refunded)

unfoldable pub calculate_full_booking_refund :
    List RefundableSeatSnapshot → RefundCapacity → RefundCalculationResult
unfolding remaining_refundable_minor
calculate_full_booking_refund seats capacity = do
  let remaining = remaining_refundable_minor capacity
  guard (not (remaining == 0)) nothing_refundable
  let opened = open_seats seats
  guard (not (is_empty opened)) nothing_refundable
  guard (not (any (is_foreign capacity.currency) opened)) mixed_currency
  let seat_total = total_price opened
  let amount = min seat_total remaining
  guard (not (amount == 0)) amount_not_positive
  ok (record {
    scope = if amount == seat_total then RefundScope.full_booking else RefundScope.selected_seats;
    amount_minor = amount;
    currency = capacity.currency;
    booking_seat_ids = seat_ids opened;
  })

-- `[...new Set(ids)]`: the first occurrences, in order.
unfoldable pub without : ℕ → List ℕ → List ℕ
without n [] = []
without n (x ∷ xs) = let rest = without n xs in if x == n then rest else x ∷ rest

unfoldable pub unique : List ℕ → List ℕ
unfolding without
unique [] = []
unique (x ∷ xs) = x ∷ without x (unique xs)

-- `new Map(entries).get(id)`: a later entry replaces an earlier one.
unfoldable pub seat_by_id : ℕ → List RefundableSeatSnapshot → Option RefundableSeatSnapshot
seat_by_id i [] = none
seat_by_id i (s ∷ seats) = elim (seat_by_id i seats) [
  | some later ↦ some later
  | none ↦ if s.booking_seat_id == i then some s else none
]

-- The `for` loop over the requested seats.
unfoldable pub select_seats :
    List RefundableSeatSnapshot
    → List ℕ
    → Result RefundRejectionReason (List RefundableSeatSnapshot)
select_seats seats [] = ok []
select_seats seats (i ∷ ids) = elim (seat_by_id i seats) [
  | none ↦ err seat_not_in_booking
  | some s ↦
      let rest = select_seats seats ids in
      if s.already_refunded then err seat_already_refunded else (rest >>= λ r. ok (s ∷ r))
]

unfoldable pub calculate_seat_refund :
    List RefundableSeatSnapshot → List ℕ → RefundCapacity → RefundCalculationResult
unfolding remaining_refundable_minor
calculate_seat_refund seats ids capacity = do
  let requested = unique ids
  guard (not (is_empty requested)) no_seats_selected
  selected ← select_seats seats requested
  guard (not (any (is_foreign capacity.currency) selected)) mixed_currency
  let amount = total_price selected
  guard (not (amount == 0)) amount_not_positive
  guard (leb amount (remaining_refundable_minor capacity)) exceeds_remaining
  ok (record {
    scope = RefundScope.selected_seats;
    amount_minor = amount;
    currency = capacity.currency;
    booking_seat_ids = seat_ids selected;
  })

-- `Number.isSafeInteger(n) && n > 0`, with the value.
abbrev pub positive_safe_integer : JsNumber → Option ℕ
positive_safe_integer (whole n) = if not (n == 0) && leb n 9007199254740991 then some n else none
positive_safe_integer (negative n) = none
positive_safe_integer not_whole = none

unfoldable pub calculate_fixed_refund : JsNumber → RefundCapacity → RefundCalculationResult
unfolding remaining_refundable_minor
calculate_fixed_refund approved capacity = elim (positive_safe_integer approved) [
  | none ↦ err amount_not_positive
  | some n ↦
      if leb n (remaining_refundable_minor capacity)
      then ok (record {
        scope = RefundScope.fixed_amount;
        amount_minor = n;
        currency = capacity.currency;
        booking_seat_ids = [];
      })
      else err exceeds_remaining
]

unfoldable pub is_fully_refunded : RefundCapacity → Bool
is_fully_refunded c = leb c.captured_minor c.refunded_minor
