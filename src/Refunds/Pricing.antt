-- ===== src/Refunds/Pricing.antt =====
-- What the refund calculations promise about amounts and seats.
use seatflow.Prelude.{
  ℕ, ◌-◌, ◌==◌, ◌≡◌, ◌≤◌, ◌<◌, refl, Bool, true, false, not, none, some, List, [], ◌∷◌, map, all,
  contains, is_distinct, sum, ok, err, arith, Result-cases, Bool-cases, Option-cases, inl, inr,
  ==_eq, ◌&&◌,
}
use seatflow.Domain.{JsNumber}
use seatflow.Refunds.Calculation.{
  RefundableSeatSnapshot, RefundCapacity, RefundQuote, RefundCalculationResult, total_price,
  seat_ids, calculate_full_booking_refund, without, unique, seat_by_id, select_seats,
  calculate_seat_refund, calculate_fixed_refund,
}

-- An eligible quote is for a positive amount, no more than what is left, in the payment's currency.
abbrev pub IsCovered : RefundCapacity → RefundCalculationResult → Type 0
IsCovered c (ok q) =
    (0 < q.amount_minor)
    × (q.amount_minor ≤ c.captured_minor - c.refunded_minor - c.in_flight_minor)
    × (q.currency ≡ c.currency)
IsCovered c (err _) = Unit {0}

full-IsCovered :
    (seats : List RefundableSeatSnapshot) (c : RefundCapacity)
    → IsCovered c (calculate_full_booking_refund seats c)
unfolding calculate_full_booking_refund
full-IsCovered seats c = ground arith

seat-IsCovered :
    (seats : List RefundableSeatSnapshot) (ids : List ℕ) (c : RefundCapacity)
    → IsCovered c (calculate_seat_refund seats ids c)
unfolding calculate_seat_refund
seat-IsCovered seats ids c = ground arith

fixed-IsCovered : (n : JsNumber) (c : RefundCapacity) → IsCovered c (calculate_fixed_refund n c)
unfolding calculate_fixed_refund
fixed-IsCovered n c = ground arith

-- Whichever way a refund is priced, an eligible quote is for a positive amount that does not exceed
-- captured minus refunded minus reserved, in the currency of the payment.
pub calculate-IsCovered :
    (seats : List RefundableSeatSnapshot) (ids : List ℕ) (approved : JsNumber) (c : RefundCapacity)
    → IsCovered c (calculate_full_booking_refund seats c)
      × IsCovered c (calculate_seat_refund seats ids c)
      × IsCovered c (calculate_fixed_refund approved c)
calculate-IsCovered seats ids approved c =
    (full-IsCovered seats c, seat-IsCovered seats ids c, fixed-IsCovered approved c)

contains-without :
    (n m : ℕ) (xs : List ℕ) → contains (without n xs) m ≡ not (n == m) && contains xs m
unfolding without
contains-without n m [] = ground arith
contains-without n m (x ∷ xs) = ground (arith, contains-without n m xs)

without-distinct : (n : ℕ) (xs : List ℕ) → is_distinct xs ≡ true → is_distinct (without n xs) ≡ true
unfolding without
without-distinct n [] d = refl
without-distinct n (x ∷ xs) d = ground (arith, without-distinct n xs, contains-without n x xs)

unique-distinct : (xs : List ℕ) → is_distinct (unique xs) ≡ true
unfolding unique
unique-distinct [] = refl
unique-distinct (x ∷ xs) =
    ground
      (arith, without-distinct x (unique xs), unique-distinct xs, contains-without x x (unique xs))

seat_by_id-id :
    (i : ℕ) (seats : List RefundableSeatSnapshot) (s : RefundableSeatSnapshot)
    → seat_by_id i seats ≡ some s
    → s.booking_seat_id ≡ i
unfolding seat_by_id
seat_by_id-id i [] s e = cc
seat_by_id-id i (x ∷ seats) s e = elim (Option-cases (seat_by_id i seats)) [
  | inl nowhere ↦ ground (arith, ==_eq x.booking_seat_id i)
  | inr (l, later) ↦ ground (arith, seat_by_id-id i seats s)
]

-- A seat that a booking has, and that no live or completed refund covers.
abbrev pub is_open_seat : List RefundableSeatSnapshot → ℕ → Bool
is_open_seat seats i = elim (seat_by_id i seats) [ none ↦ false | some s ↦ not s.already_refunded ]

abbrev pub price_of : List RefundableSeatSnapshot → ℕ → ℕ
price_of seats i = elim (seat_by_id i seats) [ none ↦ 0 | some s ↦ s.price_minor ]

select_seats-facts :
    (seats : List RefundableSeatSnapshot) (ids : List ℕ) (selected : List RefundableSeatSnapshot)
    → select_seats seats ids ≡ ok selected
    → (seat_ids selected ≡ ids)
      × (all (is_open_seat seats) ids ≡ true)
      × (total_price selected ≡ sum (map (price_of seats) ids))
unfolding select_seats
select_seats-facts seats [] selected e = ground arith
select_seats-facts seats (i ∷ ids) selected e = elim (Option-cases (seat_by_id i seats)) [
  | inl nowhere ↦ ground arith
  | inr (s, found) ↦ elim (Bool-cases s.already_refunded) [
    | inl gone ↦ ground arith
    | inr opened ↦ elim (Result-cases (select_seats seats ids)) [
      | inl (r, rest) ↦
          ground (arith, select_seats-facts seats ids r rest, seat_by_id-id i seats s found)
      | inr (x, failed) ↦ ground arith
    ]
  ]
]

-- An eligible refund of selected seats covers each requested seat once, every one a seat of the
-- booking that is not refunded yet, for exactly the sum of their snapshot prices.
pub calculate_seat_refund-exact :
    (seats : List RefundableSeatSnapshot) (ids : List ℕ) (c : RefundCapacity) (q : RefundQuote)
    → calculate_seat_refund seats ids c ≡ ok q
    → (q.booking_seat_ids ≡ unique ids)
      × (is_distinct q.booking_seat_ids ≡ true)
      × (all (is_open_seat seats) q.booking_seat_ids ≡ true)
      × (q.amount_minor ≡ sum (map (price_of seats) q.booking_seat_ids))
unfolding calculate_seat_refund
calculate_seat_refund-exact seats ids c q e =
    elim (Result-cases (select_seats seats (unique ids))) [
      | inl (selected, chosen) ↦
          let (same, opened, total) = select_seats-facts seats (unique ids) selected chosen in
          ground (arith, same, opened, total, unique-distinct ids)
      | inr (x, failed) ↦ ground arith
    ]
