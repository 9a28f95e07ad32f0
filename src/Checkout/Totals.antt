-- ===== src/Checkout/Totals.antt =====
-- src/features/checkout/totals.ts. A price is an arbitrary JavaScript number.
use seatflow.Prelude.{
  ℕ, ◌+◌, ◌≡◌, ◌≤◌, refl, Bool, true, false, ◌&&◌, ◌||◌, not, List, [], ◌∷◌, all, length, leb, ltb,
  if◌then◌else◌, arith, Result, ok, err, ◌>>=◌, Option, none, some,
}
use seatflow.Domain.{Currency, same_currency, JsNumber}

pub record CheckoutPricedItem : Type 0 where
  pub price_minor : JsNumber
  pub currency : Currency

pub data TotalError : Type 0 where
  no_seats mixed_currencies price_invalid total_out_of_range : TotalError

pub record CheckoutTotal : Type 0 where
  pub subtotal_minor : ℕ
  pub total_minor : ℕ
  pub currency : Currency
  pub seat_count : ℕ

-- `Number.isSafeInteger(price) && price >= 0`, with the value.
abbrev pub safe_price : JsNumber → Option ℕ
safe_price (JsNumber.whole n) = if leb n 9007199254740991 then some n else none
safe_price (JsNumber.negative n) = none
safe_price JsNumber.not_whole = none

-- The `for`, from a running total.
unfoldable pub total_from : Currency → ℕ → List CheckoutPricedItem → Result TotalError ℕ
total_from currency total [] = ok total
total_from currency total (item ∷ items) =
    if not (same_currency item.currency currency)
    then err mixed_currencies
    else elim (safe_price item.price_minor) [
      | none ↦ err price_invalid
      | some price ↦
          if not (leb (total + price) 9007199254740991) || ltb 2147483647 (total + price)
          then err total_out_of_range
          else total_from currency (total + price) items
    ]

unfoldable pub calculate_checkout_total : List CheckoutPricedItem → Result TotalError CheckoutTotal
unfolding total_from
calculate_checkout_total [] = err no_seats
calculate_checkout_total (item ∷ items) = total_from item.currency 0 (item ∷ items) >>= λ total.
    ok (record {
      subtotal_minor = total;
      total_minor = total;
      currency = item.currency;
      seat_count = length (item ∷ items);
    })

-- The price of an item, 0 where it is no amount.
abbrev pub price_of : CheckoutPricedItem → ℕ
price_of item = elim (safe_price item.price_minor) [ none ↦ 0 | some n ↦ n ]

abbrev pub is_amount : JsNumber → Bool
is_amount n = elim (safe_price n) [ none ↦ false | some m ↦ true ]

abbrev pub is_priced_in : Currency → CheckoutPricedItem → Bool
is_priced_in c item = same_currency item.currency c && is_amount item.price_minor

abbrev pub sum_of : List CheckoutPricedItem → ℕ
sum_of [] = 0
sum_of (item ∷ items) = price_of item + sum_of items

abbrev pub value_of : {A : Type 0} → Result TotalError A → Option A
value_of (ok a) = some a
value_of (err e) = none

total_from-eq :
    (c : Currency) (total : ℕ) (items : List CheckoutPricedItem)
    → total ≤ 2147483647
    → value_of (total_from c total items) ≡ (
        if all (is_priced_in c) items && leb (total + sum_of items) 2147483647
        then some (total + sum_of items)
        else none)
unfolding total_from
total_from-eq c total [] h = ground (arith, h)
total_from-eq c total (item ∷ items) h =
    ground (arith, h, total_from-eq c (total + price_of item) items)

-- An order is priced exactly when it has a seat, all prices are whole non-negative amounts in the
-- currency of the first and their sum fits a 32-bit column; then the total is that sum, in that
-- currency, and the seats are counted.
pub calculate_checkout_total-eq :
    (item : CheckoutPricedItem) (items : List CheckoutPricedItem)
    → (calculate_checkout_total [] ≡ err no_seats)
      × (value_of (calculate_checkout_total (item ∷ items)) ≡ (
          if all (is_priced_in item.currency) (item ∷ items)
            && leb (sum_of (item ∷ items)) 2147483647
          then some (record {
            subtotal_minor = sum_of (item ∷ items);
            total_minor = sum_of (item ∷ items);
            currency = item.currency;
            seat_count = length (item ∷ items);
          })
          else none))
unfolding calculate_checkout_total
calculate_checkout_total-eq item items =
    (refl, ground (arith, total_from-eq item.currency 0 (item ∷ items)))
