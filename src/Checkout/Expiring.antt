-- ===== src/Checkout/Expiring.antt =====
-- `expireUnpaidCheckoutOrders` of src/server/payments/operations-service.ts.
use seatflow.Prelude.{
  ℕ, zero, suc, ◌+◌, ◌==◌, Bool, true, false, ◌&&◌, ◌||◌, not, Option, none, some, List, [], ◌∷◌,
  map, filter, contains, length, leb, ltb, min, max, if◌then◌else◌,
}
use seatflow.Domain.{CheckoutOrderStatus}
use seatflow.Holds.Tables.{Database}
use seatflow.Holds.Expiry.{release_expired_holds_for_session}
use seatflow.Checkout.Tables.{CheckoutOrder, Store, SafeCode}

-- PENDING and PAYMENT_PENDING.
abbrev pub is_unpaid : CheckoutOrderStatus → Bool
is_unpaid CheckoutOrderStatus.pending = true
is_unpaid CheckoutOrderStatus.payment_pending = true
is_unpaid _ = false

-- The `WHERE` clause, for orders that no other transaction has locked (`SKIP LOCKED`).
abbrev pub is_expirable : List ℕ → ℕ → CheckoutOrder → Bool
is_expirable locked now o =
    is_unpaid o.status && leb o.checkout_expires_at now && not (contains locked o.id)

-- `ORDER BY "checkoutExpiresAt" ASC, "id" ASC`.
abbrev pub comes_first : CheckoutOrder → CheckoutOrder → Bool
comes_first x y =
    ltb x.checkout_expires_at y.checkout_expires_at
    || x.checkout_expires_at == y.checkout_expires_at && leb x.id y.id

unfoldable pub insert_order : CheckoutOrder → List CheckoutOrder → List CheckoutOrder
insert_order o [] = o ∷ []
insert_order o (x ∷ xs) =
    let rest = insert_order o xs in if comes_first o x then o ∷ x ∷ xs else x ∷ rest

unfoldable pub sort_orders : List CheckoutOrder → List CheckoutOrder
unfolding insert_order
sort_orders [] = []
sort_orders (o ∷ os) = insert_order o (sort_orders os)

-- `LIMIT ${batchSize}`.
unfoldable pub take_orders : ℕ → List CheckoutOrder → List CheckoutOrder
take_orders zero os = []
take_orders (suc n) [] = []
take_orders (suc n) (o ∷ os) = o ∷ take_orders n os

unfoldable pub claim_orders : List ℕ → (now size : ℕ) → List CheckoutOrder → List CheckoutOrder
unfolding sort_orders take_orders
claim_orders locked now size os =
    take_orders size (sort_orders (filter (is_expirable locked now) os))

abbrev pub expired_order : CheckoutOrder → CheckoutOrder
expired_order o = record o {
  status = CheckoutOrderStatus.expired;
  safe_failure_code = some SafeCode.checkout_expired;
}

-- The `updateMany`.
abbrev pub expire_order : List ℕ → CheckoutOrder → CheckoutOrder
expire_order ids o = if contains ids o.id && is_unpaid o.status then expired_order o else o

-- `new Set(sessionIds)`: the first occurrences.
unfoldable pub distinct_sessions : List ℕ → List ℕ → List ℕ
distinct_sessions seen [] = []
distinct_sessions seen (x ∷ xs) =
    let again = distinct_sessions seen xs in
    let rest = distinct_sessions (x ∷ seen) xs in if contains seen x then again else x ∷ rest

unfoldable pub release_sessions : (now : ℕ) → List ℕ → Database → Database
release_sessions now [] db = db
release_sessions now (x ∷ xs) db =
    release_sessions now xs (release_expired_holds_for_session x now db).0

-- The writes for the claimed orders.
unfoldable pub expire_claimed : (now : ℕ) → List CheckoutOrder → Store → Store × ℕ
unfolding distinct_sessions release_sessions
expire_claimed now [] s = (s, 0)
expire_claimed now (c ∷ cs) s =
    let claimed = c ∷ cs in
    (
      record s {
        orders = map (expire_order (map (λ o. o.id) claimed)) s.orders;
        db = release_sessions now (distinct_sessions [] (map (λ o. o.session_id) claimed)) s.db;
      },
      length claimed,
    )

-- One transaction, and the number of orders that it claimed.
unfoldable pub expire_batch : List ℕ → (now size : ℕ) → Store → Store × ℕ
unfolding claim_orders expire_claimed
expire_batch locked now size s = expire_claimed now (claim_orders locked now size s.orders) s

pub record ExpireCheckoutResult : Type 0 where
  pub expired_orders : ℕ
  pub batches : ℕ

-- The `while` loop; the first argument is `maxBatches - batches`.
unfoldable pub expire_loop :
    ℕ → List ℕ → (now size : ℕ) → ExpireCheckoutResult → Store → ExpireCheckoutResult × Store
unfolding expire_batch
expire_loop zero locked now size done s = (done, s)
expire_loop (suc left) locked now size done s =
    let (next, count) = expire_batch locked now size s in
    let go =
      expire_loop left locked now size
        (record { expired_orders = done.expired_orders + count; batches = done.batches + 1 })
        next in
    if count == 0 then (done, next) else go

abbrev pub or_default : ℕ → Option ℕ → ℕ
or_default n none = n
or_default n (some given) = given

-- The options, clamped.
abbrev pub clamp : (low high : ℕ) → ℕ → ℕ
clamp low high n = min (max n low) high

unfoldable pub expire_unpaid_checkout_orders :
    List ℕ → (now : ℕ) → (size limit : Option ℕ) → Store → ExpireCheckoutResult × Store
unfolding expire_loop
expire_unpaid_checkout_orders locked now size limit s =
    expire_loop (clamp 1 100000 (or_default 10 limit)) locked now
      (clamp 1 1000 (or_default 100 size)) (record { expired_orders = 0; batches = 0 }) s
