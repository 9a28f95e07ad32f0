-- ===== src/Payments/Ordering.antt =====
-- Checkout (src/server/payments/checkout-service.ts and operations-service.ts) keeps the tables sound.
use seatflow.Prelude.{
  ℕ, ◌==◌, ◌≡◌, refl, true, false, not, some, List, [], ◌∷◌, ◌++◌, map, all, any, Result, ok,
  find_by, arith, Bool-cases, Option-cases, inl, inr, is_distinct, >>=-eq-ok, ok-injective, guard,
  or_throw, or_throw-ok, find_by-key, find_by-map,
}
use seatflow.Domain.{CheckoutOrderStatus}
use seatflow.Holds.Tables.{SeatHold, Session, find_by_token, items_of}
use seatflow.Holds.Expiry.{release_expired_holds_for_session}
use seatflow.Checkout.Totals.{CheckoutTotal}
use seatflow.Checkout.Tables.{
  CheckoutOrder, PaymentAttempt, Booking, Store, PaymentError, order_key, attempt_key, item_ids,
  put_attempt,
}
use seatflow.Checkout.Creation.{
  CheckoutInput, GeneratedOrder, CheckoutResult, create_order, create_attempt, write_order,
  replay_order, check_hold, new_order, new_attempt, order_items, order_of_hold,
  create_checkout_transaction,
}
use seatflow.Checkout.Intent.{
  ProviderIntent, IntentResult, start_payment, write_intent, store_intent, with_intent,
  is_new_order, owns_intent, stored_intent,
}
use seatflow.Checkout.Expiring.{
  expire_order, release_sessions, expire_claimed, expire_batch, claim_orders, distinct_sessions,
}
use seatflow.Payments.Processing.{is_fulfilled_order}
use seatflow.Payments.Soundness.{IsSound, has_fulfilled_order, has_distinct_items, database-IsSound}
use seatflow.Payments.Keeping.{
  enqueue_events-IsSound, put_attempt-IsSound, put_order-IsSound, put_attempt-ok,
}
use seatflow.Payments.Outcomes.{release_expired-IsSound}
use seatflow.Payments.Paying.{no_booking}

-- A new order.
find_by-append :
    (i : ℕ) (os : List CheckoutOrder) (o x : CheckoutOrder)
    → find_by order_key i os ≡ some x
    → find_by order_key i (os ++ o ∷ []) ≡ some x
find_by-append i [] o x e = cc
find_by-append i (y ∷ os) o x e = ground (arith, e, find_by-append i os o x)

fulfilled-append :
    (o : CheckoutOrder) (os : List CheckoutOrder) (bs : List Booking)
    → all (has_fulfilled_order os) bs ≡ true
    → all (has_fulfilled_order (os ++ o ∷ [])) bs ≡ true
fulfilled-append o os [] e = refl
fulfilled-append o os (b ∷ bs) e = elim (Option-cases (find_by order_key b.order_id os)) [
  | inl missing ↦ absurd (ground (arith, e, missing))
  | inr (x, found) ↦ ground (
    arith,
    e,
    found,
    find_by-append b.order_id os o x found,
    fulfilled-append o os bs (ground (arith, e)),
  )
]

distinct-append :
    (o : CheckoutOrder) (os : List CheckoutOrder)
    → all has_distinct_items os ≡ true
    → has_distinct_items o ≡ true
    → all has_distinct_items (os ++ o ∷ []) ≡ true
distinct-append o [] e h = ground (arith, h)
distinct-append o (x ∷ os) e h = ground (arith, e, distinct-append o os (ground (arith, e)) h)

create_order-ok :
    (o : CheckoutOrder) (s s' : Store)
    → create_order o s ≡ ok s'
    → (s' ≡ record s { orders = s.orders ++ o ∷ [] }) × (is_distinct (item_ids o.items) ≡ true)
unfolding create_order
create_order-ok o s s' e = (ground (arith, e), ground (arith, e))

create_attempt-ok :
    (a : PaymentAttempt) (s s' : Store)
    → create_attempt a s ≡ ok s'
    → s' ≡ record s { attempts = s.attempts ++ a ∷ [] }
unfolding create_attempt
create_attempt-ok a s s' e = ground (arith, e)

create_order-IsSound :
    (o : CheckoutOrder) (s s' : Store) → create_order o s ≡ ok s' → IsSound s → IsSound s'
create_order-IsSound o s s' e i =
    let (same, d) = create_order-ok o s s' e in
    rw same (record {
      consistent = i.consistent;
      seated = i.seated;
      sold_once = i.sold_once;
      fulfilled = fulfilled-append o s.orders s.bookings i.fulfilled;
      distinct_orders = i.distinct_orders;
      distinct_items = distinct-append o s.orders i.distinct_items d;
    })

create_attempt-IsSound :
    (a : PaymentAttempt) (s s' : Store) → create_attempt a s ≡ ok s' → IsSound s → IsSound s'
create_attempt-IsSound a s s' e i = rw (create_attempt-ok a s s' e) (record {
  consistent = i.consistent;
  seated = i.seated;
  sold_once = i.sold_once;
  fulfilled = i.fulfilled;
  distinct_orders = i.distinct_orders;
  distinct_items = i.distinct_items;
})

write_order-IsSound :
    (provider user : ℕ) (input : CheckoutInput) (gen : GeneratedOrder) (hold : SeatHold)
    (checked : Session × CheckoutTotal) (s : Store) (r : CheckoutResult × Store)
    → write_order provider user input gen hold checked s ≡ ok r
    → IsSound s
    → IsSound r.1
unfolding write_order
write_order-IsSound provider user input gen hold (session, total) s r e i =
    let o =
      new_order user input gen hold session total
        (order_items s.db.inventory (items_of hold.id s.db.items)) in
    let (s₁, e₁, r₁) = >>=-eq-ok (create_order o s) _ e in
    let (s₂, e₂, r₂) = >>=-eq-ok (create_attempt (new_attempt provider gen total) s₁) _ r₁ in
    rw (ok-injective r₂) (
      enqueue_events-IsSound _ s₂ (
        create_attempt-IsSound (new_attempt provider gen total) s₁ s₂ e₂
          (create_order-IsSound o s s₁ e₁ i)))

pub replay_order-keeps :
    (user : ℕ) (input : CheckoutInput) (o : CheckoutOrder) (s : Store) (r : CheckoutResult × Store)
    → replay_order user input o s ≡ ok r
    → r.1 ≡ s
unfolding replay_order
replay_order-keeps user input o s r e = ground (arith, e)

pub create_checkout-IsSound :
    (provider now user : ℕ) (input : CheckoutInput) (gen : GeneratedOrder) (s : Store)
    (r : CheckoutResult × Store)
    → create_checkout_transaction provider now user input gen s ≡ ok r
    → IsSound s
    → IsSound r.1
unfolding create_checkout_transaction
create_checkout-IsSound provider now user input gen s r e i =
    let (hold, _, r₁) =
      >>=-eq-ok (or_throw (find_by_token input.hold_token s.db.holds) PaymentError.authorization) _
        e in
    let (_, _, r₂) = >>=-eq-ok (guard (hold.user_id == user) PaymentError.authorization) _ r₁ in
    elim (Option-cases (order_of_hold hold.id s.orders)) [
      | inl none_yet ↦
          let (checked, _, r₃) =
            >>=-eq-ok (check_hold now hold s) (λ c. write_order provider user input gen hold c s)
              (ground (arith, r₂, none_yet)) in
          write_order-IsSound provider user input gen hold checked s r r₃ i
      | inr (o, found) ↦ rw (replay_order-keeps user input o s r (ground (arith, r₂, found))) i
    ]

-- The intent.
not_started :
    (o : CheckoutOrder) (s s' : Store)
    → is_new_order o.status ≡ false
    → start_payment o s ≡ ok s'
    → s' ≡ s
not_started o s s' old e = ground (arith, e, old)

start_payment-IsSound :
    (o : CheckoutOrder) (s s' : Store)
    → start_payment o s ≡ ok s'
    → find_by order_key o.id s.orders ≡ some o
    → IsSound s
    → IsSound s'
start_payment-IsSound o s s' e f i = elim (Bool-cases (is_new_order o.status)) [
  | inl new ↦
      put_order-IsSound o (record o { status = CheckoutOrderStatus.payment_pending }) s s'
        (ground (arith, e, new)) f refl
        (no_booking o s.orders s.bookings f (ground (arith, new)) i.fulfilled) i
  | inr old ↦ rw (not_started o s s' old e) i
]

write_intent-IsSound :
    (a : PaymentAttempt) (o : CheckoutOrder) (intent : ProviderIntent) (s : Store)
    (r : IntentResult × Store)
    → write_intent a o intent s ≡ ok r
    → find_by order_key o.id s.orders ≡ some o
    → IsSound s
    → IsSound r.1
unfolding write_intent
write_intent-IsSound a o intent s r e f i =
    let (_, _, r₁) =
      >>=-eq-ok
        (guard (not (any (owns_intent a.provider intent.provider_intent_id) s.attempts))
          PaymentError.unique_violation)
        _ e in
    let (s₁, e₁, r₂) = >>=-eq-ok (put_attempt a (with_intent intent.provider_intent_id a) s) _ r₁ in
    let (s₂, e₂, r₃) = >>=-eq-ok (start_payment o s₁) _ r₂ in
    rw (ok-injective r₃) (
      enqueue_events-IsSound _ s₂ (
        start_payment-IsSound o s₁ s₂ e₂ (rw (put_attempt-ok a _ s s₁ e₁) f)
          (put_attempt-IsSound a _ s s₁ e₁ i)))

stored-keeps :
    (a : PaymentAttempt) (known : ℕ) (s : Store) (r : IntentResult × Store)
    → ◌≡◌ {A = Result PaymentError (IntentResult × Store)} (ok (stored_intent a known, s)) (ok r)
    → r.1 ≡ s
stored-keeps a known s r e = ground (arith, e)

pub store_intent-IsSound :
    (attempt : ℕ) (intent : ProviderIntent) (s : Store) (r : IntentResult × Store)
    → store_intent attempt intent s ≡ ok r
    → IsSound s
    → IsSound r.1
unfolding store_intent
store_intent-IsSound attempt intent s r e i =
    let (a, _, r₁) =
      >>=-eq-ok (or_throw (find_by attempt_key attempt s.attempts) PaymentError.not_found) _ e in
    let (o, found, r₂) =
      >>=-eq-ok (or_throw (find_by order_key a.order_id s.orders) PaymentError.not_found) _ r₁ in
    let row = or_throw-ok (find_by order_key a.order_id s.orders) PaymentError.not_found o found in
    elim (Option-cases a.provider_intent_id) [
      | inl fresh ↦
          write_intent-IsSound a o intent s r (ground (arith, r₂, fresh))
            (rw (find_by-key order_key a.order_id s.orders o row) row) i
      | inr (known, at) ↦ rw (stored-keeps a known s r (ground (arith, r₂, at))) i
    ]

-- The expiry of unpaid orders.
release_sessions-IsSound :
    (now : ℕ) (sessions : List ℕ) (s : Store)
    → IsSound s
    → IsSound (record s { db = release_sessions now sessions s.db })
unfolding release_sessions
release_sessions-IsSound now [] s i = database-IsSound s s.db i.consistent (λ r b. b) i
release_sessions-IsSound now (x ∷ xs) s i =
    release_sessions-IsSound now xs
      (record s { db = (release_expired_holds_for_session x now s.db).0 })
      (release_expired-IsSound x now s i)

expire_order-id : (ids : List ℕ) (o : CheckoutOrder) → (expire_order ids o).id ≡ o.id
expire_order-id ids o = ground arith

expire_order-fulfilled :
    (ids : List ℕ) (o : CheckoutOrder) → is_fulfilled_order o.status ≡ true → expire_order ids o ≡ o
expire_order-fulfilled ids o e = ground (arith, e)

fulfilled-expire_order :
    (ids : List ℕ) (os : List CheckoutOrder) (bs : List Booking)
    → all (has_fulfilled_order os) bs ≡ true
    → all (has_fulfilled_order (map (expire_order ids) os)) bs ≡ true
fulfilled-expire_order ids os [] e = refl
fulfilled-expire_order ids os (b ∷ bs) e = elim (Option-cases (find_by order_key b.order_id os)) [
  | inl missing ↦ absurd (ground (arith, e, missing))
  | inr (x, found) ↦ ground (
    arith,
    e,
    found,
    expire_order-fulfilled ids x (ground (arith, e, found)),
    find_by-map order_key (expire_order ids) (expire_order-id ids) b.order_id os x found,
    fulfilled-expire_order ids os bs (ground (arith, e)),
  )
]

items-expire_order :
    (ids : List ℕ) (os : List CheckoutOrder)
    → all has_distinct_items os ≡ true
    → all has_distinct_items (map (expire_order ids) os) ≡ true
items-expire_order ids [] e = refl
items-expire_order ids (x ∷ os) e = ground (arith, e, items-expire_order ids os)

expire_claimed-IsSound :
    (now : ℕ) (cs : List CheckoutOrder) (s : Store)
    → IsSound s
    → IsSound (expire_claimed now cs s).0
unfolding expire_claimed
expire_claimed-IsSound now [] s i = i
expire_claimed-IsSound now (c ∷ cs) s i =
    let ids = map (λ (o : CheckoutOrder). o.id) (c ∷ cs) in
    release_sessions-IsSound now
      (distinct_sessions [] (map (λ (o : CheckoutOrder). o.session_id) (c ∷ cs)))
      (record s { orders = map (expire_order ids) s.orders })
      (record {
        consistent = i.consistent;
        seated = i.seated;
        sold_once = i.sold_once;
        fulfilled = fulfilled-expire_order ids s.orders s.bookings i.fulfilled;
        distinct_orders = i.distinct_orders;
        distinct_items = items-expire_order ids s.orders i.distinct_items;
      })

pub expire_batch-IsSound :
    (locked : List ℕ) (now size : ℕ) (s : Store)
    → IsSound s
    → IsSound (expire_batch locked now size s).0
unfolding expire_batch
expire_batch-IsSound locked now size s i =
    expire_claimed-IsSound now (claim_orders locked now size s.orders) s i
