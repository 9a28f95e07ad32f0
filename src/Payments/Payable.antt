-- ===== src/Payments/Payable.antt =====
-- The order that src/server/payments/checkout-service.ts writes and the checks of its fulfilment.
use seatflow.Prelude.{
  ℕ, ◌==◌, ◌≡◌, refl, Bool, true, false, not, ◌&&◌, none, some, List, [], ◌∷◌, all, contains, ok,
  arith, Bool-cases, Option-cases, inl, inr, ==_eq, ==_self, >>=-eq-ok, ok-injective, guard,
  or_throw, filter, length, is_distinct, ltb, ap, ◌∙◌, sym, is_empty, All,
}
use seatflow.Domain.{Currency, same_currency, CheckoutOrderStatus}
use seatflow.Holds.Tables.{
  SeatHold, SeatHoldItem, Session, InventoryRow, find_row, items_of, find_session, is_active,
}
use seatflow.Holds.Eligibility.{
  SalesEligibility, sellable, unsellable, evaluate_session_sales_eligibility, is_published,
  is_on_sale,
}
use seatflow.Payments.Booking.{all-contains_self}
use seatflow.Checkout.Lifecycle.{decide_paid_fulfillment, is_fulfill}
use seatflow.Checkout.Totals.{CheckoutTotal}
use seatflow.Checkout.Tables.{OrderItem, CheckoutOrder, Store, PaymentError, item_ids}
use seatflow.Checkout.Creation.{
  CheckoutInput, GeneratedOrder, CheckoutResult, check_hold, write_order, new_order, order_item,
  order_items, is_of_hold, session_eligibility, create_order, create_attempt, checkout_total,
  guard_session,
}
use seatflow.Payments.Snapshots.{hold_item_for, item_matches, snapshots_match}
use seatflow.Payments.Processing.{decide}
use seatflow.Payments.Paying.{is_sellable}
use seatflow.Payments.Converting.{inventory_ids, length-map_ids, length-inventory_ids}

-- The price of a hold item is that of its row, which is of the session of the hold.
abbrev pub is_priced_as : SeatHold → SeatHoldItem → InventoryRow → Bool
is_priced_as hold it r =
    r.session_id == hold.session_id
    && r.price_minor == it.price_minor
    && same_currency r.currency it.currency

abbrev pub has_row_price : SeatHold → List InventoryRow → SeatHoldItem → Bool
has_row_price hold rows it = elim (find_row it.inventory_id rows) [
  | none ↦ false
  | some r ↦ is_priced_as hold it r
]

order_items-ids :
    (hold : SeatHold) (rows : List InventoryRow) (its : List SeatHoldItem)
    → all (has_row_price hold rows) its ≡ true
    → item_ids (order_items rows its) ≡ inventory_ids its
unfolding order_items
order_items-ids hold rows [] e = refl
order_items-ids hold rows (it ∷ its) e = elim (Option-cases (find_row it.inventory_id rows)) [
  | inl missing ↦ absurd (ground (arith, e, missing))
  | inr (r, found) ↦ ground (arith, e, found, order_items-ids hold rows its (ground (arith, e)))
]

same_currency_self : (c : Currency) → same_currency c c ≡ true
same_currency_self c = ground arith

-- Each item of a list with distinct rows is the one that is looked up.
hold_item_for-none :
    (i : ℕ) (its : List SeatHoldItem)
    → contains (inventory_ids its) i ≡ false
    → hold_item_for i its ≡ none
unfolding hold_item_for
hold_item_for-none i [] e = refl
hold_item_for-none i (x ∷ its) e = ground (arith, e, hold_item_for-none i its (ground (arith, e)))

module _ (hold : SeatHold) (session : ℕ) (rows : List InventoryRow) where
  -- The match of one item, with the items that have been passed before it.
  match_item :
      (full : List SeatHoldItem) (it : SeatHoldItem) (r : InventoryRow)
      → hold_item_for it.inventory_id full ≡ some it
      → find_row it.inventory_id rows ≡ some r
      → is_priced_as hold it r ≡ true
      → is_of_hold hold r ≡ true
      → item_matches hold hold.session_id full rows (order_item it r) ≡ true
  unfolding item_matches
  match_item full it r h f p o = ground (
    arith,
    h,
    f,
    p,
    o,
    ==_self it.price_minor,
    same_currency_self it.currency,
    ==_self r.seat_id,
    ==_self r.section_id,
    ==_self r.price_tier_id,
  )

All-weaken :
    (x : SeatHoldItem) (its ys : List SeatHoldItem)
    → All (λ it. hold_item_for it.inventory_id its ≡ some it) ys
    → All (λ it. hold_item_for it.inventory_id (x ∷ its) ≡ some it) ys
unfolding hold_item_for
All-weaken x its [] h = tt
All-weaken x its (y ∷ ys) h = (ground (arith, h.0), All-weaken x its ys h.1)

hold_item_for_self :
    (its : List SeatHoldItem)
    → is_distinct (inventory_ids its) ≡ true
    → All (λ it. hold_item_for it.inventory_id its ≡ some it) its
unfolding hold_item_for
hold_item_for_self [] d = tt
hold_item_for_self (x ∷ its) d = (
  ground (arith, ==_self x.inventory_id, hold_item_for-none x.inventory_id its (ground (arith, d))),
  All-weaken x its its (hold_item_for_self its (ground (arith, d))),
)

find_row-all :
    (p : InventoryRow → Bool) (i : ℕ) (rows : List InventoryRow) (r : InventoryRow)
    → find_row i rows ≡ some r
    → all p rows ≡ true
    → p r ≡ true
unfolding find_row
find_row-all p i [] r e h = cc
find_row-all p i (x ∷ rows) r e h = elim (Bool-cases (x.id == i)) [
  | inl here ↦ ground (arith, e, h, here)
  | inr there ↦ find_row-all p i rows r (ground (arith, e, there)) (ground (arith, h))
]

find_row-filter :
    (ids : List ℕ) (i : ℕ) (rows : List InventoryRow)
    → contains ids i ≡ true
    → find_row i (filter (λ x. contains ids x.id) rows) ≡ find_row i rows
unfolding find_row
find_row-filter ids i [] c = refl
find_row-filter ids i (x ∷ rows) c = ground (arith, c, ==_eq x.id i, find_row-filter ids i rows c)

items-match :
    (hold : SeatHold) (ids : List ℕ) (full its : List SeatHoldItem) (rows : List InventoryRow)
    → All (λ it. hold_item_for it.inventory_id full ≡ some it) its
    → all (has_row_price hold rows) its ≡ true
    → all (contains ids) (inventory_ids its) ≡ true
    → all (is_of_hold hold) (filter (λ r. contains ids r.id) rows) ≡ true
    → all
        (item_matches hold hold.session_id full (filter (λ r. contains ids r.id) rows))
        (order_items rows its)
      ≡ true
unfolding order_items
items-match hold ids full [] rows h p c o = refl
items-match hold ids full (it ∷ its) rows h p c o =
    elim (Option-cases (find_row it.inventory_id rows)) [
      | inl missing ↦ absurd (ground (arith, p, missing))
      | inr (r, found) ↦
          let locked = filter (λ (x : InventoryRow). contains ids x.id) rows in
          let here = find_row-filter ids it.inventory_id rows (ground (arith, c)) ∙ found in
          ground (
            arith,
            found,
            match_item hold hold.session_id locked full it r h.0 here (ground (arith, p, found))
                (find_row-all (is_of_hold hold) it.inventory_id locked r here o),
            items-match hold ids full its rows h.1 (ground (arith, p)) (ground (arith, c)) o,
          )
    ]

guard-true :
    (test : Bool) (thrown : PaymentError) {u : Unit {0}} → guard test thrown ≡ ok u → test ≡ true
guard-true true thrown e = refl
guard-true false thrown e = cc

not-true : (b : Bool) → not b ≡ true → b ≡ false
not-true b e = ground (arith, e)

both : (m n : ℕ) (b : Bool) → (m == n && b) ≡ true → m ≡ n
both m n b e = ground (arith, e, ==_eq m n)

second : (a b : Bool) → (a && b) ≡ true → b ≡ true
second a b e = ground (arith, e)

sellable-true : (x : SalesEligibility) {u : Unit {0}} → guard_session x ≡ ok u → x ≡ sellable
sellable-true sellable e = refl
sellable-true (unsellable reason) e = cc

-- What the checks of a hold have found.
pub record IsChecked (now : ℕ) (hold : SeatHold) (session : Session) (s : Store) : Type 0 where
  pub live : (is_active hold.status && ltb now hold.expires_at) ≡ true
  pub some_item : is_empty (items_of hold.id s.db.items) ≡ false
  pub counted :
      length
        (filter (λ r. contains (inventory_ids (items_of hold.id s.db.items)) r.id) s.db.inventory)
      ≡ length (inventory_ids (items_of hold.id s.db.items))
  pub of_hold :
      all
        (is_of_hold hold)
        (filter (λ r. contains (inventory_ids (items_of hold.id s.db.items)) r.id) s.db.inventory)
      ≡ true
  pub on_sale : session_eligibility now session ≡ sellable

check_hold-IsChecked :
    (now : ℕ) (hold : SeatHold) (session : Session) (total : CheckoutTotal) (s : Store)
    → check_hold now hold s ≡ ok (session, total)
    → IsChecked now hold session s
unfolding check_hold
check_hold-IsChecked now hold session total s e =
    let its = items_of hold.id s.db.items in
    let locked = filter (λ (r : InventoryRow). contains (inventory_ids its) r.id) s.db.inventory in
    let (_, live, r₁) =
      >>=-eq-ok
        (guard (is_active hold.status && ltb now hold.expires_at) PaymentError.hold_not_active) _
        e in
    let (_, items, r₂) = >>=-eq-ok (guard (not (is_empty its)) PaymentError.hold_empty) _ r₁ in
    let (_, held, r₃) =
      >>=-eq-ok
        (guard (length locked == length (inventory_ids its) && all (is_of_hold hold) locked)
          PaymentError.conflict)
        _ r₂ in
    let (found, _, r₄) =
      >>=-eq-ok (or_throw (find_session hold.session_id s.db.sessions) PaymentError.not_found) _
        r₃ in
    let (_, sale, r₅) = >>=-eq-ok (guard_session (session_eligibility now found)) _ r₄ in
    let (counted, _, r₆) = >>=-eq-ok (checkout_total its) _ r₅ in
    let same : session ≡ found = ap (λ x. x.0) (ok-injective r₆) in
    record {
      live = guard-true _ PaymentError.hold_not_active live;
      some_item = not-true (is_empty its) (guard-true _ PaymentError.hold_empty items);
      counted =
          both (length locked) (length (inventory_ids its)) (all (is_of_hold hold) locked)
            (guard-true _ PaymentError.conflict held);
      of_hold =
          second (length locked == length (inventory_ids its)) (all (is_of_hold hold) locked)
            (guard-true _ PaymentError.conflict held);
      on_sale = rw same (sellable-true (session_eligibility now found) sale);
    }

pub write_order-written :
    (provider user : ℕ) (input : CheckoutInput) (gen : GeneratedOrder) (hold : SeatHold)
    (session : Session) (total : CheckoutTotal) (s : Store) (r : CheckoutResult × Store)
    → write_order provider user input gen hold (session, total) s ≡ ok r
    → (is_distinct (item_ids (order_items s.db.inventory (items_of hold.id s.db.items))) ≡ true)
      × (r.1.db.inventory ≡ s.db.inventory)
      × (r.1.db.items ≡ s.db.items)
unfolding write_order create_order create_attempt
write_order-written provider user input gen hold session total s r e =
    (ground (arith, e), ground (arith, e), ground (arith, e))

empty-length :
    (os : List OrderItem) (its : List SeatHoldItem)
    → length os ≡ length its
    → is_empty its ≡ false
    → is_empty os ≡ false
empty-length [] [] e h = h
empty-length [] (it ∷ its) e h = absurd (omega (arith, e))
empty-length (o ∷ os) its e h = refl

new_items-match :
    (hold : SeatHold) (its : List SeatHoldItem) (rows : List InventoryRow)
    → is_distinct (inventory_ids its) ≡ true
    → all (has_row_price hold rows) its ≡ true
    → is_empty its ≡ false
    → length (filter (λ r. contains (inventory_ids its) r.id) rows) ≡ length (inventory_ids its)
    → all (is_of_hold hold) (filter (λ r. contains (inventory_ids its) r.id) rows) ≡ true
    → snapshots_match hold hold.session_id
        (order_items rows its)
        its
        (filter (λ r. contains (item_ids (order_items rows its)) r.id) rows)
      ≡ true
unfolding snapshots_match
new_items-match hold its rows d p h n o =
    let ids = order_items-ids hold rows its p in
    let same : length (order_items rows its) ≡ length its =
      sym (length-map_ids (order_items rows its)) ∙ ap length ids ∙ length-inventory_ids its in
    let filled = empty-length (order_items rows its) its same h in
    let matched =
      items-match hold (inventory_ids its) its its rows (hold_item_for_self its d) p
        (all-contains_self (inventory_ids its)) o in
    rw ids
      (ground (arith, same, filled, matched, n, length-inventory_ids its, ==_self (length its)))

abbrev is_open_for_fulfillment : Session → Bool
is_open_for_fulfillment session = is_published session.event_status && is_on_sale session.status

on_sale-open :
    (now : ℕ) (session : Session)
    → session_eligibility now session ≡ sellable
    → is_open_for_fulfillment session ≡ true
unfolding evaluate_session_sales_eligibility
on_sale-open now session e = ground (arith, e)

live_until :
    (now later : ℕ) (hold : SeatHold)
    → ltb later hold.expires_at ≡ true
    → (is_active hold.status && ltb now hold.expires_at) ≡ true
    → (is_active hold.status && ltb later hold.expires_at) ≡ true
live_until now later hold e h = ground (arith, e, h)

decide-fulfill :
    (later : ℕ) (o : CheckoutOrder) (hold : SeatHold) (session : Session)
    → o.status ≡ CheckoutOrderStatus.pending
    → (is_active hold.status && ltb later hold.expires_at) ≡ true
    → is_open_for_fulfillment session ≡ true
    → is_fulfill (decide later o hold session) ≡ true
unfolding decide_paid_fulfillment
decide-fulfill later o hold session e l p = ground (arith, e, l, p)

-- An order that checkout writes for a checked hold can be fulfilled, on the tables that it leaves and
-- at every time before the hold expires: the decision is FULFILL and the snapshots match. The items of
-- the hold have the prices of their rows.
pub write_order-IsSellable :
    (provider now user later : ℕ) (input : CheckoutInput) (gen : GeneratedOrder) (hold : SeatHold)
    (session : Session) (total : CheckoutTotal) (s : Store) (r : CheckoutResult × Store)
    → check_hold now hold s ≡ ok (session, total)
    → write_order provider user input gen hold (session, total) s ≡ ok r
    → all (has_row_price hold s.db.inventory) (items_of hold.id s.db.items) ≡ true
    → ltb later hold.expires_at ≡ true
    → is_sellable later
        (new_order user input gen hold session total
          (order_items s.db.inventory (items_of hold.id s.db.items)))
        hold
        session
        r.1
      ≡ true
write_order-IsSellable provider now user later input gen hold session total s r checked written
      prices early =
    let its = items_of hold.id s.db.items in
    let rows = s.db.inventory in
    let k = check_hold-IsChecked now hold session total s checked in
    let (distinct, kept_rows, kept_items) =
      write_order-written provider user input gen hold session total s r written in
    let o = new_order user input gen hold session total (order_items rows its) in
    let ids = order_items-ids hold rows its prices in
    let matches =
      new_items-match hold its rows (rw⁻¹ ids distinct) prices k.some_item k.counted k.of_hold in
    let decided =
      decide-fulfill later o hold session refl (live_until now later hold early k.live)
        (on_sale-open now session k.on_sale) in
    rw (kept_rows, kept_items) (ground (arith, matches, decided))
