-- ===== src/Payments/Interleaving.antt =====
-- Payments and seat holds as an interleaving of committed transactions: the requests and workers of
-- src/server/holds and the webhooks of src/server/payments/webhook-service.ts.
use seatflow.Prelude.{
  ℕ, ◌==◌, ◌≡◌, true, List, [], ◌∷◌, map, ok, arith, Bool-cases, inl, inr, length, filter,
}
use seatflow.Holds.Tables.{Database, SeatHold, hold_ids}
use seatflow.Holds.Expiry.{
  release_expired_holds_for_session, is_overdue_in, is_active_in, release_active_holds_for_session,
}
use seatflow.Holds.Consistency.{IsConsistent, row_ids}
use seatflow.Holds.Acquire.{claim_rows, claim_row}
use seatflow.Holds.Acquiring.{acquire_transaction-Committed, cleaned, locked_rows, hold_of}
use seatflow.Holds.Release.{release_transaction, cancel_transaction, is_this_active}
use seatflow.Holds.Sweep
use seatflow.Holds.Sweep.{sweep_batch, claim_batch}
use seatflow.Holds.Interleaving.{Step, Step-IsConsistent}
use seatflow.Checkout.Tables.{Store, Webhook}
use seatflow.Checkout.Creation.{
  CheckoutInput, GeneratedOrder, CheckoutResult, create_checkout_transaction,
}
use seatflow.Checkout.Intent.{ProviderIntent, IntentResult, store_intent}
use seatflow.Checkout.Expiring.{expire_batch}
use seatflow.Payments.Ordering.{create_checkout-IsSound, store_intent-IsSound, expire_batch-IsSound}
use seatflow.Payments.Processing.{process_transaction}
use seatflow.Payments.Soundness.{
  IsSound, is_booked_at, is_booked_at-map, database-IsSound, release_rows-booked,
}
use seatflow.Payments.Booking.{all-const_true}
use seatflow.Payments.Routing.{process_transaction-IsSound}

-- A row that is BOOKED stays so under every transaction of the holds.
claim_rows-booked :
    (h : SeatHold) (ids : List ℕ) (db : Database) (i : ℕ)
    → is_booked_at db.inventory i ≡ true
    → is_booked_at (claim_rows h ids db.inventory) i ≡ true
claim_rows-booked h ids db =
    is_booked_at-map (λ r. true) (claim_row h ids) (λ r. ground arith) (λ r t b. ground (arith, b))
      db.inventory (all-const_true db.inventory)

release-booked :
    (hold : SeatHold) (now : ℕ) (db : Database)
    → IsConsistent db
    → (i : ℕ) → is_booked_at db.inventory i ≡ true
    → is_booked_at (release_transaction hold now db).0.inventory i ≡ true
unfolding release_transaction
release-booked hold now db c i b =
    elim (Bool-cases (length (filter (is_this_active hold.id) db.holds) == 1)) [
      | inl one ↦ rw one (release_rows-booked (hold.id ∷ []) db c i b)
      | inr other ↦ rw other b
    ]

batch-booked :
    (now : ℕ) (cs : List SeatHold) (db : Database)
    → IsConsistent db
    → (i : ℕ) → is_booked_at db.inventory i ≡ true
    → is_booked_at (Sweep.expire_batch now cs db).0.inventory i ≡ true
unfolding Sweep.expire_batch
batch-booked now [] db c i b = b
batch-booked now (x ∷ xs) db c i b =
    release_rows-booked (map (λ (h : SeatHold). h.id) (x ∷ xs)) db c i b

cleanup-booked :
    (session now : ℕ) (db : Database)
    → IsConsistent db
    → (i : ℕ) → is_booked_at db.inventory i ≡ true
    → is_booked_at (release_expired_holds_for_session session now db).0.inventory i ≡ true
unfolding release_expired_holds_for_session
cleanup-booked session now db =
    release_rows-booked (hold_ids (is_overdue_in session now) db.holds) db

Step-booked :
    {db db' : Database}
    → Step db db'
    → IsConsistent db
    → (i : ℕ) → is_booked_at db.inventory i ≡ true
    → is_booked_at db'.inventory i ≡ true
unfolding sweep_batch cancel_transaction release_active_holds_for_session
Step-booked {db} (Step.acquire config now user input gen {db'} e) c i b =
    rw ((acquire_transaction-Committed config now user input gen db db' e).inventory) (
      claim_rows-booked (hold_of config now user input gen db)
        (row_ids (locked_rows config now user input gen db)) (cleaned config now user input gen db)
        i (cleanup-booked input.session_id now db c i b))
Step-booked {db} (Step.release hold now) c i b = release-booked hold now db c i b
Step-booked {db} (Step.cleanup session now) c i b = cleanup-booked session now db c i b
Step-booked {db} (Step.sweep locked now size) c i b =
    batch-booked now (claim_batch locked now size db) db c i b
Step-booked {db} (Step.cancel session now) c i b =
    release_rows-booked (hold_ids (is_active_in session) db.holds) db c i b
Step-booked Step.metric c i b = b

-- One committed transaction of the holds or of a payment webhook.
pub data StoreStep (s : Store) : Store → Type 0 where
  on_holds : {db : Database} → Step s.db db → StoreStep s (record s { db = db })
  on_payment :
      (now fresh webhook : ℕ) {s' : Store}
      → process_transaction now fresh webhook s ≡ ok s'
      → StoreStep s s'
  on_checkout :
      (provider now user : ℕ) (input : CheckoutInput) (gen : GeneratedOrder)
      {r : CheckoutResult × Store}
      → create_checkout_transaction provider now user input gen s ≡ ok r
      → StoreStep s r.1
  on_intent :
      (attempt : ℕ) (intent : ProviderIntent) {r : IntentResult × Store}
      → store_intent attempt intent s ≡ ok r
      → StoreStep s r.1
  -- Deliveries that are stored, and those that are marked for a retry, write webhooks alone.
  on_webhooks : (webhooks : List Webhook) → StoreStep s (record s { webhooks = webhooks })
  on_expiry : (locked : List ℕ) (now size : ℕ) → StoreStep s (expire_batch locked now size s).0

pub data StoreReach (start : Store) : Store → Type 0 where
  here : StoreReach start start
  next : {s s' : Store} → StoreReach start s → StoreStep s s' → StoreReach start s'

pub StoreStep-IsSound : {s s' : Store} → StoreStep s s' → IsSound s → IsSound s'
StoreStep-IsSound {s} (on_holds {db} step) i =
    database-IsSound s db (Step-IsConsistent step i.consistent) (Step-booked step i.consistent) i
StoreStep-IsSound {s} (on_payment now fresh webhook {s'} e) i =
    process_transaction-IsSound now fresh webhook s s' e i
StoreStep-IsSound {s} (on_checkout provider now user input gen {r} e) i =
    create_checkout-IsSound provider now user input gen s r e i
StoreStep-IsSound {s} (on_intent attempt intent {r} e) i =
    store_intent-IsSound attempt intent s r e i
StoreStep-IsSound {s} (on_webhooks webhooks) i = record {
  consistent = i.consistent;
  seated = i.seated;
  sold_once = i.sold_once;
  fulfilled = i.fulfilled;
  distinct_orders = i.distinct_orders;
  distinct_items = i.distinct_items;
}
StoreStep-IsSound {s} (on_expiry locked now size) i = expire_batch-IsSound locked now size s i

-- Whatever requests, workers and webhooks commit, in any order: sound tables stay sound. So each
-- seat of a booking is BOOKED, no seat is in two bookings, an order has at most one booking and is
-- FULFILLED when it has one, and HELD rows are backed by ACTIVE holds.
pub StoreReach-IsSound : {start s : Store} → IsSound start → StoreReach start s → IsSound s
StoreReach-IsSound i here = i
StoreReach-IsSound i (next r step) = StoreStep-IsSound step (StoreReach-IsSound i r)
