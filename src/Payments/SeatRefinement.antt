-- ===== src/Payments/SeatRefinement.antt =====
-- The transactions of src/server/holds and src/server/payments refine the life of a seat.
use seatflow.Prelude.{
  ℕ, ◌==◌, ◌≡◌, true, List, [], ◌∷◌, map, ok, arith, Bool-cases, inl, inr, length, filter, find_by,
  or_throw, >>=-eq-ok, ap, guard, Option-cases,
}
use seatflow.Holds.Tables.{InventoryRow, Database, SeatHold, hold_ids, find_by_token}
use seatflow.Holds.Expiry.{
  release_expired_holds_for_session, release_rows, release_row, is_overdue_in, is_active_in,
  release_active_holds_for_session,
}
use seatflow.Holds.Consistency.{IsConsistent, is_row_consistent, row_ids}
use seatflow.Holds.Closing.{release_expired-IsConsistent}
use seatflow.Holds.Acquire.{claim_rows, claim_row}
use seatflow.Holds.Acquiring.{acquire_transaction-Committed, cleaned, locked_rows, hold_of}
use seatflow.Holds.Release.{release_transaction, cancel_transaction, is_this_active}
use seatflow.Holds.Sweep
use seatflow.Holds.Sweep.{sweep_batch, claim_batch}
use seatflow.Holds.Interleaving.{Step}
use seatflow.Checkout.Tables.{Store, CheckoutOrder, PaymentError, webhook_key}
use seatflow.Checkout.Creation.{
  CheckoutInput, GeneratedOrder, CheckoutResult, create_checkout_transaction, write_order,
  check_hold, order_of_hold,
}
use seatflow.Checkout.Intent.{ProviderIntent, IntentResult, store_intent, write_intent}
use seatflow.Checkout.Tables.{put_attempt, put_order}
use seatflow.Checkout.Expiring.{
  expire_batch, expire_claimed, release_sessions, claim_orders, distinct_sessions,
}
use seatflow.Payments.Fulfillment.{convert_row}
use seatflow.Payments.Processing.{process_transaction, is_settled}
use seatflow.Payments.Soundness.{IsSound}
use seatflow.Payments.Booking.{all-const_true}
use seatflow.Payments.Ordering.{replay_order-keeps}
use seatflow.Payments.Payable.{write_order-written}
use seatflow.Payments.Finishing.{RowChange, process_webhook-Finishes}
use seatflow.Payments.Interleaving.{StoreStep, StoreReach, StoreReach-IsSound}
use seatflow.Payments.SeatLifecycle.{
  seat_of, SeatStep, frees, claims, sells, may_move, lift, may_move-SeatStep, seat_of-map,
  lift-same, frees-frees, frees-claims, frees-move, sells-move,
}

release_rows-seat :
    (ids : List ℕ) (db : Database)
    → IsConsistent db
    → (i : ℕ)
    → lift frees (seat_of i db.inventory) (seat_of i (release_rows ids db.inventory)) ≡ true
unfolding is_row_consistent
release_rows-seat ids db c i =
    seat_of-map frees (is_row_consistent db.holds db.items) (release_row ids) (λ r. ground arith)
      (λ r e. ground (arith, e)) i db.inventory c.rows

cleanup-seat :
    (session now : ℕ) (db : Database)
    → IsConsistent db
    → (i : ℕ)
    → lift frees
        (seat_of i db.inventory)
        (seat_of i (release_expired_holds_for_session session now db).0.inventory)
      ≡ true
unfolding release_expired_holds_for_session
cleanup-seat session now db = release_rows-seat (hold_ids (is_overdue_in session now) db.holds) db

claim_rows-seat :
    (h : SeatHold) (ids : List ℕ) (db : Database) (i : ℕ)
    → lift claims (seat_of i db.inventory) (seat_of i (claim_rows h ids db.inventory)) ≡ true
claim_rows-seat h ids db i =
    seat_of-map claims (λ r. true) (claim_row h ids) (λ r. ground arith) (λ r t. ground arith) i
      db.inventory (all-const_true db.inventory)

convert_rows-seat :
    (hold : ℕ) (ids : List ℕ) (rows : List InventoryRow) (i : ℕ)
    → lift sells (seat_of i rows) (seat_of i (map (convert_row hold ids) rows)) ≡ true
convert_rows-seat hold ids rows i =
    seat_of-map sells (λ r. true) (convert_row hold ids) (λ r. ground arith) (λ r t. ground arith) i
      rows (all-const_true rows)

release-seat :
    (hold : SeatHold) (now : ℕ) (db : Database)
    → IsConsistent db
    → (i : ℕ)
    → lift frees (seat_of i db.inventory) (seat_of i (release_transaction hold now db).0.inventory)
      ≡ true
unfolding release_transaction
release-seat hold now db c i =
    elim (Bool-cases (length (filter (is_this_active hold.id) db.holds) == 1)) [
      | inl one ↦ rw one (release_rows-seat (hold.id ∷ []) db c i)
      | inr other ↦ rw other (lift-same (seat_of i db.inventory))
    ]

batch-seat :
    (now : ℕ) (cs : List SeatHold) (db : Database)
    → IsConsistent db
    → (i : ℕ)
    → lift frees (seat_of i db.inventory) (seat_of i (Sweep.expire_batch now cs db).0.inventory)
      ≡ true
unfolding Sweep.expire_batch
batch-seat now [] db c i = lift-same (seat_of i db.inventory)
batch-seat now (x ∷ xs) db c i = release_rows-seat (map (λ (h : SeatHold). h.id) (x ∷ xs)) db c i

Step-seat :
    {db db' : Database}
    → Step db db'
    → IsConsistent db
    → (i : ℕ) → lift may_move (seat_of i db.inventory) (seat_of i db'.inventory) ≡ true
unfolding sweep_batch cancel_transaction release_active_holds_for_session
Step-seat {db} (Step.acquire config now user input gen {db'} e) c i =
    rw ((acquire_transaction-Committed config now user input gen db db' e).inventory) (
      frees-claims _ _ _ (cleanup-seat input.session_id now db c i) (
        claim_rows-seat (hold_of config now user input gen db)
          (row_ids (locked_rows config now user input gen db))
          (cleaned config now user input gen db) i))
Step-seat {db} (Step.release hold now) c i = frees-move _ _ (release-seat hold now db c i)
Step-seat {db} (Step.cleanup session now) c i = frees-move _ _ (cleanup-seat session now db c i)
Step-seat {db} (Step.sweep locked now size) c i =
    frees-move _ _ (batch-seat now (claim_batch locked now size db) db c i)
Step-seat {db} (Step.cancel session now) c i =
    frees-move _ _ (release_rows-seat (hold_ids (is_active_in session) db.holds) db c i)
Step-seat {db} Step.metric c i = frees-move _ _ (lift-same (seat_of i db.inventory))

RowChange-seat :
    (db : Database) (rows : List InventoryRow)
    → RowChange db.inventory rows
    → IsConsistent db
    → (i : ℕ) → lift may_move (seat_of i db.inventory) (seat_of i rows) ≡ true
RowChange-seat db rows (RowChange.kept e) c i =
    rw e (frees-move _ _ (lift-same (seat_of i db.inventory)))
RowChange-seat db rows (RowChange.freed ids e) c i =
    rw e (frees-move _ _ (release_rows-seat ids db c i))
RowChange-seat db rows (RowChange.sold hold ids e) c i =
    rw e (sells-move _ _ (convert_rows-seat hold ids db.inventory i))

process_transaction-RowChange :
    (now fresh webhook : ℕ) (s s' : Store)
    → process_transaction now fresh webhook s ≡ ok s'
    → RowChange s.db.inventory s'.db.inventory
unfolding process_transaction
process_transaction-RowChange now fresh webhook s s' e =
    let (w, _, r) =
      >>=-eq-ok (or_throw (find_by webhook_key webhook s.webhooks) PaymentError.not_found) _ e in
    elim (Bool-cases (is_settled w.processing_status)) [
      | inl settled ↦ RowChange.kept (ground (arith, r, settled))
      | inr todo ↦
          let (_, _, _, _, change) =
            process_webhook-Finishes now fresh w s s' (ground (arith, r, todo)) in
          change
    ]

release_sessions-seat :
    (now : ℕ) (sessions : List ℕ) (db : Database)
    → IsConsistent db
    → (i : ℕ)
    → lift frees (seat_of i db.inventory) (seat_of i (release_sessions now sessions db).inventory)
      ≡ true
unfolding release_sessions
release_sessions-seat now [] db c i = lift-same (seat_of i db.inventory)
release_sessions-seat now (x ∷ xs) db c i = frees-frees _ _ _ (cleanup-seat x now db c i) (
    release_sessions-seat now xs (release_expired_holds_for_session x now db).0
      (release_expired-IsConsistent x now db c) i)

expire_claimed-seat :
    (now : ℕ) (cs : List CheckoutOrder) (s : Store)
    → IsConsistent s.db
    → (i : ℕ)
    → lift frees (seat_of i s.db.inventory) (seat_of i (expire_claimed now cs s).0.db.inventory)
      ≡ true
unfolding expire_claimed
expire_claimed-seat now [] s c i = lift-same (seat_of i s.db.inventory)
expire_claimed-seat now (x ∷ xs) s c i =
    release_sessions-seat now
      (distinct_sessions [] (map (λ (o : CheckoutOrder). o.session_id) (x ∷ xs))) s.db c i

create_checkout-rows :
    (provider now user : ℕ) (input : CheckoutInput) (gen : GeneratedOrder) (s : Store)
    (r : CheckoutResult × Store)
    → create_checkout_transaction provider now user input gen s ≡ ok r
    → r.1.db.inventory ≡ s.db.inventory
unfolding create_checkout_transaction
create_checkout-rows provider now user input gen s r e =
    let (hold, _, r₁) =
      >>=-eq-ok (or_throw (find_by_token input.hold_token s.db.holds) PaymentError.authorization) _
        e in
    let (_, _, r₂) = >>=-eq-ok (guard (hold.user_id == user) PaymentError.authorization) _ r₁ in
    elim (Option-cases (order_of_hold hold.id s.orders)) [
      | inr (o, found) ↦
          ap (λ x. x.db.inventory) (replay_order-keeps user input o s r (ground (arith, r₂, found)))
      | inl missing ↦
          let ((session, total), _, r₃) =
            >>=-eq-ok (check_hold now hold s) (λ c. write_order provider user input gen hold c s)
              (ground (arith, r₂, missing)) in
          let (_, kept, _) =
            write_order-written provider user input gen hold session total s r r₃ in
          kept
    ]

store_intent-rows :
    (attempt : ℕ) (intent : ProviderIntent) (s : Store) (r : IntentResult × Store)
    → store_intent attempt intent s ≡ ok r
    → r.1.db.inventory ≡ s.db.inventory
unfolding store_intent write_intent put_attempt put_order
store_intent-rows attempt intent s r e = ground (arith, e)

-- Every committed transaction of sound tables takes each seat along one step of its life.
StoreStep-refines :
    {s s' : Store}
    → StoreStep s s'
    → IsSound s
    → (i : ℕ) → SeatStep (seat_of i s.db.inventory) (seat_of i s'.db.inventory)
unfolding expire_batch
StoreStep-refines {s} (StoreStep.on_holds step) sound i =
    may_move-SeatStep _ _ (Step-seat step sound.consistent i)
StoreStep-refines {s} (StoreStep.on_payment now fresh webhook {s'} e) sound i =
    may_move-SeatStep _ _ (
      RowChange-seat s.db s'.db.inventory (process_transaction-RowChange now fresh webhook s s' e)
        sound.consistent i)
StoreStep-refines {s} (StoreStep.on_checkout provider now user input gen {r} e) sound i =
    rw (create_checkout-rows provider now user input gen s r e) (SeatStep.stay _)
StoreStep-refines {s} (StoreStep.on_intent attempt intent {r} e) sound i =
    rw (store_intent-rows attempt intent s r e) (SeatStep.stay _)
StoreStep-refines {s} (StoreStep.on_webhooks webhooks) sound i = SeatStep.stay _
StoreStep-refines {s} (StoreStep.on_expiry locked now size) sound i = may_move-SeatStep _ _ (
    frees-move _ _
      (expire_claimed-seat now (claim_orders locked now size s.orders) s sound.consistent i))

-- The transactions refine the machine: in every state that any sequence of committed transactions
-- reaches from sound tables, each further transaction that commits takes each seat along at most one
-- step of its life, which is from AVAILABLE to HELD, or from HELD to AVAILABLE or BOOKED. So no
-- single transaction takes a seat from AVAILABLE to BOOKED, a BOOKED seat never changes, and no row
-- appears or disappears.
pub StoreReach-refines :
    {start s s' : Store}
    → IsSound start
    → StoreReach start s
    → StoreStep s s'
    → (i : ℕ) → SeatStep (seat_of i s.db.inventory) (seat_of i s'.db.inventory)
StoreReach-refines sound r step i = StoreStep-refines step (StoreReach-IsSound sound r) i
