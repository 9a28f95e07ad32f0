-- ===== src/Holds/Closing.antt =====
-- Every transaction that only ends holds keeps the tables consistent.
use seatflow.Prelude.{
  ℕ, ◌==◌, ◌≡◌, refl, true, false, some, List, [], ◌∷◌, map, contains, arith, is_distinct, ==_eq,
  length, filter, ◌≤◌, ◌<◌, Bool-cases, inl, inr,
}
use seatflow.Holds.Tables.{InventoryRow, SeatHold, Database, find_hold, hold_ids}
use seatflow.Holds.Expiry.{
  is_overdue_in, is_active_in, expire, release, release_rows, release_expired_holds_for_session,
  release_active_holds_for_session,
}
use seatflow.Holds.Consistency.{IsConsistent, close-IsConsistent, hold_ids-contains, all_hold_ids}
use seatflow.Holds.Release.{is_this_active, release_transaction, cancel_transaction}
use seatflow.Holds.Sweep.{is_claimed, expire_batch, sweep_batch, claim_batch}

pub release_expired-IsConsistent :
    (session now : ℕ) (db : Database)
    → IsConsistent db
    → IsConsistent (release_expired_holds_for_session session now db).0
unfolding release_expired_holds_for_session
release_expired-IsConsistent session now db c =
    close-IsConsistent (is_overdue_in session now) (expire now) (λ h. refl)
      (hold_ids (is_overdue_in session now) db.holds) db _ (λ i h. hold_ids-contains _ i db.holds h)
      refl refl refl c

pub release_active-IsConsistent :
    (session now : ℕ) (db : Database)
    → IsConsistent db
    → IsConsistent (release_active_holds_for_session session now db).0
unfolding release_active_holds_for_session
release_active-IsConsistent session now db c =
    close-IsConsistent (is_active_in session) (release now) (λ h. refl)
      (hold_ids (is_active_in session) db.holds) db _ (λ i h. hold_ids-contains _ i db.holds h) refl
      refl refl c

-- A hold that is found by an id has it.
pub find_hold-id : (i : ℕ) (hs : List SeatHold) (h : SeatHold) → find_hold i hs ≡ some h → h.id ≡ i
unfolding find_hold
find_hold-id i [] h e = cc
find_hold-id i (x ∷ hs) h e = ground (arith, find_hold-id i hs h)

-- With the primary key, a hold that is found and matches is the only one that matches.
this_active-absent :
    (i : ℕ) (hs : List SeatHold)
    → contains (all_hold_ids hs) i ≡ false
    → length (filter (is_this_active i) hs) ≡ 0
this_active-absent i [] e = refl
this_active-absent i (x ∷ hs) e = ground (arith, this_active-absent i hs)

pub this_active-le-one :
    (i : ℕ) (hs : List SeatHold)
    → is_distinct (all_hold_ids hs) ≡ true
    → length (filter (is_this_active i) hs) ≤ 1
this_active-le-one i [] d = omega arith
this_active-le-one i (x ∷ hs) d =
    ground (arith, this_active-le-one i hs, this_active-absent x.id hs, ==_eq x.id i)

pub this_active-found :
    (i : ℕ) (hs : List SeatHold) (h : SeatHold)
    → find_hold i hs ≡ some h
    → is_this_active i h ≡ true
    → 0 < length (filter (is_this_active i) hs)
unfolding find_hold
this_active-found i [] h e t = cc
this_active-found i (x ∷ hs) h e t = ground (arith, this_active-found i hs h)

release_rows-none : (rows : List InventoryRow) → rows ≡ release_rows [] rows
release_rows-none [] = refl
release_rows-none (r ∷ rows) = ground (arith, release_rows-none rows)

pub release_transaction-IsConsistent :
    (hold : SeatHold) (now : ℕ) (db : Database)
    → IsConsistent db
    → IsConsistent (release_transaction hold now db).0
unfolding release_transaction
release_transaction-IsConsistent hold now db c =
    elim (Bool-cases (length (filter (is_this_active hold.id) db.holds) == 1)) [
      | inl one ↦ rw one (
          close-IsConsistent (is_this_active hold.id) (release now) (λ h. refl) (hold.id ∷ []) db _
            (λ i h e t. ground (arith, find_hold-id i db.holds h e)) refl refl refl c)
      | inr other ↦ rw other (
          close-IsConsistent (is_this_active hold.id) (release now) (λ h. refl) [] db _
            (λ i h e t. absurd (
              ground (
                arith,
                find_hold-id i db.holds h e,
                this_active-found hold.id db.holds h,
                this_active-le-one hold.id db.holds c.distinct_holds,
              )))
            refl (release_rows-none db.inventory) refl c)
    ]

pub cancel_transaction-IsConsistent :
    (session now : ℕ) (db : Database)
    → IsConsistent db
    → IsConsistent (cancel_transaction session now db)
unfolding cancel_transaction release_active_holds_for_session
cancel_transaction-IsConsistent session now db c =
    close-IsConsistent (is_active_in session) (release now) (λ h. refl)
      (hold_ids (is_active_in session) db.holds) db _ (λ i h. hold_ids-contains _ i db.holds h) refl
      refl refl c

expire_batch-IsConsistent :
    (now : ℕ) (cs : List SeatHold) (db : Database)
    → IsConsistent db
    → IsConsistent (expire_batch now cs db).0
unfolding expire_batch
expire_batch-IsConsistent now [] db c = c
expire_batch-IsConsistent now (x ∷ xs) db c =
    let ids = map (λ (h : SeatHold). h.id) (x ∷ xs) in
    close-IsConsistent (is_claimed ids) (expire now) (λ h. refl) ids db _
      (λ i h e t. ground (arith, find_hold-id i db.holds h e)) refl refl refl c

pub sweep_batch-IsConsistent :
    (locked : List ℕ) (now size : ℕ) (db : Database)
    → IsConsistent db
    → IsConsistent (sweep_batch locked now size db).0
unfolding sweep_batch
sweep_batch-IsConsistent locked now size db c =
    expire_batch-IsConsistent now (claim_batch locked now size db) db c
