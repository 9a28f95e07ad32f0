-- ===== src/Examples/Holds.antt =====
-- The theorems on seat holds at a session of three seats, of which one is held by a hold that is
-- overdue, one is free and one is booked.
use seatflow.Prelude.{
  ◌+◌, ◌++◌, map, filter, length, any, if◌then◌else◌, ◌≡◌, refl, true, false, none, some, [], ◌∷◌,
  ok, err, arith,
}
use seatflow.Domain.{Currency, EventStatus, EventSessionStatus, SeatInventoryState, SeatHoldStatus}
use seatflow.Holds.Tables.{
  InventoryRow, SeatHold, Session, Database, find_hold, find_row, find_session, find_by_token,
  hold_ids, has_item,
}
use seatflow.Holds.Consistency.{IsConsistent, is_row_consistent, has_distinct_seats}
use seatflow.Holds.Expiry.{release_expired_holds_for_session, release}
use seatflow.Holds.Eligibility.{evaluate_session_sales_eligibility}
use seatflow.Holds.Acquire.{
  HoldCreateInput, Generated, acquire_transaction, default_hold_configuration, new_hold, is_target,
  try_idempotent_replay, check_selection, create_hold, claim_seats, claimed, item_for,
}
use seatflow.Holds.Guarantees.{IsFree, acquire-takes-IsFree, acquire-all_or_nothing}
use seatflow.Holds.Interleaving.{Reach, Step, Reach-IsConsistent}
use seatflow.Holds.Sweep.{ExpirySweepResult, sweep_expired_holds, is_sweepable, active_count}
use seatflow.Holds.Sweeping.{sweep_expired_holds_complete}
use seatflow.Holds.Release.{release_seat_hold}
use seatflow.Holds.Releasing.{vacated, closed, release_seat_hold-idempotent}
use seatflow.Holds.Replaying.{acquire-replay}

abbrev free_row : InventoryRow
free_row = record {
  id = 1;
  session_id = 1;
  seat_id = 11;
  section_id = 1;
  price_tier_id = 1;
  price_minor = 5000;
  currency = Currency.eur;
  state = SeatInventoryState.available;
  current_hold_id = none;
  hold_expires_at = none;
}

abbrev held_row : InventoryRow
held_row = record free_row {
  id = 2;
  seat_id = 12;
  state = SeatInventoryState.held;
  current_hold_id = some 7;
  hold_expires_at = some 900;
}

abbrev sold_row : InventoryRow
sold_row = record free_row { id = 3; seat_id = 13; state = SeatInventoryState.booked }

abbrev overdue_hold : SeatHold
overdue_hold = record {
  id = 7;
  public_token = 70;
  session_id = 1;
  user_id = 5;
  status = SeatHoldStatus.active;
  idempotency_key = 50;
  expires_at = 900;
  released_at = none;
  expired_at = none;
  converted_at = none;
}

abbrev on_sale_session : Session
on_sale_session = record {
  id = 1;
  event_id = 11;
  organization_id = 12;
  status = EventSessionStatus.on_sale;
  event_status = EventStatus.published;
  start_at = 9000;
  sales_start_at = 100;
  sales_end_at = 8000;
}

abbrev before : Database
before = record {
  inventory = free_row ∷ held_row ∷ sold_row ∷ [];
  holds = overdue_hold ∷ [];
  items =
      record { hold_id = 7; inventory_id = 2; price_minor = 5000; currency = Currency.eur } ∷ [];
  outbox = [];
  sessions = on_sale_session ∷ [];
  hold_conflicts = 0;
}

abbrev two_seats : HoldCreateInput
two_seats = record { session_id = 1; seat_ids = 12 ∷ 11 ∷ []; idempotency_key = 60 }

abbrev generated : Generated
generated = record { id = 8; token = 80 }

abbrev after : Database
after = elim (acquire_transaction default_hold_configuration 1000 6 two_seats generated before) [
  | ok db ↦ db
  | err _ ↦ before
]

before-IsConsistent : IsConsistent before
unfolding is_row_consistent has_item find_hold has_distinct_seats
before-IsConsistent = record {
  rows = refl;
  distinct_rows = refl;
  distinct_holds = refl;
  distinct_seats = refl;
  owned_items = refl;
}

acquired :
    acquire_transaction default_hold_configuration 1000 6 two_seats generated before ≡ ok after
unfolding acquire_transaction check_selection find_session release_expired_holds_for_session
    evaluate_session_sales_eligibility hold_ids create_hold claim_seats
acquired = refl

acquire-takes-IsFree_example : IsFree 1000 before held_row
unfolding find_row
acquire-takes-IsFree_example =
    acquire-takes-IsFree default_hold_configuration 1000 6 two_seats generated before after
      before-IsConsistent acquired held_row refl refl

abbrev tidy : Database
unfolding release_expired_holds_for_session hold_ids
tidy = (release_expired_holds_for_session 1 1000 before).0

abbrev acquired_hold : SeatHold
acquired_hold = new_hold default_hold_configuration 1000 6 two_seats generated

acquire-all_or_nothing_example :
    (after.inventory
      ≡ map
          (λ r. if is_target 1 (12 ∷ 11 ∷ []) r then claimed acquired_hold r else r)
          tidy.inventory)
    × (length (filter (is_target 1 (12 ∷ 11 ∷ [])) tidy.inventory) ≡ 2)
    × (find_hold 8 after.holds ≡ some acquired_hold)
    × (after.items
        ≡ tidy.items
          ++ map (item_for acquired_hold) (filter (is_target 1 (12 ∷ 11 ∷ [])) tidy.inventory))
unfolding tidy release_expired_holds_for_session
acquire-all_or_nothing_example =
    acquire-all_or_nothing default_hold_configuration 1000 6 two_seats generated before after
      before-IsConsistent acquired

acquire-replay_example :
    try_idempotent_replay 6
      (record { session_id = 1; seat_ids = 11 ∷ 12 ∷ []; idempotency_key = 60 })
      after
    ≡ ok (some (record { hold = acquired_hold; replayed = true }))
acquire-replay_example =
    acquire-replay default_hold_configuration 1000 6 two_seats generated before after
      before-IsConsistent acquired (11 ∷ 12 ∷ []) refl

Reach-IsConsistent_example : IsConsistent after
Reach-IsConsistent_example = Reach-IsConsistent before-IsConsistent (
    Reach.next Reach.here
      (Step.acquire default_hold_configuration 1000 6 two_seats generated acquired))

sweep_expired_holds_complete_example :
    (r : ExpirySweepResult) × (db : Database) × (sweep_expired_holds
        (λ d. d)
        (λ _. [])
        1000
        100
        none
        before
      ≡ some (r, db))
    × (any (is_sweepable [] 1000) db.holds ≡ false)
    × (r.holds_expired + active_count db.holds ≡ 1)
sweep_expired_holds_complete_example = sweep_expired_holds_complete [] 1000 100 before (omega arith)

release_seat_hold-idempotent_example :
    let (first, db') = release_seat_hold (λ d. d) 800 (some 5) 70 before in
    let (second, db'') = release_seat_hold (λ d. d) 850 (some 5) 70 db' in
    (first ≡ ok (record { hold = release 800 overdue_hold; released = true }))
    × (db'.inventory ≡ map (vacated 7) before.inventory)
    × (db'.holds ≡ map (closed 800 7) before.holds)
    × (second ≡ ok (record { hold = release 800 overdue_hold; released = false }))
    × (db'' ≡ db')
unfolding find_by_token
release_seat_hold-idempotent_example =
    release_seat_hold-idempotent 800 850 5 70 overdue_hold before before-IsConsistent refl refl refl
