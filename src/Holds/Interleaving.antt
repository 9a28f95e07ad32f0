-- ===== src/Holds/Interleaving.antt =====
-- The requests and workers as an interleaving of committed transactions.
use seatflow.Prelude.{ℕ, ◌≡◌, List, ok}
use seatflow.Holds.Tables.{SeatHold, Database}
use seatflow.Holds.Expiry.{release_expired_holds_for_session}
use seatflow.Holds.Consistency.{IsConsistent}
use seatflow.Holds.Acquire.{
  HoldConfiguration, HoldCreateInput, Generated, acquire_transaction, record_hold_conflict,
}
use seatflow.Holds.Release.{release_transaction, cancel_transaction}
use seatflow.Holds.Sweep.{sweep_batch}
use seatflow.Holds.Acquiring.{acquire_transaction-Committed, Committed-IsConsistent}
use seatflow.Holds.Closing.{
  release_expired-IsConsistent, release_transaction-IsConsistent, cancel_transaction-IsConsistent,
  sweep_batch-IsConsistent,
}

-- One committed transaction, at any time, of any customer or worker.
pub data Step (db : Database) : Database → Type 0 where
  acquire :
      (config : HoldConfiguration) (now user : ℕ) (input : HoldCreateInput) (gen : Generated)
      {db' : Database}
      → acquire_transaction config now user input gen db ≡ ok db'
      → Step db db'
  release : (hold : SeatHold) (now : ℕ) → Step db (release_transaction hold now db).0
  cleanup : (session now : ℕ) → Step db (release_expired_holds_for_session session now db).0
  sweep : (locked : List ℕ) (now size : ℕ) → Step db (sweep_batch locked now size db).0
  cancel : (session now : ℕ) → Step db (cancel_transaction session now db)
  metric : Step db (record_hold_conflict db)

pub data Reach (start : Database) : Database → Type 0 where
  here : Reach start start
  next : {db db' : Database} → Reach start db → Step db db' → Reach start db'

pub Step-IsConsistent : {db db' : Database} → Step db db' → IsConsistent db → IsConsistent db'
Step-IsConsistent {db} (acquire config now user input gen {db'} e) c =
    Committed-IsConsistent config now user input gen db db' c
      (acquire_transaction-Committed config now user input gen db db' e)
Step-IsConsistent {db} (release hold now) c = release_transaction-IsConsistent hold now db c
Step-IsConsistent {db} (cleanup session now) c = release_expired-IsConsistent session now db c
Step-IsConsistent {db} (sweep locked now size) c = sweep_batch-IsConsistent locked now size db c
Step-IsConsistent {db} (cancel session now) c = cancel_transaction-IsConsistent session now db c
Step-IsConsistent metric c = record {
  rows = c.rows;
  distinct_rows = c.distinct_rows;
  distinct_holds = c.distinct_holds;
  distinct_seats = c.distinct_seats;
  owned_items = c.owned_items;
}

-- Whatever acquisitions, releases, cleanups, sweeps and cancellations commit, in any order and at
-- any times, consistent tables stay consistent: each HELD row is backed by an ACTIVE hold of its
-- session with an item for the row and the same expiry, and AVAILABLE and BOOKED rows carry no hold.
pub Reach-IsConsistent :
    {start db : Database} → IsConsistent start → Reach start db → IsConsistent db
Reach-IsConsistent c here = c
Reach-IsConsistent c (next r s) = Step-IsConsistent s (Reach-IsConsistent c r)
