-- ===== src/Holds/Release.antt =====
-- `releaseSeatHold` of src/server/holds/hold-service.ts, and the transaction of
-- `cancelEventSession` of src/server/events/event-session-service.ts.
use seatflow.Prelude.{
  ℕ, ◌==◌, Bool, true, false, ◌&&◌, Option, none, some, List, [], ◌∷◌, ◌++◌, length, filter,
  if◌then◌else◌, map, Result, ok, err,
}
use seatflow.Domain.{EventSessionStatus}
use seatflow.Holds.Tables.{
  SeatHold, Session, InventoryEventType, Database, is_active, find_hold, find_by_token,
  update_holds,
}
use seatflow.Holds.Expiry.{release, release_rows, release_active_holds_for_session}
use seatflow.Holds.Acquire.{HoldError, authentication, authorization}

-- `id: hold.id, status: "ACTIVE"`.
abbrev pub is_this_active : ℕ → SeatHold → Bool
is_this_active i h = h.id == i && is_active h.status

-- The transaction: the hold is ended only if it is still ACTIVE.
unfoldable pub release_transaction : SeatHold → ℕ → Database → Database × Bool
release_transaction hold now db =
    if length (filter (is_this_active hold.id) db.holds) == 1
    then (
      record db {
        holds = update_holds (is_this_active hold.id) (release now) db.holds;
        inventory = release_rows (hold.id ∷ []) db.inventory;
        outbox =
            db.outbox
            ++ record {
              event_type = InventoryEventType.hold_released;
              session_id = hold.session_id;
              aggregate_id = hold.id;
            }
              ∷ [];
      },
      true,
    )
    else (record db { holds = update_holds (is_this_active hold.id) (release now) db.holds }, false)

pub record ReleasedHold : Type 0 where
  pub hold : SeatHold
  pub released : Bool

abbrev pub with_view : ℕ → Bool → Database → Result HoldError ReleasedHold
with_view i done db = elim (find_hold i db.holds) [
  | none ↦ err authorization
  | some h ↦ ok (record { hold = h; released = done })
]

-- The hold is read first; `between` is what other requests commit before the transaction starts.
unfoldable pub release_found :
    (Database → Database) → ℕ → SeatHold → Database → Result HoldError ReleasedHold × Database
release_found between now hold db =
    if is_active hold.status
    then (let (db', done) = release_transaction hold now (between db) in
        (with_view hold.id done db', db'))
    else (with_view hold.id false db, db)

unfoldable pub release_seat_hold :
    (Database → Database) → ℕ → Option ℕ → ℕ → Database → Result HoldError ReleasedHold × Database
release_seat_hold between now none token db = (err authentication, db)
release_seat_hold between now (some user) token db = elim (find_by_token token db.holds) [
  | none ↦ (err authorization, db)
  | some hold ↦
      if hold.user_id == user then release_found between now hold db else (err authorization, db)
]

abbrev pub cancel_session : ℕ → List Session → List Session
cancel_session i =
    map (λ s. if s.id == i then record s { status = EventSessionStatus.cancelled } else s)

-- The transaction of `cancelEventSession`, behind its authorization and lifecycle checks.
unfoldable pub cancel_transaction : ℕ → ℕ → Database → Database
cancel_transaction session now db₀ =
    let db = record db₀ { sessions = cancel_session session db₀.sessions } in
    let done = (release_active_holds_for_session session now db).0 in
    record done {
      outbox =
          done.outbox
          ++ record {
            event_type = InventoryEventType.session_cancelled;
            session_id = session;
            aggregate_id = session;
          }
            ∷ [];
    }
