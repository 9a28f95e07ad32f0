-- ===== src/Holds/Expiry.antt =====
-- src/server/holds/expiry-service.ts: the ways in which holds of a session end by themselves. Each
-- function is one committed transaction, or the part of the caller's that it runs in.
use seatflow.Prelude.{
  ℕ, ◌==◌, Bool, false, ◌&&◌, none, some, List, ◌++◌, map, length, filter, contains, leb,
  if◌then◌else◌,
}
use seatflow.Domain.{SeatInventoryState, SeatHoldStatus}
use seatflow.Holds.Tables.{
  InventoryRow, SeatHold, OutboxEntry, InventoryEventType, Database, is_active, update_holds,
  hold_ids,
}

-- Whether a row points at one of the given holds.
abbrev pub points_at : List ℕ → InventoryRow → Bool
points_at ids r = elim r.current_hold_id [ none ↦ false | some i ↦ contains ids i ]

abbrev pub freed : InventoryRow → InventoryRow
freed r = record r {
  state = SeatInventoryState.available;
  current_hold_id = none;
  hold_expires_at = none;
}

abbrev pub release_row : List ℕ → InventoryRow → InventoryRow
release_row ids r = if points_at ids r then freed r else r

-- The rows after `releaseInventoryForHolds`, and the number of them that it changes.
abbrev pub release_rows : List ℕ → List InventoryRow → List InventoryRow
release_rows ids = map (release_row ids)

abbrev pub released_count : List ℕ → List InventoryRow → ℕ
released_count ids rows = length (filter (points_at ids) rows)

-- `enqueueInventoryEvent`, once for each hold.
abbrev pub events_for : InventoryEventType → ℕ → List ℕ → List OutboxEntry
events_for t session = map (λ i. record { event_type = t; session_id = session; aggregate_id = i })

-- The `WHERE` clause of the lazy cleanup.
abbrev pub is_overdue_in : ℕ → ℕ → SeatHold → Bool
is_overdue_in session now h =
    h.session_id == session && (is_active h.status && leb h.expires_at now)

abbrev pub expire : ℕ → SeatHold → SeatHold
expire now h = record h { status = SeatHoldStatus.expired; expired_at = some now }

abbrev pub release : ℕ → SeatHold → SeatHold
release now h = record h { status = SeatHoldStatus.released; released_at = some now }

unfoldable pub release_expired_holds_for_session : ℕ → ℕ → Database → Database × ℕ
release_expired_holds_for_session session now db =
    let expired = hold_ids (is_overdue_in session now) db.holds in
    (
      record db {
        holds = update_holds (is_overdue_in session now) (expire now) db.holds;
        inventory = release_rows expired db.inventory;
        outbox = db.outbox ++ events_for InventoryEventType.hold_expired session expired;
      },
      length expired,
    )

abbrev pub is_active_in : ℕ → SeatHold → Bool
is_active_in session h = h.session_id == session && is_active h.status

unfoldable pub release_active_holds_for_session : ℕ → ℕ → Database → Database × ℕ
release_active_holds_for_session session now db =
    let released = hold_ids (is_active_in session) db.holds in
    (
      record db {
        holds = update_holds (is_active_in session) (release now) db.holds;
        inventory = release_rows released db.inventory;
      },
      length released,
    )
