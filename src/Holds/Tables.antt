-- ===== src/Holds/Tables.antt =====
-- The tables that seat holds live in (prisma/schema.prisma: SessionSeatInventory, SeatHold,
-- SeatHoldItem, InventoryEventOutbox, EventSession), the queries on them, and the errors of
-- src/server/holds/errors.ts.
use seatflow.Prelude.{
  ℕ, ◌==◌, Bool, true, false, ◌&&◌, ◌||◌, Option, none, some, List, [], ◌∷◌, map, filter,
  if◌then◌else◌,
}
use seatflow.Domain.{Currency, EventStatus, EventSessionStatus, SeatInventoryState, SeatHoldStatus}

pub record InventoryRow : Type 0 where
  pub id : ℕ
  pub session_id : ℕ
  pub seat_id : ℕ
  pub section_id : ℕ
  pub price_tier_id : ℕ
  pub price_minor : ℕ
  pub currency : Currency
  pub state : SeatInventoryState
  pub current_hold_id : Option ℕ
  pub hold_expires_at : Option ℕ

pub record SeatHold : Type 0 where
  pub id : ℕ
  pub public_token : ℕ
  pub session_id : ℕ
  pub user_id : ℕ
  pub status : SeatHoldStatus
  pub idempotency_key : ℕ
  pub expires_at : ℕ
  pub released_at : Option ℕ
  pub expired_at : Option ℕ
  pub converted_at : Option ℕ

pub record SeatHoldItem : Type 0 where
  pub hold_id : ℕ
  pub inventory_id : ℕ
  pub price_minor : ℕ
  pub currency : Currency

pub data InventoryEventType : Type 0 where
  inventory_materialized hold_created hold_released hold_expired : InventoryEventType
  session_cancelled checkout_created payment_intent_created : InventoryEventType
  payment_succeeded payment_failed inventory_booked : InventoryEventType
  booking_confirmed payment_requires_review : InventoryEventType

pub record OutboxEntry : Type 0 where
  pub event_type : InventoryEventType
  pub session_id : ℕ
  pub aggregate_id : ℕ

-- An EventSession with the status of its event.
pub record Session : Type 0 where
  pub id : ℕ
  pub event_id : ℕ
  pub organization_id : ℕ
  pub status : EventSessionStatus
  pub event_status : EventStatus
  pub start_at : ℕ
  pub sales_start_at : ℕ
  pub sales_end_at : ℕ

pub record Database : Type 0 where
  pub inventory : List InventoryRow
  pub holds : List SeatHold
  pub items : List SeatHoldItem
  pub outbox : List OutboxEntry
  pub sessions : List Session
  pub hold_conflicts : ℕ

-- `status === "ACTIVE"`.
abbrev pub is_active : SeatHoldStatus → Bool
is_active SeatHoldStatus.active = true
is_active _ = false

-- `state === "AVAILABLE"`.
abbrev pub is_available : SeatInventoryState → Bool
is_available SeatInventoryState.available = true
is_available _ = false

-- `seatHold.findUnique({ where: { id } })`.
unfoldable pub find_hold : ℕ → List SeatHold → Option SeatHold
find_hold i [] = none
find_hold i (h ∷ hs) = if h.id == i then some h else find_hold i hs

-- `seatHold.findUnique({ where: { publicToken } })`.
unfoldable pub find_by_token : ℕ → List SeatHold → Option SeatHold
find_by_token t [] = none
find_by_token t (h ∷ hs) = if h.public_token == t then some h else find_by_token t hs

-- Whether a hold has the unique triple (session, user, idempotency key).
abbrev pub has_key : ℕ → ℕ → ℕ → SeatHold → Bool
has_key session user key h =
    h.session_id == session && (h.user_id == user && h.idempotency_key == key)

-- `seatHold.findUnique({ where: { sessionId_userId_idempotencyKey } })`.
unfoldable pub find_by_key : ℕ → ℕ → ℕ → List SeatHold → Option SeatHold
find_by_key s u k [] = none
find_by_key s u k (h ∷ hs) = if has_key s u k h then some h else find_by_key s u k hs

unfoldable pub find_session : ℕ → List Session → Option Session
find_session i [] = none
find_session i (s ∷ ss) = if s.id == i then some s else find_session i ss

unfoldable pub find_row : ℕ → List InventoryRow → Option InventoryRow
find_row i [] = none
find_row i (r ∷ rs) = if r.id == i then some r else find_row i rs

-- `updateMany({ where, data })` on the holds.
abbrev pub update_hold : (SeatHold → Bool) → (SeatHold → SeatHold) → SeatHold → SeatHold
update_hold p f h = if p h then f h else h

abbrev pub update_holds : (SeatHold → Bool) → (SeatHold → SeatHold) → List SeatHold → List SeatHold
update_holds p f = map (update_hold p f)

-- The ids of the holds that an `UPDATE ... RETURNING "id"` touches.
unfoldable pub hold_ids : (SeatHold → Bool) → List SeatHold → List ℕ
hold_ids p [] = []
hold_ids p (h ∷ hs) = let rest = hold_ids p hs in if p h then h.id ∷ rest else rest

-- The items of one hold.
abbrev pub items_of : ℕ → List SeatHoldItem → List SeatHoldItem
items_of i = filter (λ it. it.hold_id == i)

-- Whether a hold has an item for an inventory row.
unfoldable pub has_item : ℕ → ℕ → List SeatHoldItem → Bool
has_item i row [] = false
has_item i row (it ∷ its) = (it.hold_id == i && it.inventory_id == row) || has_item i row its
