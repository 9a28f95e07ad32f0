-- ===== src/Payments/Snapshots.antt =====
-- `snapshotsMatch` of src/server/payments/webhook-service.ts.
use seatflow.Prelude.{
  ℕ, ◌==◌, Bool, true, false, ◌&&◌, not, Option, none, some, List, [], ◌∷◌, all, length, is_empty,
  is_some_of, if◌then◌else◌,
}
use seatflow.Domain.{same_currency, SeatInventoryState}
use seatflow.Holds.Tables.{InventoryRow, SeatHold, SeatHoldItem, find_row}
use seatflow.Checkout.Tables.{OrderItem}

-- `new Map(entries).get(inventoryId)`: a later entry replaces an earlier one.
unfoldable pub hold_item_for : ℕ → List SeatHoldItem → Option SeatHoldItem
hold_item_for i [] = none
hold_item_for i (it ∷ its) = elim (hold_item_for i its) [
  | some later ↦ some later
  | none ↦ if it.inventory_id == i then some it else none
]

abbrev pub is_held : SeatInventoryState → Bool
is_held SeatInventoryState.held = true
is_held _ = false

abbrev pub matches_hold_item : OrderItem → SeatHoldItem → Bool
matches_hold_item o it = it.price_minor == o.price_minor && same_currency it.currency o.currency

abbrev pub matches_row : SeatHold → ℕ → OrderItem → InventoryRow → Bool
matches_row hold session o r =
    r.session_id == session
    && r.seat_id == o.seat_id
    && r.section_id == o.section_id
    && r.price_tier_id == o.price_tier_id
    && r.price_minor == o.price_minor
    && same_currency r.currency o.currency
    && is_held r.state
    && is_some_of hold.id r.current_hold_id
    && is_some_of hold.expires_at r.hold_expires_at

-- The test of one order item; the rows have distinct ids, so the first one is the one.
unfoldable pub item_matches :
    SeatHold → ℕ → List SeatHoldItem → List InventoryRow → OrderItem → Bool
unfolding hold_item_for
item_matches hold session its rows o = elim (hold_item_for o.inventory_id its) [
  | none ↦ false
  | some it ↦ elim (find_row o.inventory_id rows) [
    | none ↦ false
    | some r ↦ matches_hold_item o it && matches_row hold session o r
  ]
]

-- The arguments: the hold, the session of the order, its items, those of the hold and the locked rows.
unfoldable pub snapshots_match :
    SeatHold → ℕ → List OrderItem → List SeatHoldItem → List InventoryRow → Bool
unfolding item_matches
snapshots_match hold session items its rows =
    not (is_empty items)
    && length items == length its
    && length items == length rows
    && all (item_matches hold session its rows) items
