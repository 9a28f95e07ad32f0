-- ===== src/Holds/Eligibility.antt =====
-- src/features/holds/eligibility.ts and src/features/holds/lifecycle.ts: when a session may be
-- sold, and when a hold is live, expired or releasable.
use seatflow.Prelude.{ℕ, ◌-◌, ◌/◌, Bool, true, false, ◌&&◌, leb, ltb, if◌then◌else◌}
use seatflow.Domain.{EventStatus, EventSessionStatus, SeatHoldStatus}
use seatflow.Holds.Tables.{is_active}

pub data SaleBlockReason : Type 0 where
  event_unavailable session_cancelled session_completed session_started : SaleBlockReason
  sales_ended sales_not_started sales_not_open no_inventory : SaleBlockReason

pub data SalesEligibility : Type 0 where
  sellable : SalesEligibility
  unsellable : SaleBlockReason → SalesEligibility

pub record EligibilityInput : Type 0 where
  pub event_status : EventStatus
  pub session_status : EventSessionStatus
  pub session_start_at : ℕ
  pub sales_start_at : ℕ
  pub sales_end_at : ℕ
  pub has_inventory : Bool
  pub now : ℕ

abbrev pub is_published : EventStatus → Bool
is_published EventStatus.published = true
is_published _ = false

abbrev is_cancelled : EventSessionStatus → Bool
is_cancelled EventSessionStatus.cancelled = true
is_cancelled _ = false

abbrev is_completed : EventSessionStatus → Bool
is_completed EventSessionStatus.completed = true
is_completed _ = false

abbrev pub is_on_sale : EventSessionStatus → Bool
is_on_sale EventSessionStatus.on_sale = true
is_on_sale _ = false

unfoldable pub evaluate_session_sales_eligibility : EligibilityInput → SalesEligibility
evaluate_session_sales_eligibility i =
    if is_published i.event_status
    then (if is_cancelled i.session_status
        then unsellable SaleBlockReason.session_cancelled
        else if is_completed i.session_status
        then unsellable SaleBlockReason.session_completed
        else if leb i.session_start_at i.now
        then unsellable SaleBlockReason.session_started
        else if leb i.sales_end_at i.now
        then unsellable SaleBlockReason.sales_ended
        else if ltb i.now i.sales_start_at
        then unsellable SaleBlockReason.sales_not_started
        else if is_on_sale i.session_status
        then (if i.has_inventory then sellable else unsellable SaleBlockReason.no_inventory)
        else unsellable SaleBlockReason.sales_not_open)
    else unsellable SaleBlockReason.event_unavailable

-- `isSessionSellable`.
unfoldable pub is_session_sellable : EligibilityInput → Bool
unfolding evaluate_session_sales_eligibility
is_session_sellable i = elim (evaluate_session_sales_eligibility i) [
  | sellable ↦ true
  | unsellable _ ↦ false
]

-- The arguments: the hold's status, its expiry, and the server's time.
unfoldable pub is_hold_expired : SeatHoldStatus → ℕ → ℕ → Bool
is_hold_expired status expires_at now = is_active status && leb expires_at now

unfoldable pub is_hold_live : SeatHoldStatus → ℕ → ℕ → Bool
is_hold_live status expires_at now = is_active status && ltb now expires_at

unfoldable pub can_release_hold : SeatHoldStatus → Bool
can_release_hold status = is_active status

unfoldable pub is_terminal_hold_status : SeatHoldStatus → Bool
is_terminal_hold_status SeatHoldStatus.released = true
is_terminal_hold_status SeatHoldStatus.expired = true
is_terminal_hold_status SeatHoldStatus.converted = true
is_terminal_hold_status SeatHoldStatus.active = false

-- `Math.max(0, Math.floor((expiresAt - now) / 1000))`: the subtraction of ℕ stops at 0.
unfoldable pub hold_seconds_remaining : SeatHoldStatus → ℕ → ℕ → ℕ
hold_seconds_remaining status expires_at now =
    if is_active status then (expires_at - now) / 1000 else 0
