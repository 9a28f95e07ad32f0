-- ===== src/Tickets.antt =====
-- Tickets: src/features/tickets/lifecycle.ts.
pub mod Validation
pub mod SingleEntry
use seatflow.Prelude.{
  ℕ, ◌+◌, ◌-◌, ◌*◌, ◌≡◌, ◌≤◌, Bool, true, false, ◌&&◌, Option, ltb, is_none, if◌then◌else◌, arith,
}
use seatflow.Domain.{EventSessionStatus, TicketStatus}

pub data EntryWindowOutcome : Type 0 where
  opened too_early too_late session_cancelled : EntryWindowOutcome

pub record EntryWindowInput : Type 0 where
  pub session_status : EventSessionStatus
  pub start_at : ℕ
  pub end_at : ℕ
  pub now : ℕ
  pub early_minutes : ℕ
  pub late_minutes : ℕ

abbrev is_cancelled_session : EventSessionStatus → Bool
is_cancelled_session EventSessionStatus.cancelled = true
is_cancelled_session _ = false

-- `opensAt` before the epoch is 0 here, which no time is before either.
unfoldable pub decide_entry_window : EntryWindowInput → EntryWindowOutcome
decide_entry_window i =
    let opens_at = i.start_at - i.early_minutes * 60000 in
    let closes_at = i.end_at + i.late_minutes * 60000 in
    if is_cancelled_session i.session_status
    then session_cancelled
    else if ltb i.now opens_at
    then too_early
    else if ltb closes_at i.now
    then too_late
    else opened

unfoldable pub can_rotate_ticket : TicketStatus → Bool
can_rotate_ticket TicketStatus.active = true
can_rotate_ticket _ = false

-- The arguments: `expiresAt`, `usedAt`, `revokedAt` and `now`.
unfoldable pub is_download_grant_usable : ℕ → Option ℕ → Option ℕ → ℕ → Bool
is_download_grant_usable expires_at used_at revoked_at now =
    is_none used_at && is_none revoked_at && ltb now expires_at

abbrev pub is_opened : EntryWindowOutcome → Bool
is_opened opened = true
is_opened _ = false
