-- ===== src/Tickets/Validation.antt =====
-- `validateTicketEntry` of src/server/tickets/validation-service.ts, with `findAuthorizedScannerSession`
-- of src/server/tickets/scanner-authorization.ts. The details that a scanner is shown are left out.
use seatflow.Prelude.{
  ℕ, ◌==◌, Bool, true, false, ◌&&◌, ◌||◌, not, Option, none, some, List, [], ◌∷◌, ◌++◌, any,
  is_some_of, Result, ok, ◌>>=◌, ◌>>◌, guard, or_throw, find_by, put_by, if◌then◌else◌,
}
use seatflow.Domain.{EventSessionStatus, BookingStatus, TicketStatus}
use seatflow.Refunds.Payment.{TicketCredentialStatus}
use seatflow.Tickets.{EntryWindowOutcome, decide_entry_window}

pub data RedemptionOutcome : Type 0 where
  accepted already_used revoked invalid wrong_session : RedemptionOutcome
  too_early too_late session_cancelled unauthorized_scanner : RedemptionOutcome

pub record Credential : Type 0 where
  pub id : ℕ
  pub ticket_id : ℕ
  pub hash : ℕ
  pub status : TicketCredentialStatus

-- A Ticket with the status of its booking.
pub record EntryTicket : Type 0 where
  pub id : ℕ
  pub session_id : ℕ
  pub event_id : ℕ
  pub status : TicketStatus
  pub booking_status : BookingStatus

-- An EventSession with the organizations of its event and of its venue.
pub record EntrySession : Type 0 where
  pub id : ℕ
  pub event_id : ℕ
  pub organizer_id : ℕ
  pub venue_organization_id : ℕ
  pub status : EventSessionStatus
  pub start_at : ℕ
  pub end_at : ℕ

pub data MembershipRole : Type 0 where
  owner admin member : MembershipRole

pub record Membership : Type 0 where
  pub user_id : ℕ
  pub organization_id : ℕ
  pub role : MembershipRole

pub record Redemption : Type 0 where
  pub ticket_id : Option ℕ
  pub session_id : ℕ
  pub scanner_user_id : ℕ
  pub outcome : RedemptionOutcome
  pub idempotency_key : Option ℕ

pub record Gate : Type 0 where
  pub credentials : List Credential
  pub tickets : List EntryTicket
  pub sessions : List EntrySession
  pub memberships : List Membership
  pub redemptions : List Redemption

pub data GateError : Type 0 where
  not_found unique_violation : GateError

-- The input; `credential` is what `parseTicketCredential` reads, if it reads anything.
pub record ScanInput : Type 0 where
  pub scanner_user_id : ℕ
  pub session_id : ℕ
  pub credential : Option ℕ
  pub early_minutes : ℕ
  pub late_minutes : ℕ
  pub idempotency_key : Option ℕ

pub record ScanResult : Type 0 where
  pub outcome : RedemptionOutcome
  pub accepted : Bool

abbrev pub credential_key : Credential → ℕ
credential_key c = c.id

abbrev pub credential_hash : Credential → ℕ
credential_hash c = c.hash

abbrev pub ticket_key : EntryTicket → ℕ
ticket_key t = t.id

abbrev pub session_key : EntrySession → ℕ
session_key s = s.id

abbrev pub is_accepted : RedemptionOutcome → Bool
is_accepted accepted = true
is_accepted _ = false

abbrev pub result_of : RedemptionOutcome → ScanResult
result_of o = record { outcome = o; accepted = is_accepted o }

abbrev pub can_scan : MembershipRole → Bool
can_scan owner = true
can_scan admin = true
can_scan member = false

-- Whether `findAuthorizedScannerSession` finds a membership.
abbrev pub is_scanner_of : (user : ℕ) → EntrySession → Membership → Bool
is_scanner_of user s m =
    m.user_id == user
    && can_scan m.role
    && (m.organization_id == s.organizer_id || m.organization_id == s.venue_organization_id)

-- The unique pair (scannerUserId, idempotencyKey), which rows without a key do not have.
abbrev pub has_scan_key : (user key : ℕ) → Redemption → Bool
has_scan_key user key r = r.scanner_user_id == user && is_some_of key r.idempotency_key

unfoldable pub find_scan : (user : ℕ) → Option ℕ → List Redemption → Option Redemption
find_scan user none rs = none
find_scan user (some key) [] = none
find_scan user (some key) (r ∷ rs) =
    if has_scan_key user key r then some r else find_scan user (some key) rs

abbrev pub redemption_of : ScanInput → Option ℕ → RedemptionOutcome → Redemption
redemption_of i ticket o = record {
  ticket_id = ticket;
  session_id = i.session_id;
  scanner_user_id = i.scanner_user_id;
  outcome = o;
  idempotency_key = i.idempotency_key;
}

abbrev pub is_free_key : ScanInput → List Redemption → Bool
is_free_key i rs = elim (find_scan i.scanner_user_id i.idempotency_key rs) [
  | none ↦ true
  | some r ↦ false
]

abbrev pub add_redemption : ScanInput → Option ℕ → RedemptionOutcome → Gate → Gate
add_redemption i ticket o g = record g {
  redemptions = g.redemptions ++ redemption_of i ticket o ∷ [];
}

-- `ticketRedemptionEvent.create`.
unfoldable pub create_redemption :
    ScanInput → Option ℕ → RedemptionOutcome → Gate → Result GateError Gate
unfolding find_scan
create_redemption i ticket o g = do
  guard (is_free_key i g.redemptions) unique_violation
  ok (add_redemption i ticket o g)

-- The same with `.catch(() => undefined)`.
abbrev pub try_redemption : ScanInput → Option ℕ → RedemptionOutcome → Gate → Gate
try_redemption i ticket o g = if is_free_key i g.redemptions then add_redemption i ticket o g else g

abbrev pub is_used : TicketCredentialStatus → TicketStatus → Bool
is_used TicketCredentialStatus.used t = true
is_used c TicketStatus.used = true
is_used _ _ = false

abbrev pub is_revoked : TicketCredentialStatus → TicketStatus → Bool
is_revoked TicketCredentialStatus.revoked t = true
is_revoked TicketCredentialStatus.replaced t = true
is_revoked c TicketStatus.revoked = true
is_revoked _ _ = false

abbrev pub is_confirmed_booking : BookingStatus → Bool
is_confirmed_booking BookingStatus.confirmed = true
is_confirmed_booking _ = false

abbrev pub outcome_of_window : EntryWindowOutcome → RedemptionOutcome
outcome_of_window EntryWindowOutcome.opened = accepted
outcome_of_window EntryWindowOutcome.too_early = RedemptionOutcome.too_early
outcome_of_window EntryWindowOutcome.too_late = RedemptionOutcome.too_late
outcome_of_window EntryWindowOutcome.session_cancelled = RedemptionOutcome.session_cancelled

-- The decision; the session is that of the ticket.
unfoldable pub decide_entry :
    (now : ℕ)
    → ScanInput
    → (event : ℕ) → Credential
    → EntryTicket
    → EntrySession
    → RedemptionOutcome
decide_entry now i event c t s =
    if not (t.session_id == i.session_id) || not (t.event_id == event)
    then wrong_session
    else if is_used c.status t.status
    then already_used
    else if is_revoked c.status t.status
    then revoked
    else if not (is_confirmed_booking t.booking_status)
    then revoked
    else outcome_of_window (
        decide_entry_window (record {
          session_status = s.status;
          start_at = s.start_at;
          end_at = s.end_at;
          now = now;
          early_minutes = i.early_minutes;
          late_minutes = i.late_minutes;
        }))

abbrev pub use_ticket : Credential → EntryTicket → Gate → Gate
use_ticket c t g = record g {
  credentials =
      put_by credential_key (record c { status = TicketCredentialStatus.used }) g.credentials;
  tickets = put_by ticket_key (record t { status = TicketStatus.used }) g.tickets;
}

-- The writes of a decision.
unfoldable pub record_entry :
    ScanInput
    → RedemptionOutcome
    → Credential
    → EntryTicket
    → Gate
    → Result GateError (ScanResult × Gate)
unfolding create_redemption
record_entry i o c t g₀ = do
  g ← create_redemption i (some t.id) o g₀
  ok (result_of o, if is_accepted o then use_ticket c t g else g)

unfoldable pub reject_invalid : ScanInput → Gate → Result GateError (ScanResult × Gate)
unfolding create_redemption
reject_invalid i g₀ = do g ← create_redemption i none invalid g₀; ok (result_of invalid, g)

unfoldable pub enter_with :
    (now : ℕ) → ScanInput → (event : ℕ) → Credential → Gate → Result GateError (ScanResult × Gate)
unfolding decide_entry record_entry
enter_with now i event c g = do
  t ← or_throw (find_by ticket_key c.ticket_id g.tickets) not_found
  s ← or_throw (find_by session_key t.session_id g.sessions) not_found
  record_entry i (decide_entry now i event c t s) c t g

-- `hashTicketCredential` with its secret.
module _ (hash_credential : ℕ → ℕ) where
  -- The transaction after the lookup of the idempotency key.
  unfoldable pub enter :
      (now : ℕ) → ScanInput → (event : ℕ) → Gate → Result GateError (ScanResult × Gate)
  unfolding reject_invalid enter_with
  enter now i event g = elim i.credential [
    | none ↦ reject_invalid i g
    | some presented ↦ elim (find_by credential_hash (hash_credential presented) g.credentials) [
      | none ↦ reject_invalid i g
      | some c ↦ enter_with now i event c g
    ]
  ]

  unfoldable pub validate_ticket_entry :
      (now : ℕ) → ScanInput → Gate → Result GateError (ScanResult × Gate)
  unfolding find_scan enter
  validate_ticket_entry now i g = elim (find_by session_key i.session_id g.sessions) [
    | none ↦ ok (result_of unauthorized_scanner, g)
    | some target ↦
        if any (is_scanner_of i.scanner_user_id target) g.memberships
        then elim (find_scan i.scanner_user_id i.idempotency_key g.redemptions) [
          | some r ↦ ok (result_of r.outcome, g)
          | none ↦ enter now i target.event_id g
        ]
        else ok (result_of unauthorized_scanner, try_redemption i none unauthorized_scanner g)
  ]
