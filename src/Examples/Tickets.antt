-- ===== src/Examples/Tickets.antt =====
-- One ticket that is scanned twice.
use seatflow.Prelude.{ℕ, ◌≡◌, refl, true, some, List, [], ◌∷◌, all, leb}
use seatflow.Domain.{EventSessionStatus, BookingStatus, TicketStatus}
use seatflow.Refunds.Payment.{TicketCredentialStatus}
use seatflow.Tickets.{decide_entry_window}
use seatflow.Tickets.Validation.{
  Gate, ScanInput, MembershipRole, EntryTicket, EntrySession, Credential, is_accepted, decide_entry,
}
use seatflow.Tickets.SingleEntry.{IsSingle, entries, scans, scans-single, decide_entry_iff}

abbrev gate : Gate
gate = record {
  credentials =
      record { id = 3; ticket_id = 5; hash = 77; status = TicketCredentialStatus.active } ∷ [];
  tickets =
      record {
        id = 5;
        session_id = 1;
        event_id = 11;
        status = TicketStatus.active;
        booking_status = BookingStatus.confirmed;
      }
      ∷ [];
  sessions =
      record {
        id = 1;
        event_id = 11;
        organizer_id = 12;
        venue_organization_id = 13;
        status = EventSessionStatus.on_sale;
        start_at = 9000000;
        end_at = 16000000;
      }
      ∷ [];
  memberships = record { user_id = 40; organization_id = 12; role = MembershipRole.admin } ∷ [];
  redemptions = [];
}

abbrev scan_of : ℕ → ScanInput
scan_of key = record {
  scanner_user_id = 40;
  session_id = 1;
  credential = some 77;
  early_minutes = 60;
  late_minutes = 30;
  idempotency_key = some key;
}

abbrev two_scans : List (ℕ × ScanInput)
two_scans = (9000000, scan_of 1) ∷ (9100000, scan_of 2) ∷ []

gate-IsSingle : IsSingle gate
gate-IsSingle = record { single = refl }

scans-single_example :
    all
      (λ t. leb (entries t.id (scans (λ n. n) two_scans gate).redemptions) 1)
      (scans (λ n. n) two_scans gate).tickets
    ≡ true
scans-single_example = scans-single (λ n. n) two_scans gate gate-IsSingle

abbrev ticket : EntryTicket
ticket = record {
  id = 5;
  session_id = 1;
  event_id = 11;
  status = TicketStatus.active;
  booking_status = BookingStatus.confirmed;
}

abbrev credential : Credential
credential = record { id = 3; ticket_id = 5; hash = 77; status = TicketCredentialStatus.active }

abbrev session : EntrySession
session = record {
  id = 1;
  event_id = 11;
  organizer_id = 12;
  venue_organization_id = 13;
  status = EventSessionStatus.on_sale;
  start_at = 9000000;
  end_at = 16000000;
}

decide_entry_iff_example :
    is_accepted (decide_entry 9000000 (scan_of 1) 11 credential ticket session) ≡ true
unfolding decide_entry_window
decide_entry_iff_example = decide_entry_iff 9000000 (scan_of 1) 11 credential ticket session
