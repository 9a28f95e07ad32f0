-- ===== src/Tickets/SingleEntry.antt =====
-- A ticket admits one person, whatever src/server/tickets/validation-service.ts is asked.
use seatflow.Prelude.{
  ℕ, ◌+◌, ◌==◌, ◌≡◌, refl, Bool, true, false, ◌&&◌, Option, none, some, List, [], ◌∷◌, ◌++◌, all,
  any, length, filter, leb, is_some_of, Result, ok, err, >>=-eq-ok, ok-injective, or_throw,
  or_throw-ok, find_by, put_by, find_by-key, find_by-all, if◌then◌else◌, arith, Bool-cases,
  Option-cases, inl, inr, ==_eq, ==_self,
}
use seatflow.Domain.{TicketStatus}
use seatflow.Refunds.Payment.{TicketCredentialStatus}
use seatflow.Tickets.{is_opened, decide_entry_window}
use seatflow.Tickets.Validation.{
  RedemptionOutcome, invalid, unauthorized_scanner, Credential, EntryTicket, EntrySession,
  Redemption, Gate, GateError, not_found, ScanInput, ScanResult, credential_hash, ticket_key,
  session_key, is_accepted, result_of, is_scanner_of, find_scan, redemption_of, is_free_key,
  add_redemption, create_redemption, try_redemption, decide_entry, use_ticket, record_entry,
  reject_invalid, enter_with, enter, validate_ticket_entry, is_confirmed_booking,
}

-- The entries that were accepted for a ticket.
abbrev pub is_entry : ℕ → Redemption → Bool
is_entry t r = is_accepted r.outcome && is_some_of t r.ticket_id

abbrev pub entries : ℕ → List Redemption → ℕ
entries t rs = length (filter (is_entry t) rs)

abbrev is_used_ticket : TicketStatus → Bool
is_used_ticket TicketStatus.used = true
is_used_ticket _ = false

-- A ticket that is not USED has admitted nobody, one that is has admitted at most one person.
abbrev pub is_single : List Redemption → EntryTicket → Bool
is_single rs t = leb (entries t.id rs) (if is_used_ticket t.status then 1 else 0)

pub record IsSingle (g : Gate) : Type 0 where
  pub single : all (is_single g.redemptions) g.tickets ≡ true

entries-append :
    (t : ℕ) (rs : List Redemption) (r : Redemption)
    → entries t (rs ++ r ∷ []) ≡ entries t rs + (if is_entry t r then 1 else 0)
entries-append t [] r = ground arith
entries-append t (x ∷ rs) r = ground (arith, entries-append t rs r)

rejected-single :
    (rs : List Redemption) (r : Redemption) (ts : List EntryTicket)
    → is_accepted r.outcome ≡ false
    → all (is_single rs) ts ≡ true
    → all (is_single (rs ++ r ∷ [])) ts ≡ true
rejected-single rs r [] a e = refl
rejected-single rs r (t ∷ ts) a e =
    ground (arith, a, e, entries-append t.id rs r, rejected-single rs r ts a (ground (arith, e)))

accepted-single :
    (rs : List Redemption) (r : Redemption) (t : EntryTicket) (ts : List EntryTicket)
    → r.ticket_id ≡ some t.id
    → entries t.id rs ≡ 0
    → all (is_single rs) ts ≡ true
    → all
        (is_single (rs ++ r ∷ []))
        (put_by ticket_key (record t { status = TicketStatus.used }) ts)
      ≡ true
accepted-single rs r t [] a z e = refl
accepted-single rs r t (x ∷ ts) a z e = elim (Bool-cases (x.id == t.id)) [
  | inl here ↦ ground (
    arith,
    here,
    a,
    z,
    entries-append t.id rs r,
    accepted-single rs r t ts a z (ground (arith, e)),
  )
  | inr there ↦ ground (
    arith,
    there,
    a,
    e,
    ==_eq t.id x.id,
    ==_self x.id,
    entries-append x.id rs r,
    accepted-single rs r t ts a z (ground (arith, e)),
  )
]

decide_entry-new :
    (now : ℕ) (i : ScanInput) (event : ℕ) (c : Credential) (t : EntryTicket) (s : EntrySession)
    → is_accepted (decide_entry now i event c t s) ≡ true
    → is_used_ticket t.status ≡ false
unfolding decide_entry
decide_entry-new now i event c t s e = ground (arith, e)

create_redemption-ok :
    (i : ScanInput) (t : Option ℕ) (o : RedemptionOutcome) (g g' : Gate)
    → create_redemption i t o g ≡ ok g'
    → g' ≡ add_redemption i t o g
unfolding create_redemption
create_redemption-ok i t o g g' e = ground (arith, e)

rejected-IsSingle :
    (i : ScanInput) (t : Option ℕ) (o : RedemptionOutcome) (g : Gate)
    → is_accepted o ≡ false
    → IsSingle g
    → IsSingle (add_redemption i t o g)
rejected-IsSingle i t o g a s = record {
  single = rejected-single g.redemptions (redemption_of i t o) g.tickets a s.single;
}

reject_invalid-IsSingle :
    (i : ScanInput) (g : Gate) (r : ScanResult × Gate)
    → reject_invalid i g ≡ ok r
    → IsSingle g
    → IsSingle r.1
unfolding reject_invalid
reject_invalid-IsSingle i g r e s =
    let (g', made, r₁) = >>=-eq-ok (create_redemption i none invalid g) _ e in
    rw (ok-injective r₁) (
      rw (create_redemption-ok i none invalid g g' made)
        (rejected-IsSingle i none invalid g refl s))

record_entry-IsSingle :
    (i : ScanInput) (o : RedemptionOutcome) (c : Credential) (t : EntryTicket) (g : Gate)
    (r : ScanResult × Gate)
    → record_entry i o c t g ≡ ok r
    → find_by ticket_key t.id g.tickets ≡ some t
    → (is_accepted o ≡ true → is_used_ticket t.status ≡ false)
    → IsSingle g
    → IsSingle r.1
unfolding record_entry
record_entry-IsSingle i o c t g r e f new s =
    let (g', made, r₁) = >>=-eq-ok (create_redemption i (some t.id) o g) _ e in
    let same = create_redemption-ok i (some t.id) o g g' made in
    let done : r ≡ (result_of o, if is_accepted o then use_ticket c t g' else g') =
      ok-injective r₁ in
    let old = find_by-all ticket_key (is_single g.redemptions) t.id g.tickets t f s.single in
    rw (done, same)
      (elim (Bool-cases (is_accepted o)) [
        | inr no_entry ↦ rw no_entry (rejected-IsSingle i (some t.id) o g no_entry s)
        | inl entry ↦ rw entry (record {
          single =
              accepted-single g.redemptions (redemption_of i (some t.id) o) t g.tickets refl
                (ground (arith, old, new entry)) s.single;
        })
      ])

enter_with-IsSingle :
    (now : ℕ) (i : ScanInput) (event : ℕ) (c : Credential) (g : Gate) (r : ScanResult × Gate)
    → enter_with now i event c g ≡ ok r
    → IsSingle g
    → IsSingle r.1
unfolding enter_with
enter_with-IsSingle now i event c g r e s =
    let (t, found, r₁) =
      >>=-eq-ok (or_throw (find_by ticket_key c.ticket_id g.tickets) not_found) _ e in
    let (session, _, r₂) =
      >>=-eq-ok (or_throw (find_by session_key t.session_id g.sessions) not_found) _ r₁ in
    let row = or_throw-ok (find_by ticket_key c.ticket_id g.tickets) not_found t found in
    record_entry-IsSingle i (decide_entry now i event c t session) c t g r r₂
      (rw (find_by-key ticket_key c.ticket_id g.tickets t row) row)
      (decide_entry-new now i event c t session) s

kept-IsSingle :
    (o : RedemptionOutcome) (g : Gate) (r : ScanResult × Gate)
    → ◌≡◌ {A = Result GateError (ScanResult × Gate)} (ok (result_of o, g)) (ok r)
    → IsSingle g
    → IsSingle r.1
kept-IsSingle o g r e s = rw (ok-injective e) s

try_redemption-IsSingle :
    (i : ScanInput) (g : Gate)
    → IsSingle g
    → IsSingle (try_redemption i none unauthorized_scanner g)
try_redemption-IsSingle i g s = elim (Bool-cases (is_free_key i g.redemptions)) [
  | inl free ↦ rw free (rejected-IsSingle i none unauthorized_scanner g refl s)
  | inr taken ↦ rw taken s
]

-- The gate after a call: one that throws changes nothing.
abbrev pub after_scan : Result GateError (ScanResult × Gate) → Gate → Gate
after_scan (ok r) g = r.1
after_scan (err thrown) g = g

after_scan-IsSingle :
    (v : Result GateError (ScanResult × Gate)) (g : Gate)
    → ((r : ScanResult × Gate) → v ≡ ok r → IsSingle r.1)
    → IsSingle g
    → IsSingle (after_scan v g)
after_scan-IsSingle (ok r) g f s = f r refl
after_scan-IsSingle (err thrown) g f s = s

module _ (hash_credential : ℕ → ℕ) where
  enter-IsSingle :
      (now : ℕ) (i : ScanInput) (event : ℕ) (g : Gate) (r : ScanResult × Gate)
      → enter hash_credential now i event g ≡ ok r
      → IsSingle g
      → IsSingle r.1
  unfolding enter
  enter-IsSingle now i event g r e s = elim (Option-cases i.credential) [
    | inl unread ↦ reject_invalid-IsSingle i g r (ground (arith, e, unread)) s
    | inr (presented, read) ↦
        elim (Option-cases (find_by credential_hash (hash_credential presented) g.credentials)) [
          | inl unknown ↦ reject_invalid-IsSingle i g r (ground (arith, e, read, unknown)) s
          | inr (c, known) ↦
              enter_with-IsSingle now i event c g r (ground (arith, e, read, known)) s
        ]
  ]

  validate-IsSingle :
      (now : ℕ) (i : ScanInput) (g : Gate) (r : ScanResult × Gate)
      → validate_ticket_entry hash_credential now i g ≡ ok r
      → IsSingle g
      → IsSingle r.1
  unfolding validate_ticket_entry
  validate-IsSingle now i g r e s =
      elim (Option-cases (find_by session_key i.session_id g.sessions)) [
        | inl nowhere ↦ kept-IsSingle unauthorized_scanner g r (ground (arith, e, nowhere)) s
        | inr (target, at) ↦
            elim (Bool-cases (any (is_scanner_of i.scanner_user_id target) g.memberships)) [
              | inr stranger ↦
                  kept-IsSingle unauthorized_scanner (try_redemption i none unauthorized_scanner g)
                    r (ground (arith, e, at, stranger)) (try_redemption-IsSingle i g s)
              | inl scanner ↦
                  elim (Option-cases
                    (find_scan i.scanner_user_id i.idempotency_key g.redemptions)) [
                      | inl first ↦
                          enter-IsSingle now i target.event_id g r
                            (ground (arith, e, at, scanner, first)) s
                      | inr (old, again) ↦
                          kept-IsSingle old.outcome g r (ground (arith, e, at, scanner, again)) s
                    ]
            ]
      ]

  -- One scan after another.
  abbrev pub scan : ℕ × ScanInput → Gate → Gate
  scan (now, i) g = after_scan (validate_ticket_entry hash_credential now i g) g

  abbrev pub scans : List (ℕ × ScanInput) → Gate → Gate
  scans [] g = g
  scans (x ∷ xs) g = scans xs (scan x g)

  scan-IsSingle : (x : ℕ × ScanInput) (g : Gate) → IsSingle g → IsSingle (scan x g)
  scan-IsSingle (now, i) g s =
      after_scan-IsSingle (validate_ticket_entry hash_credential now i g) g
        (λ r e. validate-IsSingle now i g r e s) s

  scans-IsSingle : (xs : List (ℕ × ScanInput)) (g : Gate) → IsSingle g → IsSingle (scans xs g)
  scans-IsSingle [] g s = s
  scans-IsSingle (x ∷ xs) g s = scans-IsSingle xs (scan x g) (scan-IsSingle x g s)

single-once :
    (rs : List Redemption) (ts : List EntryTicket)
    → all (is_single rs) ts ≡ true
    → all (λ t. leb (entries t.id rs) 1) ts ≡ true
single-once rs [] e = refl
single-once rs (t ∷ ts) e = ground (arith, e, single-once rs ts (ground (arith, e)))

-- Whatever credentials are scanned, by whom, when and in which order, no ticket admits more than one
-- person. At the start a ticket that is not USED has admitted nobody, and a USED one at most one
-- person.
pub scans-single :
    (hash_credential : ℕ → ℕ) (xs : List (ℕ × ScanInput)) (g : Gate)
    → IsSingle g
    → all
        (λ t. leb (entries t.id (scans hash_credential xs g).redemptions) 1)
        (scans hash_credential xs g).tickets
      ≡ true
scans-single hash_credential xs g s =
    single-once (scans hash_credential xs g).redemptions (scans hash_credential xs g).tickets
      (scans-IsSingle hash_credential xs g s).single

abbrev is_active_credential : TicketCredentialStatus → Bool
is_active_credential TicketCredentialStatus.active = true
is_active_credential _ = false

abbrev is_active_ticket : TicketStatus → Bool
is_active_ticket TicketStatus.active = true
is_active_ticket _ = false

-- A person is admitted exactly with an ACTIVE credential of an ACTIVE ticket for this session and
-- event, of a CONFIRMED booking, while the doors of the session are open.
pub decide_entry_iff :
    (now : ℕ) (i : ScanInput) (event : ℕ) (c : Credential) (t : EntryTicket) (s : EntrySession)
    → is_accepted (decide_entry now i event c t s) ≡ (
        t.session_id == i.session_id
        && t.event_id == event
        && is_active_credential c.status
        && is_active_ticket t.status
        && is_confirmed_booking t.booking_status
        && is_opened (
            decide_entry_window (record {
              session_status = s.status;
              start_at = s.start_at;
              end_at = s.end_at;
              now = now;
              early_minutes = i.early_minutes;
              late_minutes = i.late_minutes;
            })))
unfolding decide_entry
decide_entry_iff now i event c t s = ground arith
