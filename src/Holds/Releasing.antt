-- ===== src/Holds/Releasing.antt =====
-- What `releaseSeatHold` does for the owner, once and again.
use seatflow.Prelude.{
  ℕ, ◌==◌, ◌≡◌, refl, Bool, true, false, none, some, List, [], ◌∷◌, map, contains, arith, ◌∙◌,
  Bool-cases, inl, inr, if◌then◌else◌, is_distinct, length, filter, ==_eq, ==_self, ok,
}
use seatflow.Domain.{SeatInventoryState, SeatHoldStatus}
use seatflow.Holds.Tables.{
  InventoryRow, SeatHold, Database, find_hold, find_by_token, is_active, update_hold, update_holds,
}
use seatflow.Holds.Expiry.{release, release_rows}
use seatflow.Holds.Consistency.{IsConsistent, all_hold_ids, find_hold-update_holds}
use seatflow.Holds.Closing.{this_active-le-one, this_active-found}
use seatflow.Holds.Release.{is_this_active, release_transaction, release_found, release_seat_hold}

find_by_token-contains :
    (t : ℕ) (hs : List SeatHold) (h : SeatHold)
    → find_by_token t hs ≡ some h
    → contains (all_hold_ids hs) h.id ≡ true
unfolding find_by_token
find_by_token-contains t [] h e = cc
find_by_token-contains t (x ∷ hs) h e = ground (arith, find_by_token-contains t hs h, ==_self x.id)

find_by_token-find_hold :
    (t : ℕ) (hs : List SeatHold) (h : SeatHold)
    → is_distinct (all_hold_ids hs) ≡ true
    → find_by_token t hs ≡ some h
    → find_hold h.id hs ≡ some h
unfolding find_by_token find_hold
find_by_token-find_hold t [] h d e = cc
find_by_token-find_hold t (x ∷ hs) h d e = ground (
  arith,
  find_by_token-find_hold t hs h,
  find_by_token-contains t hs h,
  ==_eq x.id h.id,
  ==_self x.id,
)

find_by_token-update_holds :
    (p : SeatHold → Bool) (f : SeatHold → SeatHold)
    → ((h : SeatHold) → (f h).public_token ≡ h.public_token)
    → (t : ℕ) (hs : List SeatHold) (h : SeatHold) → find_by_token t hs ≡ some h
    → find_by_token t (update_holds p f hs) ≡ some (update_hold p f h)
unfolding find_by_token
find_by_token-update_holds p f same t [] h e = cc
find_by_token-update_holds p f same t (x ∷ hs) h e =
    ground (arith, same x, find_by_token-update_holds p f same t hs h)

-- A row after its hold `i` has ended: free for sale when it pointed at that hold.
abbrev pub vacated : ℕ → InventoryRow → InventoryRow
vacated i r = elim r.current_hold_id [
  | none ↦ r
  | some j ↦
      if i == j
      then record r {
        state = SeatInventoryState.available;
        current_hold_id = none;
        hold_expires_at = none;
      }
      else r
]

vacated_rows :
    (i : ℕ) (rows : List InventoryRow) → release_rows (i ∷ []) rows ≡ map (vacated i) rows
vacated_rows i [] = refl
vacated_rows i (r ∷ rows) = ground (arith, vacated_rows i rows)

-- A hold after the hold `i` was released.
abbrev pub closed : ℕ → ℕ → SeatHold → SeatHold
closed now i h =
    if h.id == i then record h { status = SeatHoldStatus.released; released_at = some now } else h

closed-absent :
    (now i : ℕ) (hs : List SeatHold)
    → contains (all_hold_ids hs) i ≡ false
    → update_holds (is_this_active i) (release now) hs ≡ map (closed now i) hs
closed-absent now i [] e = refl
closed-absent now i (h ∷ hs) e = ground (arith, e, closed-absent now i hs)

closed_holds :
    (now : ℕ) (hold : SeatHold) (hs : List SeatHold)
    → is_distinct (all_hold_ids hs) ≡ true
    → find_hold hold.id hs ≡ some hold
    → is_active hold.status ≡ true
    → update_holds (is_this_active hold.id) (release now) hs ≡ map (closed now hold.id) hs
unfolding find_hold
closed_holds now hold [] d e t = refl
closed_holds now hold (x ∷ hs) d e t = elim (Bool-cases (x.id == hold.id)) [
  | inl here ↦ ground (arith, d, e, t, here, closed-absent now x.id hs, ==_eq x.id hold.id)
  | inr there ↦ ground (arith, d, e, t, there, closed_holds now hold hs)
]

module _ (now later user token : ℕ) (hold : SeatHold) (db : Database) (c : IsConsistent db)
    (stored : find_by_token token db.holds ≡ some hold) (mine : hold.user_id ≡ user)
    (live : is_active hold.status ≡ true) where
  by_id : find_hold hold.id db.holds ≡ some hold
  by_id = find_by_token-find_hold token db.holds hold c.distinct_holds stored

  alone : (length (filter (is_this_active hold.id) db.holds) == 1) ≡ true
  alone = ground (
    arith,
    this_active-found hold.id db.holds hold by_id,
    this_active-le-one hold.id db.holds c.distinct_holds,
    ==_self hold.id,
  )

  abbrev after : Database
  after = (release_transaction hold now db).0

  committed :
      ((release_transaction hold now db).1 ≡ true)
      × (after.holds ≡ update_holds (is_this_active hold.id) (release now) db.holds)
      × (after.inventory ≡ release_rows (hold.id ∷ []) db.inventory)
  unfolding release_transaction
  committed = (ground (arith, alone), ground (arith, alone), ground (arith, alone))

  matches : is_this_active hold.id hold ≡ true
  matches = ground (arith, ==_self hold.id)

  by_id_after : find_hold hold.id after.holds ≡ some (release now hold)
  by_id_after = rw committed.1 (
      ground (
        arith,
        matches,
        find_hold-update_holds (is_this_active hold.id) (release now) (λ h. refl) hold.id db.holds
            hold by_id,
      ))

  by_token_after : find_by_token token after.holds ≡ some (release now hold)
  by_token_after = rw committed.1 (
      ground (
        arith,
        matches,
        find_by_token-update_holds (is_this_active hold.id) (release now) (λ h. refl) token db.holds
            hold stored,
      ))

  first_release :
      release_seat_hold (λ d. d) now (some user) token db
      ≡ (ok (record { hold = release now hold; released = true }), after)
  unfolding release_seat_hold release_found
  first_release = ground (arith, stored, mine, live, committed.0, by_id_after, ==_self hold.user_id)

  second_release :
      release_seat_hold (λ d. d) later (some user) token after
      ≡ (ok (record { hold = release now hold; released = false }), after)
  unfolding release_seat_hold release_found
  second_release = ground (arith, by_token_after, mine, by_id_after, ==_self hold.user_id)

  -- On consistent tables and with nothing committed in between, the owner's release of an ACTIVE
  -- hold, found by its token, answers with the hold RELEASED. The rows that pointed at the hold
  -- become AVAILABLE and point at no hold, every other row stays as it is, and so does every other
  -- hold. The same release again changes nothing and says that it released nothing.
  pub release_seat_hold-idempotent :
      let (first, db') = release_seat_hold (λ d. d) now (some user) token db in
      let (second, db'') = release_seat_hold (λ d. d) later (some user) token db' in
      (first ≡ ok (record { hold = release now hold; released = true }))
      × (db'.inventory ≡ map (vacated hold.id) db.inventory)
      × (db'.holds ≡ map (closed now hold.id) db.holds)
      × (second ≡ ok (record { hold = release now hold; released = false }))
      × (db'' ≡ db')
  release_seat_hold-idempotent = rw first_release (
    refl,
    committed.2 ∙ vacated_rows hold.id db.inventory,
    committed.1 ∙ closed_holds now hold db.holds c.distinct_holds by_id live,
    rw second_release refl,
    rw second_release refl,
  )
