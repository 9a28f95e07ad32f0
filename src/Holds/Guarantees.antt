-- ===== src/Holds/Guarantees.antt =====
-- What a customer and the venue are promised when `acquireSeatHold` commits.
use seatflow.Prelude.{
  ℕ, ◌==◌, ◌≡◌, ◌≤◌, ◌⊎◌, inl, inr, refl, Bool, true, false, some, List, [], ◌∷◌, ◌++◌, ◌∙◌, map,
  contains, all, filter, arith, is_distinct, if◌then◌else◌, length, Bool-cases, Option-cases, ok,
  ==_eq,
}
use seatflow.Holds.Tables.{
  InventoryRow, SeatHold, Database, find_hold, find_row, is_available, hold_ids,
}
use seatflow.Holds.Expiry.{
  is_overdue_in, points_at, release_row, release_rows, release_expired_holds_for_session,
}
use seatflow.Holds.Consistency.{IsConsistent, row_ids, all_hold_ids}
use seatflow.Holds.Closing.{release_expired-IsConsistent}
use seatflow.Holds.Claiming.{find_row_self, find_hold-append_new, map-congr_where}
use seatflow.Holds.Acquire.{
  HoldConfiguration, HoldCreateInput, Generated, new_hold, is_target, claimed, item_for,
  check_selection, acquire_transaction,
}
use seatflow.Holds.Acquiring.{Committed, acquire_transaction-Committed, target_of_id, locked_rows}

-- A row that is found and picked has its id among the picked ones, and what holds of all the
-- picked rows holds of it.
filter-ids_complete :
    (p : InventoryRow → Bool) (rows : List InventoryRow) (r : InventoryRow)
    → find_row r.id rows ≡ some r
    → p r ≡ true
    → contains (row_ids (filter p rows)) r.id ≡ true
unfolding find_row
filter-ids_complete p [] r e t = cc
filter-ids_complete p (x ∷ rows) r e t = ground (arith, filter-ids_complete p rows r)

all-filter_at :
    (p q : InventoryRow → Bool) (i : ℕ) (rows : List InventoryRow) (r : InventoryRow)
    → all q (filter p rows) ≡ true
    → find_row i rows ≡ some r
    → p r ≡ true
    → q r ≡ true
unfolding find_row
all-filter_at p q i [] r a e t = cc
all-filter_at p q i (x ∷ rows) r a e t = ground (arith, all-filter_at p q i rows r)

pub check_selection-facts :
    (now : ℕ) (input : HoldCreateInput) (locked : List InventoryRow) (db : Database)
    → check_selection now input locked db ≡ ok tt
    → (length locked ≡ length input.seat_ids) × (all (λ r. is_available r.state) locked ≡ true)
unfolding check_selection
check_selection-facts now input locked db e = ground arith

find_row-release_rows :
    (ids : List ℕ) (i : ℕ) (rows : List InventoryRow) (r : InventoryRow)
    → find_row i rows ≡ some r
    → find_row i (release_rows ids rows) ≡ some (release_row ids r)
unfolding find_row
find_row-release_rows ids i [] r e = cc
find_row-release_rows ids i (x ∷ rows) r e = ground (arith, find_row-release_rows ids i rows r)

hold_ids-absent :
    (p : SeatHold → Bool) (i : ℕ) (hs : List SeatHold)
    → contains (all_hold_ids hs) i ≡ false
    → contains (hold_ids p hs) i ≡ false
unfolding hold_ids
hold_ids-absent p i [] e = refl
hold_ids-absent p i (x ∷ hs) e = ground (arith, hold_ids-absent p i hs)

-- An id among those that an update touches belongs to a stored hold that the update picks.
hold_ids_sound :
    (p : SeatHold → Bool) (i : ℕ) (hs : List SeatHold)
    → is_distinct (all_hold_ids hs) ≡ true
    → contains (hold_ids p hs) i ≡ true
    → (h : SeatHold) × (find_hold i hs ≡ some h) × (p h ≡ true)
unfolding find_hold hold_ids
hold_ids_sound p i [] d c = cc
hold_ids_sound p i (x ∷ hs) d c = elim (Bool-cases (x.id == i)) [
  | inl same ↦ (x, ground arith, ground (arith, hold_ids-absent p x.id hs, ==_eq x.id i))
  | inr other ↦
      let (h, found, picked) = hold_ids_sound p i hs (ground arith) (ground arith) in
      (h, ground arith, picked)
]

-- What is promised of one requested row, as it stood before the request.
abbrev pub IsFree : ℕ → Database → InventoryRow → Type 0
IsFree now db r =
    (is_available r.state ≡ true)
    ⊎ ((i : ℕ) × (h : SeatHold) × (r.current_hold_id ≡ some i)
        × (find_hold i db.holds ≡ some h)
        × (h.expires_at ≤ now))

module _ (config : HoldConfiguration) (now user : ℕ) (input : HoldCreateInput) (gen : Generated)
    (db db' : Database) (c : IsConsistent db)
    (done : acquire_transaction config now user input gen db ≡ ok db') where
  abbrev tidy : Database
  tidy = (release_expired_holds_for_session input.session_id now db).0

  k : Committed config now user input gen db db'
  k = acquire_transaction-Committed config now user input gen db db' done

  facts :
      (length (locked_rows config now user input gen db) ≡ length input.seat_ids)
      × (all (λ r. is_available r.state) (locked_rows config now user input gen db) ≡ true)
  facts = check_selection-facts now input _ _ k.checked

  -- On consistent tables, a committed hold takes exactly the rows of the requested seats, as many
  -- as were requested, and leaves every other row as the lazy cleanup left it; the hold is stored
  -- with its own items.
  pub acquire-all_or_nothing :
      (db'.inventory
        ≡ map
            (λ r.
              if is_target input.session_id input.seat_ids r
              then claimed (new_hold config now user input gen) r
              else r)
            tidy.inventory)
      × (length (filter (is_target input.session_id input.seat_ids) tidy.inventory)
          ≡ length input.seat_ids)
      × (find_hold gen.id db'.holds ≡ some (new_hold config now user input gen))
      × (db'.items
          ≡ tidy.items
            ++ map
                (item_for (new_hold config now user input gen))
                (filter (is_target input.session_id input.seat_ids) tidy.inventory))
  acquire-all_or_nothing = (
    k.inventory
        ∙ map-congr_where (λ r. find_row r.id tidy.inventory ≡ some r) _ _
            (λ r at. ground (
              arith,
              target_of_id config now user input gen db c r at,
              filter-ids_complete (is_target input.session_id input.seat_ids) tidy.inventory r at,
              all-filter_at (is_target input.session_id input.seat_ids) (λ x. is_available x.state)
                  r.id tidy.inventory r facts.1 at,
            ))
            tidy.inventory
            (find_row_self tidy.inventory
              (release_expired-IsConsistent input.session_id now db c).distinct_rows),
    facts.0,
    rw k.holds (find_hold-append_new tidy.holds _ k.created.fresh_id),
    k.items,
  )

  -- On consistent tables, a committed hold takes no seat from a live hold and none that is booked:
  -- every requested row was AVAILABLE, or was held by a hold whose expiry had passed.
  pub acquire-takes-IsFree :
      (r : InventoryRow)
      → find_row r.id db.inventory ≡ some r
      → is_target input.session_id input.seat_ids r ≡ true
      → IsFree now db r
  unfolding release_expired_holds_for_session
  acquire-takes-IsFree r at t =
      let ids = hold_ids (is_overdue_in input.session_id now) db.holds in
      let free : is_available (release_row ids r).state ≡ true =
        all-filter_at (is_target input.session_id input.seat_ids) (λ x. is_available x.state) r.id
          tidy.inventory (release_row ids r) facts.1
          (find_row-release_rows ids r.id db.inventory r at) (ground arith) in
      elim (Bool-cases (points_at ids r)) [
        | inl yes_ ↦ elim (Option-cases r.current_hold_id) [
          | inl nobody ↦ inl (ground arith)
          | inr (i, holder) ↦
              let (h, found, due) =
                hold_ids_sound (is_overdue_in input.session_id now) i db.holds c.distinct_holds
                  (ground arith) in
              inr (i, h, holder, found, ground arith)
        ]
        | inr no_ ↦ inl (ground arith)
      ]
