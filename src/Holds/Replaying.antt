-- ===== src/Holds/Replaying.antt =====
-- A committed acquisition answers every later request with its idempotency key.
use seatflow.Prelude.{
  contains-same_length, ℕ, suc, ◌==◌, ◌≡◌, refl, sym, ap, ◌∙◌, Bool, true, false, some, List, [],
  ◌∷◌, ◌++◌, map, contains, any, all, All, filter, arith, is_distinct, if◌then◌else◌, length, ==_eq,
  ==_self, ok, err, Bool-cases, inl, inr,
}
use seatflow.Holds.Tables.{
  InventoryRow, SeatHold, SeatHoldItem, Database, has_key, find_by_key, find_row, items_of,
}
use seatflow.Holds.Expiry.{release_expired_holds_for_session}
use seatflow.Holds.Consistency.{
  IsConsistent, row_ids, all_hold_ids, owned_by, seat_taken, has_distinct_seats,
}
use seatflow.Holds.Closing.{release_expired-IsConsistent}
use seatflow.Holds.Claiming.{find_row_self}
use seatflow.Holds.Acquire.{
  conflict, HoldConfiguration, HoldCreateInput, Generated, new_hold, is_target, claim_row,
  claim_rows, item_for, seat_selections_match, seats_of_items, try_idempotent_replay,
  acquire_transaction,
}
use seatflow.Holds.Selecting.{is_same_set, match-same_set}
use seatflow.Holds.Acquiring.{Committed, acquire_transaction-Committed}
use seatflow.Holds.Guarantees.{check_selection-facts}

find_by_key-append_new :
    (s u k : ℕ) (hs : List SeatHold) (h : SeatHold)
    → any (has_key s u k) hs ≡ false
    → has_key s u k h ≡ true
    → find_by_key s u k (hs ++ h ∷ []) ≡ some h
unfolding find_by_key
find_by_key-append_new s u k [] h e t = ground arith
find_by_key-append_new s u k (x ∷ hs) h e t = ground (arith, find_by_key-append_new s u k hs h)

-- A new hold has no items but its own.
items_of-item_for :
    (hold : SeatHold) (locked : List InventoryRow)
    → items_of hold.id (map (item_for hold) locked) ≡ map (item_for hold) locked
items_of-item_for hold [] = refl
items_of-item_for hold (r ∷ locked) = ground (arith, ==_self hold.id, items_of-item_for hold locked)

items_of-append_new :
    (hold : SeatHold) (ids : List ℕ) (its : List SeatHoldItem) (locked : List InventoryRow)
    → contains ids hold.id ≡ false
    → all (owned_by ids) its ≡ true
    → items_of hold.id (its ++ map (item_for hold) locked) ≡ map (item_for hold) locked
items_of-append_new hold ids [] locked n e = items_of-item_for hold locked
items_of-append_new hold ids (it ∷ its) locked n e =
    ground (arith, ==_eq it.hold_id hold.id, items_of-append_new hold ids its locked)

any-contains : (i : ℕ) (hs : List SeatHold) → any (λ x. x.id == i) hs ≡ contains (all_hold_ids hs) i
any-contains i [] = refl
any-contains i (h ∷ hs) = ground (arith, any-contains i hs)

abbrev seat_ids_of : List InventoryRow → List ℕ
seat_ids_of = map (λ r. r.seat_id)

find_row-claim_rows :
    (hold : SeatHold) (ids : List ℕ) (i : ℕ) (rows : List InventoryRow) (r : InventoryRow)
    → find_row i rows ≡ some r
    → find_row i (claim_rows hold ids rows) ≡ some (claim_row hold ids r)
unfolding find_row
find_row-claim_rows hold ids i [] r e = cc
find_row-claim_rows hold ids i (x ∷ rows) r e =
    ground (arith, find_row-claim_rows hold ids i rows r)

-- The stored seats of the new hold are those of the locked rows.
seats_of_items-item_for :
    (hold : SeatHold) (ids : List ℕ) (rows locked : List InventoryRow)
    → All (λ r. find_row r.id rows ≡ some r) locked
    → seats_of_items (claim_rows hold ids rows) (map (item_for hold) locked) ≡ seat_ids_of locked
unfolding seats_of_items
seats_of_items-item_for hold ids rows [] f = refl
seats_of_items-item_for hold ids rows (r ∷ locked) f = ground (
  arith,
  find_row-claim_rows hold ids r.id rows r f.0,
  seats_of_items-item_for hold ids rows locked f.1,
)

All-filter {κ} :
    (P : InventoryRow → Type κ) (p : InventoryRow → Bool) (rows : List InventoryRow)
    → All P rows
    → All P (filter p rows)
All-filter P p [] h = tt
All-filter P p (r ∷ rows) h = elim (Bool-cases (p r)) [
  | inl picked ↦ rw picked (h.0, All-filter P p rows h.1)
  | inr passed ↦ rw passed (All-filter P p rows h.1)
]

-- The locked rows have distinct seats, all among the requested ones.
filter_seat-absent :
    (s : ℕ) (seats : List ℕ) (q : ℕ) (rows : List InventoryRow)
    → seat_taken s q rows ≡ false
    → contains (seat_ids_of (filter (is_target s seats) rows)) q ≡ false
unfolding seat_taken
filter_seat-absent s seats q [] e = refl
filter_seat-absent s seats q (r ∷ rows) e = ground (arith, filter_seat-absent s seats q rows)

locked-distinct :
    (s : ℕ) (seats : List ℕ) (rows : List InventoryRow)
    → has_distinct_seats rows ≡ true
    → is_distinct (seat_ids_of (filter (is_target s seats) rows)) ≡ true
unfolding has_distinct_seats
locked-distinct s seats [] d = refl
locked-distinct s seats (r ∷ rows) d = ground (
  arith,
  ==_eq r.session_id s,
  filter_seat-absent s seats r.seat_id rows,
  locked-distinct s seats rows,
)

locked-requested :
    (s : ℕ) (seats : List ℕ) (rows : List InventoryRow)
    → all (contains seats) (seat_ids_of (filter (is_target s seats) rows)) ≡ true
locked-requested s seats [] = refl
locked-requested s seats (r ∷ rows) = ground (arith, locked-requested s seats rows)

length-seat_ids_of : (rows : List InventoryRow) → length (seat_ids_of rows) ≡ length rows
length-seat_ids_of [] = refl
length-seat_ids_of (r ∷ rows) = ap suc (length-seat_ids_of rows)

module _ (config : HoldConfiguration) (now user : ℕ) (input : HoldCreateInput) (gen : Generated)
    (db db' : Database) (c : IsConsistent db)
    (done : acquire_transaction config now user input gen db ≡ ok db') where
  abbrev tidy : Database
  tidy = (release_expired_holds_for_session input.session_id now db).0

  abbrev mine : SeatHold
  mine = new_hold config now user input gen

  abbrev locked : List InventoryRow
  locked = filter (is_target input.session_id input.seat_ids) tidy.inventory

  k : Committed config now user input gen db db'
  k = acquire_transaction-Committed config now user input gen db db' done

  tidy-IsConsistent : IsConsistent tidy
  tidy-IsConsistent = release_expired-IsConsistent input.session_id now db c

  stored_seats : seats_of_items db'.inventory (items_of gen.id db'.items) ≡ seat_ids_of locked
  stored_seats =
      rw (k.inventory, k.items)
        (rw
          (items_of-append_new mine (all_hold_ids tidy.holds) tidy.items locked
            (sym (any-contains gen.id tidy.holds) ∙ k.created.fresh_id)
            tidy-IsConsistent.owned_items)
          (seats_of_items-item_for mine (row_ids locked) tidy.inventory locked (
            All-filter _ (is_target input.session_id input.seat_ids) tidy.inventory
              (find_row_self tidy.inventory tidy-IsConsistent.distinct_rows))))

  counted : length (seat_ids_of locked) ≡ length input.seat_ids
  counted = length-seat_ids_of locked ∙ (check_selection-facts now input locked tidy k.checked).0

  same_seats : (n : ℕ) → contains (seat_ids_of locked) n ≡ contains input.seat_ids n
  same_seats =
      contains-same_length (seat_ids_of locked) input.seat_ids
        (locked-distinct input.session_id input.seat_ids tidy.inventory
          tidy-IsConsistent.distinct_seats)
        (locked-requested input.session_id input.seat_ids tidy.inventory) counted

  same_match :
      (seats : List ℕ)
      → is_distinct seats ≡ true
      → seat_selections_match (seat_ids_of locked) seats ≡ is_same_set input.seat_ids seats
  unfolding seat_selections_match
  same_match seats d =
      match-same_set (seat_ids_of locked) input.seat_ids seats
        (locked-distinct input.session_id input.seat_ids tidy.inventory
          tidy-IsConsistent.distinct_seats)
        (locked-requested input.session_id input.seat_ids tidy.inventory) counted d

  by_key : find_by_key input.session_id user input.idempotency_key db'.holds ≡ some mine
  by_key = rw k.holds (
      find_by_key-append_new input.session_id user input.idempotency_key tidy.holds mine
        k.created.fresh_key
        (ground (arith, ==_self input.session_id, ==_self user, ==_self input.idempotency_key)))

  -- Once an acquisition has committed on consistent tables, a request of the same customer for the
  -- same session with the same idempotency key, for seats that are distinct, is answered from the
  -- store: with the hold that was acquired if each list names every seat of the other, and with a
  -- conflict if not.
  pub acquire-replay :
      (seats : List ℕ)
      → is_distinct seats ≡ true
      → try_idempotent_replay user (record input { seat_ids = seats }) db' ≡ (
          if is_same_set input.seat_ids seats
          then ok (some (record { hold = mine; replayed = true }))
          else err conflict)
  unfolding try_idempotent_replay
  acquire-replay seats d =
      rw (by_key, try_idempotent_replay) (rw (stored_seats, same_match seats d) refl)
