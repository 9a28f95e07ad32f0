-- ===== src/Holds/Consistency.antt =====
-- What joins the tables between two transactions: the state of each inventory row agrees with the
-- hold that it points at.
use seatflow.Prelude.{
  ℕ, ◌==◌, ◌≡◌, refl, Bool, true, false, ◌&&◌, ◌||◌, none, some, List, [], ◌∷◌, map, contains, all,
  is_distinct, not, arith, if◌then◌else◌, is_none, is_some_of, Option-cases, inl, inr,
}
use seatflow.Domain.{SeatInventoryState}
use seatflow.Holds.Tables.{
  InventoryRow, SeatHold, SeatHoldItem, Database, is_active, find_hold, has_item, update_hold,
  update_holds, hold_ids,
}
use seatflow.Holds.Expiry.{release_row, release_rows}

-- An active hold of the row's session, with the expiry that the row repeats.
abbrev pub backs : SeatHold → InventoryRow → Bool
backs h r =
    is_active h.status
    && (h.session_id == r.session_id && is_some_of h.expires_at r.hold_expires_at)

abbrev pub is_backed : List SeatHold → List SeatHoldItem → InventoryRow → ℕ → Bool
is_backed holds items r i =
    has_item i r.id items && elim (find_hold i holds) [ none ↦ false | some h ↦ backs h r ]

-- AVAILABLE and BOOKED rows carry no hold; a HELD row carries an ACTIVE hold of its own session,
-- which has an item for it and expires when the row says.
unfoldable pub is_row_consistent : List SeatHold → List SeatHoldItem → InventoryRow → Bool
is_row_consistent holds items r = elim r.state [
  | SeatInventoryState.held ↦ elim r.current_hold_id [
    | none ↦ false
    | some i ↦ is_backed holds items r i
  ]
  | _ ↦ is_none r.current_hold_id && is_none r.hold_expires_at
]

abbrev pub row_ids : List InventoryRow → List ℕ
row_ids = map (λ r. r.id)

abbrev pub all_hold_ids : List SeatHold → List ℕ
all_hold_ids = map (λ h. h.id)

-- Whether a row of the session has the seat, and whether no two rows share session and seat.
unfoldable pub seat_taken : ℕ → ℕ → List InventoryRow → Bool
seat_taken session seat [] = false
seat_taken session seat (r ∷ rows) =
    (r.session_id == session && r.seat_id == seat) || seat_taken session seat rows

unfoldable pub has_distinct_seats : List InventoryRow → Bool
unfolding seat_taken
has_distinct_seats [] = true
has_distinct_seats (r ∷ rows) =
    not (seat_taken r.session_id r.seat_id rows) && has_distinct_seats rows

-- The foreign key from items to holds.
abbrev pub owned_by : List ℕ → SeatHoldItem → Bool
owned_by ids it = contains ids it.hold_id

pub record IsConsistent (db : Database) : Type 0 where
  pub rows : all (is_row_consistent db.holds db.items) db.inventory ≡ true
  -- the primary keys of SessionSeatInventory and of SeatHold
  pub distinct_rows : is_distinct (row_ids db.inventory) ≡ true
  pub distinct_holds : is_distinct (all_hold_ids db.holds) ≡ true
  -- the unique index on session and seat, and the foreign key of the items
  pub distinct_seats : has_distinct_seats db.inventory ≡ true
  pub owned_items : all (owned_by (all_hold_ids db.holds)) db.items ≡ true

pub all-map {ℓ} :
    {A : Type ℓ} (p q : A → Bool) (f : A → A)
    → ((a : A) → p a ≡ true → q (f a) ≡ true)
    → (xs : List A) → all p xs ≡ true
    → all q (map f xs) ≡ true
all-map p q f h [] e = refl
all-map p q f h (x ∷ xs) e = ground (arith, h x, all-map p q f h xs)

pub find_hold-update_holds :
    (p : SeatHold → Bool) (f : SeatHold → SeatHold)
    → ((h : SeatHold) → (f h).id ≡ h.id)
    → (i : ℕ) (hs : List SeatHold) (h : SeatHold) → find_hold i hs ≡ some h
    → find_hold i (update_holds p f hs) ≡ some (if p h then f h else h)
unfolding find_hold
find_hold-update_holds p f same i [] h e = cc
find_hold-update_holds p f same i (x ∷ hs) h e =
    ground (arith, same x, find_hold-update_holds p f same i hs h)

pub hold_ids-contains :
    (p : SeatHold → Bool) (i : ℕ) (hs : List SeatHold) (h : SeatHold)
    → find_hold i hs ≡ some h
    → p h ≡ true
    → contains (hold_ids p hs) i ≡ true
unfolding find_hold hold_ids
hold_ids-contains p i [] h e t = cc
hold_ids-contains p i (x ∷ hs) h e t = ground (arith, hold_ids-contains p i hs h)

-- The holds that `p` picks end, and the rows that point at one of `ids` are freed: a row stays
-- consistent if every hold that ends and is found is among `ids`.
row_closed :
    (p : SeatHold → Bool) (f : SeatHold → SeatHold)
    → ((h : SeatHold) → (f h).id ≡ h.id)
    → (ids : List ℕ) (holds : List SeatHold) (items : List SeatHoldItem)
    → ((i : ℕ) (h : SeatHold) → find_hold i holds ≡ some h → p h ≡ true → contains ids i ≡ true)
    → (r : InventoryRow) → is_row_consistent holds items r ≡ true
    → is_row_consistent (update_holds p f holds) items (release_row ids r) ≡ true
unfolding is_row_consistent
row_closed p f same ids holds items covers r e = elim (Option-cases r.current_hold_id) [
  | inl free ↦ ground arith
  | inr (i, at) ↦ elim (Option-cases (find_hold i holds)) [
    | inl missing ↦ ground arith
    | inr (h, found) ↦
        ground (arith, covers i h found, find_hold-update_holds p f same i holds h found)
  ]
]

-- An update that keeps each id keeps the list of ids.
pub map-same_ids {ℓ} :
    {A : Type ℓ} (id : A → ℕ) (f : A → A)
    → ((a : A) → id (f a) ≡ id a)
    → (xs : List A) → map id (map f xs) ≡ map id xs
map-same_ids id f same [] = refl
map-same_ids id f same (x ∷ xs) = ground (arith, same x, map-same_ids id f same xs)

pub release_rows-ids :
    (ids : List ℕ) (rows : List InventoryRow) → row_ids (release_rows ids rows) ≡ row_ids rows
release_rows-ids ids = map-same_ids _ (release_row ids) (λ r. ground arith)

pub update_holds-ids :
    (p : SeatHold → Bool) (f : SeatHold → SeatHold)
    → ((h : SeatHold) → (f h).id ≡ h.id)
    → (hs : List SeatHold) → all_hold_ids (update_holds p f hs) ≡ all_hold_ids hs
update_holds-ids p f same = map-same_ids _ (update_hold p f) (λ h. ground (arith, same h))

seat_taken-map :
    (f : InventoryRow → InventoryRow)
    → ((r : InventoryRow) → (f r).session_id ≡ r.session_id)
    → ((r : InventoryRow) → (f r).seat_id ≡ r.seat_id)
    → (session seat : ℕ) (rows : List InventoryRow)
    → seat_taken session seat (map f rows) ≡ seat_taken session seat rows
unfolding seat_taken
seat_taken-map f hs hq session seat [] = refl
seat_taken-map f hs hq session seat (r ∷ rows) =
    ground (arith, hs r, hq r, seat_taken-map f hs hq session seat rows)

-- An update of rows that keeps session and seat keeps the pairs distinct.
pub has_distinct_seats-map :
    (f : InventoryRow → InventoryRow)
    → ((r : InventoryRow) → (f r).session_id ≡ r.session_id)
    → ((r : InventoryRow) → (f r).seat_id ≡ r.seat_id)
    → (rows : List InventoryRow) → has_distinct_seats (map f rows) ≡ has_distinct_seats rows
unfolding has_distinct_seats
has_distinct_seats-map f hs hq [] = refl
has_distinct_seats-map f hs hq (r ∷ rows) =
    simp (hs, hq, seat_taken-map f hs hq, has_distinct_seats-map f hs hq rows)

-- The rule for every operation that ends holds.
pub close-IsConsistent :
    (p : SeatHold → Bool) (f : SeatHold → SeatHold)
    → ((h : SeatHold) → (f h).id ≡ h.id)
    → (ids : List ℕ) (db db' : Database)
    → ((i : ℕ) (h : SeatHold) → find_hold i db.holds ≡ some h → p h ≡ true → contains ids i ≡ true)
    → db'.holds ≡ update_holds p f db.holds
    → db'.inventory ≡ release_rows ids db.inventory
    → db'.items ≡ db.items
    → IsConsistent db
    → IsConsistent db'
close-IsConsistent p f same ids db db' covers eh er ei c = record {
  rows =
      rw (eh, er, ei)
        (all-map (is_row_consistent db.holds db.items) _ (release_row ids)
          (row_closed p f same ids db.holds db.items covers) db.inventory c.rows);
  distinct_rows = rw (er, release_rows-ids ids db.inventory) c.distinct_rows;
  distinct_holds = rw (eh, update_holds-ids p f same db.holds) c.distinct_holds;
  distinct_seats =
      rw
        (
          er,
          has_distinct_seats-map (release_row ids) (λ r. ground arith) (λ r. ground arith)
              db.inventory,
        )
        c.distinct_seats;
  owned_items = rw (eh, ei, update_holds-ids p f same db.holds) c.owned_items;
}
