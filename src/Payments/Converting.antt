-- ===== src/Payments/Converting.antt =====
-- The conversion of a hold into booked rows: with matching snapshots it finds every row, and it keeps
-- the tables of holds consistent.
use seatflow.Prelude.{
  ℕ, ◌==◌, ◌≡◌, refl, Bool, true, ◌&&◌, some, List, [], ◌∷◌, map, filter, length, all, contains,
  is_distinct, is_some_of, arith, Option-cases, inl, inr, ==_eq, ==_self, All, contains-same_length,
  Bool-cases,
}
use seatflow.Holds.Tables.{
  InventoryRow, SeatHold, SeatHoldItem, Database, find_hold, find_row, has_item, items_of,
  update_holds,
}
use seatflow.Holds.Consistency.{
  IsConsistent, is_row_consistent, row_ids, all-map, find_hold-update_holds, update_holds-ids,
  map-same_ids, has_distinct_seats-map,
}
use seatflow.Holds.Claiming.{find_row_self}
use seatflow.Holds.Closing.{find_hold-id}
use seatflow.Checkout.Tables.{OrderItem, item_ids}
use seatflow.Payments.Snapshots.{is_held, hold_item_for, item_matches, snapshots_match}
use seatflow.Payments.Fulfillment.{
  is_convertible, convert_row, has_hold_id, converted, convert_hold,
}

abbrev pub inventory_ids : List SeatHoldItem → List ℕ
inventory_ids = map (λ it. it.inventory_id)

has_item-items_of :
    (hold row : ℕ) (its : List SeatHoldItem)
    → has_item hold row its ≡ contains (inventory_ids (items_of hold its)) row
unfolding has_item
has_item-items_of hold row [] = refl
has_item-items_of hold row (x ∷ its) = ground (arith, has_item-items_of hold row its)

hold_item_for-contains :
    (i : ℕ) (its : List SeatHoldItem) (it : SeatHoldItem)
    → hold_item_for i its ≡ some it
    → contains (inventory_ids its) i ≡ true
unfolding hold_item_for
hold_item_for-contains i [] it e = cc
hold_item_for-contains i (x ∷ its) it e = elim (Option-cases (hold_item_for i its)) [
  | inl nowhere ↦ ground (arith, e)
  | inr (l, later) ↦ ground (arith, e, hold_item_for-contains i its l)
]

-- What a match says of one item and of all.
item_matches-contains :
    (hold : SeatHold) (session : ℕ) (its : List SeatHoldItem) (rows : List InventoryRow)
    (o : OrderItem)
    → item_matches hold session its rows o ≡ true
    → contains (inventory_ids its) o.inventory_id ≡ true
unfolding item_matches
item_matches-contains hold session its rows o e =
    elim (Option-cases (hold_item_for o.inventory_id its)) [
      | inl nowhere ↦ ground (arith, e)
      | inr (it, found) ↦ hold_item_for-contains o.inventory_id its it found
    ]

items-contains :
    (hold : SeatHold) (session : ℕ) (its : List SeatHoldItem) (rows : List InventoryRow)
    (os : List OrderItem)
    → all (item_matches hold session its rows) os ≡ true
    → all (contains (inventory_ids its)) (item_ids os) ≡ true
items-contains hold session its rows [] e = refl
items-contains hold session its rows (o ∷ os) e = ground (
  arith,
  e,
  item_matches-contains hold session its rows o,
  items-contains hold session its rows os,
)

-- A locked row of a matched item is held by the hold.
items-held :
    (hold : SeatHold) (session : ℕ) (its : List SeatHoldItem) (rows : List InventoryRow)
    (os : List OrderItem) (r : InventoryRow)
    → all (item_matches hold session its rows) os ≡ true
    → contains (item_ids os) r.id ≡ true
    → find_row r.id rows ≡ some r
    → (is_held r.state && is_some_of hold.id r.current_hold_id) ≡ true
unfolding item_matches
items-held hold session its rows [] r e c f = cc
items-held hold session its rows (o ∷ os) r e c f = elim (Bool-cases (o.inventory_id == r.id)) [
  | inl same ↦ ground (arith, e, f, ==_eq o.inventory_id r.id)
  | inr other ↦
      items-held hold session its rows os r (ground (arith, e)) (ground (arith, c, other)) f
]

pub length-map_ids : (os : List OrderItem) → length (item_ids os) ≡ length os
length-map_ids [] = refl
length-map_ids (o ∷ os) = ground (arith, length-map_ids os)

pub length-inventory_ids : (its : List SeatHoldItem) → length (inventory_ids its) ≡ length its
length-inventory_ids [] = refl
length-inventory_ids (o ∷ os) = ground (arith, length-inventory_ids os)

-- With the unique indexes on both kinds of items, a match covers every row of the hold.
pub snapshots_match-covers :
    (hold : SeatHold) (session : ℕ) (os : List OrderItem) (items : List SeatHoldItem)
    (rows : List InventoryRow)
    → snapshots_match hold session os (items_of hold.id items) rows ≡ true
    → is_distinct (item_ids os) ≡ true
    → (row : ℕ) → has_item hold.id row items ≡ true
    → contains (item_ids os) row ≡ true
unfolding snapshots_match
snapshots_match-covers hold session os items rows m d row h =
    let same =
      contains-same_length (item_ids os) (inventory_ids (items_of hold.id items)) d
        (items-contains hold session (items_of hold.id items) rows os (ground (arith, m)))
        (ground (arith, m, length-map_ids os, length-inventory_ids (items_of hold.id items))) row in
    ground (arith, same, h, has_item-items_of hold.id row items)

row_converted :
    (now hold : ℕ) (ids : List ℕ) (holds : List SeatHold) (items : List SeatHoldItem)
    → ((row : ℕ) → has_item hold row items ≡ true → contains ids row ≡ true)
    → (r : InventoryRow) → is_row_consistent holds items r ≡ true
    → is_row_consistent
        (update_holds (has_hold_id hold) (converted now) holds)
        items
        (convert_row hold ids r)
      ≡ true
unfolding is_row_consistent
row_converted now hold ids holds items covers r e = elim (Option-cases r.current_hold_id) [
  | inl free ↦ ground arith
  | inr (i, at) ↦ elim (Option-cases (find_hold i holds)) [
    | inl missing ↦ ground arith
    | inr (h, found) ↦ ground (
      arith,
      find_hold-id i holds h found,
      ==_eq i hold,
      ==_self hold,
      covers r.id,
      find_hold-update_holds (has_hold_id hold) (converted now) (λ x. refl) i holds h found,
    )
  ]
]

pub convert_hold-IsConsistent :
    (now hold : ℕ) (ids : List ℕ) (db : Database)
    → ((row : ℕ) → has_item hold row db.items ≡ true → contains ids row ≡ true)
    → IsConsistent db
    → IsConsistent (convert_hold now hold ids db)
convert_hold-IsConsistent now hold ids db covers c = record {
  rows =
      all-map (is_row_consistent db.holds db.items) _ (convert_row hold ids)
        (row_converted now hold ids db.holds db.items covers) db.inventory c.rows;
  distinct_rows =
      rw
        (map-same_ids (λ (r : InventoryRow). r.id) (convert_row hold ids) (λ r. ground arith)
          db.inventory)
        c.distinct_rows;
  distinct_holds =
      rw (update_holds-ids (has_hold_id hold) (converted now) (λ h. refl) db.holds)
        c.distinct_holds;
  distinct_seats =
      rw
        (has_distinct_seats-map (convert_row hold ids) (λ r. ground arith) (λ r. ground arith)
          db.inventory)
        c.distinct_seats;
  owned_items =
      rw (update_holds-ids (has_hold_id hold) (converted now) (λ h. refl) db.holds) c.owned_items;
}

find_row-filter_ids :
    (ids : List ℕ) (i : ℕ) (rows : List InventoryRow) (r : InventoryRow)
    → find_row i rows ≡ some r
    → contains ids i ≡ true
    → find_row i (filter (λ x. contains ids x.id) rows) ≡ some r
unfolding find_row
find_row-filter_ids ids i [] r e c = cc
find_row-filter_ids ids i (x ∷ rows) r e c =
    ground (arith, e, c, ==_eq x.id i, find_row-filter_ids ids i rows r)

filter-congr_where :
    (p q : InventoryRow → Bool) (rows : List InventoryRow)
    → All (λ r. p r ≡ q r) rows
    → length (filter p rows) ≡ length (filter q rows)
filter-congr_where p q [] h = refl
filter-congr_where p q (r ∷ rows) h = ground (arith, h.0, filter-congr_where p q rows h.1)

All-imp :
    (P Q : InventoryRow → Type 0) (rows : List InventoryRow)
    → ((r : InventoryRow) → P r → Q r)
    → All P rows
    → All Q rows
All-imp P Q [] f h = tt
All-imp P Q (r ∷ rows) f h = (f r h.0, All-imp P Q rows f h.1)

-- With matching snapshots the conditional update of the rows finds each of them.
pub snapshots_match-convertible :
    (hold : SeatHold) (session : ℕ) (os : List OrderItem) (items : List SeatHoldItem)
    (rows : List InventoryRow)
    → is_distinct (row_ids rows) ≡ true
    → snapshots_match hold session os items (filter (λ r. contains (item_ids os) r.id) rows) ≡ true
    → length (filter (is_convertible hold.id (item_ids os)) rows) ≡ length (item_ids os)
unfolding snapshots_match
snapshots_match-convertible hold session os items rows d m =
    let locked = filter (λ (r : InventoryRow). contains (item_ids os) r.id) rows in
    let same =
      filter-congr_where (is_convertible hold.id (item_ids os)) (λ r. contains (item_ids os) r.id)
        rows
        (All-imp (λ r. find_row r.id rows ≡ some r) _ rows
          (λ r f. elim (Bool-cases (contains (item_ids os) r.id)) [
            | inl c ↦ ground (
              arith,
              c,
              items-held hold session items locked os r (ground (arith, m)) c
                  (find_row-filter_ids (item_ids os) r.id rows r f c),
            )
            | inr c ↦ ground (arith, c)
          ])
          (find_row_self rows d)) in
    ground (arith, same, m, length-map_ids os)
