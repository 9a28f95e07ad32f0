-- ===== src/Holds/Claiming.antt =====
-- `acquireSeatHold`'s transaction keeps the tables consistent: the lemmas on the new hold, its
-- items and the claimed rows.
use seatflow.Prelude.{
  ℕ, ◌==◌, ◌≡◌, refl, Bool, true, false, ◌||◌, not, some, List, [], ◌∷◌, ◌++◌, map, contains, any,
  all, All, filter, arith, is_distinct, ==_eq, ==_self, Bool-cases, Option-cases, inl, inr,
}
use seatflow.Holds.Tables.{
  InventoryRow, SeatHold, SeatHoldItem, find_hold, find_row, has_item, is_active,
}
use seatflow.Holds.Consistency.{is_row_consistent, row_ids, all_hold_ids, owned_by}
use seatflow.Holds.Acquire.{item_for, claim_row, is_claimable}

pub find_hold-append :
    (i : ℕ) (hs more : List SeatHold) (h : SeatHold)
    → find_hold i hs ≡ some h
    → find_hold i (hs ++ more) ≡ some h
unfolding find_hold
find_hold-append i [] more h e = cc
find_hold-append i (x ∷ hs) more h e = ground (arith, find_hold-append i hs more h)

pub find_hold-append_new :
    (hs : List SeatHold) (h : SeatHold)
    → any (λ x. x.id == h.id) hs ≡ false
    → find_hold h.id (hs ++ h ∷ []) ≡ some h
unfolding find_hold
find_hold-append_new [] h e = ground arith
find_hold-append_new (x ∷ hs) h e = ground (arith, find_hold-append_new hs h)

pub has_item-append_left :
    (i row : ℕ) (its more : List SeatHoldItem)
    → has_item i row its ≡ true
    → has_item i row (its ++ more) ≡ true
unfolding has_item
has_item-append_left i row [] more e = cc
has_item-append_left i row (x ∷ its) more e = ground (arith, has_item-append_left i row its more)

pub has_item-append_right :
    (i row : ℕ) (its more : List SeatHoldItem)
    → has_item i row more ≡ true
    → has_item i row (its ++ more) ≡ true
unfolding has_item
has_item-append_right i row [] more e = e
has_item-append_right i row (x ∷ its) more e = ground (arith, has_item-append_right i row its more)

pub has_item-item_for :
    (hold : SeatHold) (row : ℕ) (locked : List InventoryRow)
    → contains (row_ids locked) row ≡ true
    → has_item hold.id row (map (item_for hold) locked) ≡ true
unfolding has_item
has_item-item_for hold row [] e = cc
has_item-item_for hold row (x ∷ locked) e = ground (arith, has_item-item_for hold row locked)

-- Rows with distinct ids are found by their ids.
All-mono {ℓ κ} :
    {A : Type ℓ} (P Q : A → Type κ) (p : A → Bool)
    → ((a : A) → p a ≡ true → P a → Q a)
    → (xs : List A) → all p xs ≡ true
    → All P xs
    → All Q xs
All-mono P Q p h [] e ps = tt
All-mono P Q p h (x ∷ xs) e ps = (h x (ground arith) ps.0, All-mono P Q p h xs (ground arith) ps.1)

ids_differ :
    (i : ℕ) (rows : List InventoryRow)
    → contains (row_ids rows) i ≡ false
    → all (λ r. not (i == r.id)) rows ≡ true
ids_differ i [] e = refl
ids_differ i (x ∷ rows) e = ground (arith, ids_differ i rows)

pub find_row_self :
    (rows : List InventoryRow)
    → is_distinct (row_ids rows) ≡ true
    → All (λ r. find_row r.id rows ≡ some r) rows
unfolding find_row
find_row_self [] d = tt
find_row_self (x ∷ rows) d = (
  ground arith,
  All-mono (λ r. find_row r.id rows ≡ some r) (λ r. find_row r.id (x ∷ rows) ≡ some r)
      (λ r. not (x.id == r.id)) (λ r ne e. ground arith) rows (ids_differ x.id rows (ground arith))
      (find_row_self rows (ground arith)),
)

-- An id among those of the rows that `p` picks belongs to a row that `p` picks.
filter-ids_absent :
    (p : InventoryRow → Bool) (i : ℕ) (rows : List InventoryRow)
    → contains (row_ids rows) i ≡ false
    → contains (row_ids (filter p rows)) i ≡ false
filter-ids_absent p i [] e = refl
filter-ids_absent p i (x ∷ rows) e = ground (arith, filter-ids_absent p i rows)

pub filter-ids_sound :
    (p : InventoryRow → Bool) (rows : List InventoryRow) (r : InventoryRow)
    → is_distinct (row_ids rows) ≡ true
    → find_row r.id rows ≡ some r
    → contains (row_ids (filter p rows)) r.id ≡ true
    → p r ≡ true
unfolding find_row
filter-ids_sound p [] r d e c = cc
filter-ids_sound p (x ∷ rows) r d e c =
    ground (arith, filter-ids_sound p rows r, filter-ids_absent p x.id rows, ==_eq x.id r.id)

-- A row that is claimed is linked to the new hold; any other row stays as consistent as it was.
pub row_claimed :
    (hold : SeatHold) (ids : List ℕ) (holds : List SeatHold) (items more : List SeatHoldItem)
    (r : InventoryRow)
    → is_active hold.status ≡ true
    → find_hold hold.id (holds ++ hold ∷ []) ≡ some hold
    → (contains ids r.id ≡ true → hold.session_id ≡ r.session_id)
    → (contains ids r.id ≡ true → has_item hold.id r.id more ≡ true)
    → is_row_consistent holds items r ≡ true
    → is_row_consistent (holds ++ hold ∷ []) (items ++ more) (claim_row hold ids r) ≡ true
unfolding is_row_consistent
row_claimed hold ids holds items more r act new ses it e = elim (Bool-cases (is_claimable ids r)) [
  | inl take ↦ ground (arith, has_item-append_right hold.id r.id items more)
  | inr leave ↦ elim (Option-cases r.current_hold_id) [
    | inl free ↦ ground arith
    | inr (i, at) ↦ elim (Option-cases (find_hold i holds)) [
      | inl missing ↦ ground arith
      | inr (h, found) ↦
          ground
            (arith, find_hold-append i holds (hold ∷ []) h, has_item-append_left i r.id items more)
    ]
  ]
]

-- The rule for a map over rows about each of which something is known.
pub all-map_where {ℓ κ} :
    {A : Type ℓ} (P : A → Type κ) (p q : A → Bool) (f : A → A)
    → ((a : A) → P a → p a ≡ true → q (f a) ≡ true)
    → (xs : List A) → All P xs
    → all p xs ≡ true
    → all q (map f xs) ≡ true
all-map_where P p q f h [] ps e = refl
all-map_where P p q f h (x ∷ xs) ps e = ground (arith, h x ps.0, all-map_where P p q f h xs ps.1)

pub map-congr_where {ℓ κ} :
    {A : Type ℓ} (P : A → Type κ) (f g : A → A)
    → ((a : A) → P a → f a ≡ g a)
    → (xs : List A) → All P xs
    → map f xs ≡ map g xs
map-congr_where P f g h [] ps = refl
map-congr_where P f g h (x ∷ xs) ps = ground (arith, h x ps.0, map-congr_where P f g h xs ps.1)

pub claim_row-id :
    (hold : SeatHold) (ids : List ℕ) (r : InventoryRow) → (claim_row hold ids r).id ≡ r.id
claim_row-id hold ids r = ground arith

pub all_hold_ids-append_contains :
    (i : ℕ) (hs : List SeatHold) (h : SeatHold)
    → contains (all_hold_ids (hs ++ h ∷ [])) i ≡ contains (all_hold_ids hs) i || h.id == i
all_hold_ids-append_contains i [] h = ground arith
all_hold_ids-append_contains i (x ∷ hs) h = ground (arith, all_hold_ids-append_contains i hs h)

pub distinct_append :
    (hs : List SeatHold) (h : SeatHold)
    → is_distinct (all_hold_ids hs) ≡ true
    → any (λ x. x.id == h.id) hs ≡ false
    → is_distinct (all_hold_ids (hs ++ h ∷ [])) ≡ true
distinct_append [] h d f = refl
distinct_append (x ∷ hs) h d f =
    ground (arith, distinct_append hs h, all_hold_ids-append_contains x.id hs h)

-- The items of a new hold have an owner, and so have those that were stored before.
pub owned_items-append :
    (hs : List SeatHold) (h : SeatHold) (its : List SeatHoldItem) (locked : List InventoryRow)
    → all (owned_by (all_hold_ids hs)) its ≡ true
    → all (owned_by (all_hold_ids (hs ++ h ∷ []))) (its ++ map (item_for h) locked) ≡ true
owned_items-append hs h [] [] e = refl
owned_items-append hs h [] (r ∷ locked) e =
    ground (
      arith,
      all_hold_ids-append_contains h.id hs h,
      ==_self h.id,
      owned_items-append hs h [] locked,
    )
owned_items-append hs h (it ∷ its) locked e =
    ground (arith, all_hold_ids-append_contains it.hold_id hs h, owned_items-append hs h its locked)
