-- ===== src/Holds/Acquiring.antt =====
-- What the transaction of `acquireSeatHold` has done when it commits.
use seatflow.Prelude.{
  ℕ, ◌==◌, ◌≡◌, refl, ap, ◌∙◌, true, false, some, List, [], ◌∷◌, ◌++◌, map, contains, any, filter,
  arith, length, ok, >>=-eq-ok,
}
use seatflow.Holds.Tables.{InventoryRow, SeatHold, Database, find_row, has_key}
use seatflow.Holds.Expiry.{release_expired_holds_for_session}
use seatflow.Holds.Consistency.{
  IsConsistent, is_row_consistent, row_ids, map-same_ids, has_distinct_seats-map,
}
use seatflow.Holds.Closing.{release_expired-IsConsistent}
use seatflow.Holds.Claiming.{
  row_claimed, find_row_self, filter-ids_sound, has_item-item_for, find_hold-append_new,
  all-map_where, claim_row-id, distinct_append, owned_items-append,
}
use seatflow.Holds.Acquire.{
  HoldConfiguration, HoldCreateInput, Generated, new_hold, is_target, owns_active, create_hold,
  claim_seats, claim_rows, is_claimable, item_for, check_selection, acquire_transaction, claim_row,
}

-- The insert succeeded: the hold is appended and no unique index was violated.
pub record Created (h : SeatHold) (db db' : Database) : Type 0 where
  pub result : db' ≡ record db { holds = db.holds ++ h ∷ [] }
  pub fresh_id : any (λ x. x.id == h.id) db.holds ≡ false
  pub fresh_token : any (λ x. x.public_token == h.public_token) db.holds ≡ false
  pub fresh_key : any (has_key h.session_id h.user_id h.idempotency_key) db.holds ≡ false
  pub no_other : any (owns_active h.user_id h.session_id) db.holds ≡ false

pub create_hold-Created :
    (h : SeatHold) (db db' : Database) → create_hold h db ≡ ok db' → Created h db db'
unfolding create_hold
create_hold-Created h db db' e = ground arith

pub record Claimed (hold : SeatHold) (locked : List InventoryRow) (db db' : Database) : Type 0 where
  pub inventory : db'.inventory ≡ claim_rows hold (row_ids locked) db.inventory
  pub items : db'.items ≡ db.items ++ map (item_for hold) locked
  pub holds : db'.holds ≡ db.holds
  pub sessions : db'.sessions ≡ db.sessions
  pub counted :
      length (filter (is_claimable (row_ids locked)) db.inventory) ≡ length (row_ids locked)

pub claim_seats-Claimed :
    (hold : SeatHold) (locked : List InventoryRow) (db db' : Database)
    → claim_seats hold locked db ≡ ok db'
    → Claimed hold locked db db'
unfolding claim_seats
claim_seats-Claimed hold locked db db' e = ground arith

module _ (config : HoldConfiguration) (now user : ℕ) (input : HoldCreateInput) (gen : Generated)
    (db₀ : Database) where
  -- The database after the lazy cleanup, the locked rows and the hold to be created.
  abbrev pub cleaned : Database
  cleaned = (release_expired_holds_for_session input.session_id now db₀).0

  abbrev pub locked_rows : List InventoryRow
  locked_rows = filter (is_target input.session_id input.seat_ids) cleaned.inventory

  abbrev pub hold_of : SeatHold
  hold_of = new_hold config now user input gen

  pub record Committed (db' : Database) : Type 0 where
    pub checked : check_selection now input locked_rows cleaned ≡ ok tt
    pub middle : Database
    pub created : Created hold_of cleaned middle
    pub inventory : db'.inventory ≡ claim_rows hold_of (row_ids locked_rows) cleaned.inventory
    pub items : db'.items ≡ cleaned.items ++ map (item_for hold_of) locked_rows
    pub holds : db'.holds ≡ cleaned.holds ++ hold_of ∷ []
    pub sessions : db'.sessions ≡ cleaned.sessions

  pub acquire_transaction-Committed :
      (db' : Database) → acquire_transaction config now user input gen db₀ ≡ ok db' → Committed db'
  unfolding acquire_transaction
  acquire_transaction-Committed db' e =
      let (_, c, e₁) = >>=-eq-ok (check_selection now input locked_rows cleaned) _ e in
      let (m, d, e₂) = >>=-eq-ok (create_hold hold_of cleaned) _ e₁ in
      let made = create_hold-Created hold_of cleaned m d in
      let taken = claim_seats-Claimed hold_of locked_rows m db' e₂ in
      record {
        checked = c;
        middle = m;
        created = made;
        inventory =
            taken.inventory
            ∙ ap (λ x. claim_rows hold_of (row_ids locked_rows) x.inventory) made.result;
        items = taken.items ∙ ap (λ x. x.items ++ map (item_for hold_of) locked_rows) made.result;
        holds = taken.holds ∙ ap (λ x. x.holds) made.result;
        sessions = taken.sessions ∙ ap (λ x. x.sessions) made.result;
      }

  -- A row whose id is among the locked ones is a target.
  pub target_of_id :
      IsConsistent db₀
      → (r : InventoryRow) → find_row r.id cleaned.inventory ≡ some r
      → contains (row_ids locked_rows) r.id ≡ true
      → is_target input.session_id input.seat_ids r ≡ true
  target_of_id c₀ r =
      filter-ids_sound (is_target input.session_id input.seat_ids) cleaned.inventory r
        (release_expired-IsConsistent input.session_id now db₀ c₀).distinct_rows

  -- Committing keeps the tables consistent.
  pub Committed-IsConsistent :
      (db' : Database) → IsConsistent db₀ → Committed db' → IsConsistent db'
  Committed-IsConsistent db' c₀ k =
      let c = release_expired-IsConsistent input.session_id now db₀ c₀ in
      let ids = row_ids locked_rows in
      let more = map (item_for hold_of) locked_rows in
      let step : (r : InventoryRow)
          → find_row r.id cleaned.inventory ≡ some r
          → is_row_consistent cleaned.holds cleaned.items r ≡ true
          → is_row_consistent (cleaned.holds ++ hold_of ∷ []) (cleaned.items ++ more)
              (claim_row hold_of ids r)
            ≡ true =
        λ r at.
          row_claimed hold_of ids cleaned.holds cleaned.items more r refl
            (find_hold-append_new cleaned.holds hold_of k.created.fresh_id)
            (λ t. ground (arith, target_of_id c₀ r at t))
            (has_item-item_for hold_of r.id locked_rows) in
      record {
        rows =
            rw (k.holds, k.items, k.inventory)
              (all-map_where (λ r. find_row r.id cleaned.inventory ≡ some r) _ _
                (claim_row hold_of ids) step cleaned.inventory
                (find_row_self cleaned.inventory c.distinct_rows) c.rows);
        distinct_rows =
            rw
              (
                k.inventory,
                map-same_ids _ (claim_row hold_of ids) (claim_row-id hold_of ids) cleaned.inventory,
              )
              c.distinct_rows;
        distinct_holds =
            rw k.holds (distinct_append cleaned.holds hold_of c.distinct_holds k.created.fresh_id);
        distinct_seats =
            rw
              (
                k.inventory,
                has_distinct_seats-map (claim_row hold_of ids) (λ r. ground arith)
                    (λ r. ground arith) cleaned.inventory,
              )
              c.distinct_seats;
        owned_items =
            rw (k.holds, k.items)
              (owned_items-append cleaned.holds hold_of cleaned.items locked_rows c.owned_items);
      }
