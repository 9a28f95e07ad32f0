-- ===== src/Holds/Acquire.antt =====
-- src/server/holds/hold-service.ts: `acquireSeatHold`, with `seatSelectionsMatch` of
-- src/features/holds/idempotency.ts and the input rules of src/features/holds/schema.ts.
use seatflow.Prelude.{
  ℕ, ◌+◌, ◌==◌, Bool, true, false, ◌&&◌, not, Option, none, some, List, [], ◌∷◌, ◌++◌, map, length,
  filter, any, all, contains, is_distinct, leb, ltb, if◌then◌else◌, min, max, Result, ok, err,
  ◌>>=◌, ◌>>◌, guard, or_throw,
}
use seatflow.Domain.{SeatInventoryState, SeatHoldStatus}
use seatflow.Holds.Tables.{
  InventoryRow, SeatHold, SeatHoldItem, InventoryEventType, Database, is_active, is_available,
  has_key, find_hold, find_by_key, find_session, find_row, items_of,
}
use seatflow.Holds.Eligibility.{
  SaleBlockReason, SalesEligibility, sellable, unsellable, evaluate_session_sales_eligibility,
}
use seatflow.Holds.Expiry.{release_expired_holds_for_session}

-- The unique indexes of SeatHold.
pub data HoldConstraint : Type 0 where
  primary_key public_token session_user_key one_active_per_user_session : HoldConstraint

pub data HoldError : Type 0 where
  authentication authorization validation : HoldError
  eligibility : SaleBlockReason → HoldError
  conflict : HoldError
  unique_violation : HoldConstraint → HoldError

pub record HoldConfiguration : Type 0 where
  pub hold_duration_ms : ℕ
  pub max_seats_per_hold : ℕ
  pub sweep_batch_size : ℕ

-- `DEFAULT_HOLD_CONFIGURATION`.
abbrev pub default_hold_configuration : HoldConfiguration
default_hold_configuration = record {
  hold_duration_ms = 600000;
  max_seats_per_hold = 8;
  sweep_batch_size = 100;
}

-- The raw input after trimming, with identifiers of the shapes that zod accepts.
pub record HoldCreateInput : Type 0 where
  pub session_id : ℕ
  pub seat_ids : List ℕ
  pub idempotency_key : ℕ

-- `holdCreateInputSchema`: the seat ceiling is `config.maxSeatsPerHold`, kept within 1 and 20.
unfoldable pub accepts_hold_input : ℕ → HoldCreateInput → Bool
accepts_hold_input max_seats i =
    leb 1 (length i.seat_ids)
    && (leb (length i.seat_ids) (min (max max_seats 1) 20) && is_distinct i.seat_ids)

-- `new Set(first)` is only asked for membership.
unfoldable pub seat_selections_match : List ℕ → List ℕ → Bool
seat_selections_match first second = length first == length second && all (contains first) second

-- The seats of a stored hold, `existing.items.map((item) => item.inventory.seatId)`. The foreign
-- key from items to inventory rows makes every lookup succeed.
unfoldable pub seats_of_items : List InventoryRow → List SeatHoldItem → List ℕ
seats_of_items rows [] = []
seats_of_items rows (it ∷ its) = elim (find_row it.inventory_id rows) [
  | none ↦ seats_of_items rows its
  | some r ↦ r.seat_id ∷ seats_of_items rows its
]

pub record AcquiredHold : Type 0 where
  pub hold : SeatHold
  pub replayed : Bool

-- `tryIdempotentReplay`. The view that the source builds of the hold is left out.
unfoldable pub try_idempotent_replay :
    ℕ → HoldCreateInput → Database → Result HoldError (Option AcquiredHold)
try_idempotent_replay user input db =
    elim (find_by_key input.session_id user input.idempotency_key db.holds) [
      | none ↦ ok none
      | some h ↦
          if seat_selections_match (seats_of_items db.inventory (items_of h.id db.items))
            input.seat_ids
          then ok (some (record { hold = h; replayed = true }))
          else err conflict
    ]

abbrev pub is_target : ℕ → List ℕ → InventoryRow → Bool
is_target session seats r = r.session_id == session && contains seats r.seat_id

abbrev pub owns_active : ℕ → ℕ → SeatHold → Bool
owns_active user session h = h.user_id == user && (h.session_id == session && is_active h.status)

-- `seatHold.create`: PostgreSQL checks the unique indexes in the order of their creation.
unfoldable pub create_hold : SeatHold → Database → Result HoldError Database
create_hold h db = do
  guard (not (any (λ x. x.id == h.id) db.holds)) (unique_violation HoldConstraint.primary_key)
  guard (not (any (λ x. x.public_token == h.public_token) db.holds))
      (unique_violation HoldConstraint.public_token)
  guard (not (any (has_key h.session_id h.user_id h.idempotency_key) db.holds))
      (unique_violation HoldConstraint.session_user_key)
  guard (not (any (owns_active h.user_id h.session_id) db.holds))
      (unique_violation HoldConstraint.one_active_per_user_session)
  ok (record db { holds = db.holds ++ h ∷ [] })

-- `id: { in: rowIds }, state: "AVAILABLE"`.
abbrev pub is_claimable : List ℕ → InventoryRow → Bool
is_claimable ids r = contains ids r.id && is_available r.state

abbrev pub claimed : SeatHold → InventoryRow → InventoryRow
claimed h r = record r {
  state = SeatInventoryState.held;
  current_hold_id = some h.id;
  hold_expires_at = some h.expires_at;
}

abbrev pub claim_row : SeatHold → List ℕ → InventoryRow → InventoryRow
claim_row h ids r = if is_claimable ids r then claimed h r else r

abbrev pub claim_rows : SeatHold → List ℕ → List InventoryRow → List InventoryRow
claim_rows h ids = map (claim_row h ids)

abbrev pub item_for : SeatHold → InventoryRow → SeatHoldItem
item_for h r = record {
  hold_id = h.id;
  inventory_id = r.id;
  price_minor = r.price_minor;
  currency = r.currency;
}

-- What the generators give one request: `cuid()` and `generateHoldToken()`.
pub record Generated : Type 0 where
  pub id : ℕ
  pub token : ℕ

abbrev pub new_hold : HoldConfiguration → ℕ → ℕ → HoldCreateInput → Generated → SeatHold
new_hold config now user input gen = record {
  id = gen.id;
  public_token = gen.token;
  session_id = input.session_id;
  user_id = user;
  status = SeatHoldStatus.active;
  idempotency_key = input.idempotency_key;
  expires_at = now + config.hold_duration_ms;
  released_at = none;
  expired_at = none;
  converted_at = none;
}

abbrev pub guard_sellable : SalesEligibility → Result HoldError (Unit {0})
guard_sellable sellable = ok tt
guard_sellable (unsellable r) = err (eligibility r)

-- The guards between the lock and the insert.
unfoldable pub check_selection :
    ℕ → HoldCreateInput → List InventoryRow → Database → Result HoldError (Unit {0})
check_selection now input locked db = do
  session ← or_throw (find_session input.session_id db.sessions) validation
  guard_sellable (
      evaluate_session_sales_eligibility (record {
        event_status = session.event_status;
        session_status = session.status;
        session_start_at = session.start_at;
        sales_start_at = session.sales_start_at;
        sales_end_at = session.sales_end_at;
        has_inventory =
            ltb 0 (length (filter (λ r. r.session_id == input.session_id) db.inventory));
        now = now;
      }))
  guard (length locked == length input.seat_ids) validation
  guard (all (λ r. is_available r.state) locked) conflict

-- The flip to HELD, the items and the outbox entry of a hold that has been created.
unfoldable pub claim_seats : SeatHold → List InventoryRow → Database → Result HoldError Database
claim_seats hold locked db = do
  let ids = map (λ r. r.id) locked
  guard (length (filter (is_claimable ids) db.inventory) == length ids) conflict
  ok (record db {
    inventory = claim_rows hold ids db.inventory;
    items = db.items ++ map (item_for hold) locked;
    outbox =
        db.outbox
        ++ record {
          event_type = InventoryEventType.hold_created;
          session_id = hold.session_id;
          aggregate_id = hold.id;
        }
          ∷ [];
  })

-- The body of the transaction. An error stands for a rollback. `ORDER BY ... FOR UPDATE` decides
-- in which order rows are locked, and the transaction is one step here.
unfoldable pub acquire_transaction :
    HoldConfiguration → ℕ → ℕ → HoldCreateInput → Generated → Database → Result HoldError Database
acquire_transaction config now user input gen db₀ = do
  let db = (release_expired_holds_for_session input.session_id now db₀).0
  let locked = filter (is_target input.session_id input.seat_ids) db.inventory
  check_selection now input locked db
  let hold = new_hold config now user input gen
  created ← create_hold hold db
  claim_seats hold locked created

-- `recordHoldConflict`.
abbrev pub record_hold_conflict : Database → Database
record_hold_conflict db = record db { hold_conflicts = db.hold_conflicts + 1 }

-- The `catch` clause: a lost race on the idempotency key is a replay after all.
unfoldable pub after_failure :
    ℕ → HoldCreateInput → HoldError → Database → Result HoldError AcquiredHold × Database
after_failure user input (unique_violation HoldConstraint.session_user_key) db =
    elim (try_idempotent_replay user input db) [
      | ok (some replayed) ↦ (ok replayed, db)
      | ok none ↦ (err conflict, record_hold_conflict db)
      | err e ↦ (err e, db)
    ]
after_failure user input (unique_violation HoldConstraint.one_active_per_user_session) db =
    (err conflict, record_hold_conflict db)
after_failure user input conflict db = (err conflict, record_hold_conflict db)
after_failure user input e db = (err e, db)

-- `loadCustomerHoldView` after the commit.
unfoldable pub loaded : ℕ → Database → Result HoldError AcquiredHold
loaded i db = elim (find_hold i db.holds) [
  | none ↦ err conflict
  | some h ↦ ok (record { hold = h; replayed = false })
]

-- `acquireSeatHold`. `between` is what other requests commit after the replay was looked up and
-- before the transaction starts.
unfoldable pub acquire_seat_hold :
    HoldConfiguration
    → ℕ
    → (Database → Database)
    → Option ℕ
    → HoldCreateInput
    → Generated
    → Database
    → Result HoldError AcquiredHold × Database
acquire_seat_hold config now between none input gen db = (err authentication, db)
acquire_seat_hold config now between (some user) input gen db =
    if accepts_hold_input config.max_seats_per_hold input
    then elim (try_idempotent_replay user input db) [
      | err e ↦ (err e, db)
      | ok (some replayed) ↦ (ok replayed, db)
      | ok none ↦ elim (acquire_transaction config now user input gen (between db)) [
        | ok db' ↦ (loaded gen.id db', db')
        | err e ↦ after_failure user input e (between db)
      ]
    ]
    else (err validation, db)
