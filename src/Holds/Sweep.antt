-- ===== src/Holds/Sweep.antt =====
-- `sweepExpiredHolds` of src/server/holds/expiry-service.ts.
use seatflow.Prelude.{
  ℕ, zero, suc, ◌+◌, ◌==◌, Bool, true, false, ◌&&◌, not, Option, none, some, List, [], ◌∷◌, ◌++◌,
  map, length, filter, contains, leb, ltb, if◌then◌else◌,
}
use seatflow.Holds.Tables.{
  SeatHold, OutboxEntry, InventoryEventType, Database, is_active, update_holds,
}
use seatflow.Holds.Expiry.{expire, release_rows, released_count}

-- An overdue active hold that no other transaction has locked (`SKIP LOCKED`).
abbrev pub is_sweepable : List ℕ → ℕ → SeatHold → Bool
is_sweepable locked now h =
    (is_active h.status && leb h.expires_at now) && not (contains locked h.id)

-- `ORDER BY "expiresAt" ASC`.
unfoldable pub insert_by_expiry : SeatHold → List SeatHold → List SeatHold
insert_by_expiry h [] = h ∷ []
insert_by_expiry h (x ∷ xs) =
    if leb h.expires_at x.expires_at then h ∷ x ∷ xs else x ∷ insert_by_expiry h xs

unfoldable pub sort_by_expiry : List SeatHold → List SeatHold
unfolding insert_by_expiry
sort_by_expiry [] = []
sort_by_expiry (h ∷ hs) = insert_by_expiry h (sort_by_expiry hs)

-- `LIMIT ${batchSize}`.
unfoldable pub take : ℕ → List SeatHold → List SeatHold
take zero xs = []
take (suc n) [] = []
take (suc n) (x ∷ xs) = x ∷ take n xs

-- `id: { in: ids }, status: "ACTIVE"`.
abbrev pub is_claimed : List ℕ → SeatHold → Bool
is_claimed ids h = contains ids h.id && is_active h.status

abbrev pub expired_event : SeatHold → OutboxEntry
expired_event h = record {
  event_type = InventoryEventType.hold_expired;
  session_id = h.session_id;
  aggregate_id = h.id;
}

-- The holds that one batch claims.
unfoldable pub claim_batch : List ℕ → ℕ → ℕ → Database → List SeatHold
unfolding sort_by_expiry take
claim_batch locked now batch_size db =
    take batch_size (sort_by_expiry (filter (is_sweepable locked now) db.holds))

-- Expires the claimed holds and frees their rows. An empty claim changes nothing, as the early
-- return has it.
unfoldable pub expire_batch : ℕ → List SeatHold → Database → Database × ℕ × ℕ
expire_batch now [] db = (db, 0, 0)
expire_batch now (c ∷ cs) db =
    let ids = map (λ h. h.id) (c ∷ cs) in
    (
      record db {
        holds = update_holds (is_claimed ids) (expire now) db.holds;
        inventory = release_rows ids db.inventory;
        outbox = db.outbox ++ map expired_event (c ∷ cs);
      },
      length (filter (is_claimed ids) db.holds),
      released_count ids db.inventory,
    )

-- One transaction of the sweep: the database, `processed.holds` and `processed.seats`.
unfoldable pub sweep_batch : List ℕ → ℕ → ℕ → Database → Database × ℕ × ℕ
unfolding claim_batch expire_batch
sweep_batch locked now batch_size db = expire_batch now (claim_batch locked now batch_size db) db

pub record ExpirySweepResult : Type 0 where
  pub holds_expired : ℕ
  pub seats_released : ℕ
  pub batches : ℕ

-- `batches < maxBatches`, where `none` is `Number.POSITIVE_INFINITY`.
abbrev pub may_continue : ℕ → Option ℕ → Bool
may_continue batches none = true
may_continue batches (some limit) = ltb batches limit

-- The `while` loop; `none` if the fuel runs out. `between` is what other requests commit between two
-- batches, and `locked` what they have locked during each batch.
unfoldable pub sweep_loop :
    ℕ
    → (between : Database → Database) → (locked : ℕ → List ℕ) → ℕ
    → ℕ
    → Option ℕ
    → ExpirySweepResult
    → Database
    → Option (ExpirySweepResult × Database)
sweep_loop zero between locked now size limit acc db = none
sweep_loop (suc fuel) between locked now size limit acc db = elim (may_continue acc.batches limit) [
  | false ↦ some (acc, db)
  | true ↦
      let (db', holds, seats) = sweep_batch (locked acc.batches) now size db in
      elim (holds == 0) [
        | true ↦ some (acc, db')
        | false ↦
            sweep_loop fuel between locked now size limit
              (record {
                holds_expired = acc.holds_expired + holds;
                seats_released = acc.seats_released + seats;
                batches = acc.batches + 1;
              })
              (between db')
      ]
]

-- The number of ACTIVE holds bounds the rounds that expire something.
abbrev pub active_count : List SeatHold → ℕ
active_count hs = length (filter (λ h. is_active h.status) hs)

unfoldable pub sweep_expired_holds :
    (between : Database → Database)
    → (locked : ℕ → List ℕ) → ℕ
    → ℕ
    → Option ℕ
    → Database
    → Option (ExpirySweepResult × Database)
unfolding sweep_loop
sweep_expired_holds between locked now size limit db =
    sweep_loop (active_count db.holds + 1) between locked now size limit
      (record { holds_expired = 0; seats_released = 0; batches = 0 }) db
