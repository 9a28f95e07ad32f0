-- ===== src/Holds/Sweeping.antt =====
-- The sweep ends, and leaves no overdue hold behind.
use seatflow.Prelude.{
  ℕ, zero, suc, ◌+◌, ◌==◌, ◌≡◌, ◌≤◌, ◌<◌, refl, Bool, true, false, ◌&&◌, ◌||◌, not, none, some,
  List, [], ◌∷◌, map, length, filter, any, arith, ap, Bool-cases, inl, inr, List-cases,
}
use seatflow.Holds.Tables.{SeatHold, Database, is_active, update_holds}
use seatflow.Holds.Expiry.{expire}
use seatflow.Holds.Sweep.{
  is_sweepable, insert_by_expiry, sort_by_expiry, take, is_claimed, claim_batch, expire_batch,
  sweep_batch, ExpirySweepResult, sweep_loop, active_count, sweep_expired_holds,
}

-- Expiring holds lowers the number of ACTIVE ones by the number that is reported.
active_count-expire :
    (ids : List ℕ) (now : ℕ) (hs : List SeatHold)
    → active_count (update_holds (is_claimed ids) (expire now) hs)
        + length (filter (is_claimed ids) hs)
      ≡ active_count hs
active_count-expire ids now [] = refl
active_count-expire ids now (h ∷ hs) = ground (arith, active_count-expire ids now hs)

active_count-batch :
    (now : ℕ) (cs : List SeatHold) (db : Database)
    → let (db', holds, _) = expire_batch now cs db in
      active_count db'.holds + holds ≡ active_count db.holds
unfolding expire_batch
active_count-batch now [] db = omega arith
active_count-batch now (c ∷ cs) db = active_count-expire (map (λ h. h.id) (c ∷ cs)) now db.holds

-- Sorting and taking keep to the stored holds that may be swept, and lose none if one is due.
insert-any :
    (p : SeatHold → Bool) (h : SeatHold) (hs : List SeatHold)
    → any p (insert_by_expiry h hs) ≡ p h || any p hs
unfolding insert_by_expiry
insert-any p h [] = refl
insert-any p h (x ∷ hs) = ground (arith, insert-any p h hs)

sort-any : (p : SeatHold → Bool) (hs : List SeatHold) → any p (sort_by_expiry hs) ≡ any p hs
unfolding sort_by_expiry
sort-any p [] = refl
sort-any p (h ∷ hs) = ground (arith, insert-any p h (sort_by_expiry hs), sort-any p hs)

take-any :
    (p : SeatHold → Bool) (n : ℕ) (hs : List SeatHold) → any p (take n hs) ≡ true → any p hs ≡ true
unfolding take
take-any p zero hs e = cc
take-any p (suc n) [] e = cc
take-any p (suc n) (h ∷ hs) e = ground (arith, take-any p n hs)

filter-any :
    (p q : SeatHold → Bool) (hs : List SeatHold) → any p (filter q hs) ≡ true → any p hs ≡ true
filter-any p q [] e = cc
filter-any p q (h ∷ hs) e = ground (arith, filter-any p q hs)

filter-any-not :
    (q : SeatHold → Bool) (hs : List SeatHold) → any (λ h. not (q h)) (filter q hs) ≡ false
filter-any-not q [] = refl
filter-any-not q (h ∷ hs) = ground (arith, filter-any-not q hs)

filter-any_self : (q : SeatHold → Bool) (hs : List SeatHold) → any q (filter q hs) ≡ any q hs
filter-any_self q [] = refl
filter-any_self q (h ∷ hs) = ground (arith, filter-any_self q hs)

take-nil : (n : ℕ) (hs : List SeatHold) → 1 ≤ n → take n hs ≡ [] → hs ≡ []
unfolding take
take-nil zero hs h e = absurd (omega arith)
take-nil (suc n) [] h e = refl
take-nil (suc n) (x ∷ hs) h e = cc

any-filter_pos :
    (p q : SeatHold → Bool) (hs : List SeatHold)
    → ((h : SeatHold) → p h ≡ true → q h ≡ true)
    → any p hs ≡ true
    → 1 ≤ length (filter q hs)
any-filter_pos p q [] imp e = cc
any-filter_pos p q (h ∷ hs) imp e = ground (arith, imp h, any-filter_pos p q hs imp)

module _ (locked : List ℕ) (now size : ℕ) where
  -- An empty claim means that no overdue hold is left to take.
  claim_batch-nil :
      (db : Database)
      → 1 ≤ size
      → claim_batch locked now size db ≡ []
      → any (is_sweepable locked now) db.holds ≡ false
  unfolding claim_batch
  claim_batch-nil db pos e =
      let empty =
        take-nil size (sort_by_expiry (filter (is_sweepable locked now) db.holds)) pos e in
      ground (
        arith,
        ap (any (is_sweepable locked now)) empty,
        sort-any (is_sweepable locked now) (filter (is_sweepable locked now) db.holds),
        filter-any_self (is_sweepable locked now) db.holds,
      )

  -- What is claimed may be swept, and is stored.
  claim_batch-head :
      (db : Database) (c : SeatHold) (cs : List SeatHold)
      → claim_batch locked now size db ≡ c ∷ cs
      → any (λ h. c.id == h.id && is_active h.status) db.holds ≡ true
  unfolding claim_batch
  claim_batch-head db c cs e =
      let due = filter (is_sweepable locked now) db.holds in
      let bad : SeatHold → Bool = λ h. not (is_sweepable locked now h) in
      let mine : SeatHold → Bool = λ h. c.id == h.id && is_active h.status in
      let swept : is_sweepable locked now c ≡ true = ground (
        arith,
        take-any bad size (sort_by_expiry due),
        ap (any bad) e,
        sort-any bad due,
        filter-any-not (is_sweepable locked now) db.holds,
      ) in
      filter-any mine (is_sweepable locked now) db.holds (
        ground (arith, take-any mine size (sort_by_expiry due), ap (any mine) e, sort-any mine due))

  -- A batch that claims something expires something.
  expire_batch-pos :
      (db : Database) (c : SeatHold) (cs : List SeatHold)
      → any (λ h. c.id == h.id && is_active h.status) db.holds ≡ true
      → 1 ≤ (expire_batch now (c ∷ cs) db).1
  unfolding expire_batch
  expire_batch-pos db c cs e =
      any-filter_pos (λ h. c.id == h.id && is_active h.status)
        (is_claimed (map (λ h. h.id) (c ∷ cs))) db.holds (λ h t. ground arith) e

  -- A batch that expires nothing changes nothing and finds nothing overdue.
  sweep_batch-done :
      (db : Database)
      → 1 ≤ size
      → (sweep_batch locked now size db).1 ≡ 0
      → ((sweep_batch locked now size db).0 ≡ db) × (any (is_sweepable locked now) db.holds ≡ false)
  unfolding sweep_batch
  sweep_batch-done db pos e = elim (List-cases (claim_batch locked now size db)) [
    | inl empty ↦ (unfold expire_batch in rw empty refl, claim_batch-nil db pos empty)
    | inr (c, cs, some_) ↦ absurd (
        ground (
          arith,
          expire_batch-pos db c cs (claim_batch-head db c cs some_),
          ap (λ (l : List SeatHold). (expire_batch now l db).1) some_,
        ))
  ]

  sweep_batch-count :
      (db : Database)
      → active_count (sweep_batch locked now size db).0.holds + (sweep_batch locked now size db).1
        ≡ active_count db.holds
  unfolding sweep_batch
  sweep_batch-count db = active_count-batch now (claim_batch locked now size db) db

  sweep_loop_complete :
      (fuel : ℕ) (acc : ExpirySweepResult) (db : Database)
      → 1 ≤ size
      → active_count db.holds < fuel
      → (r : ExpirySweepResult) × (db' : Database) × (sweep_loop fuel
            (λ d. d)
            (λ _. locked)
            now
            size
            none
            acc
            db
          ≡ some (r, db'))
        × (any (is_sweepable locked now) db'.holds ≡ false)
        × (r.holds_expired + active_count db'.holds ≡ acc.holds_expired + active_count db.holds)
  unfolding sweep_loop
  sweep_loop_complete zero acc db pos enough = absurd (omega arith)
  sweep_loop_complete (suc fuel) acc db pos enough =
      let (after, count, seats) = sweep_batch locked now size db in
      elim (Bool-cases (count == 0)) [
        | inl nothing ↦
            let (same, clear) = sweep_batch-done db pos (ground arith) in
            (acc, after, rw (nothing, sweep_loop) refl, rw same clear, rw same refl)
        | inr more ↦
            let (r, db', e, clear, total) =
              sweep_loop_complete fuel
                (record {
                  holds_expired = acc.holds_expired + count;
                  seats_released = acc.seats_released + seats;
                  batches = acc.batches + 1;
                })
                after pos (ground (arith, sweep_batch-count db)) in
            (r, db', rw (more, sweep_loop) e, clear, omega (arith, sweep_batch-count db, total))
      ]

  -- With a batch size of at least 1, no limit on the batches, the same holds locked by others
  -- throughout and nothing committed in between, the sweep ends; no overdue hold that is not locked
  -- is left ACTIVE, and the reported number of expired holds is the number by which the ACTIVE holds
  -- have become fewer.
  pub sweep_expired_holds_complete :
      (db : Database)
      → 1 ≤ size
      → (r : ExpirySweepResult) × (db' : Database) × (sweep_expired_holds
            (λ d. d)
            (λ _. locked)
            now
            size
            none
            db
          ≡ some (r, db'))
        × (any (is_sweepable locked now) db'.holds ≡ false)
        × (r.holds_expired + active_count db'.holds ≡ active_count db.holds)
  unfolding sweep_expired_holds
  sweep_expired_holds_complete db pos =
      let (r, db', e, clear, total) =
        sweep_loop_complete (active_count db.holds + 1)
          (record { holds_expired = 0; seats_released = 0; batches = 0 }) db pos (omega arith) in
      (r, db', e, clear, omega (arith, total))
