-- ===== src/Delivery.antt =====
-- The client's cursor over inventory events: src/features/inventory-events/delivery.ts. A time stamp
-- is compared as the source compares the strings, and is a number.
use seatflow.Prelude.{
  ℕ, zero, suc, ◌-◌, ◌≡◌, ◌≤◌, Bool, true, false, Option, none, some, List, [], ◌∷◌, ◌++◌, contains,
  length, ltb, if◌then◌else◌, arith, length-append,
}

pub record InventoryEventCursor : Type 0 where
  pub last_server_timestamp : Option ℕ
  pub seen_event_ids : List ℕ

pub record InventoryEvent : Type 0 where
  pub event_id : ℕ
  pub server_timestamp : ℕ

pub data InventoryEventDecision : Type 0 where
  apply duplicate stale : InventoryEventCursor → InventoryEventDecision

abbrev drop : ℕ → List ℕ → List ℕ
drop zero xs = xs
drop (suc n) [] = []
drop (suc n) (x ∷ xs) = drop n xs

-- `slice(-n)`, where `slice(-0)` is the whole list.
abbrev keep_last : ℕ → List ℕ → List ℕ
keep_last zero xs = xs
keep_last n xs = drop (length xs - n) xs

abbrev is_before : ℕ → Option ℕ → Bool
is_before t none = false
is_before t (some last) = ltb t last

abbrev latest : ℕ → Option ℕ → ℕ
latest t none = t
latest t (some last) = if ltb last t then t else last

unfoldable pub decide_inventory_event :
    InventoryEventCursor → InventoryEvent → ℕ → InventoryEventDecision
decide_inventory_event cursor event maximum =
    if contains cursor.seen_event_ids event.event_id
    then duplicate cursor
    else if is_before event.server_timestamp cursor.last_server_timestamp
    then stale cursor
    else apply (record {
      last_server_timestamp = some (latest event.server_timestamp cursor.last_server_timestamp);
      seen_event_ids = keep_last maximum (cursor.seen_event_ids ++ event.event_id ∷ []);
    })

abbrev pub cursor_of : InventoryEventDecision → InventoryEventCursor
cursor_of (apply c) = c
cursor_of (duplicate c) = c
cursor_of (stale c) = c

abbrev pub is_apply : InventoryEventDecision → Bool
is_apply (apply c) = true
is_apply _ = false

abbrev pub stamp : Option ℕ → ℕ
stamp none = 0
stamp (some t) = t

contains-drop_last :
    (n e : ℕ) (xs : List ℕ) → n ≤ length xs → contains (drop n (xs ++ e ∷ [])) e ≡ true
contains-drop_last zero e [] h = ground arith
contains-drop_last zero e (x ∷ xs) h = ground (arith, contains-drop_last zero e xs (omega arith))
contains-drop_last (suc n) e [] h = ground (arith, h)
contains-drop_last (suc n) e (x ∷ xs) h = contains-drop_last n e xs (omega (arith, h))

length-drop : (n : ℕ) (xs : List ℕ) → length (drop n xs) ≡ length xs - n
length-drop zero xs = omega arith
length-drop (suc n) [] = omega arith
length-drop (suc n) (x ∷ xs) = omega (arith, length-drop n xs)

-- Whatever event arrives, the cursor's time never goes back, it remembers at most `maximum` ids if it
-- did before, and the same event, delivered again at once, is not applied.
pub decide_inventory_event-once :
    (c : InventoryEventCursor) (e : InventoryEvent) (maximum : ℕ)
    → 1 ≤ maximum
    → length c.seen_event_ids ≤ maximum
    → (stamp c.last_server_timestamp
        ≤ stamp (cursor_of (decide_inventory_event c e maximum)).last_server_timestamp)
      × (length (cursor_of (decide_inventory_event c e maximum)).seen_event_ids ≤ maximum)
      × (is_apply
            (decide_inventory_event (cursor_of (decide_inventory_event c e maximum)) e maximum)
          ≡ false)
unfolding decide_inventory_event
decide_inventory_event-once c e zero h l = ground (arith, h)
decide_inventory_event-once c e (suc m) h l =
    let size = length-append c.seen_event_ids (e.event_id ∷ []) in
    let seen =
      contains-drop_last (length (c.seen_event_ids ++ e.event_id ∷ []) - suc m) e.event_id
        c.seen_event_ids (omega (arith, size)) in
    let kept =
      length-drop (length (c.seen_event_ids ++ e.event_id ∷ []) - suc m)
        (c.seen_event_ids ++ e.event_id ∷ []) in
    ground (arith, size, seen, kept, l)
