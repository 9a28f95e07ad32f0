-- ===== src/Payments/SeatLifecycle.antt =====
-- The life of one seat as an abstract machine, for the transactions of src/server/holds and
-- src/server/payments. Which hold has a seat, and what a seat costs, is forgotten.
use seatflow.Prelude.{
  ℕ, ◌==◌, ◌≡◌, refl, Bool, true, false, ◌||◌, Option, none, some, List, [], ◌∷◌, map, all, arith,
  Bool-cases, inl, inr,
}
use seatflow.Domain.{SeatInventoryState}
use seatflow.Holds.Tables.{InventoryRow, find_row}

-- The abstract view: the state of a seat's row, if there is one.
abbrev pub seat_of : ℕ → List InventoryRow → Option SeatInventoryState
seat_of i rows = elim (find_row i rows) [ none ↦ none | some r ↦ some r.state ]

-- The steps of a seat. BOOKED is final, and only a HELD seat becomes BOOKED.
pub data SeatStep : Option SeatInventoryState → Option SeatInventoryState → Type 0 where
  stay : (x : Option SeatInventoryState) → SeatStep x x
  claim : SeatStep (some SeatInventoryState.available) (some SeatInventoryState.held)
  free : SeatStep (some SeatInventoryState.held) (some SeatInventoryState.available)
  sell : SeatStep (some SeatInventoryState.held) (some SeatInventoryState.booked)

-- The same as tests.
abbrev pub same_state : SeatInventoryState → SeatInventoryState → Bool
same_state SeatInventoryState.available SeatInventoryState.available = true
same_state SeatInventoryState.held SeatInventoryState.held = true
same_state SeatInventoryState.booked SeatInventoryState.booked = true
same_state _ _ = false

abbrev pub frees : SeatInventoryState → SeatInventoryState → Bool
frees SeatInventoryState.held SeatInventoryState.available = true
frees a b = same_state a b

abbrev pub claims : SeatInventoryState → SeatInventoryState → Bool
claims SeatInventoryState.available SeatInventoryState.held = true
claims a b = same_state a b

abbrev pub sells : SeatInventoryState → SeatInventoryState → Bool
sells SeatInventoryState.held SeatInventoryState.booked = true
sells a b = same_state a b

abbrev pub may_move : SeatInventoryState → SeatInventoryState → Bool
may_move a b = frees a b || claims a b || sells a b

abbrev pub lift :
    (SeatInventoryState → SeatInventoryState → Bool)
    → Option SeatInventoryState
    → Option SeatInventoryState
    → Bool
lift q none none = true
lift q (some a) (some b) = q a b
lift q _ _ = false

pub may_move-SeatStep : (x y : Option SeatInventoryState) → lift may_move x y ≡ true → SeatStep x y
may_move-SeatStep none none e = SeatStep.stay none
may_move-SeatStep none (some b) e = absurd cc
may_move-SeatStep (some a) none e = absurd cc
may_move-SeatStep (some SeatInventoryState.available) (some SeatInventoryState.available) e =
    SeatStep.stay _
may_move-SeatStep (some SeatInventoryState.available) (some SeatInventoryState.held) e =
    SeatStep.claim
may_move-SeatStep (some SeatInventoryState.available) (some SeatInventoryState.booked) e = absurd cc
may_move-SeatStep (some SeatInventoryState.held) (some SeatInventoryState.available) e =
    SeatStep.free
may_move-SeatStep (some SeatInventoryState.held) (some SeatInventoryState.held) e = SeatStep.stay _
may_move-SeatStep (some SeatInventoryState.held) (some SeatInventoryState.booked) e = SeatStep.sell
may_move-SeatStep (some SeatInventoryState.booked) (some SeatInventoryState.available) e = absurd cc
may_move-SeatStep (some SeatInventoryState.booked) (some SeatInventoryState.held) e = absurd cc
may_move-SeatStep (some SeatInventoryState.booked) (some SeatInventoryState.booked) e =
    SeatStep.stay _

-- A change of every row changes the view of a seat in the same way.
pub seat_of-map :
    (q : SeatInventoryState → SeatInventoryState → Bool) (p : InventoryRow → Bool)
    (f : InventoryRow → InventoryRow)
    → ((r : InventoryRow) → (f r).id ≡ r.id)
    → ((r : InventoryRow) → p r ≡ true → q r.state (f r).state ≡ true)
    → (i : ℕ) (rows : List InventoryRow) → all p rows ≡ true
    → lift q (seat_of i rows) (seat_of i (map f rows)) ≡ true
unfolding find_row
seat_of-map q p f same move i [] e = refl
seat_of-map q p f same move i (r ∷ rows) e = elim (Bool-cases (r.id == i)) [
  | inl at ↦ ground (arith, at, same r, move r (ground (arith, e)))
  | inr past ↦ ground (arith, past, same r, seat_of-map q p f same move i rows (ground (arith, e)))
]

pub lift-same : (x : Option SeatInventoryState) → lift frees x x ≡ true
lift-same none = refl
lift-same (some SeatInventoryState.available) = refl
lift-same (some SeatInventoryState.held) = refl
lift-same (some SeatInventoryState.booked) = refl

pub frees-frees :
    (x y z : Option SeatInventoryState)
    → lift frees x y ≡ true
    → lift frees y z ≡ true
    → lift frees x z ≡ true
frees-frees x y z e f = ground (arith, e, f)

pub frees-claims :
    (x y z : Option SeatInventoryState)
    → lift frees x y ≡ true
    → lift claims y z ≡ true
    → lift may_move x z ≡ true
frees-claims x y z e f = ground (arith, e, f)

pub frees-move :
    (x y : Option SeatInventoryState) → lift frees x y ≡ true → lift may_move x y ≡ true
frees-move x y e = ground (arith, e)

pub sells-move :
    (x y : Option SeatInventoryState) → lift sells x y ≡ true → lift may_move x y ≡ true
sells-move x y e = ground (arith, e)
