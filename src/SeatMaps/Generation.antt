-- ===== src/SeatMaps/Generation.antt =====
-- `generateRowLabels` and `generateSeatLabels` of src/features/seat-maps/row-labels.ts. A seat label
-- `String(n)` stands for its number, and counts are whole numbers.
use seatflow.Prelude.{
  ℕ, zero, suc, ◌+◌, ◌-◌, ◌*◌, ◌≡◌, ◌≤◌, refl, true, ◌||◌, List, [], ◌∷◌, map, all, ltb,
  if◌then◌else◌, arith, Result, ok, err, ◌>>=◌, >>=-eq-ok, ap₂,
}
use seatflow.SeatMaps.RowLabels.{
  LabelError, is_letter, label_value, row_label_to_number, number_to_row_label,
  number_to_row_label-round_trip,
}

-- The callback of `Array.from`, for as many indices.
unfoldable pub labels_from : ℕ → ℕ → Result LabelError (List (List ℕ))
labels_from start zero = ok []
labels_from start (suc count) =
    let rest = labels_from (start + 1) count in
    number_to_row_label start >>= λ label. rest >>= λ labels. ok (label ∷ labels)

-- The arguments: `startLabel` and `count`.
unfoldable pub generate_row_labels : List ℕ → ℕ → Result LabelError (List (List ℕ))
unfolding labels_from
generate_row_labels start_label count =
    row_label_to_number start_label >>= λ start. labels_from start count

unfoldable pub consecutive : ℕ → ℕ → List ℕ
consecutive start zero = []
consecutive start (suc count) = start ∷ consecutive (start + 1) count

-- The arguments: `startNumber` and `count`.
unfoldable pub generate_seat_labels : ℕ → ℕ → Result LabelError (List ℕ)
unfolding consecutive
generate_seat_labels start count =
    if ltb start 1 || ltb 9999 start
    then err LabelError.first_seat_number_invalid
    else if ltb count 1 || ltb 9999 (start + count - 1)
    then err LabelError.seat_labels_out_of_range
    else ok (consecutive start count)

label_value_le :
    (value : ℕ) (label : List ℕ) → all is_letter label ≡ true → value ≤ label_value value label
unfolding label_value
label_value_le value [] h = omega arith
label_value_le value (c ∷ label) h = ground (arith, h, label_value_le (value * 26 + c - 64) label)

start_pos : (label : List ℕ) (start : ℕ) → row_label_to_number label ≡ ok start → 1 ≤ start
unfolding row_label_to_number label_value
start_pos [] start e = ground (arith, e)
start_pos (c ∷ label) start e = ground (arith, e, label_value_le (0 * 26 + c - 64) label)

parsed_value : (label : List ℕ) (n : ℕ) → row_label_to_number label ≡ ok n → label_value 0 label ≡ n
unfolding row_label_to_number
parsed_value label n e = ground (arith, e)

labels_from-consecutive :
    (start count : ℕ)
    → 1 ≤ start
    → start + count ≤ 18279
    → (labels : List (List ℕ)) × (labels_from start count ≡ ok labels)
      × (map (label_value 0) labels ≡ consecutive start count)
unfolding labels_from consecutive
labels_from-consecutive start zero lo hi = ([], refl, refl)
labels_from-consecutive start (suc count) lo hi =
    let back = number_to_row_label-round_trip start lo (omega arith) in
    let (label, printed, parsed) = >>=-eq-ok (number_to_row_label start) row_label_to_number back in
    let (labels, generated, values) =
      labels_from-consecutive (start + 1) count (omega arith) (omega arith) in
    (
      label ∷ labels,
      rw (printed, generated) refl,
      ap₂ (λ n ns. n ∷ ns) (parsed_value label start parsed) values,
    )

-- From a start label that is read as `start`, as many row labels as are asked for are generated,
-- provided that the last stays within ZZZ; read back, they are the consecutive numbers from `start`.
pub generate_row_labels-consecutive :
    (start_label : List ℕ) (start count : ℕ)
    → row_label_to_number start_label ≡ ok start
    → start + count ≤ 18279
    → (labels : List (List ℕ)) × (generate_row_labels start_label count ≡ ok labels)
      × (map (label_value 0) labels ≡ consecutive start count)
unfolding generate_row_labels
generate_row_labels-consecutive start_label start count e hi =
    let (labels, generated, values) =
      labels_from-consecutive start count (start_pos start_label start e) hi in
    (labels, rw e generated, values)
