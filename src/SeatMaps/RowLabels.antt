-- ===== src/SeatMaps/RowLabels.antt =====
-- src/features/seat-maps/row-labels.ts. A label is the list of its character codes, trimmed and in
-- upper case.
use seatflow.Prelude.{
  ℕ, zero, suc, ◌+◌, ◌-◌, ◌*◌, ◌/◌, ◌%◌, ◌≡◌, ◌≤◌, refl, Bool, true, ◌&&◌, ◌||◌, List, [], ◌∷◌, all,
  length, ltb, leb, if◌then◌else◌, arith, Result, ok, err, ◌∙◌, ap, ◌>>=◌,
}

pub data LabelError : Type 0 where
  row_label_invalid row_number_out_of_range : LabelError
  first_seat_number_invalid seat_labels_out_of_range : LabelError

abbrev pub is_letter : ℕ → Bool
is_letter c = leb 65 c && leb c 90

-- The `reduce`.
unfoldable pub label_value : ℕ → List ℕ → ℕ
label_value value [] = value
label_value value (c ∷ label) = label_value (value * 26 + c - 64) label

unfoldable pub row_label_to_number : List ℕ → Result LabelError ℕ
unfolding label_value
row_label_to_number label =
    if all is_letter label && leb 1 (length label) && leb (length label) 3
    then ok (label_value 0 label)
    else err row_label_invalid

-- The `while`, on fuel.
unfoldable pub label_loop : ℕ → ℕ → List ℕ → List ℕ
label_loop zero remainder label = label
label_loop (suc fuel) zero label = label
label_loop (suc fuel) (suc n) label = label_loop fuel (n / 26) ((65 + n % 26) ∷ label)

unfoldable pub number_to_row_label : ℕ → Result LabelError (List ℕ)
unfolding label_loop
number_to_row_label value =
    if ltb value 1 || ltb 18278 value
    then err row_number_out_of_range
    else ok (label_loop value value [])

label_value-loop :
    (fuel n : ℕ) (label : List ℕ)
    → n ≤ fuel
    → label_value 0 (label_loop fuel n label) ≡ label_value n label
unfolding label_value label_loop
label_value-loop zero n label h = ap (λ m. label_value m label) (omega arith)
label_value-loop (suc fuel) zero label h = refl
label_value-loop (suc fuel) (suc n) label h =
    label_value-loop fuel (n / 26) ((65 + n % 26) ∷ label) (omega arith)
    ∙ ap (λ m. label_value m label) (omega arith)

letters-loop :
    (fuel n : ℕ) (label : List ℕ)
    → all is_letter label ≡ true
    → all is_letter (label_loop fuel n label) ≡ true
unfolding label_loop
letters-loop zero n label h = h
letters-loop (suc fuel) zero label h = h
letters-loop (suc fuel) (suc n) label h =
    letters-loop fuel (n / 26) ((65 + n % 26) ∷ label) (ground (arith, h))

-- The largest number with a label of `k` letters.
abbrev largest : ℕ → ℕ
largest zero = 0
largest (suc k) = 26 * largest k + 26

length-loop_le :
    (k fuel n : ℕ) (label : List ℕ)
    → n ≤ largest k
    → length (label_loop fuel n label) ≤ k + length label
unfolding label_loop
length-loop_le k zero n label h = omega arith
length-loop_le k (suc fuel) zero label h = omega arith
length-loop_le zero (suc fuel) (suc n) label h = omega arith
length-loop_le (suc k) (suc fuel) (suc n) label h =
    omega (arith, length-loop_le k fuel (n / 26) ((65 + n % 26) ∷ label) (omega arith))

length-loop_ge : (fuel n : ℕ) (label : List ℕ) → length label ≤ length (label_loop fuel n label)
unfolding label_loop
length-loop_ge zero n label = omega arith
length-loop_ge (suc fuel) zero label = omega arith
length-loop_ge (suc fuel) (suc n) label =
    omega (arith, length-loop_ge fuel (n / 26) ((65 + n % 26) ∷ label))

length-loop_pos : (fuel n : ℕ) → 1 ≤ fuel → 1 ≤ n → 1 ≤ length (label_loop fuel n [])
unfolding label_loop
length-loop_pos (suc fuel) (suc n) f h =
    omega (arith, length-loop_ge fuel (n / 26) ((65 + n % 26) ∷ []))
length-loop_pos zero n f h = omega arith
length-loop_pos (suc fuel) zero f h = omega arith

-- Every row number from 1 to 18,278 has a label, which is one to three capital letters, and the
-- number that is read back from the label is the one it was made of.
pub number_to_row_label-round_trip :
    (n : ℕ) → 1 ≤ n → n ≤ 18278 → (number_to_row_label n >>= row_label_to_number) ≡ ok n
unfolding number_to_row_label row_label_to_number
number_to_row_label-round_trip n lo hi = ground (
  arith,
  lo,
  hi,
  letters-loop n n [] refl,
  length-loop_le 3 n n [] hi,
  length-loop_pos n n lo lo,
  label_value-loop n n [] (omega arith),
)
