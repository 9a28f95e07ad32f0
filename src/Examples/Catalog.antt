-- ===== src/Examples/Catalog.antt =====
-- The theorems on row labels and webhook secrets at concrete data.
use seatflow.Prelude.{
  ℕ, ◌-◌, ◌≡◌, refl, true, ◌&&◌, not, some, List, [], ◌∷◌, map, any, all, leb, ltb, ok, arith,
}
use seatflow.SeatMaps.RowLabels.{label_value, row_label_to_number}
use seatflow.SeatMaps.Generation.{generate_row_labels, consecutive, generate_row_labels-consecutive}
use seatflow.Payments.SecretRotation.{
  Secret, WebhookSecretWindow, active_secrets_for_verification, is_rotation_complete, same_secret,
  has_length, maximum_previous_secret_window_ms, active_secrets_for_verification-eq,
  is_rotation_complete-closes,
}

-- From `Z` on: Z, AA, AB.
generate_row_labels-consecutive_example :
    (labels : List (List ℕ)) × (generate_row_labels (90 ∷ []) 3 ≡ ok labels)
    × (map (label_value 0) labels ≡ consecutive 26 3)
unfolding row_label_to_number
generate_row_labels-consecutive_example =
    generate_row_labels-consecutive (90 ∷ []) 26 3 refl (omega arith)

abbrev new_secret : Secret
new_secret = record { text = 1; length = 40 }

abbrev old_secret : Secret
old_secret = record { text = 2; length = 36 }

active_secrets_for_verification-eq_example :
    let tried =
      active_secrets_for_verification
        (record {
          current = new_secret;
          previous = some old_secret;
          previous_expires_at = some 5000;
        })
        1000 in
    (any (same_secret old_secret) tried ≡ (
      has_length new_secret
      && has_length old_secret
      && not (same_secret old_secret new_secret)
      && ltb 1000 5000
      && leb (5000 - 1000) maximum_previous_secret_window_ms))
    × (all has_length tried ≡ true)
active_secrets_for_verification-eq_example =
    active_secrets_for_verification-eq new_secret old_secret 5000 1000

abbrev rotation : WebhookSecretWindow
rotation = record {
  current = new_secret;
  previous = some old_secret;
  previous_expires_at = some 5000;
}

is_rotation_complete-closes_example :
    (is_rotation_complete rotation 7000 ≡ true)
    × (all (same_secret new_secret) (active_secrets_for_verification rotation 7000) ≡ true)
unfolding is_rotation_complete
is_rotation_complete-closes_example =
    is_rotation_complete-closes rotation 6000 7000 refl (omega arith)
