-- ===== src/Payments/SecretRotation.antt =====
-- src/features/payments/secret-rotation.ts. A secret is only compared and measured: it is a number
-- with a length, and the empty string has length 0.
use seatflow.Prelude.{
  ℕ, ◌-◌, ◌==◌, ◌≡◌, Bool, true, false, ◌&&◌, not, Option, none, some, List, [], ◌∷◌, leb, ltb,
  if◌then◌else◌, arith, any, all, ◌≤◌, ==_self,
}

pub record Secret : Type 0 where
  pub text : ℕ
  pub length : ℕ

-- `previous` is `none` for null, undefined or the empty string.
pub record WebhookSecretWindow : Type 0 where
  pub current : Secret
  pub previous : Option Secret
  pub previous_expires_at : Option ℕ

pub data SecretWindowProblem : Type 0 where
  current_secret_missing current_secret_too_short previous_secret_too_short : SecretWindowProblem
  previous_expiry_missing previous_equals_current previous_window_too_long : SecretWindowProblem

-- `accepting acceptsPrevious`, or the problem.
pub data SecretWindowValidation : Type 0 where
  accepting : Bool → SecretWindowValidation
  refusing : SecretWindowProblem → SecretWindowValidation

abbrev pub maximum_previous_secret_window_ms : ℕ
maximum_previous_secret_window_ms = 604800000

abbrev pub minimum_secret_length : ℕ
minimum_secret_length = 32

abbrev pub same_secret : Secret → Secret → Bool
same_secret a b = a.text == b.text && a.length == b.length

unfoldable pub validate_secret_window : WebhookSecretWindow → ℕ → SecretWindowValidation
validate_secret_window w now =
    if w.current.length == 0
    then refusing current_secret_missing
    else if ltb w.current.length minimum_secret_length
    then refusing current_secret_too_short
    else elim w.previous [
      | none ↦ accepting false
      | some previous ↦
          if ltb previous.length minimum_secret_length
          then refusing previous_secret_too_short
          else if same_secret previous w.current
          then refusing previous_equals_current
          else elim w.previous_expires_at [
            | none ↦ refusing previous_expiry_missing
            | some expires ↦
                if ltb maximum_previous_secret_window_ms (expires - now)
                then refusing previous_window_too_long
                else accepting (ltb now expires)
          ]
    ]

abbrev secrets_for : WebhookSecretWindow → SecretWindowValidation → List Secret
secrets_for w (refusing _) = []
secrets_for w (accepting false) = w.current ∷ []
secrets_for w (accepting true) = elim w.previous [
  | none ↦ w.current ∷ []
  | some previous ↦ w.current ∷ previous ∷ []
]

unfoldable pub active_secrets_for_verification : WebhookSecretWindow → ℕ → List Secret
unfolding validate_secret_window
active_secrets_for_verification w now = secrets_for w (validate_secret_window w now)

unfoldable pub is_rotation_complete : WebhookSecretWindow → ℕ → Bool
is_rotation_complete w now = elim w.previous [
  | none ↦ true
  | some _ ↦ elim w.previous_expires_at [ none ↦ false | some expires ↦ leb expires now ]
]

abbrev pub has_length : Secret → Bool
has_length s = leb minimum_secret_length s.length

-- The previous secret is tried exactly when the current one is long enough, it is itself long enough
-- and another one, and its stated expiry lies ahead by no more than seven days; and every secret
-- that is tried is long enough.
pub active_secrets_for_verification-eq :
    (current previous : Secret) (expires now : ℕ)
    → let tried =
        active_secrets_for_verification
          (record {
            current = current;
            previous = some previous;
            previous_expires_at = some expires;
          })
          now in
      (any (same_secret previous) tried ≡ (
        has_length current
        && has_length previous
        && not (same_secret previous current)
        && ltb now expires
        && leb (expires - now) maximum_previous_secret_window_ms))
      × (all has_length tried ≡ true)
unfolding active_secrets_for_verification
active_secrets_for_verification-eq current previous expires now =
    ground (arith, ==_self previous.text, ==_self previous.length)

-- Once the rotation is complete it stays so, and from then on only the current secret can be tried.
pub is_rotation_complete-closes :
    (w : WebhookSecretWindow) (now later : ℕ)
    → is_rotation_complete w now ≡ true
    → now ≤ later
    → (is_rotation_complete w later ≡ true)
      × (all (same_secret w.current) (active_secrets_for_verification w later) ≡ true)
unfolding is_rotation_complete active_secrets_for_verification
is_rotation_complete-closes w now later h le =
    ground (arith, h, le, ==_self w.current.text, ==_self w.current.length)
