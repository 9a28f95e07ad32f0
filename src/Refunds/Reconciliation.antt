-- ===== src/Refunds/Reconciliation.antt =====
-- `detectFinancialDivergence` of src/server/refunds/reconciliation-service.ts: what it finds wrong
-- about the captured payments. The sum over the disputes is that of their rows, without the lost precision of
-- a sum above 2 ^ 53.
use seatflow.Prelude.{
  ℕ, ◌+◌, ◌==◌, ◌≡◌, ◌≤◌, Bool, ap, Bool-cases, inl, inr, true, false, ◌&&◌, ◌||◌, not, Option,
  none, some, List, [], ◌∷◌, ◌++◌, any, map, length, zero, suc, refl, ltb, sum, filter,
  if◌then◌else◌, ℤ, pos, arith,
}
use seatflow.Domain.{DisputeStatus, PaymentAttemptStatus}
use seatflow.Disputes.{detect_refund_dispute_overlap}
use seatflow.Ledger.Entries.{LedgerEntryDraft, detect_ledger_divergence}
use seatflow.Ledger.Journal.{credited, debited, detect_ledger_divergence_lem}

pub data DivergenceReason : Type 0 where
  ledger_disagrees_with_aggregate over_refund_risk refund_dispute_overlap : DivergenceReason
  refunded_booking_not_terminal : DivergenceReason

pub record DivergenceFinding : Type 0 where
  pub order_id : ℕ
  pub payment_attempt_id : ℕ
  pub reason : DivergenceReason
  pub expected_minor : Option ℤ
  pub actual_minor : Option ℤ

pub record DisputeRow : Type 0 where
  pub status : DisputeStatus
  pub disputed_amount_minor : ℕ

-- A PaymentAttempt with what is read for it: its ledger, the number of its refunds, its disputes.
pub record ReviewedAttempt : Type 0 where
  pub id : ℕ
  pub order_id : ℕ
  pub status : PaymentAttemptStatus
  pub amount_minor : ℕ
  pub refunded_minor : ℕ
  pub in_flight_refund_minor : ℕ
  pub entries : List LedgerEntryDraft
  pub refund_count : ℕ
  pub disputes : List DisputeRow

abbrev pub is_won : DisputeStatus → Bool
is_won DisputeStatus.won = true
is_won _ = false

unfoldable pub disputed_minor : List DisputeRow → ℕ
disputed_minor ds =
    sum (map (λ d. d.disputed_amount_minor) (filter (λ d. not (is_won d.status)) ds))

unfoldable pub ledger_covers_payment : ReviewedAttempt → Bool
ledger_covers_payment a =
    ltb 0 (length a.entries) || ltb 0 a.refund_count || ltb 0 (length a.disputes)

abbrev pub when {ℓ} : {A : Type ℓ} → Bool → A → List A
when b x = if b then x ∷ [] else []

unfoldable pub ledger_finding : ReviewedAttempt → List DivergenceFinding
unfolding ledger_covers_payment
ledger_finding a =
    let divergence = detect_ledger_divergence a.amount_minor a.refunded_minor a.entries in
    when (ledger_covers_payment a && divergence.diverged) (record {
      order_id = a.order_id;
      payment_attempt_id = a.id;
      reason = ledger_disagrees_with_aggregate;
      expected_minor = some divergence.expected_minor;
      actual_minor = some divergence.actual_minor;
    })

unfoldable pub over_refund_finding : ReviewedAttempt → List DivergenceFinding
over_refund_finding a =
    when (ltb a.amount_minor (a.refunded_minor + a.in_flight_refund_minor)) (record {
      order_id = a.order_id;
      payment_attempt_id = a.id;
      reason = over_refund_risk;
      expected_minor = some (pos a.amount_minor);
      actual_minor = some (pos (a.refunded_minor + a.in_flight_refund_minor));
    })

unfoldable pub overlap_finding : ReviewedAttempt → List DivergenceFinding
unfolding disputed_minor
overlap_finding a =
    let overlap =
      detect_refund_dispute_overlap a.refunded_minor (disputed_minor a.disputes) a.amount_minor in
    when overlap.overlapping (record {
      order_id = a.order_id;
      payment_attempt_id = a.id;
      reason = refund_dispute_overlap;
      expected_minor = none;
      actual_minor = some (pos overlap.combined_minor);
    })

-- The body of the loop.
unfoldable pub attempt_findings : ReviewedAttempt → List DivergenceFinding
unfolding ledger_finding over_refund_finding overlap_finding
attempt_findings a = ledger_finding a ++ (over_refund_finding a ++ overlap_finding a)

abbrev pub is_succeeded : PaymentAttemptStatus → Bool
is_succeeded PaymentAttemptStatus.succeeded = true
is_succeeded _ = false

abbrev pub take_attempts : ℕ → List ReviewedAttempt → List ReviewedAttempt
take_attempts zero as_ = []
take_attempts (suc n) [] = []
take_attempts (suc n) (a ∷ rest) = a ∷ take_attempts n rest

abbrev pub all_findings : List ReviewedAttempt → List DivergenceFinding
all_findings [] = []
all_findings (a ∷ rest) = attempt_findings a ++ all_findings rest

-- The attempts come in the order of `updatedAt`, the latest first.
unfoldable pub detect_financial_divergence :
    (batch_size : ℕ) → List ReviewedAttempt → List DivergenceFinding
unfolding attempt_findings
detect_financial_divergence size attempts =
    all_findings (take_attempts size (filter (λ a. is_succeeded a.status) attempts))

-- Whether one of the findings is about a payment and has a reason.
abbrev pub is_reason : DivergenceReason → DivergenceReason → Bool
is_reason ledger_disagrees_with_aggregate ledger_disagrees_with_aggregate = true
is_reason over_refund_risk over_refund_risk = true
is_reason refund_dispute_overlap refund_dispute_overlap = true
is_reason refunded_booking_not_terminal refunded_booking_not_terminal = true
is_reason _ _ = false

abbrev pub reports : DivergenceReason → List DivergenceFinding → Bool
reports reason fs = any (λ f. is_reason reason f.reason) fs

-- Whether a payment has left no trace: no ledger entry, no refund and no dispute.
abbrev pub is_untraced : ReviewedAttempt → Bool
is_untraced a = elim a.entries [
  | [] ↦ elim a.disputes [ [] ↦ a.refund_count == 0 | _ ∷ _ ↦ false ]
  | _ ∷ _ ↦ false
]

disputed_minor-pos :
    (ds : List DisputeRow)
    → ltb 0 (disputed_minor ds)
      ≡ any (λ d. not (is_won d.status) && ltb 0 d.disputed_amount_minor) ds
unfolding disputed_minor
disputed_minor-pos [] = refl
disputed_minor-pos (d ∷ ds) = ground (arith, disputed_minor-pos ds)

untraced-eq : (a : ReviewedAttempt) → ledger_covers_payment a ≡ not (is_untraced a)
unfolding ledger_covers_payment
untraced-eq a = ground arith

-- What is reported of one payment: that the ledger disagrees, exactly when there is a ledger entry, a
-- refund or a dispute, and captured plus settled debits differs from refunded plus settled credits;
-- a risk of refunding too much, exactly when refunded and reserved exceed what was captured; an
-- overlap, exactly when something was refunded and something is in dispute that was not won; and
-- never a booking that is not terminal.
pub attempt_findings_iff :
    (a : ReviewedAttempt)
    → (reports ledger_disagrees_with_aggregate (attempt_findings a)
        ≡ not (is_untraced a)
          && not (a.amount_minor + debited a.entries == credited a.entries + a.refunded_minor))
      × (reports over_refund_risk (attempt_findings a)
          ≡ ltb a.amount_minor (a.refunded_minor + a.in_flight_refund_minor))
      × (reports refund_dispute_overlap (attempt_findings a)
          ≡ any (λ d. not (is_won d.status) && ltb 0 d.disputed_amount_minor) a.disputes
            && ltb 0 a.refunded_minor)
      × (reports refunded_booking_not_terminal (attempt_findings a) ≡ false)
unfolding attempt_findings ledger_finding over_refund_finding overlap_finding ledger_covers_payment
    detect_refund_dispute_overlap
attempt_findings_iff a =
    let ledger = detect_ledger_divergence_lem a.amount_minor a.refunded_minor a.entries in
    let disputed = disputed_minor-pos a.disputes in
    let untraced = untraced-eq a in ground (arith, ledger, disputed, untraced)

reports-append :
    (reason : DivergenceReason) (fs gs : List DivergenceFinding)
    → reports reason (fs ++ gs) ≡ reports reason fs || reports reason gs
reports-append reason [] gs = refl
reports-append reason (f ∷ fs) gs = ground (arith, reports-append reason fs gs)

take_attempts-all :
    (n : ℕ) (attempts : List ReviewedAttempt)
    → length attempts ≤ n
    → take_attempts n attempts ≡ attempts
take_attempts-all zero [] le = refl
take_attempts-all zero (a ∷ rest) le = absurd (omega arith)
take_attempts-all (suc n) [] le = refl
take_attempts-all (suc n) (a ∷ rest) le = ap (λ l. a ∷ l) (take_attempts-all n rest (omega arith))

length-filter :
    (p : ReviewedAttempt → Bool) (attempts : List ReviewedAttempt)
    → length (filter p attempts) ≤ length attempts
length-filter p [] = omega arith
length-filter p (a ∷ rest) = ground (arith, length-filter p rest)

-- What the scan reports of the attempts that it reads.
abbrev is_reported : DivergenceReason → ReviewedAttempt → Bool
is_reported reason a = is_succeeded a.status && reports reason (attempt_findings a)

all_findings-reports :
    (reason : DivergenceReason) (attempts : List ReviewedAttempt)
    → reports reason (all_findings (filter (λ a. is_succeeded a.status) attempts))
      ≡ any (is_reported reason) attempts
all_findings-reports reason [] = refl
all_findings-reports reason (a ∷ rest) = elim (Bool-cases (is_succeeded a.status)) [
  | inr other ↦ ground (arith, other, all_findings-reports reason rest)
  | inl done ↦ ground (
    arith,
    done,
    reports-append reason (attempt_findings a)
        (all_findings (filter (λ x. is_succeeded x.status) rest)),
    all_findings-reports reason rest,
  )
]

-- A scan whose batch has room for all attempts reports a reason exactly when some attempt that
-- SUCCEEDED has a finding with it.
pub detect_financial_divergence_iff :
    (reason : DivergenceReason) (size : ℕ) (attempts : List ReviewedAttempt)
    → length attempts ≤ size
    → reports reason (detect_financial_divergence size attempts)
      ≡ any (λ a. is_succeeded a.status && reports reason (attempt_findings a)) attempts
unfolding detect_financial_divergence
detect_financial_divergence_iff reason size attempts le =
    let fits = length-filter (λ a. is_succeeded a.status) attempts in
    rw
      (take_attempts-all size (filter (λ a. is_succeeded a.status) attempts)
        (omega (arith, fits, le)))
      (all_findings-reports reason attempts)
