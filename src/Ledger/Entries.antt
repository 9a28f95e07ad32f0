-- ===== src/Ledger/Entries.antt =====
-- src/features/ledger/entries.ts. A cause key is an opaque identifier; `none` is one that is blank
-- after trimming. Its normalisation into the text of the key is not modelled: two causes are taken
-- to have the same key when they are the same identifier.
use seatflow.Prelude.{
  ℕ, ◌==◌, Bool, true, false, ◌&&◌, not, Option, none, some, List, [], ◌∷◌, leb, if◌then◌else◌,
  Result, ok, err, ℤ, pos, sub_ℕ, add_ℕ, take_ℕ, eq_ℤ,
}
use seatflow.Domain.{
  LedgerDirection, credit, debit, LedgerEntryType, same_ledger_entry_type, JsNumber, whole,
  negative, not_whole,
}

unfoldable pub direction_for_entry_type : LedgerEntryType → LedgerDirection
direction_for_entry_type LedgerEntryType.payment_authorized = credit
direction_for_entry_type LedgerEntryType.payment_captured = credit
direction_for_entry_type LedgerEntryType.payment_failed = debit
direction_for_entry_type LedgerEntryType.refund_requested = debit
direction_for_entry_type LedgerEntryType.refund_processing = debit
direction_for_entry_type LedgerEntryType.refund_succeeded = debit
direction_for_entry_type LedgerEntryType.refund_failed = credit
direction_for_entry_type LedgerEntryType.refund_cancelled = credit
direction_for_entry_type LedgerEntryType.dispute_opened = debit
direction_for_entry_type LedgerEntryType.dispute_updated = debit
direction_for_entry_type LedgerEntryType.dispute_won = credit
direction_for_entry_type LedgerEntryType.dispute_lost = debit
direction_for_entry_type LedgerEntryType.chargeback_recorded = debit
direction_for_entry_type LedgerEntryType.manual_adjustment_requested = debit

unfoldable pub is_settling_entry_type : LedgerEntryType → Bool
is_settling_entry_type LedgerEntryType.payment_captured = true
is_settling_entry_type LedgerEntryType.refund_succeeded = true
is_settling_entry_type LedgerEntryType.dispute_lost = true
is_settling_entry_type LedgerEntryType.chargeback_recorded = true
is_settling_entry_type _ = false

-- `${entryType}:${causeKey}`.
pub record LedgerKey : Type 0 where
  pub entry_type : LedgerEntryType
  pub cause : ℕ

abbrev pub same_key : LedgerKey → LedgerKey → Bool
same_key a b = same_ledger_entry_type a.entry_type b.entry_type && a.cause == b.cause

pub record LedgerEntryDraft : Type 0 where
  pub entry_type : LedgerEntryType
  pub direction : LedgerDirection
  pub amount_minor : ℕ
  pub idempotency_key : LedgerKey

pub data LedgerRejection : Type 0 where
  amount_invalid cause_missing : LedgerRejection

-- `Number.isSafeInteger(amount) && amount >= 0`, with the value.
abbrev pub safe_amount : JsNumber → Option ℕ
safe_amount (whole n) = if leb n 9007199254740991 then some n else none
safe_amount (negative n) = none
safe_amount not_whole = none

unfoldable pub build_ledger_entry_draft :
    LedgerEntryType → JsNumber → Option ℕ → Result LedgerRejection LedgerEntryDraft
unfolding direction_for_entry_type
build_ledger_entry_draft entry_type amount cause = elim (safe_amount amount) [
  | none ↦ err amount_invalid
  | some n ↦ elim cause [
    | none ↦ err cause_missing
    | some k ↦ ok (record {
      entry_type = entry_type;
      direction = direction_for_entry_type entry_type;
      amount_minor = n;
      idempotency_key = record { entry_type = entry_type; cause = k };
    })
  ]
]

-- One step of the `reduce`.
unfoldable pub settle_entry : ℤ → LedgerEntryDraft → ℤ
unfolding is_settling_entry_type
settle_entry balance e =
    if is_settling_entry_type e.entry_type
    then elim e.direction [
      | credit ↦ add_ℕ balance e.amount_minor
      | debit ↦ take_ℕ balance e.amount_minor
    ]
    else balance

unfoldable pub settle_from : ℤ → List LedgerEntryDraft → ℤ
unfolding settle_entry
settle_from balance [] = balance
settle_from balance (e ∷ es) = settle_from (settle_entry balance e) es

unfoldable pub calculate_settled_balance_minor : List LedgerEntryDraft → ℤ
unfolding settle_from
calculate_settled_balance_minor es = settle_from (pos 0) es

pub record LedgerDivergence : Type 0 where
  pub diverged : Bool
  pub expected_minor : ℤ
  pub actual_minor : ℤ

unfoldable pub detect_ledger_divergence : ℕ → ℕ → List LedgerEntryDraft → LedgerDivergence
unfolding calculate_settled_balance_minor
detect_ledger_divergence captured refunded es =
    let expected = sub_ℕ captured refunded in
    let actual = calculate_settled_balance_minor es in
    record {
      diverged = not (eq_ℤ expected actual);
      expected_minor = expected;
      actual_minor = actual;
    }
