-- ===== src/Ledger/Journal.antt =====
-- `appendLedgerEntry` of src/server/payments/ledger-service.ts, on the entries of one payment, and
-- the balance of a journal.
use seatflow.Prelude.{
  ℕ, ◌+◌, ◌==◌, ◌≡◌, Bool, true, false, ◌&&◌, not, List, [], ◌∷◌, ◌++◌, any, if◌then◌else◌, arith,
  sub_ℕ, eq_ℤ-sub_ℕ, ◌∙◌, ap, ap₂,
}
use seatflow.Domain.{LedgerDirection, credit, debit}
use seatflow.Ledger.Entries.{
  LedgerKey, same_key, LedgerEntryDraft, is_settling_entry_type, settle_entry, settle_from,
  calculate_settled_balance_minor, detect_ledger_divergence,
}

abbrev pub has_entry : LedgerKey → List LedgerEntryDraft → Bool
has_entry k = any (λ e. same_key e.idempotency_key k)

-- `createMany` with `skipDuplicates` over the unique idempotency key.
unfoldable pub append_entry : LedgerEntryDraft → List LedgerEntryDraft → List LedgerEntryDraft
append_entry e journal = if has_entry e.idempotency_key journal then journal else journal ++ e ∷ []

-- What the settling entries of a journal add and take away.
abbrev pub is_credit : LedgerDirection → Bool
is_credit credit = true
is_credit debit = false

abbrev pub credited : List LedgerEntryDraft → ℕ
credited [] = 0
credited (e ∷ es) =
    (if is_settling_entry_type e.entry_type && is_credit e.direction then e.amount_minor else 0)
    + credited es

abbrev pub debited : List LedgerEntryDraft → ℕ
debited [] = 0
debited (e ∷ es) =
    (if is_settling_entry_type e.entry_type && not (is_credit e.direction)
      then e.amount_minor
      else 0)
    + debited es

settle_entry-sub_ℕ :
    (a b : ℕ) (e : LedgerEntryDraft)
    → settle_entry (sub_ℕ a b) e ≡ sub_ℕ (a + credited (e ∷ [])) (b + debited (e ∷ []))
unfolding settle_entry
settle_entry-sub_ℕ a b e = ground arith

settle_from-sub_ℕ :
    (a b : ℕ) (es : List LedgerEntryDraft)
    → settle_from (sub_ℕ a b) es ≡ sub_ℕ (a + credited es) (b + debited es)
unfolding settle_from
settle_from-sub_ℕ a b [] = ground arith
settle_from-sub_ℕ a b (e ∷ es) = rw (settle_entry-sub_ℕ a b e) (
    settle_from-sub_ℕ (a + credited (e ∷ [])) (b + debited (e ∷ [])) es
    ∙ ap₂ sub_ℕ (omega arith) (omega arith))

-- The settled balance is what the settling credits add less what the settling debits take away.
pub settled_balance-eq :
    (es : List LedgerEntryDraft)
    → calculate_settled_balance_minor es ≡ sub_ℕ (credited es) (debited es)
unfolding calculate_settled_balance_minor
settled_balance-eq es = settle_from-sub_ℕ 0 0 es ∙ ap₂ sub_ℕ (omega arith) (omega arith)

-- The comparison fails when captured plus settled debits differs from refunded plus settled credits.
pub detect_ledger_divergence_lem :
    (captured refunded : ℕ) (es : List LedgerEntryDraft)
    → (detect_ledger_divergence captured refunded es).diverged
      ≡ not (captured + debited es == credited es + refunded)
unfolding detect_ledger_divergence
detect_ledger_divergence_lem captured refunded es =
    rw settled_balance-eq (ap not (eq_ℤ-sub_ℕ captured refunded (credited es) (debited es)))
