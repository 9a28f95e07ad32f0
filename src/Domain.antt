-- ===== src/Domain.antt =====
-- The enumerations of prisma/schema.prisma that the modelled code branches on, with the source's
-- constructors, and the tests by which `===` compares two values of one of them (each value is
-- numbered by its place in the enumeration, and the numbers are compared). Identifiers
-- are strings that the code only compares, and are numbers here; a `Date` is its `getTime()`, a
-- number of milliseconds.
use seatflow.Prelude.{ℕ, ◌==◌, ◌≡◌, Bool, true, arith}

-- A JavaScript number, as far as the code tests it: an integer (`negative n` is -(n + 1)), or one
-- that is fractional, infinite or NaN.
pub data JsNumber : Type 0 where
  whole negative : ℕ → JsNumber
  not_whole : JsNumber

pub data Currency : Type 0 where
  azn eur gbp usd : Currency

pub data EventStatus : Type 0 where
  draft published cancelled archived : EventStatus

pub data EventSessionStatus : Type 0 where
  draft scheduled on_sale sales_paused cancelled completed : EventSessionStatus

pub data SeatState : Type 0 where
  active blocked : SeatState

pub data SeatInventoryState : Type 0 where
  available held booked : SeatInventoryState

pub data SeatHoldStatus : Type 0 where
  active released expired converted : SeatHoldStatus

pub data CheckoutOrderStatus : Type 0 where
  pending payment_pending paid fulfilled failed cancelled expired : CheckoutOrderStatus
  paid_unfulfilled requires_review : CheckoutOrderStatus

pub data PaymentAttemptStatus : Type 0 where
  created pending succeeded failed cancelled requires_review : PaymentAttemptStatus

pub data BookingStatus : Type 0 where
  confirmed refunded : BookingStatus

pub data TicketStatus : Type 0 where
  active revoked used : TicketStatus

pub data RefundStatus : Type 0 where
  requested submitting processing succeeded failed cancelled requires_review : RefundStatus

pub data RefundScope : Type 0 where
  full_booking selected_seats fixed_amount : RefundScope

pub data RefundInitiator : Type 0 where
  customer organizer platform_admin system : RefundInitiator

pub data DisputeStatus : Type 0 where
  opened needs_response under_review won lost closed requires_review : DisputeStatus

pub data DisputeOutcome : Type 0 where
  won lost withdrawn unresolved : DisputeOutcome

pub data LedgerDirection : Type 0 where
  credit debit : LedgerDirection

pub data LedgerEntryType : Type 0 where
  payment_authorized payment_captured payment_failed : LedgerEntryType
  refund_requested refund_processing refund_succeeded refund_failed : LedgerEntryType
  refund_cancelled dispute_opened dispute_updated dispute_won dispute_lost : LedgerEntryType
  chargeback_recorded manual_adjustment_requested : LedgerEntryType

pub data FinancialReviewState : Type 0 where
  no_review refund_review dispute_review chargeback_review divergence_review : FinancialReviewState

abbrev currency_index : Currency → ℕ
currency_index Currency.azn = 0
currency_index Currency.eur = 1
currency_index Currency.gbp = 2
currency_index Currency.usd = 3

abbrev pub same_currency : Currency → Currency → Bool
same_currency a b = currency_index a == currency_index b

pub same_currency-eq : (a b : Currency) → same_currency a b ≡ true → a ≡ b
same_currency-eq a b h = ground arith

abbrev refund_status_index : RefundStatus → ℕ
refund_status_index RefundStatus.requested = 0
refund_status_index RefundStatus.submitting = 1
refund_status_index RefundStatus.processing = 2
refund_status_index RefundStatus.succeeded = 3
refund_status_index RefundStatus.failed = 4
refund_status_index RefundStatus.cancelled = 5
refund_status_index RefundStatus.requires_review = 6

abbrev pub same_refund_status : RefundStatus → RefundStatus → Bool
same_refund_status a b = refund_status_index a == refund_status_index b

pub same_refund_status-eq : (a b : RefundStatus) → same_refund_status a b ≡ true → a ≡ b
same_refund_status-eq a b h = ground arith

abbrev dispute_status_index : DisputeStatus → ℕ
dispute_status_index DisputeStatus.opened = 0
dispute_status_index DisputeStatus.needs_response = 1
dispute_status_index DisputeStatus.under_review = 2
dispute_status_index DisputeStatus.won = 3
dispute_status_index DisputeStatus.lost = 4
dispute_status_index DisputeStatus.closed = 5
dispute_status_index DisputeStatus.requires_review = 6

abbrev pub same_dispute_status : DisputeStatus → DisputeStatus → Bool
same_dispute_status a b = dispute_status_index a == dispute_status_index b

pub same_dispute_status-eq : (a b : DisputeStatus) → same_dispute_status a b ≡ true → a ≡ b
same_dispute_status-eq a b h = ground arith

abbrev payment_attempt_status_index : PaymentAttemptStatus → ℕ
payment_attempt_status_index PaymentAttemptStatus.created = 0
payment_attempt_status_index PaymentAttemptStatus.pending = 1
payment_attempt_status_index PaymentAttemptStatus.succeeded = 2
payment_attempt_status_index PaymentAttemptStatus.failed = 3
payment_attempt_status_index PaymentAttemptStatus.cancelled = 4
payment_attempt_status_index PaymentAttemptStatus.requires_review = 5

abbrev pub same_payment_attempt_status : PaymentAttemptStatus → PaymentAttemptStatus → Bool
same_payment_attempt_status a b = payment_attempt_status_index a == payment_attempt_status_index b

pub same_payment_attempt_status-eq :
    (a b : PaymentAttemptStatus) → same_payment_attempt_status a b ≡ true → a ≡ b
same_payment_attempt_status-eq a b h = ground arith

abbrev ledger_entry_type_index : LedgerEntryType → ℕ
ledger_entry_type_index LedgerEntryType.payment_authorized = 0
ledger_entry_type_index LedgerEntryType.payment_captured = 1
ledger_entry_type_index LedgerEntryType.payment_failed = 2
ledger_entry_type_index LedgerEntryType.refund_requested = 3
ledger_entry_type_index LedgerEntryType.refund_processing = 4
ledger_entry_type_index LedgerEntryType.refund_succeeded = 5
ledger_entry_type_index LedgerEntryType.refund_failed = 6
ledger_entry_type_index LedgerEntryType.refund_cancelled = 7
ledger_entry_type_index LedgerEntryType.dispute_opened = 8
ledger_entry_type_index LedgerEntryType.dispute_updated = 9
ledger_entry_type_index LedgerEntryType.dispute_won = 10
ledger_entry_type_index LedgerEntryType.dispute_lost = 11
ledger_entry_type_index LedgerEntryType.chargeback_recorded = 12
ledger_entry_type_index LedgerEntryType.manual_adjustment_requested = 13

abbrev pub same_ledger_entry_type : LedgerEntryType → LedgerEntryType → Bool
same_ledger_entry_type a b = ledger_entry_type_index a == ledger_entry_type_index b
