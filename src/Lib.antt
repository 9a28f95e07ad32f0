-- ===== src/Lib.antt =====
-- SeatFlow: seat holds, checkout, payments, refunds, disputes, the financial ledger and the tickets of
-- a ticketing service.
--
-- The parts and how they interact. A customer acquires a hold on seats of an event session; holds
-- end by release, expiry (lazy cleanup or sweeper) or cancellation of the session. A hold is checked
-- out, paid and fulfilled as a booking. A booking is refunded by a request that reserves an amount
-- of the captured payment and by verified provider events that settle it, with entries in a ledger;
-- disputes come from provider events alone. Pure decisions stand in src/features, transactions in
-- src/server, and PostgreSQL triggers and CHECKs in prisma/migrations back them.
--
-- The files:
--   Prelude    helpers on tests, lists, integers and calls that may throw
--   Domain     the enumerations of prisma/schema.prisma and JavaScript numbers
--   Holds      src/server/holds/{hold-service,expiry-service}.ts and src/features/holds:
--              Tables (the tables as lists), Eligibility, Expiry (releaseExpiredHoldsForSession,
--              releaseActiveHoldsForSession), Acquire (acquireSeatHold, tryIdempotentReplay),
--              Release (releaseSeatHold, and cancelEventSession of
--              src/server/events/event-session-service.ts), Sweep (sweepExpiredHolds);
--              Consistency, Claiming, Acquiring, Closing, Interleaving, Guarantees, Selecting,
--              Replaying, Releasing and Sweeping hold the proofs
--   Ledger     src/features/ledger/entries.ts (Entries), appendLedgerEntry of
--              src/server/payments/ledger-service.ts (Journal)
--   Refunds    src/features/refunds (Calculation, Lifecycle, Authorization), requestRefund of
--              src/server/refunds/refund-service.ts (Request), settleRefundFromVerifiedEvent of
--              src/server/refunds/settlement-service.ts (Settlement), on one payment with its
--              refunds and the row rules of the database (Payment), processVerifiedRefundRecord of
--              src/server/payments/webhook-service.ts (Webhook), detectFinancialDivergence of
--              src/server/refunds/reconciliation-service.ts (Reconciliation); Pricing, Allowing,
--              Ordering, Rows, Settling, Reviewing, Redelivery and Requesting hold the proofs
--   Checkout   src/features/checkout (Lifecycle, Totals); the tables of orders, attempts, webhooks and
--              bookings with the triggers that guard their status (Tables);
--              src/server/payments/checkout-service.ts: createCheckoutOrder (Creation) and
--              ensurePaymentIntent (Intent); expireUnpaidCheckoutOrders of
--              src/server/payments/operations-service.ts (Expiring)
--   Disputes   src/features/disputes/lifecycle.ts
--   SeatMaps   src/features/seat-maps/row-labels.ts (RowLabels, Generation)
--   Payments   src/server/payments/webhook-service.ts: snapshotsMatch (Snapshots), markWebhookReview and
--              the writes of a fulfilment (Fulfillment), processVerifiedWebhookRecord (Processing),
--              storeVerifiedWebhook, loadExistingResult and processPaymentWebhook (Delivery); the
--              invariant on all tables (Soundness) and its preservation by single writes (Keeping),
--              conversion (Converting, Booking, Selling), webhooks (Outcomes, Routing), checkout
--              (Ordering) and all steps (Interleaving); the life of one seat as an abstract machine
--              (SeatLifecycle) that the steps refine (SeatRefinement); what becomes of captured money (Capturing,
--              Paying, Payable) and repeated deliveries (Finishing, Redelivery, ExactlyOnce);
--              src/features/payments/secret-rotation.ts (SecretRotation)
--   Tickets    src/features/tickets/lifecycle.ts; validateTicketEntry of
--              src/server/tickets/validation-service.ts with
--              src/server/tickets/scanner-authorization.ts (Validation) and its proofs (SingleEntry)
--   Delivery   src/features/inventory-events/delivery.ts
--   Examples   the theorems at concrete data
--
-- Conventions. Identifiers are strings that the code only compares, and are numbers here; a Date is
-- its number of milliseconds. A transaction is one step on the tables, and an error or `none` is a
-- rollback; what other requests commit between two transactions of one request is an argument
-- (`between`, `first`, `second`), and concurrency is any sequence of committed steps
-- (Holds.Interleaving, Payments.Interleaving). Generated ids and tokens are arguments. The HMAC
-- that derives a refund's provider key, the hash of a ticket's credential and the calls of a
-- payment provider are parameters. Amounts come from INTEGER columns with CHECKs against negative
-- values and are natural numbers; amounts that the code itself tests for being numbers are a
-- `JsNumber`.
--
-- Fuel. The sweep runs on one more round than there are ACTIVE holds when it starts, and the label
-- loop on as many rounds as the number it prints; each round of the one expires a hold, and of the
-- other lowers the number, so both are enough for a sweep that runs alone and for any label. The
-- expiry of orders counts down the batches it may still run.
--
-- Not modelled: the shapes of strings that zod checks, the views built for pages, metrics other
-- than hold conflicts, the deduplication index of the inventory outbox, the labels that order items
-- copy, the failure codes of refunds, the timestamps of orders and attempts with their CHECKs and
-- the trigger's rule on paidAt, the deferred triggers that re-check totals and bookings, the index
-- on session and seat of bookings, the tickets issued right after a fulfilment, the storing of
-- refund and dispute webhooks and the dispute route, audit rows of tickets, the link from a webhook
-- to its refund, texts of messages; provider adapters, queues, pages and API routes, which are
-- input and output around the modelled code.
pub mod Prelude
pub mod Domain
pub mod Holds
pub mod Ledger
pub mod Refunds
pub mod Disputes
pub mod SeatMaps
pub mod Checkout
pub mod Delivery
pub mod Examples
pub mod Payments
pub mod Tickets
