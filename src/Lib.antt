-- ===== src/Lib.antt =====
-- A payment aggregator's money: what a merchant earns by payments, gives back by refunds and
-- withdraws by payouts, in a PostgreSQL ledger that is written under concurrent callers and
-- failing statements.
--
-- The program (a Go server) takes payment requests from merchants, has a provider charge the
-- customer, settles the payment when the provider reports it, credits the merchant's ledger, and
-- pays merchants out. The development follows that order:
--
--   Common       Boolean tests, signed integers, the wrap-around of `int64`
--   Errors       the sentinel errors of internal/domain and the result type
--   Fee          internal/fee/fee.go: QuoteTotalBasisPoints, MerchantNetBasisPoints
--   Payment      internal/domain/payment/payment.go: the record, statuses and transitions;
--                Payment/Request is Validate and the environments, Payment/Response what the
--                API returns
--   Ledger       internal/domain/ledger/ledger.go: entries, payouts, refunds
--   Store        the tables, and database/sql as actions (Store/Action): a query, a statement, a
--                transaction; Store/Inversion has what follows from each outcome, Store/Calm what
--                holds when no statement fails, Store/Beside what a transaction does while others
--                commit
--   Repository   internal/repository: Insert is the INSERTs with the constraints of the migrations,
--                Payments is Create, GetByID, UpdateStatus and MarkPaid, Refunds is
--                RefundWithRemaining, Payouts is Request, MarkPaid and Reject, Balances is
--                Summary, Adjust and the balance card of internal/service/balance_service.go,
--                Statistics is the counts and sums over payments; the child modules Effect,
--                Moves and Processed say what each has done; Merchants is the two statements on
--                merchants, Callbacks and Keys the statements on the callback queue and on the
--                idempotency keys, Scans the queries of the expiry and reconcile jobs
--   Accounting   the eight writing calls as one data type `Call`, their common effects, and the
--                invariants of every sequence of calls
--   Idempotency  internal/domain/idempotency and internal/repository/idempotency_repository.go
--   Settlement   internal/service/payment_verify.go and payment_net.go
--   Creation     internal/service/payment_service.go: CreatePayment with the failover;
--                Creation/Router is internal/provider/adapter.go and resolveProvidersForMerchant,
--                Creation/Idempotent is internal/service/payment_idempotency.go
--   Webhook      internal/service/payment_webhook_service.go: ProcessWebhook; Webhook/Handler is
--                internal/handler/webhook_handler.go, which answers the provider
--   PaymentLink  internal/domain/paymentlink/paymentlink.go: availability, bounds, Validate
--   Delivery     internal/domain/merchant/callback.go and the rows of
--                internal/repository/merchant_callback_repository.go: the queue of merchant
--                callbacks, what each statement does to its rows, and what concurrent workers keep
--   Callback     internal/service/merchant_callback_service.go: Text is storableText, Target and
--                Secret choose where a callback goes and how it is signed, Send delivers one,
--                Worker is a run of the delivery job
--   Reconcile    ReconcilePayment, CheckPaymentStatus and ReconcileRecentPayments of
--                internal/service/payment_service.go, and ExpirePayments
--   RateLimit    internal/middleware/rate_limit.go: the buckets and the client's address
--   Tests        the theorems at concrete data
--
-- A Go `int64` is a signed integer with the wrap-around written out at each operation. Identifiers
-- (UUIDs) and times are natural numbers; those that the code draws (`uuid.New`, `time.Now`, the
-- database's `now()`) are arguments. A status or an environment is one of the constants or another
-- text. strings.TrimSpace, strings.ToLower, utf8.RuneCountInString (`Strings`) and
-- netsafe.ValidateCallbackURL are parameters, and so are the providers and their order.
--
-- A connection carries the tables and a schedule that says which of the coming statements fail; all
-- theorems hold for every schedule unless they say otherwise. A transaction gives back the old
-- tables unless it commits. The transactions on a payment or a payout lock the row that they guard
-- first, so such a call is one step, and concurrent callers are a sequence of calls. A payout
-- request locks the merchant's row FOR NO KEY UPDATE, which holds off other requests of the
-- merchant but not its refunds and adjustments: these may commit between the balance that the
-- request reads and its INSERTs, as DEPLOY.md says. `request_beside` of
-- Repository/Payouts is the request with such commits beside it (`transaction_beside` of
-- Store/Action), and Accounting/Beside has what it does to the balance; in the sequences of calls
-- of Accounting a request runs alone. A failed COMMIT is taken to have rolled back. The rows keep
-- the checks, unique indexes and foreign keys on amounts, statuses, keys and merchants; the lengths
-- of texts, the foreign key to payment links and that of the idempotency keys are not checked.
--
-- Idempotency has the rows of the keys alone; Repository/Keys has the statements on them,
-- which may fail. The changes of other clients between the two statements of a claim are an
-- argument. A creation claims its key at most three times, as in the source. Only `scan` in
-- Reconcile/Pages, the successive runs of the reconcile job, is on fuel: one more run than there
-- are candidates is enough.
--
-- The amount that a settlement is checked against is the total that the customer pays, with the fee
-- (TotalAmount), where docs/payment-state-machine.md and docs/openapi.yaml say payments.amount.
--
-- Not modelled: the provider clients, HTTP and JSON, logging, configuration and timers, which are
-- input and output; the listings and the daily statistics, which change nothing. The cryptography
-- of keys, signatures and sessions and the addresses and floating-point numbers of Go's library are
-- parameters where they are used. The checkout of payment links, the sessions and API keys, and
-- the services behind the admin pages are left out so far, and netsafe is a parameter.
pub mod Common
pub mod Errors
pub mod Fee
pub mod Payment
pub mod Ledger
pub mod Store
pub mod Repository
pub mod Accounting
pub mod Idempotency
pub mod Settlement
pub mod Creation
pub mod Webhook
pub mod PaymentLink
pub mod Delivery
pub mod Callback
pub mod Reconcile
pub mod RateLimit
pub mod Tests
