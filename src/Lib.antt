-- ===== src/Lib.antt =====
-- core-service is the Go service that keeps the accounts, venues, wallets and orders of a trading
-- platform. This library models the parts of it that decide: whether an order may be placed, what
-- becomes of an order after it was placed, and whether a locally computed wallet agrees with the
-- exchange's.
--
-- The parts, and where they stand (paths from the repository's root):
--   Risk (internal/order/risk): the gate that reviews an order before it is placed. Rules.antt is
--     symbol_rules.go, Balance.antt is balance.go, Metadata.antt and Gate.antt are gate.go, and
--     Pending.antt is pending.go with the readers that the gate is built from.
--   Lifecycle (internal/order/lifecycle): Events.antt and Identity.antt are events.go,
--     Scanner/ is scanner.go, Cancel.antt is cancel.go, Backtest.antt is backtest_matcher.go and
--     UserData.antt is user_data_ingestor.go.
--   Placement (internal/order/service/grpc.go): PlaceOrder and ResolveOrderAttempt. Contract.antt
--     and ClientId.antt check and normalise a request; Request.antt, Review.antt, Execution.antt and
--     Answer.antt are the records that are stored, sent and answered; Notice.antt is the
--     notification; Place.antt and Unfit.antt are PlaceOrder, Resolve.antt is resolveAttempt and
--     Recheck.antt is ResolveOrderAttempt. Trace/ states what the calls of a placement satisfy.
--   Executor (internal/order/executor/adapter_router.go): the mapping between the service's orders
--     and an exchange's, and Execute and Resolve of the adapter router, which answer PlaceOrder.
--   Reconciliation (internal/reconciliation): Tiers.antt, Keys.antt and Compare.antt are diff.go,
--     Venues.antt and Run.antt are service.go with the counters of metrics.go.
--   Notification (internal/notification): RateLimiter.antt and Event.antt are the files of those
--     names, Deliver.antt is DeliverEvent of service.go; Windows.antt counts the limiter's grants,
--     Due.antt and Delivered.antt state when a message is sent.
--   Domain (internal/domain/model.go): the wallets, positions and enumerations that they share.
--   Text, Float and Prelude: Go's strings, float64 and integers.
--
-- How the parts interact. PlaceOrder asks the gate to review an order before it is sent, and writes
-- the lifecycle events of its fills; an order that it leaves incomplete waits for the scanner. The
-- gate asks the open orders of the lifecycle (OpenOrder) whether a route is busy, and reads a
-- venue's wallet (Domain.Wallet). The scanner and the ingestor write the same lifecycle events
-- (Events.Event), by the one identity key of Identity. Reconciliation compares the wallets of
-- Domain.Wallet. The events of Notification arrive over Kafka, also from other services.
--
-- Conventions. A Go function f or method is the definition of the same words in snake case. A
-- function that returns a value and an error is a Result, an error is its message. A method that
-- calls a collaborator takes the collaborator as a parameter, and state that the calls change is
-- passed on explicitly: the scanner's state is the list of the calls made so far, latest first,
-- and the map of the venues' backoffs; that of a placement is the list of its calls. A
-- collaborator's answer may depend on all earlier calls, so that other requests, which act between
-- two calls, are covered by the answers.
--   * float64 is an interface (Float.Float64) over any type of values: no theorem uses a law of
--     floating-point arithmetic. Float.Fixed is an instance of it, for the runs on concrete inputs.
--   * int64, int32 and int16 values are integers ℤ; identifiers and enumerations are only compared,
--     and the one conversion that narrows, to int16, is written out (Prelude.Int.to_int16). Times
--     are nanoseconds since Go's zero time, durations are nanoseconds; their sums do not overflow.
--   * A string is the list of its bytes. Case mapping and white space are those of ASCII; symbols,
--     sides, statuses and order types are ASCII.
--   * A map is an association list; the order in which Go ranges over a map is a parameter, a
--     function on lists.
--   * time.Now() is a parameter of the function that calls it, or, in a placement, a function of the
--     calls made so far, as a fresh identifier is.
-- Loops are recursions on the list that they range over; the loop over attempts of Cancel recurs on
-- the number of attempts left, so no fuel is needed.
--
-- Not modelled: the database code (repository packages), the other gRPC handlers, the HTTP clients of
-- the exchanges, configuration, logging, Kafka and Telegram, which are input and output; the binding
-- of notification channels; and the contexts and deadlines that Go passes to calls.
pub mod Prelude
pub mod Text
pub mod Float
pub mod Domain
pub mod Lifecycle
pub mod Risk
pub mod Placement
pub mod Executor
pub mod Reconciliation
pub mod Notification
