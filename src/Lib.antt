-- ===== src/Lib.antt =====
-- The coordinator of the Open World Model network (owm-coordinator): nodes register with a signed
-- request and a Lightning channel as their stake, take tasks by tier and reliability, are paid over
-- Lightning, and train a model in federated rounds.
--
-- Parts, each a directory of owm-coordinator, and how they interact. The gRPC handlers call the
-- registry, the stake verifier, the scheduler, the rounds and the payment queue; these share one
-- database, the metrics and the Lightning node.
--
--   World: the database's tables as lists of rows, the metrics, the payment queue, and what was sent
--     out (migrations, internal/registry/registry.go Node, internal/lightning/client.go). World.Monad
--     is a method: state with an error result, where each statement commits by itself. `call` is one
--     call of an outside service, which fails and does nothing or runs; `Env` says which calls fail
--     and what the clock, the ids, the Lightning node and Ed25519 answer, all arbitrary.
--   Float64: IEEE 754 arithmetic as operations, with the laws of correctly rounded arithmetic as
--     hypotheses of the theorems that need them.
--   Registry: internal/registry/registry.go (Register, Activate, RecordHeartbeat, GetByPublicKey,
--     ListActive, UpdateStatus, UpdateReliability, computeReliability, IsSuspendedOrCoolingDown).
--   Stake: internal/stake/verifier.go (VerifyStake, PersistStake, VerifyAllActive,
--     RecordMisbehaviorSignal, Slash, markDegraded, computeBonus).
--   Scheduler: internal/scheduler/scheduler.go (Schedule, MarkComplete, MarkFailed, RequeueTimedOut,
--     filterEligible, selectNode, computeReward, persistAssignment).
--   Payment: internal/payment/dispatcher.go (Enqueue, Start's recovery, process,
--     submitObserverReceipt). Payment.Workers cuts the goroutine `worker` into steps between which
--     other goroutines can come (`Move`).
--   Storage: internal/storage/s3.go GetObject and PutObject, with the SDK as the record `Sdk`.
--   Service: the goroutines together, Start's ten workers (internal/payment/dispatcher.go) beside the
--     handlers and the tickers of cmd/coordinator/main.go. `Run` is any interleaving of the workers'
--     moves, SubmitTaskResult, Schedule, RequeueTimedOut and submitObserverReceipt; a handler that
--     touches neither tasks, queue nor payments is no step of it. `Run` counts the workers' steps and
--     the results, and its statements hold between one start of the process and the next.
--   Fl: internal/fl/rounds.go (OpenRound, SubmitGradient, TryAggregate, CloseExpired, GetRoundStatus).
--     The stages that read the object store are the record `Stages`, arbitrary in the theorems on
--     rounds; Fl.Statistics and Fl.Anomaly model anomalyFilter, Fl.Averaging and Fl.Checkpoint fedAvg,
--     and `with_storage` puts both into a round. The object store's reads, msgpack and SHA-256 are
--     the record `Storage`, an upload is kept in the state. Fl.Stamping models stampOTS, with the
--     calendars' responses as a list in the order in which they arrive. The keys of a decoded map
--     stand in a list where Go has a random order. The sort of medianFloat64 counts down as many
--     rounds as there are numbers, which is enough.
--   Rpc: internal/rpc/server.go (RegisterNode, Heartbeat, DeregisterNode, SubmitTaskResult,
--     SubmitGradient and their checks; Rpc.Queries has GetCurrentModel, ListModelVersions and
--     GetStakeStatus, whose queries fail on a column that the table lacks; Rpc.Stream has StreamTasks
--     as a function of the events that its `select` takes).
--   PoolApi: internal/http/pool_api.go.
--   Config: internal/config/config.go: Load (Config.Settings has its settings with their defaults and
--     environment variables, Config.Load the whole), validate, and the choice of the server's
--     credentials in cmd/coordinator/main.go. Viper's file and its conversions are `Sources`.
--   Startup: cmd/coordinator/main.go `run` from the making of its services to the options of its gRPC
--     server; files, TLS, gRPC and the nodes' answers are the record `Host`.
--   Process: `run` as a whole, as the list of what it opens, starts, stops and closes with its error or
--     result; a `defer` is an action that follows the rest. The database, the migrations and the
--     listeners answer as `Outside` says. Process.Phases is the abstract machine of its phases;
--     Process.Logging has buildLogger and readOnionHostname.
--   Lightning: internal/lightning (conversions and mock client; Lightning.Cln has the exchanges with
--     CLNRest, with the server and the decoder of encoding/json as parameters; Lightning.Lnd has
--     SendPayment of the LND client over the updates that the router streams, Lightning.Closing its
--     ForceCloseChan over the updates of the close, Lightning.Invoices AddInvoice and GetInfo of all
--     three clients).
--   Observer: internal/observer (buckets, canonical receipts, signatures, key formats, and in
--     Observer.Client the client); hashes, Ed25519 and the JSON string encoder are the record
--     `Crypto`, the registry that the client posts to is the record `Registry`.
--   Examples: concrete instances and states.
--
-- Numbers: identifiers are natural numbers, times are in nanoseconds, satoshis are integers that are
-- read without wrap-around, a NUMERIC column is its value in units of its last digit. The
-- retries of a payment count down its four attempts, and the other loops go down a list.
--
-- Assumed of the rows: those of `nodes` are as Register writes them, so the columns that may be NULL
-- and that it sets have a value; numbers fit their NUMERIC columns and have no digits to round. A
-- method's statements follow each other in its function, and `Run` takes a call of SubmitTaskResult,
-- Schedule, RequeueTimedOut or submitObserverReceipt as one step, while a worker's calls are steps of
-- their own.
--
-- Not modelled: generated protocol code, the packages that the sources call, transports and timeouts,
-- the closing of connections, the lines that are logged, and the declarations of the metrics.
pub mod Base
pub mod World
pub mod Float64
pub mod Registry
pub mod Stake
pub mod Scheduler
pub mod Payment
pub mod Fl
pub mod Rpc
pub mod PoolApi
pub mod Config
pub mod Lightning
pub mod Observer
pub mod Startup
pub mod Storage
pub mod Process
pub mod Service
pub mod Examples
