-- ===== src/Service.antt =====
-- The coordinator at work: the ten payment workers, and the requests, tickers and goroutines that
-- touch the tasks or the payment queue, in any order (cmd/coordinator/main.go run,
-- internal/payment/dispatcher.go, internal/rpc/server.go, internal/scheduler/scheduler.go).
pub mod Frames
pub mod Completion
pub mod Submission
pub mod Assignments
pub mod System
pub mod Payments
pub mod Due
pub mod Recovery
pub mod Exclusion
pub mod Progress
pub mod Liveness
