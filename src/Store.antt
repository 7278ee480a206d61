-- ===== src/Store.antt =====
-- internal/store: the tables as lists of rows, and the statements and transactions that write them.
-- Leases (leases.go) is the singleton roles' lease table; Rows, Fence (runlease.go), Claim
-- (claim.go), Closure and Steps (transitions.go) are the runs and their steps.
pub mod Leases
pub mod Outbox
pub mod Artifacts
pub mod Rows
pub mod Fence
pub mod Claim
pub mod Quota
pub mod Closure
pub mod Skip
pub mod Finish
pub mod CloseOut
pub mod ObserveCancel
pub mod Handback
pub mod Renew
pub mod Reaper
pub mod Sweep
pub mod QueuedCancel
pub mod ClaimRuns
pub mod ClaimPass
pub mod RetryPlan
pub mod StepStart
pub mod StepWrites
pub mod CancelRequest
mod Sample
mod Examples
mod WriteExamples
mod ReapExamples
mod ClaimExamples
