-- ===== src/Lib.antt =====
-- A model of the core of paceq, a job scheduler that keeps its state in one SQLite database, and the
-- theorems that make it correct.
--
-- The program. A scheduler decides which fire-times of a schedule become runs. A run has steps with
-- frozen dependencies. A daemon claims due runs, claims their steps one by one, starts them, records
-- how they ended, and closes the run. Every change of a state is decided by one of two pure state
-- machines and written by the store as one update and one event in one transaction. A claim hands
-- out a lease with a fencing token, and every later write of its holder carries the token.
--
-- Base: names of the libraries, Boolean tests, lists measured by native numbers, results (a Go value
--   and error), integers and the wrap-around of an int64.
-- Model (internal/model): RunState, StepState, Event, Effect, Guards, Refusal are the types of
--   state.go, events.go, effects.go, guards.go, errors.go. RunMachine is NextRunState (run_fsm.go),
--   StepMachine is NextStepState (step_fsm.go), Apply folds a history (apply.go), Aggregate folds the
--   steps of a run (aggregate.go), Breaker is sensorbreaker.go, Parse reads stored states (state.go).
-- Retry (internal/retry/backoff.go): Delay.
-- Scheduler (internal/scheduler/policy.go): applyCatchup.
-- Cronx (internal/cronx): Wall is the wall clock of iter.go and the search of a compiled cron expression
--   in it (nextAfter, matches, dayMatches, carryDay); Zone is what a minute means in a time zone
--   (classifyEmissions, buildOccurrence) and cronNext; Between is Between; Render is formatLocalWall
--   and renderRequestedWall.
-- Spec (internal/spec): Duration is ParseDuration and FormatDuration (duration.go).
-- Store (internal/store): Rows has the rows of the tables and the event log; Fence is checkLeaseTx,
--   leaseHeldBy and withTx (runlease.go, tx.go); Leases is leases.go; Claim is ClaimNextStep
--   (claim.go); QueuedCancel is closeCancelledQueuedTx, Quota is the walk of chooseClaimableTx,
--   ClaimRuns has the statements of claimTx and claimKeyDeferredTx, and ClaimPass is ClaimRuns and
--   ClaimRun (runlease.go, concurrency_key.go); Closure and Skip are propagateSkipTx, StepStart is
--   RecordAttemptProcess and StartStep, StepWrites is RecordStepOutcome, Finish is FinishRun,
--   CancelRequest is RequestCancel, CloseOut is closeOutCancelledStepsTx and its two halves,
--   ObserveCancel is ObserveRunCancel, Handback is DrainRun and RequeueCrashedRun, Renew is
--   RenewRunLeases, Reaper is reapOneTx with its arms and failRunningStepsTx, Sweep is
--   ReapExpiredRuns (transitions.go, runlease.go); RetryPlan is plannedRetryTx (retryplan.go);
--   Outbox is insertNotificationsTx (outbox.go); Artifacts is insertArtifactsTx (artifacts.go).
--
-- How they meet. The writes of Store ask the machines of Model and perform what they answer. FinishRun
-- reads its guards off the rows of the steps; its verdict is compared with the fold of Model/Aggregate.
-- RecordStepOutcome plans a retry by Retry and closes the dependants of a failure by Skip. ObserveRunCancel
-- first closes the open steps by CloseOut and then reads its verdict off them, as FinishRun does, and so
-- does the reaper when it closes a run. ClaimRuns closes the queued runs that are to be cancelled, takes
-- due runs by the walk of Quota, and then starts key deferrals, each over the tables that the one before
-- it left; the token that it answers with is the one that Fence asks of every later write.
--
-- State. A table is a list of rows, a statement a function on it, a transaction a function to a result
-- whose error leaves the tables as they were. A nullable column is an Option. A column of a state
-- holds the state itself, as the CHECK constraints of the schema close it. A transaction runs alone,
-- since the store has one writing connection. The clock is an argument of each operation, in
-- nanoseconds since the Unix epoch; columns are in milliseconds. A JSON text is kept as what the code
-- prints it from.
--
-- Numbers. An attempt, an epoch and a count are natural numbers: they begin at zero and the statements
-- only raise them, but for the attempt that the drain gives back. A step that runs was counted when it
-- was claimed or started, which the theorem on DrainRun assumes of its rows. A Duration is an integer
-- and its products wrap around as an int64, with the bounds under which that is exact as hypotheses;
-- sums and differences of times are exact.
--
-- A clock that steps back. The schema's CHECK that no run ends before it starts fails a statement of
-- the reaper and of closeCancelledQueuedTx when the clock is behind the start, and so does it in their
-- models; the theorems that say that they succeed assume that no run starts after the clock's reading.
-- In FinishRun and ObserveRunCancel the CHECK is left out, so a model's success is the program's only
-- where the clock is not behind the start.
--
-- Recursion. The query of propagateSkipTx runs until no edge leads out of its result; its model takes
-- one round for each edge, which is enough since each round adds a step that an edge names
-- (Store/Closure/Reachable). The loop of Delay is bounded by the attempt. The search of nextAfter has
-- the 100000 rounds of the source, of which seven years take at most 3584 (Cronx/Wall/Search). The loop
-- of Between has a round for each minute of its window, and that of ParseDuration one for each byte;
-- both are shown to be enough (Cronx/Between/Whole, Spec/Duration/Ends). All else is structural.
--
-- Parameters. The draw of math/rand/v2, the identities of id.New, json.Unmarshal in concDataOf, the
-- table `jobs` of a claim, which only reads it, and the frozen steps that spec.FromIR reads are
-- arguments. So is the time zone of the standard library: the wall clock and offset of an instant, and
-- the instant of a wall clock.
--
-- Not modelled: texts of errors, crash injection, SQLite itself (its locks, its plans, its faults),
-- the processes and their groups, the command line, HTTP, metrics and reports; and of the store,
-- replay, reconciliation and the repairs; of the scheduler, its loop; of the schedules, the cron
-- grammar, the search backwards and the grid of intervals.
pub mod Base
pub mod Model
pub mod Retry
pub mod Scheduler
pub mod Cronx
pub mod Spec
pub mod Store
