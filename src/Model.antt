-- ===== src/Model.antt =====
-- internal/model: the pure state machines of a run and of a step. The children follow the package's
-- files: RunState, StepState and State (state.go), Event (events.go), Effect (effects.go), Refusal
-- (errors.go), Parse (state.go), Guards (guards.go), RunMachine (run_fsm.go), StepMachine (step_fsm.go), Apply
-- (apply.go), Aggregate (aggregate.go) and Breaker (sensorbreaker.go).
pub mod RunState
pub mod StepState
pub mod State
pub mod Event
pub mod Effect
pub mod Refusal
pub mod Parse
pub mod Guards
pub mod RunMachine
pub mod StepMachine
pub mod Apply
pub mod Aggregate
pub mod Breaker
mod Examples
