-- ===== src/Model/Event.antt =====
-- internal/model/events.go: the input alphabet of both machines.
use paceq.Base.{String, List, [], ◌∷◌}

pub data Event : Type 0 where
  claim deferred step_started step_succeeded step_failed upstream_failed : Event
  all_steps_done cancel_observed lease_expired operator_retry shutdown_drain : Event

unfoldable pub string : Event → String
string claim = "claim"
string deferred = "deferred"
string step_started = "step_started"
string step_succeeded = "step_succeeded"
string step_failed = "step_failed"
string upstream_failed = "upstream_failed"
string all_steps_done = "all_steps_done"
string cancel_observed = "cancel_observed"
string lease_expired = "lease_expired"
string operator_retry = "operator_retry"
string shutdown_drain = "shutdown_drain"

unfoldable pub all_events : List Event
all_events =
    claim ∷ deferred ∷ step_started ∷ step_succeeded ∷ step_failed ∷ upstream_failed
    ∷ all_steps_done ∷ cancel_observed ∷ lease_expired ∷ operator_retry ∷ shutdown_drain ∷ []
