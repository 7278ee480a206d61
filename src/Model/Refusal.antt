-- ===== src/Model/Refusal.antt =====
-- internal/model/errors.go: the sentinels and the refusals that carry them.
use paceq.Base.{String}
use paceq.Model.State.{State}
use paceq.Model.Event.{Event}

-- The sentinel errors, which callers match with errors.Is.
pub data Sentinel : Type 0 where
  illegal_transition not_available missing_reason_code missing_defer_reason : Sentinel
  steps_not_terminal stale_lease lease_still_valid unknown_state : Sentinel

-- IllegalTransitionError, GuardError and UnknownStateError.
pub data Refusal : Type 0 where
  illegal_transition_error : State → Event → Refusal
  guard_error : State → Event → State → Sentinel → Refusal
  unknown_state_error : String → String → Refusal

unfoldable pub unwrap : Refusal → Sentinel
unwrap (illegal_transition_error from ev) = Sentinel.illegal_transition
unwrap (guard_error from ev to want) = want
unwrap (unknown_state_error kind name) = Sentinel.unknown_state
