-- ===== src/Model/Guards.antt =====
-- internal/model/guards.go: what a machine may know beyond the current state and the event.
use paceq.Base.{String, Bool}
use paceq.Base.Int.{ℤ, leb_ℤ}

pub record Guards : Type 0 where
  pub now : ℤ  -- unix milliseconds, an int64
  pub available_at : ℤ  -- unix milliseconds, an int64
  pub cancel_requested : Bool
  pub lease_valid : Bool
  pub attempts_left : Bool
  pub any_step_failed : Bool
  pub any_step_cancelled : Bool
  pub all_steps_terminal : Bool
  pub crash_budget_left : Bool
  pub run_level_failure : Bool
  pub reason_code : String
  pub defer_reason : String

unfoldable pub available : Guards → Bool
available g = leb_ℤ g.available_at g.now
