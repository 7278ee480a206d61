-- ===== src/Model/RunState.antt =====
-- internal/model/state.go: the closed set of run states. A Go string that names a state is the
-- constructor here; the name that the database stores is `string`.
use paceq.Base.{String, Bool, true, false, ◌||◌, List, [], ◌∷◌}

pub data RunState : Type 0 where
  queued running succeeded failed cancelled : RunState

pub RunState-discrete : Discrete RunState
RunState-discrete = hlevel

unfoldable pub string : RunState → String
string queued = "queued"
string running = "running"
string succeeded = "succeeded"
string failed = "failed"
string cancelled = "cancelled"

-- Go's `==` on two run states.
abbrev pub same : RunState → RunState → Bool
same queued queued = true
same running running = true
same succeeded succeeded = true
same failed failed = true
same cancelled cancelled = true
same _ _ = false

unfoldable pub is_terminal : RunState → Bool
is_terminal s = same s succeeded || same s failed || same s cancelled

unfoldable pub requires_reason_code : RunState → Bool
unfolding is_terminal
requires_reason_code s = is_terminal s

unfoldable pub all_states : List RunState
all_states = queued ∷ running ∷ succeeded ∷ failed ∷ cancelled ∷ []
