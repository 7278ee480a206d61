-- ===== src/Model/Effect.antt =====
-- internal/model/effects.go: the writes that a transition demands of its caller.
use paceq.Base.{ℕ, String, Bool, true, false, List}
use paceq.Base.Lists.{count_if}

pub data EffectKind : Type 0 where
  bump_epoch take_lease release_lease set_started set_finished kill_process_group : EffectKind
  inc_crash_count inc_attempt restore_attempt set_next_attempt_at set_available_at : EffectKind
  set_defer_reason emit_event : EffectKind

pub record Effect : Type 0 where
  pub kind : EffectKind
  pub arg : String

-- `act`: an effect with no argument.
abbrev pub act : EffectKind → Effect
act k = record { kind = k; arg = "" }

-- `emit`: the run_events row that a transition writes.
abbrev pub emit : String → Effect
emit name = record { kind = emit_event; arg = name }

-- `deferReason`: why a run is not running now.
abbrev pub defer_reason : String → Effect
defer_reason reason = record { kind = set_defer_reason; arg = reason }

-- Go's `==` on two kinds.
abbrev pub same : EffectKind → EffectKind → Bool
same bump_epoch bump_epoch = true
same take_lease take_lease = true
same release_lease release_lease = true
same set_started set_started = true
same set_finished set_finished = true
same kill_process_group kill_process_group = true
same inc_crash_count inc_crash_count = true
same inc_attempt inc_attempt = true
same restore_attempt restore_attempt = true
same set_next_attempt_at set_next_attempt_at = true
same set_available_at set_available_at = true
same set_defer_reason set_defer_reason = true
same emit_event emit_event = true
same _ _ = false

-- How many effects of a list have the kind.
abbrev pub count_kind : EffectKind → List Effect → ℕ
count_kind k = count_if (λ e. same e.kind k)
