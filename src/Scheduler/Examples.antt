-- ===== src/Scheduler/Examples.antt =====
-- A schedule that fell behind: four fire-times, the first of them older than the window.
use paceq.Base.{true, false, List, [], ◌∷◌, none, some, ◌≡◌, refl, arith, eq_iff}
use paceq.Base.Lists.{count_if}
use paceq.Base.Int.{ℤ, pos}
use paceq.Scheduler.{Occurrence, Decisions, apply_catchup, cutoff, is_old}
use paceq.Scheduler.Catchup.{decided, apply_catchup-decided}
use paceq.Scheduler.Window.{Bounded, most, apply_catchup-Bounded}

abbrev fire : ℤ → Occurrence
fire at = record { at = at; local_wall = ""; skipped = false; skip_reason = "" }

abbrev overdue : List Occurrence
overdue =
    fire (pos 1000000000)
    ∷ fire (pos 6000000000)
    ∷ fire (pos 7000000000)
    ∷ fire (pos 8000000000)
    ∷ []

abbrev decisions : Decisions
decisions = elim (apply_catchup overdue "all" (pos 2) (pos 4000) (pos 9000000000)) [
  | none ↦ record { attempts = []; skips = [] }
  | some d ↦ d
]

apply_catchup-decided_example :
    (d : Decisions) × (apply_catchup overdue "last" (pos 2) (pos 4000) (pos 9000000000) ≡ some d)
    × (decided (λ o. true) d ≡ count_if (λ o. true) overdue)
apply_catchup-decided_example =
    apply_catchup-decided (λ o. true) overdue "last" (pos 2) (pos 4000) (pos 9000000000)
      (ground (arith, eq_iff "last" "all"))

apply_catchup-Bounded_example :
    Bounded (is_old (cutoff (pos 9000000000) (pos 4000))) (most "all" (pos 2)) decisions.attempts
unfolding apply_catchup
apply_catchup-Bounded_example =
    apply_catchup-Bounded overdue "all" (pos 2) (pos 4000) (pos 9000000000) decisions refl
