-- ===== src/Store/Closure.antt =====
-- internal/store/transitions.go: the recursive query of propagateSkipTx, the steps that transitively
-- need a step. The query's UNION keeps a row out that the result has, so it ends when no edge leads
-- from the result to a new step; each round here adds the step of one such edge.
pub mod Reachable
use paceq.Base.{ℕ, zero, suc, String, Bool, not, ◌&&◌, List, [], ◌∷◌, Option, none, some, str_eq}
use paceq.Base.Tests.{if◌then◌else◌}
use paceq.Base.Lists.{any, length}
use paceq.Store.Rows.{Dep}

abbrev pub contains : List String → String → Bool
contains names name = any (λ n. str_eq n name) names

-- `SELECT step_name FROM step_deps WHERE run_id = ? AND depends_on = ?`
unfoldable pub direct_dependants : String → String → List Dep → List String
direct_dependants run_id root [] = []
direct_dependants run_id root (d ∷ rest) =
    let names = direct_dependants run_id root rest in
    if str_eq d.run_id run_id && str_eq d.depends_on root then d.step_name ∷ names else names

-- `SELECT d.step_name FROM step_deps d JOIN closure c ON d.depends_on = c.step_name WHERE d.run_id = ?`,
-- the first row that the closure does not have.
abbrev pub leads_out : String → List String → Dep → Bool
leads_out run_id names d =
    str_eq d.run_id run_id && contains names d.depends_on && not (contains names d.step_name)

unfoldable pub new_dependant : String → List String → List Dep → Option String
new_dependant run_id names [] = none
new_dependant run_id names (d ∷ rest) =
    if leads_out run_id names d then some d.step_name else new_dependant run_id names rest

-- The rounds of the recursive query; there is an edge for each of them.
unfoldable pub grow : ℕ → String → List Dep → List String → List String
unfolding new_dependant
grow zero run_id deps names = names
grow (suc fuel) run_id deps names = elim (new_dependant run_id names deps) [
  | none ↦ names
  | some name ↦ grow fuel run_id deps (name ∷ names)
]

unfoldable pub closure : String → String → List Dep → List String
unfolding grow direct_dependants
closure run_id root deps = grow (length deps) run_id deps (direct_dependants run_id root deps)
