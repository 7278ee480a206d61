-- ===== src/Store/Quota.antt =====
-- internal/store/runlease.go: the decision of chooseClaimableTx, which due runs a claim takes under the
-- ceiling of their jobs and the limit of the batch. The rows that claimCandidatesSQL reads, in its
-- order, are an argument; ClaimRuns raises a limit below one to one.
pub mod Ceiling
use paceq.Base.{ℕ, zero, suc, ◌+◌, String, Bool, true, false, ◌&&◌, List, [], ◌∷◌, map, str_eq}
use paceq.Base.Tests.{if◌then◌else◌, leb}
use paceq.Base.Lists.{count_if}
use paceq.Base.Int.{ℤ, pos, pos_part, ltb_ℤ}
use paceq.Model.RunState.{running}
use paceq.Model.RunState
use paceq.Store.Rows.{RunRow, Db}

-- A due run, with the ceiling of its job.
pub record Candidate : Type 0 where
  pub id : String
  pub job : String
  pub limit : ℤ

-- A ceiling below one counts as one.
unfoldable pub ceiling : ℤ → ℕ
ceiling limit = if ltb_ℤ limit (pos 1) then 1 else pos_part limit

-- runningCountsTx: how many runs of a job are running.
unfoldable pub running_counts : List RunRow → String → ℕ
running_counts runs job =
    count_if (λ r. str_eq r.job_name job && RunState.same r.state running) runs

-- `held[c.job]++`
unfoldable pub hold : String → (String → ℕ) → String → ℕ
hold job held name = if str_eq name job then held name + 1 else held name

-- The walk, with what is left of the batch.
unfoldable pub walk : ℕ → (String → ℕ) → List Candidate → List Candidate
unfolding ceiling hold
walk left held [] = []
walk zero held (c ∷ rest) = []
walk (suc left) held (c ∷ rest) = elim (leb (ceiling c.limit) (held c.job)) [
  | true ↦ walk (suc left) held rest
  | false ↦ c ∷ walk left (hold c.job held) rest
]

-- chooseClaimableTx, once the candidates were read.
unfoldable pub choose_claimable : Db → ℕ → List Candidate → List String
unfolding walk running_counts
choose_claimable db limit cands = map (λ c. c.id) (walk limit (running_counts db.runs) cands)
