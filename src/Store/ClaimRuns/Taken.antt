-- ===== src/Store/ClaimRuns/Taken.antt =====
-- A claim starts queued rows only, and a row that it started is the claimer's from then on.
use std.Path.{subst}
use mathlib.Core.List.{Memᴰ}
use paceq.Base.{
  ◌+◌, String, Bool, true, false, List, [], ◌∷◌, ◌++◌, none, some, ◌≡◌, refl, ap, ◌∙◌, inl, inr,
  arith,
}
use paceq.Base.Tests.{Bool-cases, Option-cases}
use paceq.Model.RunState.{queued, running}
use paceq.Model.RunState
use paceq.Store.Rows.{RunRow, find_run, update_runs}
use paceq.Store.Rows.Keys.{find_run-update}
use paceq.Store.ClaimRuns.{ClaimedRun, last_of}

-- A row that is not queued stays as it is.
abbrev pub Kept : List RunRow → List RunRow → Type 0
Kept runs after =
    (id : String) (r : RunRow)
    → find_run id runs ≡ some r
    → RunState.same r.state queued ≡ false
    → find_run id after ≡ some r

-- A row that is queued was there before, as it is.
abbrev pub Came : List RunRow → List RunRow → Type 0
Came runs after =
    (id : String) (r : RunRow)
    → find_run id after ≡ some r
    → RunState.same r.state queued ≡ true
    → find_run id runs ≡ some r

pub update_runs-Kept :
    (p : RunRow → Bool) (f : RunRow → RunRow) (runs : List RunRow)
    → ((r : RunRow) → (f r).id ≡ r.id)
    → ((id : String) (r : RunRow)
        → find_run id runs ≡ some r
        → p r ≡ true
        → RunState.same r.state queued ≡ true)
    → Kept runs (update_runs p f runs)
update_runs-Kept p f runs k q id r e busy = elim (Bool-cases (p r)) [
  | inl y ↦ absurd (let other = q id r e y in ground arith)
  | inr n ↦ rw n at (find_run-update p f id runs r k e)
]

pub update_runs-Came :
    (p : RunRow → Bool) (f : RunRow → RunRow) (runs : List RunRow)
    → ((r : RunRow) → (f r).id ≡ r.id)
    → ((r : RunRow) → RunState.same (f r).state queued ≡ false)
    → Came runs (update_runs p f runs)
unfolding find_run update_runs
update_runs-Came p f [] k q id r e w = absurd (cc)
update_runs-Came p f (t ∷ rest) k q id r e w =
    ground (arith, update_runs-Came p f rest k q id r, k t, q t)

-- A run that a claim for an owner started: it was queued, and has the owner's lease at an epoch above.
abbrev pub Taken : String → List RunRow → List RunRow → ClaimedRun → Type 0
Taken owner runs after c =
    (b : RunRow) × (r : RunRow) × (find_run c.id runs ≡ some b)
    × (RunState.same b.state queued ≡ true)
    × (c.lease_epoch ≡ b.lease_epoch + 1)
    × (find_run c.id after ≡ some r)
    × (r.state ≡ running)
    × (r.lease_owner ≡ some owner)
    × (r.lease_epoch ≡ c.lease_epoch)

abbrev pub AllTaken : String → List RunRow → List RunRow → List ClaimedRun → Type 0
AllTaken owner runs after [] = Unit {0}
AllTaken owner runs after (c ∷ rest) = Taken owner runs after c × AllTaken owner runs after rest

pub Taken-later :
    (owner : String) (first runs after later : List RunRow) (c : ClaimedRun)
    → Came first runs
    → Kept after later
    → Taken owner runs after c
    → Taken owner first later c
Taken-later owner first runs after later c came kept (b, r, e, q, n, e', s, o, m) =
    (b, r, came c.id b e q, q, n, kept c.id r e' (rw s refl), s, o, m)

pub AllTaken-later :
    (owner : String) (first runs after later : List RunRow) (l : List ClaimedRun)
    → Came first runs
    → Kept after later
    → AllTaken owner runs after l
    → AllTaken owner first later l
AllTaken-later owner first runs after later [] came kept t = tt
AllTaken-later owner first runs after later (c ∷ rest) came kept (h, t) = (
  Taken-later owner first runs after later c came kept h,
  AllTaken-later owner first runs after later rest came kept t,
)

pub AllTaken-append :
    (owner : String) (runs after : List RunRow) (k l : List ClaimedRun)
    → AllTaken owner runs after k
    → AllTaken owner runs after l
    → AllTaken owner runs after (k ++ l)
AllTaken-append owner runs after [] l h t = t
AllTaken-append owner runs after (c ∷ rest) l (h, hs) t =
    (h, AllTaken-append owner runs after rest l hs t)

pub AllTaken-at :
    (owner : String) (runs after : List RunRow) (l : List ClaimedRun) (c : ClaimedRun)
    → AllTaken owner runs after l
    → Memᴰ c l
    → Taken owner runs after c
AllTaken-at owner runs after [] c t m = elim m [ ]
AllTaken-at owner runs after (d ∷ rest) c (h, t) (Memᴰ.head e) = rw e h
AllTaken-at owner runs after (d ∷ rest) c (h, t) (Memᴰ.tail m) =
    AllTaken-at owner runs after rest c t m

pub last-Taken :
    (owner : String) (runs after : List RunRow) (l : List ClaimedRun) (c : ClaimedRun)
    → AllTaken owner runs after l
    → last_of l ≡ some c
    → Taken owner runs after c
last-Taken owner runs after [] c t e = absurd (cc)
last-Taken owner runs after (d ∷ rest) c (h, t) e = elim (Option-cases (last_of rest)) [
  | inl n ↦
      let same = ap (λ o. elim o as (λ x. ClaimedRun) [ none ↦ d | some v ↦ v ]) (rw n at e) in
      subst (Taken owner runs after) same h
  | inr (x, y) ↦ last-Taken owner runs after rest c t (y ∙ (rw y at e))
]
