-- ===== src/Store/Leases/Fencing.antt =====
-- The lease table over a history of calls: what the fencing token and the deadline promise.
use paceq.Base.{◌≤◌, String, List, [], ◌∷◌, none, some, ◌≡◌, refl, ◌≢◌, str_eq, eq_iff, arith}
use paceq.Base.Tests.{if◌then◌else◌}
use paceq.Base.Int.{ℤ, ◌<ℤ◌, ◌+ℤ◌}
use paceq.Store.Leases.{
  LeaseGrant, unix_milli, renewed, admits, acquire_or_renew, release_lease, find_row,
}
use paceq.Store.Leases.Admission.{
  after, settle, Unique, find_row-upsert, find_row-upsert_row, find_row-release_lease,
  acquire_or_renew-Unique, release_lease-Unique,
}

-- The answer of AcquireOrRenew, on every path: a name without a row is granted at epoch 1; the same
-- holder renews and keeps its epoch and acquisition; another holder takes over a lease that is
-- past its deadline with the epoch raised by one, and is refused while it is alive.
pub acquire_or_renew_lem :
    (now ttl : ℤ) (name holder : String) (rows : List LeaseGrant)
    → (acquire_or_renew now name holder ttl rows).0
      ≡ after (find_row name rows) name holder (unix_milli now) (unix_milli (now +ℤ ttl))
unfolding acquire_or_renew
acquire_or_renew_lem now ttl name holder rows = find_row-upsert name holder _ _ rows

find_row-acquire_or_renew :
    (k : String) (now ttl : ℤ) (name holder : String) (rows : List LeaseGrant)
    → find_row k (acquire_or_renew now name holder ttl rows).1 ≡ (
        if str_eq name k
        then settle
            (after (find_row name rows) name holder (unix_milli now) (unix_milli (now +ℤ ttl)))
            (find_row name rows)
        else find_row k rows)
unfolding acquire_or_renew
find_row-acquire_or_renew k now ttl name holder rows = find_row-upsert_row k name holder _ _ rows

-- A call of the store by some process.
pub data Call : Type 0 where
  acquires : ℤ → String → String → ℤ → Call
  releases : String → String → Call

pub step : List LeaseGrant → Call → List LeaseGrant
step rows (acquires now name holder ttl) = (acquire_or_renew now name holder ttl rows).1
step rows (releases name holder) = (release_lease name holder rows).1

pub run : List LeaseGrant → List Call → List LeaseGrant
run rows [] = rows
run rows (c ∷ cs) = run (step rows c) cs

pub step-Unique : (rows : List LeaseGrant) (c : Call) → Unique rows → Unique (step rows c)
unfolding step
step-Unique rows (acquires now name holder ttl) u =
    acquire_or_renew-Unique now ttl name holder rows u
step-Unique rows (releases name holder) u = release_lease-Unique name holder rows u

-- No call of the history releases the name.
abbrev pub Unreleased : String → List Call → Type 0
Unreleased k [] = Unit {0}
Unreleased k (acquires now name holder ttl ∷ cs) = Unreleased k cs
Unreleased k (releases name holder ∷ cs) = (name ≢ k) × Unreleased k cs

-- `g'` is a later grant of the lease that `g` was a grant of: its token is no smaller, and an equal
-- token is the same stint of the same holder.
abbrev pub Succeeds : LeaseGrant → LeaseGrant → Type 0
Succeeds g g' =
    (g.epoch ≤ g'.epoch)
    × (g'.epoch ≡ g.epoch → (g'.holder ≡ g.holder) × (g'.acquired_at ≡ g.acquired_at))

-- What a call makes of the row `g` of the name `k`, where it does not release it.
next_row : String → LeaseGrant → Call → LeaseGrant
next_row k g (acquires now name holder ttl) =
    if str_eq name k
    then if admits g holder (unix_milli now)
      then renewed g holder (unix_milli now) (unix_milli (now +ℤ ttl))
      else g
    else g
next_row k g (releases name holder) = g

find_row-step :
    (k : String) (rows : List LeaseGrant) (g : LeaseGrant) (c : Call)
    → Unique rows
    → Unreleased k (c ∷ [])
    → find_row k rows ≡ some g
    → find_row k (step rows c) ≡ some (next_row k g c)
unfolding step next_row
find_row-step k rows g (acquires now name holder ttl) u n h =
    ground (arith, find_row-acquire_or_renew k now ttl name holder rows, eq_iff name k)
find_row-step k rows g (releases name holder) u n h =
    ground (arith, find_row-release_lease k name holder rows u, eq_iff name k)

next_row-Succeeds : (k : String) (g : LeaseGrant) (c : Call) → Succeeds g (next_row k g c)
unfolding next_row renewed admits
next_row-Succeeds k g (acquires now name holder ttl) = ground (arith, eq_iff g.holder holder)
next_row-Succeeds k g (releases name holder) = ground arith

Succeeds-trans : (a b c : LeaseGrant) → Succeeds a b → Succeeds b c → Succeeds a c
Succeeds-trans a b c h k = ground arith

-- While nobody releases a name, its row stays, its token never falls, and two grants with the same
-- token are the same stint of the same holder: a holder that was replaced is told apart by number.
pub run-Succeeds :
    (k : String) (cs : List Call) (rows : List LeaseGrant) (g : LeaseGrant)
    → Unique rows
    → Unreleased k cs
    → find_row k rows ≡ some g
    → (g' : LeaseGrant) × (find_row k (run rows cs) ≡ some g') × Succeeds g g'
unfolding run
run-Succeeds k [] rows g u n h = (g, h, (omega arith, λ e. (refl, refl)))
run-Succeeds k (c ∷ cs) rows g u n h =
    let (g', found, later) =
      run-Succeeds k cs (step rows c) (next_row k g c) (step-Unique rows c u) (rest c cs n)
        (find_row-step k rows g c u (first c cs n) h) in
    (g', found, Succeeds-trans g (next_row k g c) g' (next_row-Succeeds k g c) later)
  where
    first : (c : Call) (cs : List Call) → Unreleased k (c ∷ cs) → Unreleased k (c ∷ [])
    first (acquires now name holder ttl) cs n = tt
    first (releases name holder) cs n = (n.0, tt)

    rest : (c : Call) (cs : List Call) → Unreleased k (c ∷ cs) → Unreleased k cs
    rest (acquires now name holder ttl) cs n = n
    rest (releases name holder) cs n = n.1

-- A lease that is alive is not given to anybody else, and the refused call changes no row.
pub live_lease_exclusive :
    (now ttl : ℤ) (name holder : String) (rows : List LeaseGrant) (g : LeaseGrant)
    → find_row name rows ≡ some g
    → g.holder ≢ holder
    → unix_milli now <ℤ g.expires_at
    → ((acquire_or_renew now name holder ttl rows).0 ≡ none)
      × ((k : String) → find_row k (acquire_or_renew now name holder ttl rows).1 ≡ find_row k rows)
unfolding admits
live_lease_exclusive now ttl name holder rows g h d alive = (
  ground (arith, acquire_or_renew_lem now ttl name holder rows, eq_iff g.holder holder),
  λ k. ground (
    arith,
    find_row-acquire_or_renew k now ttl name holder rows,
    eq_iff g.holder holder,
    eq_iff name k,
  ),
)

-- After its holder has released a lease, the next grant of the name carries the token 1 whatever
-- the token was before.
pub release_restarts_epoch :
    (now ttl : ℤ) (name holder next : String) (rows : List LeaseGrant) (g : LeaseGrant)
    → Unique rows
    → find_row name rows ≡ some g
    → g.holder ≡ holder
    → (acquire_or_renew now name next ttl (release_lease name holder rows).1).0
      ≡ some (record {
        name = name;
        holder = next;
        epoch = 1;
        acquired_at = unix_milli now;
        expires_at = unix_milli (now +ℤ ttl);
      })
release_restarts_epoch now ttl name holder next rows g u h e = ground (
  arith,
  acquire_or_renew_lem now ttl name next (release_lease name holder rows).1,
  find_row-release_lease name name holder rows u,
  eq_iff name name,
  eq_iff g.holder holder,
)
