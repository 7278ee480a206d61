-- ===== src/Store/Leases/Admission.antt =====
-- What the admission statement and the release do to the table, seen through the row of each name.
use paceq.Base.{String, List, [], ◌∷◌, Option, none, some, ◌≡◌, refl, str_eq, eq_iff, arith}
use paceq.Base.Tests.{if◌then◌else◌}
use paceq.Base.Int.{ℤ}
use paceq.Store.Leases.{
  LeaseGrant, renewed, admits, upsert, acquire_or_renew, delete_held, release_lease, find_row,
}

-- The row that the statement leaves for its name, and what it returns.
abbrev pub after : Option LeaseGrant → String → String → ℤ → ℤ → Option LeaseGrant
after none name holder at expires =
    some
      (record { name = name; holder = holder; epoch = 1; acquired_at = at; expires_at = expires })
after (some row) name holder at expires =
    if admits row holder at then some (renewed row holder at expires) else none

pub find_row-upsert :
    (name holder : String) (at expires : ℤ) (rows : List LeaseGrant)
    → (upsert name holder at expires rows).0 ≡ after (find_row name rows) name holder at expires
unfolding upsert find_row admits renewed
find_row-upsert name holder at expires [] = refl
find_row-upsert name holder at expires (row ∷ rows) =
    ground (arith, find_row-upsert name holder at expires rows)

-- A grant replaces the row of its name; a refusal leaves it.
abbrev pub settle : Option LeaseGrant → Option LeaseGrant → Option LeaseGrant
settle none before = before
settle (some g) before = some g

-- Every other name keeps its row, whatever the statement answers.
pub find_row-upsert_row :
    (k name holder : String) (at expires : ℤ) (rows : List LeaseGrant)
    → find_row k (upsert name holder at expires rows).1 ≡ (
        if str_eq name k
        then settle (after (find_row name rows) name holder at expires) (find_row name rows)
        else find_row k rows)
unfolding upsert find_row admits renewed
find_row-upsert_row k name holder at expires [] = ground arith
find_row-upsert_row k name holder at expires (row ∷ rows) = ground (
  arith,
  find_row-upsert_row k name holder at expires rows,
  eq_iff row.name name,
  eq_iff name k,
  eq_iff row.name k,
)

-- The primary key: no two rows have one name.
abbrev pub Unique : List LeaseGrant → Type 0
Unique [] = Unit {0}
Unique (row ∷ rows) = (find_row row.name rows ≡ none) × Unique rows

find_row-delete_ne :
    (k name holder : String) (rows : List LeaseGrant)
    → (name ≡ k → ⊥)
    → find_row k (delete_held name holder rows).1 ≡ find_row k rows
unfolding delete_held find_row
find_row-delete_ne k name holder [] h = refl
find_row-delete_ne k name holder (row ∷ rows) h =
    ground (arith, find_row-delete_ne k name holder rows, eq_iff row.name name, eq_iff row.name k)

delete_absent :
    (k name holder : String) (rows : List LeaseGrant)
    → find_row k rows ≡ none
    → find_row k (delete_held name holder rows).1 ≡ none
unfolding delete_held find_row
delete_absent k name holder [] h = refl
delete_absent k name holder (row ∷ rows) h = ground (arith, delete_absent k name holder rows)

-- What is left of a name's row once `holder` has released it.
abbrev pub keep_other : Option LeaseGrant → String → Option LeaseGrant
keep_other none holder = none
keep_other (some row) holder = if str_eq row.holder holder then none else some row

find_row-delete_self :
    (name holder : String) (rows : List LeaseGrant)
    → Unique rows
    → find_row name (delete_held name holder rows).1 ≡ keep_other (find_row name rows) holder
unfolding delete_held find_row
find_row-delete_self name holder [] u = refl
find_row-delete_self name holder (row ∷ rows) u = ground (
  arith,
  find_row-delete_self name holder rows,
  delete_absent name name holder rows,
  eq_iff row.name name,
)

-- A release takes away the row of its name, if the caller holds it, and nothing else.
pub find_row-release_lease :
    (k name holder : String) (rows : List LeaseGrant)
    → Unique rows
    → find_row k (release_lease name holder rows).1
      ≡ (if str_eq name k then keep_other (find_row name rows) holder else find_row k rows)
unfolding release_lease
find_row-release_lease k name holder rows u = ground (
  arith,
  find_row-delete_self name holder rows,
  find_row-delete_ne k name holder rows,
  eq_iff name k,
)

upsert-Unique :
    (name holder : String) (at expires : ℤ) (rows : List LeaseGrant)
    → Unique rows
    → Unique (upsert name holder at expires rows).1
unfolding upsert renewed find_row
upsert-Unique name holder at expires [] u = (refl, tt)
upsert-Unique name holder at expires (row ∷ rows) u = ground (
  arith,
  upsert-Unique name holder at expires rows,
  find_row-upsert_row row.name name holder at expires rows,
  eq_iff row.name name,
  eq_iff name row.name,
)

pub acquire_or_renew-Unique :
    (now ttl : ℤ) (name holder : String) (rows : List LeaseGrant)
    → Unique rows
    → Unique (acquire_or_renew now name holder ttl rows).1
unfolding acquire_or_renew
acquire_or_renew-Unique now ttl name holder rows u = upsert-Unique name holder _ _ rows u

delete_held-Unique :
    (name holder : String) (rows : List LeaseGrant)
    → Unique rows
    → Unique (delete_held name holder rows).1
unfolding delete_held
delete_held-Unique name holder [] u = tt
delete_held-Unique name holder (row ∷ rows) u =
    ground (arith, delete_held-Unique name holder rows, delete_absent row.name name holder rows)

pub release_lease-Unique :
    (name holder : String) (rows : List LeaseGrant)
    → Unique rows
    → Unique (release_lease name holder rows).1
unfolding release_lease
release_lease-Unique name holder rows u = delete_held-Unique name holder rows u
