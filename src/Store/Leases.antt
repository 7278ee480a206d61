-- ===== src/Store/Leases.antt =====
-- internal/store/leases.go: the lease table, one row for each name. The reading of the store's clock
-- is an argument, in nanoseconds since the Unix epoch. `epoch` is an INTEGER with CHECK (epoch > 0).
pub mod Admission
pub mod Fencing
use paceq.Base.{
  ℕ, ◌+◌, ◌/◌, ◌^◌, String, Bool, true, false, ◌&&◌, ◌||◌, List, [], ◌∷◌, Option, none, some,
  str_eq,
}
use paceq.Base.Tests.{if◌then◌else◌, ◌==◌}
use paceq.Base.Int.{ℤ, pos, negsuc, ◌+ℤ◌, leb_ℤ}

-- One lease row, which is also the grant that the statement returns.
pub record LeaseGrant : Type 0 where
  pub name : String
  pub holder : String
  pub epoch : ℕ
  pub acquired_at : ℤ
  pub expires_at : ℤ

-- Time.UnixMilli, which rounds down.
unfoldable pub unix_milli : ℤ → ℤ
unix_milli (pos n) = pos (n / 10 ^ 6)
unix_milli (negsuc n) = negsuc (n / 10 ^ 6)

-- The DO UPDATE arm of the statement: the row after it.
unfoldable pub renewed : LeaseGrant → String → ℤ → ℤ → LeaseGrant
renewed row holder at expires = record row {
  holder = holder;
  epoch = if str_eq row.holder holder then row.epoch else row.epoch + 1;
  acquired_at = if str_eq row.holder holder then row.acquired_at else at;
  expires_at = expires;
}

-- The WHERE clause of the DO UPDATE arm.
unfoldable pub admits : LeaseGrant → String → ℤ → Bool
admits row holder at = str_eq row.holder holder || leb_ℤ row.expires_at at

-- acquireOrRenewSQL: the rows after it, and the row that it returns.
unfoldable pub upsert :
    String → String → ℤ → ℤ → List LeaseGrant → Option LeaseGrant × List LeaseGrant
unfolding renewed admits
upsert name holder at expires [] =
    let fresh : LeaseGrant = record {
      name = name;
      holder = holder;
      epoch = 1;
      acquired_at = at;
      expires_at = expires;
    } in
    (some fresh, fresh ∷ [])
upsert name holder at expires (row ∷ rows) =
    let (grant, rest) = upsert name holder at expires rows in
    if str_eq row.name name
    then if admits row holder at
      then (some (renewed row holder at expires), renewed row holder at expires ∷ rows)
      else (none, row ∷ rows)
    else (grant, row ∷ rest)

-- AcquireOrRenew: the grant, or none for the follower, and the table.
unfoldable pub acquire_or_renew :
    ℤ → String → String → ℤ → List LeaseGrant → Option LeaseGrant × List LeaseGrant
unfolding upsert unix_milli ◌+ℤ◌
acquire_or_renew now name holder ttl rows =
    upsert name holder (unix_milli now) (unix_milli (now +ℤ ttl)) rows

-- `DELETE FROM leases WHERE name = ? AND holder = ?`, with the count of rows that it deleted.
unfoldable pub delete_held : String → String → List LeaseGrant → ℕ × List LeaseGrant
delete_held name holder [] = (0, [])
delete_held name holder (row ∷ rows) =
    let (deleted, rest) = delete_held name holder rows in
    if str_eq row.name name && str_eq row.holder holder
    then (deleted + 1, rest)
    else (deleted, row ∷ rest)

-- ReleaseLease: whether there was something to release, and the table.
unfoldable pub release_lease : String → String → List LeaseGrant → Bool × List LeaseGrant
unfolding delete_held
release_lease name holder rows =
    let (deleted, rest) = delete_held name holder rows in
    (if deleted == 0 then false else true, rest)

unfoldable pub find_row : String → List LeaseGrant → Option LeaseGrant
find_row name [] = none
find_row name (row ∷ rows) = if str_eq row.name name then some row else find_row name rows

-- The last test of LeaseHolder: the empty grant is no row.
unfoldable pub not_empty : Option LeaseGrant → Option LeaseGrant
not_empty none = none
not_empty (some g) = if str_eq g.holder "" && (g.epoch == 0) then none else some g

-- LeaseHolder: the current row of a name.
unfoldable pub lease_holder : String → List LeaseGrant → Option LeaseGrant
unfolding find_row not_empty
lease_holder name rows = not_empty (find_row name rows)
