-- ===== src/Store/Artifacts/Publication.antt =====
-- Who owns a published name.
use paceq.Base.{String, List, [], ◌∷◌, Option, none, some, ◌≡◌, refl, inl, inr, arith, eq_iff}
use paceq.Base.Tests.{if◌then◌else◌, Bool-cases}
use paceq.Base.Int.{ℤ, ◌≤ℤ◌, leb_ℤ}
use paceq.Store.Artifacts.{
  Artifact, ArtifactRow, is_artifact, artifact_row, republished, publish, insert_artifacts,
}

-- The row of a name.
unfoldable pub find_artifact : String → String → List ArtifactRow → Option ArtifactRow
find_artifact run_id name [] = none
find_artifact run_id name (r ∷ rest) =
    if is_artifact run_id name r then some r else find_artifact run_id name rest

-- The row of the name after an offer: the offered one, the old one with the offered facts, or the
-- old one where a later step has it.
abbrev pub owner_after : (String → ℤ) → ArtifactRow → Option ArtifactRow → ArtifactRow
owner_after idx_of offered none = offered
owner_after idx_of offered (some row) =
    if leb_ℤ (idx_of row.step_name) (idx_of offered.step_name) then republished offered row else row

-- Publishing a reference: its name has one owner, a step that is not before the one that had it, and
-- every other name of every run keeps its row.
pub find_artifact-publish :
    (idx_of : String → ℤ) (offered : ArtifactRow) (run_id name : String) (rows : List ArtifactRow)
    → find_artifact run_id name (publish idx_of offered rows) ≡ (
        if is_artifact run_id name offered
        then some (owner_after idx_of offered (find_artifact run_id name rows))
        else find_artifact run_id name rows)
unfolding find_artifact publish republished
find_artifact-publish idx_of offered run_id name [] = refl
find_artifact-publish idx_of offered run_id name (r ∷ rest) = ground (
  arith,
  find_artifact-publish idx_of offered run_id name rest,
  eq_iff r.run_id offered.run_id,
  eq_iff r.name offered.name,
  eq_iff r.run_id run_id,
  eq_iff r.name name,
  eq_iff offered.run_id run_id,
  eq_iff offered.name name,
)

-- A name that a step of the run publishes is never handed back to an earlier step: whatever
-- references are inserted, the owner's index does not fall.
pub insert_artifacts_owner :
    (idx_of : String → ℤ) (run_id step : String) (at : ℤ) (arts : List (String × Artifact))
    (rows : List ArtifactRow) (name : String) (r : ArtifactRow)
    → find_artifact run_id name rows ≡ some r
    → (r' : ArtifactRow) × (find_artifact run_id name
          (insert_artifacts idx_of run_id step at arts rows)
        ≡ some r')
      × (idx_of r.step_name ≤ℤ idx_of r'.step_name)
unfolding insert_artifacts
insert_artifacts_owner idx_of run_id step at [] rows name r h = (r, h, omega arith)
insert_artifacts_owner idx_of run_id step at ((id, a) ∷ rest) rows name r h =
    let (mid, found, le) = one (artifact_row id run_id step at a) in
    let (r', e, more) =
      insert_artifacts_owner idx_of run_id step at rest
        (publish idx_of (artifact_row id run_id step at a) rows) name mid found in
    (r', e, omega (arith, le, more))
  where
    one :
        (offered : ArtifactRow)
        → (m : ArtifactRow) × (find_artifact run_id name (publish idx_of offered rows) ≡ some m)
          × (idx_of r.step_name ≤ℤ idx_of m.step_name)
    one offered =
        let e = find_artifact-publish idx_of offered run_id name rows in
        elim (Bool-cases (is_artifact run_id name offered)) [
          | inr n ↦ (r, ground arith, omega arith)
          | inl y ↦ elim (Bool-cases (leb_ℤ (idx_of r.step_name) (idx_of offered.step_name))) [
            | inl le ↦ (republished offered r, ground arith, ground arith)
            | inr gt ↦ (r, ground arith, omega arith)
          ]
        ]
