-- ===== src/Store/Artifacts.antt =====
-- internal/store/artifacts.go: the references that a succeeded step publishes, one row for each run
-- and name. What `id.New` answers is an argument; the JSON of a row is kept as what it is printed from.
pub mod Publication
use paceq.Base.{String, Bool, true, false, ◌&&◌, List, [], ◌∷◌, Option, none, some, str_eq}
use paceq.Base.Tests.{if◌then◌else◌}
use paceq.Base.Int.{ℤ, leb_ℤ}

-- Artifact; an empty text is a fact that the step did not state.
pub record Artifact : Type 0 where
  pub name : String
  pub uri : String
  pub size_bytes : Option ℤ
  pub checksum : String
  pub media_type : String

-- The object of the column meta_json.
pub data Meta : Type 0 where
  no_meta : Meta
  media_type_is : String → Meta

pub record ArtifactRow : Type 0 where
  pub id : String
  pub run_id : String
  pub step_name : String
  pub name : String
  pub uri : String
  pub size_bytes : Option ℤ
  pub checksum : Option String
  pub meta_json : Meta
  pub created_at : ℤ

abbrev pub is_artifact : String → String → ArtifactRow → Bool
is_artifact run_id name r = str_eq r.run_id run_id && str_eq r.name name

-- The row that the INSERT offers.
unfoldable pub artifact_row : String → String → String → ℤ → Artifact → ArtifactRow
artifact_row id run_id step at a = record {
  id = id;
  run_id = run_id;
  step_name = step;
  name = a.name;
  uri = a.uri;
  size_bytes = a.size_bytes;
  checksum = if str_eq a.checksum "" then none else some a.checksum;
  meta_json = if str_eq a.media_type "" then no_meta else media_type_is a.media_type;
  created_at = at;
}

-- The DO UPDATE arm, which keeps the row's id and key.
unfoldable pub republished : ArtifactRow → ArtifactRow → ArtifactRow
republished offered row = record row {
  step_name = offered.step_name;
  uri = offered.uri;
  size_bytes = offered.size_bytes;
  checksum = offered.checksum;
  meta_json = offered.meta_json;
  created_at = offered.created_at;
}

-- The statement. `idx_of` is the index of a step of the run, or -1; publishThreshold lets no earlier
-- step take the name of a later one.
unfoldable pub publish : (String → ℤ) → ArtifactRow → List ArtifactRow → List ArtifactRow
unfolding republished
publish idx_of offered [] = offered ∷ []
publish idx_of offered (row ∷ rest) =
    let others = publish idx_of offered rest in
    if is_artifact offered.run_id offered.name row
    then if leb_ℤ (idx_of row.step_name) (idx_of offered.step_name)
      then republished offered row ∷ rest
      else row ∷ rest
    else row ∷ others

-- insertArtifactsTx, with the identities that the calls of `id.New` answer.
unfoldable pub insert_artifacts :
    (String → ℤ)
    → String
    → String
    → ℤ
    → List (String × Artifact)
    → List ArtifactRow
    → List ArtifactRow
unfolding publish artifact_row
insert_artifacts idx_of run_id step at [] rows = rows
insert_artifacts idx_of run_id step at ((id, a) ∷ rest) rows =
    insert_artifacts idx_of run_id step at rest
      (publish idx_of (artifact_row id run_id step at a) rows)
