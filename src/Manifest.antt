-- ===== src/Manifest.antt =====
-- src/regime_data_fetch/artifact_manifest.py: the manifest of data artifacts, read from and written to
-- plain mappings. The YAML text around them and its file are not modelled.
mod Valid
mod RoundTrip
mod Tests
pub mod Payload
pub mod Texts
pub use Payload.*
pub use Texts.*
use regime_detection.Prelude.Int.{ℤ, pos, ltb_ℤ, int_eq}
use regime_detection.Prelude.{
  attribute_error, manifest_validation_error, ◌*◌, String, Bool, false, not, Option, none, some,
  List, [], ◌∷◌, if◌then◌else◌, ◌==◌, nat_eq, string_eq, bool_eq, contains, length, any, Result, ok,
  err, ◌>>=◌, ◌>>◌, raise_if,
}

pub record ManifestArtifact : Type 0 where
  pub name : String
  pub stage : String
  pub uri : String
  pub local_path : String
  pub sha256 : String
  pub schema_version : Option String
  pub rows : Option ℤ
  pub min_date : Option String
  pub max_date : Option String
  pub required_for : List String

abbrev pub valid_stages : List String
valid_stages = "raw_capture" ∷ "normalized" ∷ "canonical" ∷ "run_inputs" ∷ []

abbrev pub is_negative : Option ℤ → Bool
is_negative none = false
is_negative (some n) = ltb_ℤ n (pos 0)

-- `ManifestArtifact.validate`
unfoldable pub validate_artifact : ManifestArtifact → Result (Unit {0})
validate_artifact a = do
  raise_if (not (contains valid_stages a.stage)) manifest_validation_error
  raise_if (not (is_sha256 a.sha256)) manifest_validation_error
  raise_if (leaves_root a.local_path) manifest_validation_error
  raise_if (is_negative a.rows) manifest_validation_error

abbrev pub misses : Entries → List String → Bool
misses payload fields = any (λ field. not (is_truthy (get_value payload field))) fields

abbrev pub artifact_fields : List String
artifact_fields = "name" ∷ "stage" ∷ "uri" ∷ "local_path" ∷ "sha256" ∷ []

-- `_parse_stage`
abbrev pub parse_stage : String → Result String
parse_stage stage = if contains valid_stages stage then ok stage else err manifest_validation_error

-- `ManifestArtifact.from_dict`
unfoldable pub artifact_from_dict : Conversions → Entries → Result ManifestArtifact
unfolding validate_artifact
artifact_from_dict c payload = do
  raise_if (misses payload artifact_fields) manifest_validation_error
  required_for ← required_for_of (get_default payload "required_for" (sequence nil))
  stage ← parse_stage (str_of c (get_value payload "stage"))
  rows ← optional_int c (get_value payload "rows")
  let artifact : ManifestArtifact = record {
    name = str_of c (get_value payload "name");
    stage = stage;
    uri = str_of c (get_value payload "uri");
    local_path = str_of c (get_value payload "local_path");
    sha256 = str_of c (get_value payload "sha256");
    schema_version = optional_text c (get_value payload "schema_version");
    rows = rows;
    min_date = optional_text c (get_value payload "min_date");
    max_date = optional_text c (get_value payload "max_date");
    required_for = required_for;
  }
  validate_artifact artifact
  ok artifact

abbrev text_or_null : Option String → Value
text_or_null none = null
text_or_null (some s) = text s

abbrev number_or_null : Option ℤ → Value
number_or_null none = null
number_or_null (some n) = number n

abbrev pub values_of : List String → Values
values_of [] = nil
values_of (s ∷ ss) = cons (text s) (values_of ss)

-- `ManifestArtifact.to_dict`
unfoldable pub artifact_to_dict : ManifestArtifact → Entries
artifact_to_dict a = entry "name" (text a.name) (
    entry "stage" (text a.stage) (
      entry "uri" (text a.uri) (
        entry "local_path" (text a.local_path) (
          entry "sha256" (text a.sha256) (
            entry "schema_version" (text_or_null a.schema_version) (
              entry "rows" (number_or_null a.rows) (
                entry "min_date" (text_or_null a.min_date) (
                  entry "max_date" (text_or_null a.max_date)
                    (entry "required_for" (sequence (values_of a.required_for)) end)))))))))

pub record ArtifactManifest : Type 0 where
  pub artifact_set : String
  pub created_at_utc : String
  pub storage_root : String
  pub artifacts : List ManifestArtifact

-- The loop of `ArtifactManifest.validate`, with the paths, names and uris it has seen.
unfoldable pub validate_distinct :
    List String → List String → List String → List ManifestArtifact → Result (Unit {0})
unfolding validate_artifact
validate_distinct local_paths names uris [] = ok tt
validate_distinct local_paths names uris (a ∷ artifacts) = do
  validate_artifact a
  raise_if (contains local_paths a.local_path) manifest_validation_error
  raise_if (contains names a.name) manifest_validation_error
  raise_if (contains uris a.uri) manifest_validation_error
  validate_distinct (a.local_path ∷ local_paths) (a.name ∷ names) (a.uri ∷ uris) artifacts

-- `ArtifactManifest.validate`
unfoldable pub validate_manifest : ArtifactManifest → Result (Unit {0})
unfolding validate_distinct
validate_manifest m = do
  raise_if (length m.artifacts == 0) manifest_validation_error
  validate_distinct [] [] [] m.artifacts

-- An item that is not a mapping has no `get`.
unfoldable pub artifacts_from : Conversions → Values → Result (List ManifestArtifact)
unfolding artifact_from_dict
artifacts_from c nil = ok []
artifacts_from c (cons (mapping payload) rest) = do
  artifact ← artifact_from_dict c payload
  artifacts ← artifacts_from c rest
  ok (artifact ∷ artifacts)
artifacts_from c (cons _ rest) = err attribute_error

abbrev pub as_sequence : Value → Result Values
as_sequence (sequence vs) = ok vs
as_sequence _ = err manifest_validation_error

abbrev pub manifest_fields : List String
manifest_fields = "artifact_set" ∷ "created_at_utc" ∷ "storage_root" ∷ "artifacts" ∷ []

-- `ArtifactManifest.from_dict`
unfoldable pub manifest_from_dict : Conversions → Entries → Result ArtifactManifest
unfolding artifacts_from validate_manifest
manifest_from_dict c payload = do
  raise_if (misses payload manifest_fields) manifest_validation_error
  raw_artifacts ← as_sequence (get_value payload "artifacts")
  artifacts ← artifacts_from c raw_artifacts
  let manifest : ArtifactManifest = record {
    artifact_set = str_of c (get_value payload "artifact_set");
    created_at_utc = str_of c (get_value payload "created_at_utc");
    storage_root = str_of c (get_value payload "storage_root");
    artifacts = artifacts;
  }
  validate_manifest manifest
  ok manifest

abbrev pub artifact_values : List ManifestArtifact → Values
artifact_values [] = nil
artifact_values (a ∷ artifacts) = cons (mapping (artifact_to_dict a)) (artifact_values artifacts)

-- `ArtifactManifest.to_dict`
unfoldable pub manifest_to_dict : ArtifactManifest → Entries
unfolding artifact_to_dict
manifest_to_dict m = entry "artifact_set" (text m.artifact_set) (
    entry "created_at_utc" (text m.created_at_utc) (
      entry "storage_root" (text m.storage_root)
        (entry "artifacts" (sequence (artifact_values m.artifacts)) end)))

abbrev pub keep_artifacts :
    (ManifestArtifact → Bool) → List ManifestArtifact → List ManifestArtifact
keep_artifacts test [] = []
keep_artifacts test (a ∷ artifacts) =
    let rest = keep_artifacts test artifacts in if test a then a ∷ rest else rest

-- `ArtifactManifest.required_for`
unfoldable pub required_for_case : ArtifactManifest → String → List ManifestArtifact
required_for_case m use_case = keep_artifacts (λ a. contains a.required_for use_case) m.artifacts
