-- ===== src/Manifest/Tests.antt =====
-- A manifest of two artifacts.
use regime_detection.Prelude.Int.{pos, negsuc, int_eq}
use regime_detection.Prelude.{
  manifest_validation_error, String, ◌≡◌, refl, true, false, none, some, [], ◌∷◌, if◌then◌else◌,
  nat_eq, string_eq, bool_eq, value_error, ok, err,
}
use regime_detection.Manifest.{
  Conversions, ManifestArtifact, ArtifactManifest, validate_artifact, validate_manifest,
  manifest_from_dict, manifest_to_dict, leaves_root, required_for_case,
}
use regime_detection.Manifest.Payload.Entries.{end}
use regime_detection.Manifest.Valid.{IsManifest, manifest_from_dict-IsManifest}
use regime_detection.Manifest.RoundTrip.{has_blank, manifest_to_dict_again}

abbrev conversions : Conversions
conversions = record { show = λ v. "None"; to_int = λ v. err value_error }

abbrev digest : String
digest = "0123456789abcdef0123456789abcdef0123456789abcdef0123456789abcdef"

abbrev prices : ManifestArtifact
prices = record {
  name = "prices";
  stage = "canonical";
  uri = "s3://data/prices";
  local_path = "data/raw/prices.parquet";
  sha256 = digest;
  schema_version = none;
  rows = some (pos 250);
  min_date = some "2024-01-02";
  max_date = none;
  required_for = "engine" ∷ [];
}

abbrev rates : ManifestArtifact
rates = record prices { name = "rates"; uri = "s3://data/rates"; local_path = "data/raw/rates.csv" }

abbrev manifest : ArtifactManifest
manifest = record {
  artifact_set = "daily";
  created_at_utc = "2024-12-31";
  storage_root = "s3://data";
  artifacts = prices ∷ rates ∷ [];
}

valid : validate_manifest manifest ≡ ok tt
unfolding validate_manifest
valid = refl

shared_path :
    validate_manifest (record manifest {
      artifacts = prices ∷ record rates { local_path = prices.local_path } ∷ [];
    })
    ≡ err manifest_validation_error
unfolding validate_manifest
shared_path = refl

outside : leaves_root "data/../../etc" ≡ true
outside = refl

inside : leaves_root "data/raw..csv" ≡ false
inside = refl

negative_rows :
    validate_artifact (record prices { rows = some (negsuc 0) }) ≡ err manifest_validation_error
unfolding validate_artifact
negative_rows = refl

empty_payload : manifest_from_dict conversions end ≡ err manifest_validation_error
unfolding manifest_from_dict
empty_payload = refl

required : required_for_case manifest "engine" ≡ prices ∷ rates ∷ []
unfolding required_for_case
required = refl

read_back : manifest_from_dict conversions (manifest_to_dict manifest) ≡ ok manifest
unfolding manifest_from_dict manifest_to_dict
read_back = refl

manifest_to_dict_again_example :
    manifest_from_dict conversions (manifest_to_dict manifest)
    ≡ (if has_blank manifest then err manifest_validation_error else ok manifest)
manifest_to_dict_again_example = manifest_to_dict_again conversions manifest valid

manifest_from_dict-IsManifest_example : IsManifest manifest
manifest_from_dict-IsManifest_example =
    manifest_from_dict-IsManifest conversions (manifest_to_dict manifest) manifest read_back
