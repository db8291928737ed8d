-- ===== src/Manifest/RoundTrip.antt =====
-- A manifest that is written as a mapping and read again.
use regime_detection.Prelude.Int.{ℤ, int_eq}
use regime_detection.Prelude.{
  then_ok, manifest_validation_error, String, ◌≡◌, refl, ap, inl, inr, Bool, true, false, not, ◌||◌,
  Option, none, some, List, [], ◌∷◌, arith, if◌then◌else◌, Bool-cases, ◌==◌, nat_eq, string_eq,
  bool_eq, contains, length, All, any, ok, err, ◌>>◌, raise_if_ok,
}
use regime_detection.Manifest.{
  Conversions, is_truthy, optional_text, optional_int, texts_of, ManifestArtifact,
  validate_artifact, misses, artifact_fields, artifact_from_dict, text_or_null, number_or_null,
  values_of, artifact_to_dict, ArtifactManifest, validate_distinct, validate_manifest,
  artifacts_from, manifest_fields, manifest_from_dict, artifact_values, manifest_to_dict,
}
use regime_detection.Manifest.Valid.{validate-IsArtifact}
use regime_detection.Manifest.Payload.Value.{sequence}

-- Whether a required text of an artifact is empty.
abbrev pub is_blank : ManifestArtifact → Bool
is_blank a = any (λ s. s == "") (a.name ∷ a.stage ∷ a.uri ∷ a.local_path ∷ a.sha256 ∷ [])

not-not : (b : Bool) → not (not b) ≡ b
not-not b = ground arith

misses-is_blank : (a : ManifestArtifact) → misses (artifact_to_dict a) artifact_fields ≡ is_blank a
unfolding artifact_to_dict
misses-is_blank a =
    rw
      (
        not-not (a.name == ""),
        not-not (a.stage == ""),
        not-not (a.uri == ""),
        not-not (a.local_path == ""),
        not-not (a.sha256 == ""),
      )
      refl

text_again : (c : Conversions) (s : Option String) → optional_text c (text_or_null s) ≡ s
text_again c none = refl
text_again c (some s) = refl

number_again : (c : Conversions) (n : Option ℤ) → optional_int c (number_or_null n) ≡ ok n
number_again c none = refl
number_again c (some n) = refl

texts_again : (ss : List String) → texts_of (values_of ss) ≡ some ss
texts_again [] = refl
texts_again (s ∷ ss) = rw (texts_again ss) refl

-- An artifact that passes its checks is read as it was written, or refused for an empty text.
artifact_again :
    (c : Conversions) (a : ManifestArtifact)
    → validate_artifact a ≡ ok tt
    → artifact_from_dict c (artifact_to_dict a)
      ≡ (if is_blank a then err manifest_validation_error else ok a)
unfolding artifact_from_dict artifact_to_dict
artifact_again c a valid = elim (Bool-cases (is_blank a)) [
  | inl blank ↦ rw (misses-is_blank a, blank) refl
  | inr full ↦
      rw (misses-is_blank a, full)
        let known = (validate-IsArtifact a valid).known_stage in
          rw
            (
              texts_again a.required_for,
              known,
              number_again c a.rows,
              text_again c a.schema_version,
              text_again c a.min_date,
              text_again c a.max_date,
            )
            (ap (λ done. done >> ok a) valid)
]

abbrev Passes : ManifestArtifact → Type 0
Passes a = validate_artifact a ≡ ok tt

each-Passes :
    (paths names uris : List String) (artifacts : List ManifestArtifact)
    → validate_distinct paths names uris artifacts ≡ ok tt
    → All Passes artifacts
unfolding validate_distinct
each-Passes paths names uris [] h = tt
each-Passes paths names uris (a ∷ artifacts) h =
    let invalid = manifest_validation_error in
    let (valid, h₁) = then_ok (validate_artifact a) _ h in
    let (new_path, h₂) = raise_if_ok (contains paths a.local_path) invalid _ h₁ in
    let (new_name, h₃) = raise_if_ok (contains names a.name) invalid _ h₂ in
    let (new_uri, h₄) = raise_if_ok (contains uris a.uri) invalid _ h₃ in
    (valid, each-Passes (a.local_path ∷ paths) (a.name ∷ names) (a.uri ∷ uris) artifacts h₄)

-- Where each artifact passes its checks, they are read as they were written or one is refused.
artifacts_again :
    (c : Conversions) (artifacts : List ManifestArtifact)
    → All Passes artifacts
    → artifacts_from c (artifact_values artifacts)
      ≡ (if any is_blank artifacts then err manifest_validation_error else ok artifacts)
unfolding artifacts_from
artifacts_again c [] passes = refl
artifacts_again c (a ∷ artifacts) (valid, passes) =
    let rest = artifacts_again c artifacts passes in
    elim (Bool-cases (is_blank a)) [
      | inl blank ↦ rw (artifact_again c a valid, blank) refl
      | inr full ↦ elim (Bool-cases (any is_blank artifacts)) [
        | inl later ↦ rw (artifact_again c a valid, full, rest, later) refl
        | inr none_blank ↦ rw (artifact_again c a valid, full, rest, none_blank) refl
      ]
    ]

-- Whether a required text of a manifest or of one of its artifacts is empty.
abbrev pub has_blank : ArtifactManifest → Bool
has_blank m =
    any (λ s. s == "") (m.artifact_set ∷ m.created_at_utc ∷ m.storage_root ∷ [])
    || any is_blank m.artifacts

header_blank : ArtifactManifest → Bool
header_blank m = any (λ s. s == "") (m.artifact_set ∷ m.created_at_utc ∷ m.storage_root ∷ [])

or_none : (a b c : Bool) → a || (b || (c || (false || false))) ≡ a || (b || (c || false))
or_none a b c = ground arith

not_empty :
    (artifacts : List ManifestArtifact)
    → (length artifacts == 0) ≡ false
    → is_truthy (sequence (artifact_values artifacts)) ≡ true
not_empty [] h = cc
not_empty (a ∷ artifacts) h = refl

misses-header :
    (m : ArtifactManifest)
    → (length m.artifacts == 0) ≡ false
    → misses (manifest_to_dict m) manifest_fields ≡ header_blank m
unfolding manifest_to_dict header_blank
misses-header m some_artifact =
    rw
      (
        not-not (m.artifact_set == ""),
        not-not (m.created_at_utc == ""),
        not-not (m.storage_root == ""),
        not_empty m.artifacts some_artifact,
      )
      (or_none (m.artifact_set == "") (m.created_at_utc == "") (m.storage_root == ""))

manifest_again :
    (c : Conversions) (m : ArtifactManifest)
    → validate_manifest m ≡ ok tt
    → (length m.artifacts == 0) ≡ false
    → All Passes m.artifacts
    → manifest_from_dict c (manifest_to_dict m)
      ≡ (if header_blank m || any is_blank m.artifacts then err manifest_validation_error else ok m)
unfolding manifest_from_dict manifest_to_dict
manifest_again c m valid some_artifact passes = elim (Bool-cases (header_blank m)) [
  | inl blank ↦ rw (misses-header m some_artifact, blank) refl
  | inr full ↦ elim (Bool-cases (any is_blank m.artifacts)) [
    | inl later ↦
        rw (misses-header m some_artifact, full, artifacts_again c m.artifacts passes, later) refl
    | inr none_blank ↦
        rw (misses-header m some_artifact, full, artifacts_again c m.artifacts passes, none_blank)
          (ap (λ done. done >> ok m) valid)
  ]
]

-- A manifest that passes its checks is written as a mapping that reads back as the same manifest, except
-- where one of its texts is empty that a reader requires: such a manifest can be written, and reading
-- it raises the validation error.
pub manifest_to_dict_again :
    (c : Conversions) (m : ArtifactManifest)
    → validate_manifest m ≡ ok tt
    → manifest_from_dict c (manifest_to_dict m)
      ≡ (if has_blank m then err manifest_validation_error else ok m)
unfolding validate_manifest header_blank
manifest_to_dict_again c m valid =
    let (some_artifact, rest) =
      raise_if_ok (length m.artifacts == 0) manifest_validation_error _ valid in
    manifest_again c m valid some_artifact (each-Passes [] [] [] m.artifacts rest)
