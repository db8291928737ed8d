-- ===== src/Manifest/Valid.antt =====
-- What a manifest that was read satisfies.
use mathlib.Core.Path.{subst}
use regime_detection.Prelude.Int.{int_eq}
use regime_detection.Prelude.{
  then_ok, raise_if_passed, ◌<◌, String, ◌≡◌, refl, sym, ◌≢◌, inl, inr, Bool, true, false, not,
  ◌||◌, List, [], ◌∷◌, map, arith, Bool-cases, ◌==◌, nat_eq, string_eq, bool_eq, contains, ==_refl,
  length, All, ok, raise_if_ok, bind_ok, ok-injective,
}
use regime_detection.Manifest.{
  Entries, Conversions, get_value, str_of, ManifestArtifact, valid_stages, is_sha256, leaves_root,
  is_negative, validate_artifact, ArtifactManifest, validate_distinct, validate_manifest,
  artifacts_from, as_sequence, manifest_from_dict,
}

-- An artifact of a known stage, with a digest, in the data root, and of no negative count.
pub record IsArtifact (a : ManifestArtifact) : Type 0 where
  pub known_stage : contains valid_stages a.stage ≡ true
  pub digest : is_sha256 a.sha256 ≡ true
  pub inside : leaves_root a.local_path ≡ false
  pub counted : is_negative a.rows ≡ false

abbrev pub Distinct : List String → Type 0
Distinct [] = Unit
Distinct (x ∷ xs) = (contains xs x ≡ false) × Distinct xs

not-false : (b : Bool) → not b ≡ false → b ≡ true
not-false b h = ground arith

pub validate-IsArtifact : (a : ManifestArtifact) → validate_artifact a ≡ ok tt → IsArtifact a
unfolding validate_artifact
validate-IsArtifact a valid =
    let (stage, h₁) = raise_if_ok _ _ _ valid in
    let (digest, h₂) = raise_if_ok _ _ _ h₁ in
    let (inside, h₃) = raise_if_ok _ _ _ h₂ in
    record {
      known_stage = not-false _ stage;
      digest = not-false _ digest;
      inside = inside;
      counted = raise_if_passed _ _ h₃;
    }

-- None of some texts was seen.
abbrev Fresh : List String → List String → Type 0
Fresh seen xs = All (λ x. contains seen x ≡ false) xs

never_apart : (y : String) → (y == y) ≢ false
never_apart y other = let same = ==_refl y in cc

string_sym : (x y : String) → (x == y) ≡ false → (y == x) ≡ false
string_sym x y other = elim (Bool-cases (y == x)) [
  | inl same ↦
      let equal = sym ((string_eq.eq_test_iff y x).0 same) in
      absurd (never_apart y (subst (λ z. (z == y) ≡ false) equal other))
  | inr differ ↦ differ
]

or_false-left : (a b : Bool) → a || b ≡ false → a ≡ false
or_false-left a b h = ground arith

or_false-right : (a b : Bool) → a || b ≡ false → b ≡ false
or_false-right a b h = ground arith

Fresh-apart : (x : String) (seen xs : List String) → Fresh (x ∷ seen) xs → contains xs x ≡ false
Fresh-apart x seen [] fresh = refl
Fresh-apart x seen (y ∷ xs) (first, fresh) =
    rw
      (string_sym x y (or_false-left (x == y) (contains seen y) first), Fresh-apart x seen xs fresh)
      refl

Fresh-less : (x : String) (seen xs : List String) → Fresh (x ∷ seen) xs → Fresh seen xs
Fresh-less x seen [] fresh = tt
Fresh-less x seen (y ∷ xs) (first, fresh) =
    (or_false-right (x == y) (contains seen y) first, Fresh-less x seen xs fresh)

-- Distinct texts that were not seen.
abbrev New : List String → List String → Type 0
New seen xs = Fresh seen xs × Distinct xs

New-one :
    (x : String) (seen xs : List String)
    → contains seen x ≡ false
    → New (x ∷ seen) xs
    → New seen (x ∷ xs)
New-one x seen xs unseen (fresh, distinct) =
    ((unseen, Fresh-less x seen xs fresh), (Fresh-apart x seen xs fresh, distinct))

abbrev pub paths_of : List ManifestArtifact → List String
paths_of artifacts = map (λ a. a.local_path) artifacts

abbrev pub names_of : List ManifestArtifact → List String
names_of artifacts = map (λ a. a.name) artifacts

abbrev pub uris_of : List ManifestArtifact → List String
uris_of artifacts = map (λ a. a.uri) artifacts

validate-New :
    (paths names uris : List String) (artifacts : List ManifestArtifact)
    → validate_distinct paths names uris artifacts ≡ ok tt
    → All IsArtifact artifacts
      × New paths (paths_of artifacts)
      × New names (names_of artifacts)
      × New uris (uris_of artifacts)
unfolding validate_distinct
validate-New paths names uris [] h = (tt, (tt, tt), (tt, tt), (tt, tt))
validate-New paths names uris (a ∷ artifacts) h =
    let (valid, h₁) = then_ok (validate_artifact a) _ h in
    let (new_path, h₂) = raise_if_ok _ _ _ h₁ in
    let (new_name, h₃) = raise_if_ok _ _ _ h₂ in
    let (new_uri, h₄) = raise_if_ok _ _ _ h₃ in
    let (all_valid, in_paths, in_names, in_uris) =
      validate-New (a.local_path ∷ paths) (a.name ∷ names) (a.uri ∷ uris) artifacts h₄ in
    (
      (validate-IsArtifact a valid, all_valid),
      New-one a.local_path paths (paths_of artifacts) new_path in_paths,
      New-one a.name names (names_of artifacts) new_name in_names,
      New-one a.uri uris (uris_of artifacts) new_uri in_uris,
    )

pub record IsManifest (m : ArtifactManifest) : Type 0 where
  pub some_artifact : 0 < length m.artifacts
  pub each : All IsArtifact m.artifacts
  pub distinct_paths : Distinct (paths_of m.artifacts)
  pub distinct_names : Distinct (names_of m.artifacts)
  pub distinct_uris : Distinct (uris_of m.artifacts)

-- A manifest that passes its checks, whether it was read or is about to be written, has an artifact;
-- each artifact has a known stage, a digest of 64 hexadecimal digits, a relative path that does not
-- leave the data root and no negative row count; and no two artifacts share a path, a name or a uri.
pub validate_manifest-IsManifest :
    (m : ArtifactManifest) → validate_manifest m ≡ ok tt → IsManifest m
unfolding validate_manifest
validate_manifest-IsManifest m valid =
    let (nonempty, h) = raise_if_ok _ _ _ valid in
    let (each, paths, names, uris) = validate-New [] [] [] m.artifacts h in
    record {
      some_artifact = ground arith;
      each = each;
      distinct_paths = paths.1;
      distinct_names = names.1;
      distinct_uris = uris.1;
    }

-- Reading a manifest that succeeds gives one that passes its checks.
pub manifest_from_dict-validated :
    (c : Conversions) (payload : Entries) (m : ArtifactManifest)
    → manifest_from_dict c payload ≡ ok m
    → validate_manifest m ≡ ok tt
unfolding manifest_from_dict
manifest_from_dict-validated c payload m h =
    let (complete, h₁) = raise_if_ok _ _ _ h in
    let (raw, h_raw, h₂) = bind_ok (as_sequence (get_value payload "artifacts")) _ h₁ in
    let (artifacts, h_artifacts, h₃) = bind_ok (artifacts_from c raw) _ h₂ in
    let read : ArtifactManifest = record {
      artifact_set = str_of c (get_value payload "artifact_set");
      created_at_utc = str_of c (get_value payload "created_at_utc");
      storage_root = str_of c (get_value payload "storage_root");
      artifacts = artifacts;
    } in
    let (valid, same) = then_ok (validate_manifest read) (ok read) h₃ in
    subst (λ n. validate_manifest n ≡ ok tt) {x = read} (ok-injective same) valid

-- A manifest that is read has an artifact; each of its artifacts is of a known stage, has a digest of
-- 64 hexadecimal digits, a relative path that does not leave the data root and no negative row count;
-- and no two of them share a path, a name or a uri.
pub manifest_from_dict-IsManifest :
    (c : Conversions) (payload : Entries) (m : ArtifactManifest)
    → manifest_from_dict c payload ≡ ok m
    → IsManifest m
manifest_from_dict-IsManifest c payload m h =
    validate_manifest-IsManifest m (manifest_from_dict-validated c payload m h)
