-- ===== src/Manifest/Texts.antt =====
-- The tests of a digest and of a path, on the code points of a text.
use regime_detection.Prelude.Int.{int_eq}
use Prim.Native.Char.{code}
use Prim.Native.String as Text
use regime_detection.Prelude.{
  ℕ, String, Bool, false, ◌&&◌, ◌||◌, List, [], ◌∷◌, leb, if◌then◌else◌, ◌==◌, nat_eq, string_eq,
  bool_eq, length, any, all,
}

abbrev pub codes : String → List ℕ
codes Text.String.[] = []
codes (Text.String.◌∷◌ c s) = code c ∷ codes s

abbrev is_hex : ℕ → Bool
is_hex c = (leb 48 c && leb c 57) || (leb 97 c && leb c 102)

-- `SHA256_RE.fullmatch`: 64 of 0-9 and a-f.
abbrev pub is_sha256 : String → Bool
is_sha256 s = length (codes s) == 64 && all is_hex (codes s)

-- The parts of a path, between its slashes.
abbrev push : ℕ → List (List ℕ) → List (List ℕ)
push c [] = (c ∷ []) ∷ []
push c (part ∷ parts) = (c ∷ part) ∷ parts

abbrev pub parts_of : List ℕ → List (List ℕ)
parts_of [] = [] ∷ []
parts_of (c ∷ cs) = let rest = parts_of cs in if c == 47 then [] ∷ rest else push c rest

abbrev is_parent : List ℕ → Bool
is_parent (a ∷ b ∷ []) = a == 46 && b == 46
is_parent _ = false

abbrev is_absolute : List ℕ → Bool
is_absolute [] = false
is_absolute (c ∷ cs) = c == 47

-- `local_path.is_absolute() or ".." in local_path.parts`, of a POSIX path.
abbrev pub leaves_root : String → Bool
leaves_root path = is_absolute (codes path) || any is_parent (parts_of (codes path))
