-- ===== src/Install/Versions.antt =====
-- talos_panel/installer.py: `RELEASE_VERSION`, `java_version_for` and
-- `vanilla_server_artifact_available`. Versions have at most 32 characters, so `int` reads all of
-- their numbers.
use talos_panel.Base.{
  ltb, leb, ◌==◌, if◌then◌else◌, map_option, ℕ, ◌+◌, ◌*◌, Bool, false, ◌&&◌, ◌||◌, Option, none,
  some, List, [], ◌∷◌,
}
use talos_panel.Base.Text.{Text, Unicode, split_on}
use talos_panel.Http.{Failure, Result}

-- `int` of digits, after the value that was read.
digits : Unicode → ℕ → Text → Option ℕ
digits u acc [] = some acc
digits u acc (c ∷ s) = elim (u.decimal c) [ none ↦ none | some d ↦ digits u (acc * 10 + d) s ]

-- `\d+` and its value.
number : Unicode → Text → Option ℕ
unfolding digits
number u [] = none
number u (c ∷ s) = digits u 0 (c ∷ s)

numbers : Unicode → List Text → Option (List ℕ)
unfolding number
numbers u [] = some []
numbers u (t ∷ ts) = elim (number u t) [
  | none ↦ none
  | some n ↦ map_option (λ ns. n ∷ ns) (numbers u ts)
]

-- The parts of a text that `RELEASE_VERSION` matches: two or three numbers.
unfoldable pub release_version : Unicode → Text → Option (ℕ × ℕ × Option ℕ)
unfolding numbers
release_version u game_version = elim (numbers u (split_on b'.' game_version)) [
  | none ↦ none
  | some [] ↦ none
  | some (a ∷ []) ↦ none
  | some (a ∷ b ∷ []) ↦ some (a, b, none)
  | some (a ∷ b ∷ c ∷ []) ↦ some (a, b, some c)
  | some (a ∷ b ∷ c ∷ d ∷ ns) ↦ none
]

abbrev pub java_of : ℕ → ℕ → ℕ
java_of major minor =
    if leb 26 major
    then 25
    else if leb 20 minor
    then 21
    else if leb 17 minor
    then 17
    else if leb 12 minor
    then 11
    else 8

unfoldable pub java_version_for : Unicode → Text → Result ℕ
java_version_for u game_version = elim (release_version u game_version) [
  | none ↦ Result.err (Failure.crash "InstallationError")
  | some (major, minor, patch) ↦ Result.ok (java_of major minor)
]

-- `padded >= MIN_VANILLA_SERVER_VERSION`, on triples.
abbrev at_least_1_2_5 : ℕ → ℕ → ℕ → Bool
at_least_1_2_5 a b c = ltb 1 a || a == 1 && (ltb 2 b || b == 2 && leb 5 c)

unfoldable pub vanilla_server_artifact_available : Unicode → Text → Bool
vanilla_server_artifact_available u game_version = elim (release_version u game_version) [
  | none ↦ false
  | some (a, b, none) ↦ at_least_1_2_5 a b 0
  | some (a, b, some c) ↦ at_least_1_2_5 a b c
]
