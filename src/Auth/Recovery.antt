-- ===== src/Auth/Recovery.antt =====
-- talos_panel/auth.py, recovery codes: `normalize_recovery_code`, `recovery_code_hash`,
-- `generate_recovery_codes` and `consume_recovery_code`.
-- `Library` holds what the code takes from the Unicode tables, `hashlib`, `json` and `secrets`.
pub mod Laws
use talos_panel.Auth.Requests.{is_ascii, compare_digest}
use talos_panel.Base.{
  ◌==◌, if◌then◌else◌, length, map_option, ℕ, zero, suc, ◌+◌, ◌≡◌, ◌≢◌, Bool, true, false, not,
  ◌||◌, Option, none, some, List, [], ◌∷◌, ◌++◌, map,
}
use talos_panel.Base.Text.{Text, codes, text_eq, Unicode, flat_map}
use talos_panel.Http.{Result}
use talos_panel.Install.Waiting.{stored}

-- What `json.loads` gives: a refusal, a list of strings, or any other value.
pub data Loaded : Type 0 where
  malformed : Loaded
  strings : List Text → Loaded
  other : Loaded

pub record Library : Type 0 where
  pub unicode : Unicode
  pub sha256 : Text → Text
  pub loads : Text → Loaded
  pub dumps : List Text → Text
  pub loads-dumps : (xs : List Text) → loads (dumps xs) ≡ Loaded.strings xs
  -- A hexadecimal digest.
  pub sha256_ascii : (s : Text) → is_ascii (sha256 s) ≡ true
  pub dumps-ne-nil : (xs : List Text) → dumps xs ≢ []

-- `RECOVERY_CODE_LENGTH`; a code is four groups of four, and there are ten codes.
abbrev pub recovery_code_length : ℕ
recovery_code_length = 16

abbrev pub recovery_code_count : ℕ
recovery_code_count = 10

abbrev onto : Text → Result (Option (List Text)) → Result (Option (List Text))
onto x (Result.err e) = Result.err e
onto x (Result.ok o) = Result.ok (map_option (λ ys. x ∷ ys) o)

-- The loop, and `list.__delitem__` at the first index at which the hash is met: a hash before it that
-- is not ASCII raises `TypeError`.
unfoldable pub remove_first : Text → List Text → Result (Option (List Text))
remove_first h [] = Result.ok none
remove_first h (x ∷ xs) =
    let rest = remove_first h xs in
    elim (compare_digest x h) [
      | Result.err e ↦ Result.err e
      | Result.ok same ↦ if same then Result.ok (some xs) else onto x rest
    ]

-- The characters that `secrets.choice` draws one after another are `choice 0`, `choice 1`, ….
abbrev group : (ℕ → ℕ) → ℕ → Text
group choice k = choice k ∷ choice (k + 1) ∷ choice (k + 2) ∷ choice (k + 3) ∷ []

-- `"-".join` of the four groups of the code whose first draw is `k`.
abbrev pub raw_code : (ℕ → ℕ) → ℕ → Text
raw_code choice k =
    group choice k
    ++ (b'-' ∷ group choice (k + 4))
    ++ (b'-' ∷ group choice (k + 8))
    ++ (b'-' ∷ group choice (k + 12))

raw_codes : (ℕ → ℕ) → ℕ → ℕ → List Text
raw_codes choice zero k = []
raw_codes choice (suc n) k = raw_code choice k ∷ raw_codes choice n (k + recovery_code_length)

module _ (lib : Library) where
  abbrev keep_alnum : Text → Text
  keep_alnum [] = []
  keep_alnum (c ∷ s) = let rest = keep_alnum s in if lib.unicode.is_alnum c then c ∷ rest else rest

  unfoldable pub normalize_recovery_code : Text → Text
  normalize_recovery_code code = keep_alnum (flat_map lib.unicode.upper code)

  abbrev pub recovery_code_hash : Text → Text
  recovery_code_hash code = lib.sha256 (normalize_recovery_code code)

  unfoldable pub generate_recovery_codes : (ℕ → ℕ) → List Text × Text
  unfolding raw_codes
  generate_recovery_codes choice =
      let codes = raw_codes choice recovery_code_count 0 in
      (codes, lib.dumps (map recovery_code_hash codes))

  -- The column that is left.
  consumed : Text → Option (List Text) → Bool × Option Text
  consumed stored none = (false, some stored)
  consumed stored (some rest) = (true, some (lib.dumps rest))

  consume_hash : Text → Result (Option (List Text)) → Result (Bool × Option Text)
  unfolding consumed
  consume_hash stored (Result.err e) = Result.err e
  consume_hash stored (Result.ok found) = Result.ok (consumed stored found)

  consume_loaded : Text → Text → Loaded → Result (Bool × Option Text)
  unfolding consume_hash
  consume_loaded stored supplied_hash Loaded.malformed = Result.ok (false, some stored)
  consume_loaded stored supplied_hash Loaded.other = Result.ok (false, some stored)
  consume_loaded stored supplied_hash (Loaded.strings hashes) =
      consume_hash stored (remove_first supplied_hash hashes)

  unfoldable pub consume_recovery_code : Option Text → Text → Result (Bool × Option Text)
  unfolding consume_loaded
  consume_recovery_code none supplied = Result.ok (false, none)
  consume_recovery_code (some stored) supplied =
      let normalized = normalize_recovery_code supplied in
      if not (length normalized == recovery_code_length) || text_eq stored []
      then Result.ok (false, some stored)
      else consume_loaded stored (recovery_code_hash normalized) (lib.loads stored)
