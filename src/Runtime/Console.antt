-- ===== src/Runtime/Console.antt =====
-- talos_panel/runtime.py, console text: `normalize_console_command`, `clean_console_logs` on the
-- lines of a log, and `clean_console_response`.
pub mod Laws
use mathlib.Core.List.{reverse}
use talos_panel.Base.{
  ltb, leb, ◌==◌, if◌then◌else◌, length, any, select, ℕ, zero, suc, Bool, not, ◌&&◌, ◌||◌, Option,
  none, some, List, [], ◌∷◌,
}
use talos_panel.Base.Text.{Text, codes, text_eq, has_prefix, lstrip, strip}

abbrev pub drop_slash : Text → Text
drop_slash [] = []
drop_slash (c ∷ s) = if c == b'/' then lstrip s else c ∷ s

abbrev has_control : Text → Bool
has_control s = any (λ c. ltb c 32) s

-- Both refusals are a `ValueError`, told apart by their message.
pub data CommandError : Type 0 where
  bad_length control_characters : CommandError

pub data Normalized : Type 0 where
  command : Text → Normalized
  refused : CommandError → Normalized

unfoldable pub normalize_console_command : Text → Normalized
normalize_console_command text =
    let normalized = drop_slash (strip text) in
    if text_eq normalized [] || ltb 256 (length normalized)
    then Normalized.refused CommandError.bad_length
    else if has_control normalized
    then Normalized.refused CommandError.control_characters
    else Normalized.command normalized

abbrev pub contains : Text → Text → Bool
contains needle [] = has_prefix [] needle
contains needle (c ∷ s) = has_prefix (c ∷ s) needle || contains needle s

abbrev has_suffix : Text → Text → Bool
has_suffix s t = has_prefix (reverse s) (reverse t)

is_rcon_noise : Text → Bool
is_rcon_noise line =
    contains (codes "Thread RCON Client /") line
    && (has_suffix line (codes " started") || has_suffix line (codes " shutting down"))

-- The lines that `clean_console_logs` joins again.
pub clean_lines : List Text → List Text
clean_lines lines = select (λ line. not (is_rcon_noise line)) lines

-- One match of `\x1b\[[0-?]*[ -/]*[@-~]` behind the bracket: the rest of the text, or no match.
abbrev pub in_range : ℕ → ℕ → ℕ → Bool
in_range lo hi c = leb lo c && leb c hi

escape_final : Text → Option Text
escape_final [] = none
escape_final (c ∷ s) =
    let rest = escape_final s in
    if in_range b' ' b'/' c then rest else if in_range b'@' b'~' c then some s else none

escape_body : Text → Option Text
escape_body [] = none
escape_body (c ∷ s) =
    let rest = escape_body s in if in_range b'0' b'?' c then rest else escape_final (c ∷ s)

escape_at : Text → Option Text
escape_at (c ∷ d ∷ s) = if c == 27 && d == b'[' then escape_body s else none
escape_at _ = none

-- `ANSI_ESCAPE.sub("", …)`, on fuel: a match is cut, any other character is kept.
pub strip_escapes : ℕ → Text → Text
strip_escapes zero s = s
strip_escapes (suc fuel) [] = []
strip_escapes (suc fuel) (c ∷ s) = elim (escape_at (c ∷ s)) [
  | none ↦ c ∷ strip_escapes fuel s
  | some rest ↦ strip_escapes fuel rest
]

-- Each round takes a character at least, so that the length is fuel enough.
abbrev pub without_escapes : Text → Text
without_escapes s = strip_escapes (length s) s

pub clean_console_response : Text → Text
clean_console_response response = strip (without_escapes response)
