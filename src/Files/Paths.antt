-- ===== src/Files/Paths.antt =====
-- talos_panel/file_service.py: `_relative_path`, `_validate_name`, `resolve_server_path` and
-- `mutation_requires_stopped_server`.
pub mod Laws
use mathlib.Core.List.{reverse}
use talos_panel.Base.{
  ltb, leb, ◌==◌, if◌then◌else◌, is_some, drop, any, map_option, select, ℕ, String, Bool, true,
  false, not, ◌&&◌, ◌||◌, Option, none, some, List, [], ◌∷◌, ◌++◌, map, str_eq,
}
use talos_panel.Base.Text.{Text, codes, text_eq, has_prefix, strip, split_on}
use talos_panel.Http.{◌>>=◌, Failure, Result}
use talos_panel.Platform.{Platform, lower_text}
use talos_panel.Runtime.JvmFlags.{utf8_length}

pub data Kind : Type 0 where
  directory file link : Kind

-- What the service reads of the file system below the directory of a server: `lstat` of a path, and
-- how a path resolves when its links are followed.
pub record FileTree : Type 0 where
  pub root_is_link : Bool
  pub kind : List Text → Option Kind
  pub resolves_inside : List Text → Bool
  pub resolves_to_root : List Text → Bool

abbrev pub file_error : Failure
file_error = Failure.crash "FileServiceError"

abbrev pub is_link : Option Kind → Bool
is_link none = false
is_link (some Kind.link) = true
is_link (some Kind.directory) = false
is_link (some Kind.file) = false

-- `"\\" in value or any(ord(character) < 32 for character in value)`, with the null character.
unfoldable pub is_bad_character : ℕ → Bool
is_bad_character c = c == b'\\' || ltb c 32

-- The parts of `PurePosixPath(value)`, without empty ones and single dots.
unfoldable pub path_parts : Text → List Text
path_parts value =
    select (λ part. not (text_eq part [] || text_eq part (codes "."))) (split_on b'/' value)

abbrev pub is_dots : Text → Bool
is_dots part = text_eq part (codes "..")

unfoldable pub relative_path : Text → Result (List Text)
relative_path value =
    let parts = path_parts value in
    if any is_bad_character value
    then Result.err file_error
    else if has_prefix value (codes "/") || any is_dots parts
    then Result.err file_error
    else Result.ok parts

-- The first part is managed by the panel.
abbrev pub is_protected : List Text → Bool
is_protected [] = false
is_protected (part ∷ parts) = text_eq part (codes ".trash")

-- The loop over the parts: a link on the way, behind the parts in front.
unfoldable pub passes_link : FileTree → List Text → List Text → Bool
passes_link tree front [] = false
passes_link tree front (part ∷ parts) =
    is_link (tree.kind (front ++ part ∷ [])) || passes_link tree (front ++ part ∷ []) parts

unfoldable pub resolve_server_path : FileTree → Text → Bool → Result (List Text)
resolve_server_path tree value allow_root =
    if tree.root_is_link
    then Result.err file_error
    else relative_path value >>= λ parts.
        if is_protected parts
        then Result.err file_error
        else if not (tree.resolves_inside parts)
        then Result.err file_error
        else if passes_link tree [] parts
        then Result.err file_error
        else if not allow_root && tree.resolves_to_root parts
        then Result.err file_error
        else Result.ok parts

-- `utf8_length` bytes at most 255, and none of the names and characters that a part must not have.
unfoldable pub is_valid_name : Text → Bool
is_valid_name name =
    not (text_eq name [])
    && leb (utf8_length name) 255
    && not (text_eq name (codes ".") || text_eq name (codes ".."))
    && not (any (λ c. c == b'/' || is_bad_character c) name)

unfoldable pub validate_name : Text → Result (Unit {0})
validate_name name = if is_valid_name name then Result.ok tt else Result.err file_error

-- `Path.name` and `Path.suffix`: the last part, and what stands from its last dot on, if the dot is
-- neither its first nor its last character.
unfoldable pub last_part : List Text → Text
last_part [] = []
last_part (part ∷ []) = part
last_part (part ∷ next ∷ parts) = last_part (next ∷ parts)

-- The characters up to the last dot of a reversed name and those in front of it.
until_dot : Text → Option (Text × Text)
until_dot [] = none
until_dot (c ∷ s) =
    if c == b'.' then some ([], s) else map_option (λ (t, rest). (c ∷ t, rest)) (until_dot s)

unfoldable pub suffix : Text → Text
unfolding until_dot
suffix name = elim (until_dot (reverse name)) [
  | none ↦ []
  | some ([], rest) ↦ []
  | some (c ∷ t, []) ↦ []
  | some (c ∷ t, d ∷ rest) ↦ b'.' ∷ reverse (c ∷ t)
]

abbrev pub ends_with : Text → Text → Bool
ends_with s t = has_prefix (reverse s) (reverse t)

abbrev pub text_in : Text → List String → Bool
text_in s [] = false
text_in s (t ∷ ts) = text_eq s (codes t) || text_in s ts

-- `line.partition("=")[2]` of a line with the key `level-name`.
unfoldable pub level_name : List Text → Text
level_name [] = codes "world"
level_name (line ∷ lines) =
    let rest = level_name lines in
    if has_prefix line (codes "level-name=")
    then (let value = strip (drop 11 line) in if text_eq value [] then rest else value)
    else rest

abbrev is_world_root : Platform → Text → Text → Bool
is_world_root p level part =
    let lowered = lower_text p level in
    text_eq part lowered
    || text_eq part (lowered ++ codes "_nether")
    || text_eq part (lowered ++ codes "_the_end")

abbrev first_is : (Text → Bool) → List Text → Bool
first_is test [] = false
first_is test (part ∷ parts) = test part

-- The rules for a path that has been resolved; `lines` are those of server.properties.
unfoldable pub requires_stop : Platform → FileTree → List Text → List Text → String → Bool
requires_stop p tree lines parts operation =
    let lowered = map (lower_text p) parts in
    let name = last_part lowered in
    if str_eq operation "plugin_toggle"
    then true
    else if text_in name ("level.dat" ∷ "level.dat_old" ∷ "session.lock" ∷ [])
        || text_in (suffix name)
            (".dat" ∷ ".db" ∷ ".ldb" ∷ ".log" ∷ ".mca" ∷ ".sqlite" ∷ ".sqlite3" ∷ [])
    then true
    else if any (λ part. text_eq part (codes "plugins")) lowered
        && (ends_with name (codes ".jar") || ends_with name (codes ".jar.disabled"))
    then not (str_eq operation "upload") || is_some (tree.kind parts)
    else first_is (is_world_root p (level_name lines)) lowered

unfoldable pub mutation_requires_stopped_server :
    Platform → FileTree → List Text → Text → String → Result Bool
mutation_requires_stopped_server p tree lines value operation =
    resolve_server_path tree value false >>= λ parts.
    Result.ok (requires_stop p tree lines parts operation)
