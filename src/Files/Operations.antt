-- ===== src/Files/Operations.antt =====
-- talos_panel/file_service.py: the operations on a path, with the system calls that they make as an
-- interface. An `OSError` is told by its class, as the `FileExistsError` that is one.
pub mod Laws
use mathlib.Core.List.{reverse}
use talos_panel.Base.{
  ltb, ◌==◌, if◌then◌else◌, is_some, drop, ℕ, String, Bool, true, false, not, ◌&&◌, ◌||◌, Option,
  none, some, List, [], ◌∷◌, ◌++◌,
}
use talos_panel.Base.Text.{Text, codes, text_eq, flat_map}
use talos_panel.Files.Paths.{
  Kind, FileTree, file_error, is_link, resolve_server_path, validate_name, last_part, suffix,
  ends_with, text_in,
}
use talos_panel.Handler.{◌>>=◌, ◌>>◌, Exec, pure, lift}
use talos_panel.Http.{Failure, Result}
use talos_panel.Operations.Backups.{raised}
use talos_panel.Platform.{Platform, lower_text}
use talos_panel.Runtime.JvmFlags.{utf8_length}

pub record FileOps (State : Type 0) : Type 0 where
  pub tree : State → FileTree
  -- The lines of server.properties, or none where that cannot be read.
  pub property_lines : State → List Text
  -- `lstat().st_size`, and whether a link stands anywhere below a directory.
  pub size : State → List Text → ℕ
  pub contains_symlink : State → List Text → Bool
  -- `mkdir` and the ownership of what it made; `os.replace`; the copies; the directory of the trash.
  pub mkdir : List Text → Exec State (Unit {0})
  pub replace : List Text → List Text → Exec State (Unit {0})
  pub copy : List Text → List Text → Exec State (Unit {0})
  pub make_trash : Exec State (Unit {0})
  pub read_text : List Text → Exec State Text
  -- The temporary file and `os.replace` of `_atomic_write`.
  pub write_text : List Text → Text → Exec State (Unit {0})

abbrev pub is_directory : Option Kind → Bool
is_directory none = false
is_directory (some Kind.directory) = true
is_directory (some Kind.file) = false
is_directory (some Kind.link) = false

abbrev pub is_file : Option Kind → Bool
is_file none = false
is_file (some Kind.file) = true
is_file (some Kind.directory) = false
is_file (some Kind.link) = false

-- `as_posix` of a relative path.
unfoldable pub posix_path : List Text → Text
posix_path [] = codes "."
posix_path (part ∷ []) = part
posix_path (part ∷ next ∷ parts) = part ++ codes "/" ++ posix_path (next ∷ parts)

abbrev pub is_os_error : Failure → Bool
is_os_error e = raised "OSError" e || raised "FileExistsError" e

abbrev text_suffixes : List String
text_suffixes =
    ".conf" ∷ ".json" ∷ ".log" ∷ ".md" ∷ ".properties" ∷ ".toml" ∷ ".txt" ∷ ".yaml" ∷ ".yml"
    ∷ ".env" ∷ []

-- `destination.is_relative_to(source)`.
abbrev pub has_parts : List Text → List Text → Bool
has_parts s [] = true
has_parts [] (b ∷ t) = false
has_parts (a ∷ s) (b ∷ t) = text_eq a b && has_parts s t

-- `path.replace("/", "__")`.
unfoldable pub safe_name : Text → Text
safe_name s = flat_map (λ c. if c == b'/' then codes "__" else c ∷ []) s

module _ {State : Type 0} (O : FileOps State) where
  -- `except OSError as exc: raise FileServiceError(…)`.
  abbrev or_file_error : {A : Type 0} → (Failure → Bool) → Exec State A → Exec State A
  or_file_error caught m s =
      let (r, s') = m s in
      elim r [
        | Result.ok a ↦ (Result.ok a, s')
        | Result.err e ↦ (Result.err (if caught e then file_error else e), s')
      ]

  abbrev refuse_when : (State → Bool) → Exec State (Unit {0})
  refuse_when test s = (if test s then Result.err file_error else Result.ok tt, s)

  abbrev pub resolving : Text → Bool → Exec State (List Text)
  resolving value allow_root s = (resolve_server_path (O.tree s) value allow_root, s)

  -- What `move_path` and `copy_path` check, in their order: the two paths.
  unfoldable pub checked_paths : Text → Text → Text → Exec State (List Text × List Text)
  checked_paths source_value destination_parent name = do
    lift (validate_name name)
    source ← resolving source_value false
    parent ← resolving destination_parent true
    destination ← resolving (posix_path (parent ++ name ∷ [])) false
    refuse_when (λ s. not (is_some ((O.tree s).kind source)))
    refuse_when (λ s. is_directory ((O.tree s).kind source) && O.contains_symlink s source)
    refuse_when (λ s. is_some ((O.tree s).kind destination))
    refuse_when (λ s. is_directory ((O.tree s).kind source) && has_parts destination source)
    pure (source, destination)

  unfoldable pub move_path : Text → Text → Text → Exec State (List Text)
  move_path source_value destination_parent name = do
    paths ← checked_paths source_value destination_parent name
    or_file_error is_os_error (O.replace paths.0 paths.1)
    pure paths.1

  unfoldable pub copy_path : Text → Text → Text → Exec State (List Text)
  copy_path source_value destination_parent name = do
    paths ← checked_paths source_value destination_parent name
    or_file_error is_os_error (O.copy paths.0 paths.1)
    pure paths.1

  unfoldable pub create_directory : Text → Text → Exec State (List Text)
  create_directory parent name = do
    lift (validate_name name)
    above ← resolving parent true
    _ ← resolving (posix_path (above ++ name ∷ [])) false
    or_file_error (λ e. raised "FileExistsError" e) (O.mkdir (above ++ name ∷ []))
    pure (above ++ name ∷ [])

  -- `timestamp` is the time in the name.
  unfoldable pub archive_path : Text → Text → Exec State (List Text)
  archive_path value timestamp = do
    source ← resolving value false
    refuse_when (λ s. not (is_some ((O.tree s).kind source)))
    O.make_trash
    let name = timestamp ++ codes "-" ++ safe_name (posix_path source)
    let destination = codes ".trash" ∷ codes "files" ∷ name ∷ []
    O.replace source destination
    pure destination

  abbrev is_editable : Platform → List Text → Bool
  is_editable p path = text_in (suffix (lower_text p (last_part path))) text_suffixes

  unfoldable pub read_text_file : Platform → Text → ℕ → Exec State Text
  read_text_file p value max_bytes = do
    path ← resolving value false
    refuse_when (λ s. not (is_editable p path) || not (is_file ((O.tree s).kind path)))
    refuse_when (λ s. ltb max_bytes (O.size s path))
    or_file_error (λ e. is_os_error e || raised "UnicodeError" e) (O.read_text path)

  unfoldable pub write_text_file : Platform → Text → Text → ℕ → Exec State (Unit {0})
  write_text_file p value content max_bytes = do
    path ← resolving value false
    refuse_when (λ s. not (is_editable p path) || not (is_file ((O.tree s).kind path)))
    refuse_when (λ s. ltb max_bytes (utf8_length content))
    refuse_when (λ s. is_link ((O.tree s).kind path))
    or_file_error is_os_error (O.write_text path content)

  -- The name of a plugin after it is switched, or none where it is in that state already.
  unfoldable pub switched_name : Platform → Bool → Text → Option Text
  switched_name p true name =
      if ends_with name (codes ".jar.disabled")
      then some (reverse (drop 9 (reverse name)))
      else none
  switched_name p false name =
      if text_eq (suffix (lower_text p name)) (codes ".jar")
      then some (name ++ codes ".disabled")
      else none

  -- The name of a file directly below `plugins`.
  abbrev plugin_name : List Text → Option Text
  plugin_name [] = none
  plugin_name (a ∷ []) = none
  plugin_name (a ∷ b ∷ []) = if text_eq a (codes "plugins") then some b else none
  plugin_name (a ∷ b ∷ c ∷ rest) = none

  unfoldable pub set_plugin_enabled : Platform → Text → Bool → Exec State (List Text)
  set_plugin_enabled p value enabled = do
    path ← resolving value false
    name ← lift (elim (plugin_name path) [ none ↦ Result.err file_error | some n ↦ Result.ok n ])
    refuse_when (λ s. not (is_file ((O.tree s).kind path)))
    renamed ← lift (elim (switched_name p enabled name) [
      | none ↦ Result.err file_error
      | some n ↦ Result.ok n
    ])
    let destination = codes "plugins" ∷ renamed ∷ []
    refuse_when (λ s. is_some ((O.tree s).kind destination))
    O.replace path destination
    pure destination
