-- ===== src/Web/Files.antt =====
-- talos_panel/web.py: `_require_safe_file_mutation` and the pages that change the files of a server.
use talos_panel.Auth.Audit.{on_server, record_audit}
use talos_panel.Auth.Requests.{Request, require_user}
use talos_panel.Base.{
  if◌then◌else◌, ℕ, String, Bool, true, false, not, ◌||◌, Option, some, List, [], ◌∷◌, ◌++◌, str_eq,
}
use talos_panel.Base.Text.{Text, codes, has_prefix}
use talos_panel.Files.Operations.{
  FileOps, posix_path, move_path, copy_path, create_directory, archive_path, read_text_file,
  write_text_file, set_plugin_enabled,
}
use talos_panel.Files.Paths.{path_parts, last_part, mutation_requires_stopped_server}
use talos_panel.Handler.{◌>>=◌, ◌>>◌, Exec, pure, lift, refuse_if}
use talos_panel.Http.{Failure}
use talos_panel.Models.Servers.{ServerType, MinecraftServer}
use talos_panel.Operations.Backups.{raised}
use talos_panel.Permissions.{require_server_access}
use talos_panel.Platform.{Platform}
use talos_panel.Runtime.Interface.{Runtime}
use talos_panel.Web.Site.{
  DataStore, WebEnv, catching, Site, in_database, in_runtime, in_data, entered,
}

-- `str` of an absolute path. Two slashes at the front are one here; both are refused.
abbrev absolute_text : List Text → Text
absolute_text [] = codes "/"
absolute_text (part ∷ parts) = codes "/" ++ posix_path (part ∷ parts)

-- `str(PurePosixPath(parent) / name)`.
unfoldable pub joined_path : Text → Text → Text
joined_path parent name =
    if has_prefix name (codes "/")
    then absolute_text (path_parts name)
    else if has_prefix parent (codes "/")
    then absolute_text (path_parts parent ++ path_parts name)
    else posix_path (path_parts parent ++ path_parts name)

abbrev pub is_file_error : Failure → Bool
is_file_error e = raised "FileServiceError" e

abbrev has_plugins : ServerType → Bool
has_plugins ServerType.paper = true
has_plugins ServerType.purpur = true
has_plugins ServerType.pufferfish = true
has_plugins _ = false

-- `files` gives the operations below `data_path(server.id)`; `p` has the Unicode tables.
module _ (R : Runtime) (F : DataStore) (env : WebEnv) (p : Platform)
    (files : ℕ → FileOps F.State) where
  -- An operation of the file service, with `except FileServiceError`.
  abbrev on_files : {A : Type 0} → Exec F.State A → Exec (Site R F) A
  on_files m = catching env is_file_error 409 (in_data R F m)

  abbrev requires_stop_of : ℕ → Text → String → Exec F.State Bool
  requires_stop_of id path operation s = (
    mutation_requires_stopped_server p ((files id).tree s) ((files id).property_lines s) path
        operation,
    s,
  )

  abbrev locked : String
  locked = "Stop the server before changing active world data, databases, logs, or loaded JARs"

  -- The check of a path where the server is running.
  unfoldable pub checked_mutation : ℕ → Text → String → Exec (Site R F) (Unit {0})
  checked_mutation id path operation = do
    stop' ← on_files (requires_stop_of id path operation)
    refuse_if stop' 409 locked

  unfoldable pub require_safe_file_mutation :
      MinecraftServer → Text → String → Exec (Site R F) (Unit {0})
  require_safe_file_mutation server path operation = do
    current ← in_runtime R F (R.status server)
    if str_eq current.1 "running" then checked_mutation server.id path operation else pure tt

  unfoldable pub read_server_text_file : Request → ℕ → Text → ℕ → Exec (Site R F) Text
  read_server_text_file request server_id path max_bytes = do
    user ← in_database R F (lift (require_user request))
    server ← in_database R F (require_server_access user server_id false)
    on_files (read_text_file (files server.id) p path max_bytes)

  unfoldable pub create_server_directory :
      Request → Option Text → ℕ → Text → Text → ℕ → Exec (Site R F) (Unit {0})
  create_server_directory request csrf_token server_id parent name now = do
    server ← entered R F request csrf_token server_id true
    require_safe_file_mutation server (joined_path parent name) "mkdir"
    destination ← on_files (create_directory (files server.id) parent name)
    in_database R F (
        record_audit request "server.directory_create" (on_server server.id)
          (some (posix_path destination)) now)

  abbrev organize : ℕ → Bool → Text → Text → Text → Exec F.State (List Text)
  organize id moves source parent name =
      if moves
      then move_path (files id) source parent name
      else copy_path (files id) source parent name

  unfoldable pub organize_server_file :
      Request → Option Text → ℕ → String → Text → Text → Text → ℕ → Exec (Site R F) (Unit {0})
  organize_server_file request csrf_token server_id action source parent name now = do
    server ← entered R F request csrf_token server_id true
    refuse_if (not (str_eq action "move" || str_eq action "copy")) 422 "Unsupported file operation"
    require_safe_file_mutation server (joined_path parent name) action
    if str_eq action "move" then require_safe_file_mutation server source action else pure tt
    result ← on_files (organize server.id (str_eq action "move") source parent name)
    in_database R F (
        record_audit request
          (if str_eq action "move" then "server.file_move" else "server.file_copy")
          (on_server server.id) (some (source ++ codes " -> " ++ posix_path result)) now)

  unfoldable pub save_server_text_file :
      Request → Option Text → ℕ → Text → Text → ℕ → ℕ → Exec (Site R F) (Unit {0})
  save_server_text_file request csrf_token server_id path content max_bytes now = do
    server ← entered R F request csrf_token server_id true
    require_safe_file_mutation server path "edit"
    on_files (write_text_file (files server.id) p path content max_bytes)
    in_database R F (record_audit request "server.file_edit" (on_server server.id) (some path) now)

  -- `timestamp` is the time in the name of the archived item.
  unfoldable pub delete_server_file :
      Request → Option Text → ℕ → Text → Text → ℕ → Exec (Site R F) (Unit {0})
  delete_server_file request csrf_token server_id path timestamp now = do
    server ← entered R F request csrf_token server_id true
    require_safe_file_mutation server path "delete"
    _ ← on_files (archive_path (files server.id) path timestamp)
    in_database R F
        (record_audit request "server.file_delete" (on_server server.id) (some path) now)

  unfoldable pub toggle_plugin :
      Request → Option Text → ℕ → Text → Bool → ℕ → Exec (Site R F) (Unit {0})
  toggle_plugin request csrf_token server_id path enabled now = do
    server ← entered R F request csrf_token server_id true
    refuse_if (not (has_plugins server.server_type)) 409 "Plugins are supported only for Paper"
    require_safe_file_mutation server path "plugin_toggle"
    destination ← on_files (set_plugin_enabled (files server.id) p path enabled)
    in_database R F (
        record_audit request "server.plugin_toggle" (on_server server.id)
          (some (last_part destination)) now)
