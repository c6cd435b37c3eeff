-- ===== src/Web/Updates.antt =====
-- talos_panel/web.py: `update_server_version` and `rollback_server_update`. The target version has
-- passed the pattern of the form.
pub mod Laws
pub mod Stored
pub mod RoundTrip
use talos_panel.Auth.Audit.{on_server, record_audit}
use talos_panel.Auth.Requests.{Request}
use talos_panel.Base.{
  ◌==◌, if◌then◌else◌, take, map_option, find, modify, ℕ, Bool, true, not, ◌||◌, Option, none, some,
  [], ◌∷◌, ◌++◌,
}
use talos_panel.Base.Text.{Text, codes, text_eq}
use talos_panel.Handler.{◌>>=◌, ◌>>◌, Exec, lift, expect, write}
use talos_panel.Http.{Failure, Result, raise_if}
use talos_panel.Install.Versions.{java_version_for}
use talos_panel.Models.Servers.{MinecraftServer, Backup, ServerUpdate}
use talos_panel.Models.Tables.{Database}
use talos_panel.Operations.Backups.{raised, backup_row}
use talos_panel.Runtime.Interface.{Runtime}
use talos_panel.ServerProperties.{is_member}
use talos_panel.Web.Site.{
  DataStore, WebEnv, Site, in_database, in_runtime, in_data, set_server, entered, require_stopped,
  server_backup, add_backup,
}

-- `except (InstallationError, httpx.HTTPError, RuntimeError)`.
abbrev pub is_update_error : Failure → Bool
is_update_error e = raised "InstallationError" e || raised "HTTPError" e || raised "RuntimeError" e

-- `server.installed_version`, where the empty text is false too.
abbrev pub installed_of : MinecraftServer → Option Text
installed_of server = elim server.installed_version [
  | none ↦ none
  | some t ↦ if text_eq t [] then none else some t
]

abbrev pub new_update : ℕ → MinecraftServer → ℕ → Text → Text → ℕ → ServerUpdate
new_update id server backup_id from_version to_version now = record {
  id = id;
  server_id = server.id;
  backup_id = some backup_id;
  from_version = from_version;
  to_version = to_version;
  state = "downloading";
  error_message = none;
  created_at = now;
  finished_at = none;
}

-- The recovery point that a rollback asks for: the update of the server and its backup.
abbrev pub recovery_point : ℕ → ℕ → Database → Option (ServerUpdate × ℕ)
recovery_point update_id server_id db = elim (find (λ u. u.id == update_id) db.updates) [
  | none ↦ none
  | some u ↦
      if u.server_id == server_id
      then map_option (λ backup_id. (u, backup_id)) u.backup_id
      else none
]

module _ (R : Runtime) (F : DataStore) (env : WebEnv) where
  abbrev pub set_update : ℕ → (ServerUpdate → ServerUpdate) → Exec (Site R F) (Unit {0})
  set_update id f =
      in_database R F (write (λ db. record db { updates = modify (λ u. u.id == id) f db.updates }))

  -- The body of the `try`. The two assignments before `java_version_for` are committed with the
  -- failure of the update, if that is raised.
  unfoldable pub install_target : MinecraftServer → ℕ → Text → ℕ → Exec (Site R F) (Unit {0})
  install_target server update_id target now = do
    versions ← lift (env.versions server.server_type)
    lift (raise_if (not (is_member target versions)) (Failure.crash "InstallationError"))
    _ ← in_runtime R F (R.remove server)
    set_server R F server.id
        (λ v. record v { installed_version = some target; game_version = target })
    java ← lift (java_version_for env.unicode target)
    set_server R F server.id (λ v. record v { java_version = some java; container_id = none })
    set_update update_id (λ u. record u { state = "completed"; finished_at = some now })

  -- The `try` with its `except`, which stores the failure.
  unfoldable pub run_update : MinecraftServer → ℕ → Text → ℕ → Exec (Site R F) (Unit {0})
  run_update server update_id target now w =
      let (r, w') = install_target server update_id target now w in
      elim r [
        | Result.ok _ ↦ (Result.ok tt, w')
        | Result.err e ↦
            if is_update_error e
            then (
              Result.err (Failure.http 409 (env.error_detail e)),
              (set_update update_id
                  (λ u. record u {
                    state = "failed";
                    error_message = some (take 500 (env.error_text e));
                    finished_at = some now;
                  })
                  w').1,
            )
            else (Result.err e, w')
      ]

  -- The backup and the row of an update, which are stored before it is tried.
  unfoldable pub record_update :
      MinecraftServer → Text → Text → ℕ → ℕ → ℕ → Exec (Site R F) (Unit {0})
  record_update server from_version target backup_id update_id now = do
    artifact ← in_data R F (F.create_backup server.id)
    add_backup R F (backup_row backup_id server artifact now)
    in_database R F (
        write (λ db. record db {
          updates =
              db.updates ++ new_update update_id server backup_id from_version target now ∷ [];
        }))

  -- The page behind its first checks.
  unfoldable pub update_entered :
      Request → Text → ℕ → ℕ → ℕ → MinecraftServer → Exec (Site R F) (Unit {0})
  update_entered request target backup_id update_id now server = do
    require_stopped R F server "Stop the server before updating it"
    from_version ← expect (λ w. installed_of server) 409 "Server is not installed"
    record_update server from_version target backup_id update_id now
    run_update server update_id target now
    in_database R F (
        record_audit request "server.update" (on_server server.id)
          (some (from_version ++ codes "->" ++ target)) now)

  -- `backup_id` and `update_id` are the identifiers of the new rows.
  unfoldable pub update_server_version :
      Request → Option Text → ℕ → Text → ℕ → ℕ → ℕ → Exec (Site R F) (Unit {0})
  update_server_version request csrf_token server_id target backup_id update_id now =
      entered R F request csrf_token server_id true
      >>= update_entered request target backup_id update_id now

  -- What follows the checks: the files, the container, and the rows that are then committed.
  unfoldable pub undo_update : MinecraftServer → ServerUpdate → Backup → Exec (Site R F) (Unit {0})
  undo_update server update backup = do
    in_data R F (F.restore_backup server.id backup.file_name backup.checksum_sha256)
    java ← lift (java_version_for env.unicode update.from_version)
    _ ← in_runtime R F (
        R.remove (record server {
          installed_version = some update.from_version;
          game_version = update.from_version;
          java_version = some java;
        }))
    set_server R F server.id (λ v. record v {
      installed_version = some update.from_version;
      game_version = update.from_version;
      java_version = some java;
      container_id = none;
    })
    set_update update.id (λ u. record u { state = "rolled_back" })

  unfoldable pub rollback_entered : Request → ℕ → ℕ → MinecraftServer → Exec (Site R F) (Unit {0})
  rollback_entered request update_id now server = do
    require_stopped R F server "Stop the server before rolling back"
    point ←
        expect (λ (db, s, f). recovery_point update_id server.id db) 404
          "Update recovery point not found"
    backup ← server_backup R F server.id point.1
    undo_update server point.0 backup
    in_database R F (record_audit request "server.update_rollback" (on_server server.id) none now)

  unfoldable pub rollback_server_update :
      Request → Option Text → ℕ → ℕ → ℕ → Exec (Site R F) (Unit {0})
  rollback_server_update request csrf_token server_id update_id now =
      entered R F request csrf_token server_id true >>= rollback_entered request update_id now
