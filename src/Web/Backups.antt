-- ===== src/Web/Backups.antt =====
-- talos_panel/web.py: the pages that make, restore and delete a backup of a server and that set how
-- its backups are scheduled. A commit of a new row succeeds.
use talos_panel.Auth.Audit.{on_server, record_audit}
use talos_panel.Auth.Requests.{Request}
use talos_panel.Auth.Session.{hours}
use talos_panel.Base.{
  leb, ◌==◌, if◌then◌else◌, select, modify, ℕ, ◌+◌, Bool, true, not, Option, none, some, List, [],
  ◌∷◌,
}
use talos_panel.Base.Text.{Text, text_eq, Unicode}
use talos_panel.Handler.{◌>>=◌, ◌>>◌, Exec, lift, gets, write}
use talos_panel.Http.{Result}
use talos_panel.Install.Versions.{java_version_for}
use talos_panel.Models.Servers.{MinecraftServer, Backup, ServerUpdate}
use talos_panel.Operations.Backups.{backup_row}
use talos_panel.Runtime.Interface.{Runtime}
use talos_panel.Web.Removal.{refers_to}
use talos_panel.Web.Site.{
  DataStore, WebEnv, catching, is_backup_error, Site, in_database, in_data, set_server, entered,
  require_stopped, server_backup, add_backup,
}

-- `created_at.desc()`, the first row.
unfoldable pub newest_update : List ServerUpdate → Option ServerUpdate
newest_update [] = none
newest_update (u ∷ us) = elim (newest_update us) [
  | none ↦ some u
  | some v ↦ if leb v.created_at u.created_at then some u else some v
]

-- `value or fallback`, where `None`, the empty text and 0 are false.
abbrev text_or : Option Text → Text → Text
text_or none fallback = fallback
text_or (some t) fallback = if text_eq t [] then fallback else t

abbrev number_or : Option ℕ → Result ℕ → Result ℕ
number_or none fallback = fallback
number_or (some n) fallback = if n == 0 then fallback else Result.ok n

pub record Versions : Type 0 where
  pub installed_version : Text
  pub game_version : Text
  pub java_version : ℕ

abbrev versions_of : Text → Option Text → ℕ → Versions
versions_of installed game java = record {
  installed_version = installed;
  game_version = text_or game installed;
  java_version = java;
}

-- The versions that a restored backup brings: its own or those before the update that made it.
unfoldable pub restored_versions : Unicode → Backup → List ServerUpdate → Result (Option Versions)
restored_versions u backup updates = elim backup.installed_version [
  | some version ↦ elim (number_or backup.java_version (java_version_for u version)) [
    | Result.err e ↦ Result.err e
    | Result.ok java ↦ Result.ok (some (versions_of version backup.game_version java))
  ]
  | none ↦ elim (newest_update (select (λ v. refers_to backup.id v.backup_id) updates)) [
    | none ↦ Result.ok none
    | some v ↦ elim (java_version_for u v.from_version) [
      | Result.err e ↦ Result.err e
      | Result.ok java ↦ Result.ok (some (versions_of v.from_version (some v.from_version) java))
    ]
  ]
]

abbrev pub with_versions : Option Versions → MinecraftServer → MinecraftServer
with_versions none server = server
with_versions (some v) server = record server {
  installed_version = some v.installed_version;
  game_version = v.game_version;
  java_version = some v.java_version;
}

module _ (R : Runtime) (F : DataStore) (env : WebEnv) where
  -- `id` is the identifier of the new backup.
  unfoldable pub create_server_backup :
      Request → Option Text → ℕ → ℕ → ℕ → Exec (Site R F) (Unit {0})
  create_server_backup request csrf_token server_id id now = do
    server ← entered R F request csrf_token server_id true
    require_stopped R F server "Stop the server before creating a backup"
    artifact ← catching env is_backup_error 409 (in_data R F (F.create_backup server.id))
    add_backup R F (backup_row id server artifact now)
    in_database R F (
        record_audit request "server.backup_create" (on_server server.id) (some (env.uuid_text id))
          now)

  unfoldable pub update_backup_policy :
      Request → Option Text → ℕ → Bool → ℕ → ℕ → ℕ → Exec (Site R F) (Unit {0})
  update_backup_policy request csrf_token server_id enabled interval_hours retention now = do
    server ← entered R F request csrf_token server_id true
    set_server R F server.id (λ v. record v {
      backup_enabled = enabled;
      backup_interval_hours = interval_hours;
      backup_retention = retention;
      next_backup_at = if enabled then some (now + hours interval_hours) else none;
    })
    in_database R F (record_audit request "server.backup_policy" (on_server server.id) none now)

  -- The body of the `try`: a backup of what is there, the restored files, and their versions.
  unfoldable pub replace_data : MinecraftServer → Backup → ℕ → ℕ → Exec (Site R F) (Unit {0})
  replace_data server backup id now = do
    artifact ← in_data R F (F.create_backup server.id)
    add_backup R F (backup_row id server artifact now)
    in_data R F (F.restore_backup server.id backup.file_name backup.checksum_sha256)
    updates ← gets (λ (db, s, f). db.updates)
    versions ← lift (restored_versions env.unicode backup updates)
    set_server R F server.id (with_versions versions)

  unfoldable pub restore_server_backup :
      Request → Option Text → ℕ → ℕ → ℕ → ℕ → Exec (Site R F) (Unit {0})
  restore_server_backup request csrf_token server_id backup_id id now = do
    server ← entered R F request csrf_token server_id true
    backup ← server_backup R F server.id backup_id
    require_stopped R F server "Stop the server before restoring a backup"
    catching env is_backup_error 409 (replace_data server backup id now)
    in_database R F (
        record_audit request "server.backup_restore" (on_server server.id)
          (some (env.uuid_text backup.id)) now)

  -- An update whose backup is deleted keeps its row without it.
  unfoldable pub remove_backup : ℕ → Exec (Site R F) (Unit {0})
  remove_backup id = in_database R F (
      write (λ db. record db {
        backups = select (λ b. not (b.id == id)) db.backups;
        updates =
            modify (λ u. refers_to id u.backup_id) (λ u. record u { backup_id = none }) db.updates;
      }))

  unfoldable pub delete_server_backup :
      Request → Option Text → ℕ → ℕ → ℕ → Exec (Site R F) (Unit {0})
  delete_server_backup request csrf_token server_id backup_id now = do
    server ← entered R F request csrf_token server_id true
    backup ← server_backup R F server.id backup_id
    catching env is_backup_error 409 (in_data R F (F.delete_backup server.id backup.file_name))
    remove_backup backup.id
    in_database R F (
        record_audit request "server.backup_delete" (on_server server.id)
          (some (env.uuid_text backup.id)) now)
