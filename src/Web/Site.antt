-- ===== src/Web/Site.antt =====
-- talos_panel/web.py: what the pages of a server share. The state is the database, the state of the
-- container runtime and that of the servers' data directories.
pub mod Laws
use talos_panel.Auth.Requests.{Request, require_csrf, require_user}
use talos_panel.Base.{
  ◌==◌, if◌then◌else◌, find, modify, ℕ, String, Bool, ◌&&◌, ◌||◌, Option, List, [], ◌∷◌, ◌++◌,
  str_eq,
}
use talos_panel.Base.Text.{Text, Unicode}
use talos_panel.Handler.{◌>>=◌, ◌>>◌, Exec, Handler, lift, refuse_if, expect, write}
use talos_panel.Http.{Failure, Result}
use talos_panel.Models.Servers.{ServerType, MinecraftServer, Backup}
use talos_panel.Models.Tables.{Database}
use talos_panel.Operations.Backups.{BackupArtifact, raised}
use talos_panel.Permissions.{require_server_access}
use talos_panel.Runtime.Interface.{Runtime}
use talos_panel.ServerProperties.{ServerProperties}

-- What the pages call of talos_panel/backup_service.py, talos_panel/server_settings.py,
-- talos_panel/server_lifecycle.py and talos_panel/runtime.py on the data directory of a server.
pub record DataStore : Type 1 where
  pub State : Type 0
  pub prepare_directory : ℕ → Exec State (Unit {0})
  pub create_backup : ℕ → Exec State BackupArtifact
  pub restore_backup : ℕ → Text → Option Text → Exec State (Unit {0})
  pub delete_backup : ℕ → Text → Exec State (Unit {0})
  pub read_server_properties : ℕ → Exec State ServerProperties
  pub write_server_properties : ℕ → ServerProperties → Exec State (Unit {0})
  -- Whether there was a directory to move away.
  pub archive_server_directory : ℕ → Exec State Bool

-- The Unicode tables, `str` of an exception and of a UUID, and the versions that the resolver of
-- talos_panel/installer.py downloads, or what it raises.
pub record WebEnv : Type 0 where
  pub unicode : Unicode
  pub error_text : Failure → Text
  pub error_detail : Failure → String
  pub uuid_text : ℕ → Text
  pub versions : ServerType → Result (List Text)

-- `except Class as exc: raise HTTPException(status, str(exc))`.
abbrev pub converted : WebEnv → (Failure → Bool) → ℕ → Failure → Failure
converted env caught status e = if caught e then Failure.http status (env.error_detail e) else e

abbrev pub catching : {S A : Type 0} → WebEnv → (Failure → Bool) → ℕ → Exec S A → Exec S A
catching env caught status m s =
    let (r, s') = m s in
    elim r [
      | Result.ok a ↦ (Result.ok a, s')
      | Result.err e ↦ (Result.err (converted env caught status e), s')
    ]

abbrev pub is_backup_error : Failure → Bool
is_backup_error e = raised "BackupError" e

abbrev pub is_command_error : Failure → Bool
is_command_error e = raised "ValueError" e || raised "RuntimeError" e

module _ (R : Runtime) (F : DataStore) where
  abbrev pub Site : Type 0
  Site = Database × R.State × F.State

  abbrev pub in_database : {A : Type 0} → Handler A → Exec Site A
  in_database m (db, s, f) = let (r, db') = m db in (r, (db', s, f))

  abbrev pub in_runtime : {A : Type 0} → Exec R.State A → Exec Site A
  in_runtime m (db, s, f) = let (r, s') = m s in (r, (db, s', f))

  abbrev pub in_data : {A : Type 0} → Exec F.State A → Exec Site A
  in_data m (db, s, f) = let (r, f') = m f in (r, (db, s, f'))

  -- The assignments to the row of a server, once they are committed.
  abbrev pub set_server : ℕ → (MinecraftServer → MinecraftServer) → Exec Site (Unit {0})
  set_server server_id f =
      in_database
        (write (λ db. record db { servers = modify (λ s. s.id == server_id) f db.servers }))

  -- What the pages of this module's siblings begin with: the token, the user and the access. The job
  -- that `_server_and_job` reads as well is used by pages that change nothing.
  unfoldable pub entered : Request → Option Text → ℕ → Bool → Exec Site MinecraftServer
  entered request csrf_token server_id owner = do
    in_database (lift (require_csrf request csrf_token))
    user ← in_database (lift (require_user request))
    in_database (require_server_access user server_id owner)

  unfoldable pub require_stopped : MinecraftServer → String → Exec Site (Unit {0})
  require_stopped server message = do
    current ← in_runtime (R.status server)
    refuse_if (str_eq current.1 "running") 409 message

  unfoldable pub server_backup : ℕ → ℕ → Exec Site Backup
  server_backup server_id backup_id =
      expect (λ (db, s, f). find (λ b. b.id == backup_id && b.server_id == server_id) db.backups)
        404 "Backup not found"

  -- The row of a backup and the commit of its insertion.
  abbrev pub add_backup : Backup → Exec Site (Unit {0})
  add_backup b = in_database (write (λ db. record db { backups = db.backups ++ b ∷ [] }))
