-- ===== src/Web/Removal.antt =====
-- talos_panel/web.py, `delete_server_ui`, and talos_panel/api.py, `delete_server`: the removal of a
-- server with its rows, its container and its directory.
pub mod Laws
use talos_panel.Auth.Audit.{by_reference, record_audit}
use talos_panel.Auth.Requests.{Request}
use talos_panel.Base.{
  ◌==◌, if◌then◌else◌, select, modify, ℕ, Bool, true, false, not, Option, none, some, ◌++◌,
}
use talos_panel.Base.Text.{Text, codes, text_eq}
use talos_panel.Handler.{◌>>=◌, ◌>>◌, Exec, refuse_if, write}
use talos_panel.Http.{Result}
use talos_panel.Models.Servers.{MinecraftServer}
use talos_panel.Models.Tables.{Database}
use talos_panel.Runtime.Interface.{Runtime}
use talos_panel.Web.Site.{DataStore, WebEnv, Site, in_database, in_runtime, in_data, entered}

abbrev pub refers_to : ℕ → Option ℕ → Bool
refers_to id none = false
refers_to id (some k) = k == id

-- `session.delete(server)`: the rows that cascade go, and the audit log forgets the identifier.
unfoldable pub delete_rows : ℕ → Database → Database
delete_rows server_id db = record db {
  servers = select (λ s. not (s.id == server_id)) db.servers;
  members = select (λ m. not (m.server_id == server_id)) db.members;
  jobs = select (λ j. not (j.server_id == server_id)) db.jobs;
  backups = select (λ b. not (b.server_id == server_id)) db.backups;
  updates = select (λ u. not (u.server_id == server_id)) db.updates;
  samples = select (λ m. not (m.server_id == server_id)) db.samples;
  audit =
      modify (λ e. refers_to server_id e.server_id) (λ e. record e { server_id = none }) db.audit;
}

module _ (R : Runtime) (F : DataStore) (env : WebEnv) where
  -- The `try` with its rollback: the rows go when the container and the directory are gone.
  unfoldable pub delete_or_rollback : MinecraftServer → Exec (Site R F) Bool
  delete_or_rollback server w =
      let (removed, w₁) = in_runtime R F (R.remove server) w in
      elim removed [
        | Result.err e ↦ (Result.err e, w₁)
        | Result.ok _ ↦
            let (archived, w₂) = in_data R F (F.archive_server_directory server.id) w₁ in
            elim archived [
              | Result.err e ↦ (Result.err e, w₂)
              | Result.ok moved ↦
                  (Result.ok moved, (in_database R F (write (delete_rows server.id)) w₂).1)
            ]
      ]

  removal_details : MinecraftServer → Bool → Text
  removal_details server archived =
      env.uuid_text server.id
      ++ codes ":"
      ++ server.name
      ++ codes ":files_archived="
      ++ (if archived then codes "True" else codes "False")

  -- What follows the checks.
  unfoldable pub delete_confirmed :
      Request → Text → ℕ → MinecraftServer → Exec (Site R F) (Unit {0})
  unfolding removal_details
  delete_confirmed request confirmation now server = do
    refuse_if (not (text_eq confirmation server.name)) 422 "Enter the exact server name to confirm"
    archived ← delete_or_rollback server
    in_database R F (
        record_audit request "server.delete" (by_reference server.id (some server.name))
          (some (removal_details server archived)) now)

  unfoldable pub delete_server : Request → Option Text → ℕ → Text → ℕ → Exec (Site R F) (Unit {0})
  delete_server request csrf_token server_id confirmation now =
      entered R F request csrf_token server_id true >>= delete_confirmed request confirmation now
