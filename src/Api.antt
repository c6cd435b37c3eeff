-- ===== src/Api.antt =====
-- talos_panel/api.py: the requests that start, stop, restart and inspect a server. The state is the
-- database and the state of the runtime.
pub mod Laws
use talos_panel.Auth.Audit.{on_server, record_audit}
use talos_panel.Auth.Requests.{Request, require_csrf, require_user}
use talos_panel.Base.{◌==◌, modify, ℕ, String, Bool, true, false, not, ◌&&◌, Option, none, some}
use talos_panel.Base.Text.{Text}
use talos_panel.Handler.{◌>>=◌, ◌>>◌, Exec, Handler, pure, lift, refuse_if, write}
use talos_panel.Models.Servers.{DesiredState, MinecraftServer, installation_done}
use talos_panel.Models.Tables.{Database}
use talos_panel.Permissions.{require_server_access}
use talos_panel.Runtime.Interface.{Runtime}

pub record RuntimeStatus : Type 0 where
  pub server_id : ℕ
  pub state : String
  pub container_id : Option Text

module _ (R : Runtime) where
  abbrev pub Panel : Type 0
  Panel = Database × R.State

  abbrev pub on_database : {A : Type 0} → Handler A → Exec Panel A
  on_database m w = let (r, db) = m w.0 in (r, (db, w.1))

  abbrev pub on_containers : {A : Type 0} → Exec R.State A → Exec Panel A
  on_containers m w = let (r, s) = m w.1 in (r, (w.0, s))

  -- The checks that the three requests share; the one that needs an installed server says so.
  unfoldable pub checked_server : Request → Option Text → ℕ → Bool → Exec Panel MinecraftServer
  checked_server request csrf_token server_id needs_installed = do
    lift (require_csrf request csrf_token)
    user ← lift (require_user request)
    server ← on_database (require_server_access user server_id false)
    refuse_if (needs_installed && not (installation_done server.installation_state)) 409
        "Server installation is not complete"
    pure server

  -- What the three requests store after the runtime's call, with the audit row.
  unfoldable pub store_state :
      Request → String → ℕ → DesiredState → ℕ → Option Text × String → Exec Panel RuntimeStatus
  store_state request action server_id desired now (container_id, state) = do
    write (λ (db, s). (
      record db {
        servers =
            modify (λ v. v.id == server_id)
              (λ v. record v { container_id = container_id; desired_state = desired }) db.servers;
      },
      s,
    ))
    on_database (record_audit request action (on_server server_id) none now)
    pure (record { server_id = server_id; state = state; container_id = container_id })

  unfoldable pub start_server : Request → Option Text → ℕ → ℕ → Exec Panel RuntimeStatus
  start_server request csrf_token server_id now = do
    server ← checked_server request csrf_token server_id true
    started ← on_containers (R.start server)
    store_state request "server.start" server_id DesiredState.running now
        (some started.0, started.1)

  unfoldable pub restart_server : Request → Option Text → ℕ → ℕ → Exec Panel RuntimeStatus
  restart_server request csrf_token server_id now = do
    server ← checked_server request csrf_token server_id true
    started ← on_containers (R.restart server)
    store_state request "server.restart" server_id DesiredState.running now
        (some started.0, started.1)

  unfoldable pub stop_server : Request → Option Text → ℕ → ℕ → Exec Panel RuntimeStatus
  stop_server request csrf_token server_id now = do
    server ← checked_server request csrf_token server_id false
    stopped ← on_containers (R.stop server)
    store_state request "server.stop" server_id DesiredState.stopped now stopped

  unfoldable pub server_status : Request → ℕ → Exec Panel RuntimeStatus
  server_status request server_id = do
    user ← lift (require_user request)
    server ← on_database (require_server_access user server_id false)
    snap ← on_containers (R.snapshot server)
    pure (record { server_id = server_id; state = snap.state; container_id = snap.container_id })
