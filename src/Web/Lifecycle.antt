-- ===== src/Web/Lifecycle.antt =====
-- talos_panel/web.py: the pages that start, stop, restart and remove a server, send a console command
-- to it and set its restart policy.
pub mod Laws
use talos_panel.Auth.Audit.{on_server, by_reference, record_audit}
use talos_panel.Auth.Requests.{Request}
use talos_panel.Base.{if◌then◌else◌, ℕ, String, Bool, true, false, not, Option, none, some, [], ◌∷◌}
use talos_panel.Base.Text.{Text, is_space}
use talos_panel.Handler.{◌>>=◌, ◌>>◌, Exec, pure, refuse_if}
use talos_panel.Http.{Result}
use talos_panel.Models.Servers.{DesiredState, MinecraftServer, installation_done}
use talos_panel.Runtime.Console.{Normalized, normalize_console_command}
use talos_panel.Runtime.Interface.{Runtime}
use talos_panel.Web.Site.{
  DataStore, WebEnv, catching, is_command_error, Site, in_database, in_runtime, set_server, entered,
}

-- `normalize_console_command(command).split(maxsplit=1)[0]`, as far as the command was accepted.
first_word : Text → Text
first_word [] = []
first_word (c ∷ s) = let rest = first_word s in if is_space c then [] else c ∷ rest

unfoldable pub command_word : Text → Text
unfolding first_word
command_word command = elim (normalize_console_command command) [
  | Normalized.command t ↦ first_word t
  | Normalized.refused e ↦ []
]

module _ (R : Runtime) (F : DataStore) (env : WebEnv) where
  -- `runtime.start` or `runtime.restart`, the assignments after it and their commit.
  started : Request → String → MinecraftServer → ℕ → Text × String → Exec (Site R F) (Unit {0})
  started request action server now (container_id, state) = do
    set_server R F server.id
        (λ v. record v { container_id = some container_id; desired_state = DesiredState.running })
    in_database R F (record_audit request action (on_server server.id) none now)

  unfoldable pub start_server_ui : Request → Option Text → ℕ → ℕ → Exec (Site R F) (Unit {0})
  unfolding started
  start_server_ui request csrf_token server_id now = do
    server ← entered R F request csrf_token server_id false
    refuse_if (not (installation_done server.installation_state)) 409
        "Server installation is not complete"
    result ← in_runtime R F (R.start server)
    started request "server.start" server now result

  unfoldable pub restart_server_ui : Request → Option Text → ℕ → ℕ → Exec (Site R F) (Unit {0})
  unfolding started
  restart_server_ui request csrf_token server_id now = do
    server ← entered R F request csrf_token server_id false
    refuse_if (not (installation_done server.installation_state)) 409
        "Server installation is not complete"
    result ← in_runtime R F (R.restart server)
    started request "server.restart" server now result

  -- `runtime.stop(server)` with its `except`: the desired state is set back, and the exception raised.
  unfoldable pub stop_or_reset : MinecraftServer → Exec (Site R F) (Unit {0})
  stop_or_reset server w =
      let (r, w') = in_runtime R F (R.stop server) w in
      elim r [
        | Result.ok _ ↦ (Result.ok tt, w')
        | Result.err e ↦ (
          Result.err e,
          (set_server R F server.id (λ v. record v { desired_state = DesiredState.running }) w').1,
        )
      ]

  -- The page behind its checks.
  unfoldable pub stop_entered : Request → ℕ → MinecraftServer → Exec (Site R F) (Unit {0})
  stop_entered request now server = do
    set_server R F server.id (λ v. record v { desired_state = DesiredState.stopped })
    stop_or_reset (record server { desired_state = DesiredState.stopped })
    in_database R F (record_audit request "server.stop" (on_server server.id) none now)

  unfoldable pub stop_server_ui : Request → Option Text → ℕ → ℕ → Exec (Site R F) (Unit {0})
  stop_server_ui request csrf_token server_id now =
      entered R F request csrf_token server_id false >>= stop_entered request now

  -- The answer carries the output of the command.
  unfoldable pub server_command_ui : Request → Option Text → ℕ → Text → ℕ → Exec (Site R F) Text
  server_command_ui request csrf_token server_id command now = do
    server ← entered R F request csrf_token server_id false
    output ← catching env is_command_error 409 (in_runtime R F (R.send_command server command))
    in_database R F (
        record_audit request "server.command" (by_reference server.id none)
          (some (command_word command)) now)
    pure output

  unfoldable pub update_restart_policy :
      Request → Option Text → ℕ → Bool → ℕ → Exec (Site R F) (Unit {0})
  update_restart_policy request csrf_token server_id auto_restart now = do
    server ← entered R F request csrf_token server_id true
    set_server R F server.id (λ v. record v {
      auto_restart = auto_restart;
      restart_failures = if auto_restart then v.restart_failures else 0;
    })
    in_database R F (record_audit request "server.restart_policy" (on_server server.id) none now)
