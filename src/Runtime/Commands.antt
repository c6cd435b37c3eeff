-- ===== src/Runtime/Commands.antt =====
-- talos_panel/runtime.py: `send_command`, `stop`, `restart` and `snapshot`.
use talos_panel.Base.{
  ◌==◌, if◌then◌else◌, map_option, ℕ, ◌-◌, String, Option, none, some, List, [], ◌∷◌, ◌++◌,
}
use talos_panel.Base.Text.{Text, codes}
use talos_panel.Handler.{◌>>=◌, ◌>>◌, Exec, pure, fail}
use talos_panel.Http.{Failure, Result}
use talos_panel.Models.Servers.{MinecraftServer}
use talos_panel.Runtime.Console.{Normalized, normalize_console_command, clean_console_response}
use talos_panel.Runtime.Containers.{
  start, RuntimeEnv, container_name, is_running, managed_container,
}
use talos_panel.Runtime.Docker.{Container, Stats, Docker, has_label}

pub record RuntimeSnapshot : Type 0 where
  pub container_id : Option Text
  pub state : String
  pub cpu_percent : Option ℕ
  pub memory_bytes : Option ℕ
  pub memory_limit_bytes : Option ℕ

module _ (D : Docker) (env : RuntimeEnv) where
  abbrev runtime_error : {A : Type 0} → Exec D.State A
  runtime_error s = (Result.err (Failure.crash "RuntimeError"), s)

  -- `exec_run` of the command; an exit code other than 0 is a `RuntimeError`.
  unfoldable pub exec_in : MinecraftServer → List Text → Exec D.State Text
  exec_in server command s = elim (D.exec_run s (container_name env.platform server.id) command) [
    | none ↦ (Result.err (Failure.crash "APIError"), s)
    | some (code, output, s') ↦
        if code == 0
        then (Result.ok output, s')
        else (Result.err (Failure.crash "RuntimeError"), s')
  ]

  -- The socket of the standard input: its failures are caught as a `RuntimeError`.
  unfoldable pub write_stdin : MinecraftServer → Text → Exec D.State Text
  write_stdin server line s = elim (D.send_stdin s (container_name env.platform server.id) line) [
    | none ↦ (Result.err (Failure.crash "RuntimeError"), s)
    | some s' ↦ (Result.ok [], s')
  ]

  -- The pipe of a new container, the RCON client of an older one, or the standard input.
  unfoldable pub deliver : MinecraftServer → Container → Text → Exec D.State Text
  unfolding exec_in write_stdin
  deliver server c normalized =
      if has_label "io.talos-panel.runtime" (codes "itzg") c
      then (if has_label "io.talos-panel.console-mode" (codes "pipe") c
          then (do _ ← exec_in server (codes "mc-send-to-console" ∷ normalized ∷ []); pure [])
          else (do
            output ← exec_in server (codes "rcon-cli" ∷ normalized ∷ [])
            pure (clean_console_response output)))
      else write_stdin server (normalized ++ (10 ∷ []))

  unfoldable pub send_normalized : MinecraftServer → Text → Exec D.State Text
  unfolding deliver
  send_normalized server normalized = do
    found ← managed_container D env server
    elim found [
      | none ↦ runtime_error
      | some c ↦ if is_running c then deliver server c normalized else runtime_error
    ]

  unfoldable pub send_command : MinecraftServer → Text → Exec D.State Text
  unfolding send_normalized
  send_command server command = elim (normalize_console_command command) [
    | Normalized.refused e ↦ fail (Failure.crash "ValueError")
    | Normalized.command normalized ↦ send_normalized server normalized
  ]

  -- `container.wait` for thirty seconds, and a forced stop when that raises.
  unfoldable pub wait_or_stop : MinecraftServer → Exec D.State (Unit {0})
  wait_or_stop server s = elim (D.wait s (container_name env.platform server.id)) [
    | some s' ↦ (Result.ok tt, s')
    | none ↦ elim (D.stop s (container_name env.platform server.id)) [
      | none ↦ (Result.err (Failure.crash "APIError"), s)
      | some s' ↦ (Result.ok tt, s')
    ]
  ]

  unfoldable pub stop : MinecraftServer → Exec D.State (Option Text × String)
  unfolding wait_or_stop
  stop server = do
    found ← managed_container D env server
    elim found [
      | none ↦ pure (none, "not_created")
      | some c ↦
          if is_running c
          then (do
            _ ← send_command server (codes "stop")
            wait_or_stop server
            pure (some c.id, "exited"))
          else pure (some c.id, "exited")
    ]

  unfoldable pub restart : MinecraftServer → Exec D.State (Text × String)
  restart server = do _ ← stop server; start D env server

  -- `max(0, usage - cache)`, where the usage is known.
  abbrev used : Stats → Option ℕ
  used s = map_option (λ u. u - s.inactive_file) s.usage

  unfoldable pub snapshot : MinecraftServer → Exec D.State RuntimeSnapshot
  snapshot server = do
    found ← managed_container D env server
    elim found [
      | none ↦ pure (record {
        container_id = none;
        state = "not_created";
        cpu_percent = none;
        memory_bytes = none;
        memory_limit_bytes = none;
      })
      | some c ↦ λ s.
          if is_running c
          then (elim (D.stats s (container_name env.platform server.id)) [
            | none ↦ (Result.err (Failure.crash "APIError"), s)
            | some t ↦ (
              Result.ok (record {
                container_id = some c.id;
                state = c.status;
                cpu_percent = t.cpu_percent;
                memory_bytes = used t;
                memory_limit_bytes = t.limit;
              }),
              s,
            )
          ])
          else (
            Result.ok (record {
              container_id = some c.id;
              state = c.status;
              cpu_percent = none;
              memory_bytes = none;
              memory_limit_bytes = none;
            }),
            s,
          )
    ]
