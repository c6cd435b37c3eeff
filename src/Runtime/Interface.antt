-- ===== src/Runtime/Interface.antt =====
-- What the rest of the panel calls of `DockerRuntime`, as an interface, and the runtime of
-- talos_panel/runtime.py as one that meets it.
use talos_panel.Base.{String, Option}
use talos_panel.Base.Text.{Text}
use talos_panel.Handler.{Exec}
use talos_panel.Models.Servers.{MinecraftServer}
use talos_panel.Runtime.Commands.{stop, restart, RuntimeSnapshot, send_command, snapshot}
use talos_panel.Runtime.Containers.{start, status, remove, RuntimeEnv, use_panel_restart_policy}
use talos_panel.Runtime.Docker.{Docker}

pub record Runtime : Type 1 where
  pub State : Type 0
  pub start : MinecraftServer → Exec State (Text × String)
  pub stop : MinecraftServer → Exec State (Option Text × String)
  pub restart : MinecraftServer → Exec State (Text × String)
  pub remove : MinecraftServer → Exec State (Option Text)
  pub status : MinecraftServer → Exec State (Option Text × String)
  pub snapshot : MinecraftServer → Exec State RuntimeSnapshot
  pub send_command : MinecraftServer → Text → Exec State Text
  pub use_panel_restart_policy : MinecraftServer → Exec State (Unit {0})

abbrev pub docker_runtime : Docker → RuntimeEnv → Runtime
docker_runtime D env = record {
  State = D.State;
  start = start D env;
  stop = stop D env;
  restart = restart D env;
  remove = remove D env;
  status = status D env;
  snapshot = snapshot D env;
  send_command = send_command D env;
  use_panel_restart_policy = use_panel_restart_policy D env;
}
