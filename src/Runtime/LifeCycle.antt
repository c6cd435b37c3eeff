-- ===== src/Runtime/LifeCycle.antt =====
-- What `DockerRuntime` promises of a server, without its containers: the server is absent, halted or
-- running, and each call takes it to one of these.
pub mod Refinement
pub mod Traces
use talos_panel.Base.{if◌then◌else◌, ◌≡◌, true, Option, none, some, List, [], ◌∷◌}
use talos_panel.Handler.{Exec}
use talos_panel.Http.{Result}
use talos_panel.Models.Servers.{MinecraftServer}
use talos_panel.Runtime.Commands.{stop}
use talos_panel.Runtime.Containers.{
  start, status, remove, RuntimeEnv, container_name, is_running, is_managed,
}
use talos_panel.Runtime.Docker.{Container, Docker}

pub data Life : Type 0 where
  absent halted alive : Life

pub data Call : Type 0 where
  to_start to_stop to_remove to_ask : Call

-- The promise.
unfoldable pub life_after : Call → Life → Life
life_after Call.to_start l = Life.alive
life_after Call.to_stop Life.absent = Life.absent
life_after Call.to_stop Life.halted = Life.halted
life_after Call.to_stop Life.alive = Life.halted
life_after Call.to_remove l = Life.absent
life_after Call.to_ask l = l

unfoldable pub life_after_all : List Call → Life → Life
life_after_all [] l = l
life_after_all (c ∷ cs) l = life_after_all cs (life_after c l)

-- What a container shows of the life of its server.
unfoldable pub life_of : Option Container → Life
life_of none = Life.absent
life_of (some c) = if is_running c then Life.alive else Life.halted

module _ (D : Docker) (env : RuntimeEnv) (server : MinecraftServer) where
  abbrev ignoring : {A : Type 0} → Exec D.State A → Exec D.State (Unit {0})
  ignoring m s =
      let (r, s') = m s in
      elim r [ Result.ok a ↦ (Result.ok tt, s') | Result.err e ↦ (Result.err e, s') ]

  -- The code behind a call.
  unfoldable pub run_call : Call → Exec D.State (Unit {0})
  run_call Call.to_start = ignoring (start D env server)
  run_call Call.to_stop = ignoring (stop D env server)
  run_call Call.to_remove = ignoring (remove D env server)
  run_call Call.to_ask = ignoring (status D env server)

  unfoldable pub run_calls : List Call → Exec D.State (Unit {0})
  run_calls [] s = (Result.ok tt, s)
  run_calls (c ∷ cs) s =
      let (r, s') = run_call c s in
      elim r [ Result.ok _ ↦ run_calls cs s' | Result.err e ↦ (Result.err e, s') ]

  abbrev pub life : D.State → Life
  life s = life_of (D.get s (container_name env.platform server.id))

  -- The container of the server's name, if there is one, is the panel's.
  abbrev pub Managed : D.State → Type 0
  Managed s =
      (c : Container)
      → D.get s (container_name env.platform server.id) ≡ some c
      → is_managed env.platform server.id c ≡ true
