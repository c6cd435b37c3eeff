-- ===== src/Tests/Servers.antt =====
-- The runtime and the maintenance of servers at concrete inputs.
use mathlib.Core.Path.{subst}
use talos_panel.Base.{
  if◌then◌else◌, count, ◌≤◌, ◌≡◌, refl, ◌⊎◌, inr, true, false, Option, none, some, List, [], ◌∷◌,
  arith, String, str_eq,
}
use talos_panel.Base.Text.{Text, codes, text_eq}
use talos_panel.Http.{Result}
use talos_panel.Models.Accounts.{AuditEvent}
use talos_panel.Models.Servers.{MinecraftServer}
use talos_panel.Operations.Backups.{scheduled_backup}
use talos_panel.Operations.Backups.Saves.{traced, Balanced, saves_resumed}
use talos_panel.Operations.Recovery.{Sampled, retried, recover, sample_and_recover}
use talos_panel.Operations.Recovery.Laws.{
  is_restart, recover_leaves_alone, passes, restarts_bounded, NeverRuns,
}
use talos_panel.Runtime.Commands.{
  RuntimeSnapshot, stop, send_command, exec_in, deliver, send_normalized, wait_or_stop,
}
use talos_panel.Runtime.Console.{normalize_console_command}
use talos_panel.Runtime.Containers.{
  start, remove, status, profile_for, container_name, server_labels, profile_matches, is_running,
  is_managed, run_spec, managed_container, run_container, start_existing,
}
use talos_panel.Runtime.Docker.{Container, with_status}
use talos_panel.Runtime.JvmFlags.{parse_custom_jvm_flags, startup_jvm_arguments}
use talos_panel.Runtime.Laws.{start_sound, remove_sound}
use talos_panel.Runtime.LifeCycle.{
  Life, Call, life_after, life_after_all, life_of, run_call, run_calls, life,
}
use talos_panel.Runtime.LifeCycle.Traces.{runtime_refines_life}
use talos_panel.Tests.World.{
  platform, daemon, daemon-IsLawful, runtime_env, operations_env, crashing, store, survival,
}

abbrev own_name : Text
own_name = container_name platform 5

abbrev no_containers : Text → Option Container
no_containers n = none

abbrev fresh : Container
fresh = record {
  id = codes "new";
  status = "running";
  labels = server_labels platform survival;
  restart_policy = "no";
}

abbrev one_container : Container → Text → Option Container
one_container c n = if text_eq own_name n then some c else none

start_sound_example :
    (◌≡◌ {A = String} "running" "running")
    × ((c : Container) × (one_container fresh own_name ≡ some c)
        × (is_running c ≡ true)
        × (is_managed platform 5 c ≡ true)
        × ((profile_matches platform survival c ≡ true) ⊎ (no_containers own_name ≡ some c)))
unfolding start managed_container start_existing run_container run_spec profile_for container_name
    startup_jvm_arguments parse_custom_jvm_flags
start_sound_example =
    start_sound daemon daemon-IsLawful runtime_env survival no_containers (one_container fresh)
      (codes "new", "running") refl

abbrev foreign : Container
foreign = record { id = codes "x"; status = "exited"; labels = []; restart_policy = "no" }

abbrev start_and_stop : List Call
start_and_stop = Call.to_ask ∷ Call.to_start ∷ Call.to_ask ∷ Call.to_stop ∷ []

-- The containers after these calls, from none.
abbrev started_and_stopped : Text → Option Container
started_and_stopped = (run_calls daemon runtime_env survival start_and_stop no_containers).1

runtime_refines_life_example :
    ((c : Container) → started_and_stopped own_name ≡ some c → is_managed platform 5 c ≡ true)
    × (life daemon runtime_env survival started_and_stopped ≡ Life.halted)
unfolding run_calls run_call life_after_all life_after life_of start stop status send_command
    send_normalized deliver exec_in wait_or_stop managed_container start_existing run_container
    run_spec profile_for container_name startup_jvm_arguments parse_custom_jvm_flags is_managed
    normalize_console_command
runtime_refines_life_example =
    runtime_refines_life daemon daemon-IsLawful runtime_env survival start_and_stop no_containers
      started_and_stopped tt (λ c e. absurd (cc e)) refl

-- What the removal of the running container leaves.
abbrev removed : Text → Option Container
removed n =
    if text_eq own_name n
    then none
    else if text_eq own_name n
    then with_status "exited" (one_container fresh n)
    else one_container fresh n

remove_sound_example :
    (removed own_name ≡ none)
    × (status daemon runtime_env survival removed ≡ (Result.ok (none, "not_created"), removed))
    × (removed [] ≡ one_container fresh [])
unfolding remove managed_container is_managed container_name
remove_sound_example =
    remove_sound daemon daemon-IsLawful runtime_env survival (one_container fresh) removed
      (some (codes "new")) [] refl (λ e. cc e)

abbrev exited : RuntimeSnapshot
exited = record {
  container_id = none;
  state = "exited";
  cpu_percent = none;
  memory_bytes = none;
  memory_limit_bytes = none;
}

abbrev given_up : MinecraftServer
given_up = record survival { restart_failures = 3 }

recover_leaves_alone_example :
    (r : Sampled) × (recover crashing operations_env given_up exited 0 tt ≡ (Result.ok r, tt))
    × (count is_restart r.events ≡ 0)
recover_leaves_alone_example =
    recover_leaves_alone crashing operations_env given_up exited 0 tt (inr (inr (omega arith)))

abbrev passes_events : List AuditEvent
unfolding passes sample_and_recover recover retried
passes_events = elim (passes crashing operations_env (0 ∷ 1 ∷ []) survival tt).0 [
  | Result.err e ↦ []
  | Result.ok events ↦ events
]

crashing-NeverRuns : NeverRuns crashing operations_env
crashing-NeverRuns server s s' snap e =
    let same : exited ≡ snap = cc e in subst (λ x. str_eq x.state "running" ≡ false) same refl

restarts_bounded_example : count is_restart passes_events ≤ 3
unfolding passes sample_and_recover recover retried
restarts_bounded_example =
    restarts_bounded crashing operations_env (0 ∷ 1 ∷ []) survival tt tt passes_events
      crashing-NeverRuns refl

saves_resumed_example :
    Balanced []
      (scheduled_backup (traced crashing) store operations_env survival 1 9 [] ((tt, []), tt)).1.0.1
saves_resumed_example = saves_resumed crashing store operations_env survival 1 9 [] ((tt, []), tt)
