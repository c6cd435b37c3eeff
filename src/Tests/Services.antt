-- ===== src/Tests/Services.antt =====
-- Installation, flags, settings and the security review at concrete inputs.
use talos_panel.Api.{checked_server, store_state, start_server}
use talos_panel.Api.Laws.{Checked, start_server_sound}
use talos_panel.Auth.Audit.{record_audit}
use talos_panel.Auth.Requests.{require_csrf, require_user}
use talos_panel.Auth.Session.{default_settings}
use talos_panel.Base.{
  length, count, All, find, ◌≤◌, ◌≡◌, refl, ◌↔◌, ◌⊎◌, true, false, Option, none, some, List, [],
  ◌∷◌, ◌==◌, arith, select, ◌++◌,
}
use talos_panel.Base.Decimal.{number_text}
use talos_panel.Base.Text.{Text, codes, ascii, split_on}
use talos_panel.Http.{Failure, Result}
use talos_panel.Install.Drain.{turns, installation_settles}
use talos_panel.Install.Jobs.{
  Turn, has_job_id, has_server_id, run_job, InstallationManager, begin_job, complete_job,
  prepare_server, start_manager, worker_step,
}
use talos_panel.Install.Laws.{Settled, run_job_settles}
use talos_panel.Install.Requests.{install_server, OneActive, install_server-OneActive}
use talos_panel.Install.Versions.{release_version, java_version_for}
use talos_panel.Models.Servers.{
  InstallationState, MinecraftServer, InstallationJob, DesiredState, is_unfinished,
}
use talos_panel.Models.Tables.{Database}
use talos_panel.Operations.Pass.{run_once, is_kept, run_once_atomic, Pending, Passed}
use talos_panel.Permissions.{require_server_access}
use talos_panel.Runtime.Console.{contains}
use talos_panel.Runtime.JvmFlags.{
  parse_custom_jvm_flags, startup_jvm_arguments, IsAllowed, startup_jvm_arguments-IsAllowed,
}
use talos_panel.Security.{Listing, security_findings}
use talos_panel.Security.Laws.{is_serious, no_warning_iff, IsConfined, IsPrivate}
use talos_panel.ServerProperties.{ServerProperties, serialized, merge_lines}
use talos_panel.ServerProperties.Laws.{others, other_lines_kept}
use talos_panel.Tests.World.{
  platform, operations_env, crashing, store, survival, database, from_ann,
}

abbrev job : InstallationJob
job = record {
  id = 3;
  server_id = 5;
  state = InstallationState.queued;
  requested_version = codes "1.21";
  installed_version = none;
  java_version = none;
  error_code = none;
  error_message = none;
  eula_accepted_at = 0;
  started_at = none;
  finished_at = none;
}

abbrev with_job : Database
with_job = record database { jobs = job ∷ [] }

run_job_settles_example :
    (j : InstallationJob) × (s : MinecraftServer) × (find
        (has_job_id 3)
        (run_job ascii 3 none 0 1 with_job).jobs
      ≡ some j)
    × (find (has_server_id 5) (run_job ascii 3 none 0 1 with_job).servers ≡ some s)
    × Settled j s
run_job_settles_example = run_job_settles ascii 3 none 0 1 with_job job survival refl refl refl

-- The worker after a restart of the panel in the middle of a job.
abbrev one_turn : List Turn
one_turn = Turn.caught none 0 1 ∷ []

abbrev interrupted : InstallationJob
interrupted = record job { state = InstallationState.installing }

abbrev restarted : InstallationManager
restarted = record {
  database = record database { jobs = interrupted ∷ [] };
  queue = [];
  working = false;
}

-- The job and the server after the turn.
abbrev finished : InstallationJob
finished = record job {
  state = InstallationState.completed;
  installed_version = some survival.game_version;
  java_version = some 21;
  started_at = some 0;
  finished_at = some 1;
}

abbrev prepared : MinecraftServer
prepared = record survival {
  installed_version = some survival.game_version;
  java_version = some 21;
  installation_state = some InstallationState.completed;
}

installation_settles_example : is_unfinished finished.state ≡ false
unfolding start_manager turns worker_step run_job prepare_server begin_job complete_job
    java_version_for release_version split_on
installation_settles_example =
    installation_settles ascii one_turn restarted 3 finished prepared ((none, 0, 1, refl), tt)
      (omega arith) refl refl

shlex : Text → Option (List Text)
shlex flags = some (codes "-Dx=1" ∷ [])

startup_jvm_arguments-IsAllowed_example :
    (custom : List Text) × (codes "-Xms8M" ∷ codes "-Xmx8M" ∷ codes "-Dx=1" ∷ []
      ≡ (codes "-Xms" ++ number_text 8 ++ codes "M")
        ∷ (codes "-Xmx" ++ number_text 8 ++ codes "M")
        ∷ ([] ++ custom))
    × (length custom ≤ 64)
    × All (IsAllowed platform shlex) custom
unfolding startup_jvm_arguments parse_custom_jvm_flags number_text shlex
startup_jvm_arguments-IsAllowed_example =
    startup_jvm_arguments-IsAllowed platform shlex 8 false (codes "-Dx=1")
      (codes "-Xms8M" ∷ codes "-Xmx8M" ∷ codes "-Dx=1" ∷ []) refl

abbrev privileged : Listing
privileged = record {
  containers =
      record {
        name = codes "talos-mc-5";
        privileged = true;
        network_mode = none;
        memory = some 2048;
      }
      ∷ [];
  failure = none;
}

no_warning_iff_example :
    (count is_serious (security_findings default_settings (codes "x") (some 384) privileged) ≡ 0)
    ↔ ((default_settings.secure_cookies ≡ true)
        × (contains (codes "change-me") (codes "x") ≡ false)
        × IsPrivate (some 384)
        × All IsConfined privileged.containers
        × (privileged.failure ≡ none))
no_warning_iff_example = no_warning_iff default_settings (codes "x") (some 384) privileged

run_once_atomic_example :
    let after = run_once crashing store operations_env 1 2 (λ n. n) database (tt, tt) in
    ((e : Failure) × (after.0 ≡ Result.err e) × (after.1 ≡ database))
    ⊎ ((rows : Pending) × (after.0 ≡ Result.ok tt)
        × Passed crashing store operations_env 1
            (λ n. n)
            database.servers
            (record {
              servers = [];
              samples = database.samples;
              backups = database.backups;
              events = [];
            })
            rows
        × (length after.1.servers ≡ length database.servers)
        × (after.1 ≡ record database {
          servers = rows.servers;
          samples = select (is_kept crashing store operations_env 2) rows.samples;
          backups = rows.backups;
          audit = database.audit ++ rows.events;
        }))
run_once_atomic_example =
    run_once_atomic crashing store operations_env 1 2 (λ n. n) database (tt, tt)

abbrev easy : ServerProperties
easy = record {
  motd = codes "A Minecraft Server";
  gamemode = codes "survival";
  difficulty = codes "easy";
  max_players = 20;
  whitelist = false;
  pvp = true;
  allow_flight = false;
  view_distance = 10;
  simulation_distance = 10;
}

abbrev hard : ServerProperties
hard = record easy { difficulty = codes "hard" }

abbrev existing_lines : List Text
existing_lines =
    codes "# comment" ∷ codes "pvp=false" ∷ codes "level-seed=7" ∷ codes "pvp=true" ∷ []

other_lines_kept_example :
    others (serialized hard) (merge_lines (serialized hard) existing_lines [])
    ≡ others (serialized hard) existing_lines
other_lines_kept_example = other_lines_kept hard existing_lines

abbrev started : Database
started = (start_server crashing from_ann (some (b'c' ∷ [])) 5 9 (database, tt)).1.0

start_server_sound_example :
    ((server : MinecraftServer) × Checked crashing from_ann
        (some (b'c' ∷ []))
        5
        (database, tt)
        server)
    × ((stored : MinecraftServer) × (find (λ s. s.id == 5) started.servers ≡ some stored)
        × (stored.desired_state ≡ DesiredState.running))
unfolding start_server checked_server store_state require_csrf require_user require_server_access
    record_audit
start_server_sound_example =
    start_server_sound crashing from_ann (some (b'c' ∷ [])) 5 9 (database, tt) (started, tt)
      (record { server_id = 5; state = "running"; container_id = some (codes "new") }) refl

abbrev manager : InstallationManager
manager = record { database = with_job; queue = []; working = true }

with_job-OneActive : OneActive with_job
with_job-OneActive k = ground arith

install_server-OneActive_example :
    OneActive (install_server from_ann (some (b'c' ∷ [])) 5 true 4 9 manager).1.database
install_server-OneActive_example =
    install_server-OneActive from_ann (some (b'c' ∷ [])) 5 true 4 9 manager with_job-OneActive
