-- ===== src/Install/Jobs.antt =====
-- talos_panel/install_service.py, `InstallationManager`: the queue of jobs and the worker's run of
-- one. The directory that a run makes is outside the state: `failure` is the text of the `OSError`
-- that making it raised, if it did.
use talos_panel.Base.{
  ◌==◌, if◌then◌else◌, take, find, select, modify, ℕ, Bool, Option, none, some, List, [], ◌∷◌, ◌++◌,
  map, true, false, not,
}
use talos_panel.Base.Text.{Text, codes, Unicode}
use talos_panel.Http.{Result}
use talos_panel.Install.Versions.{java_version_for}
use talos_panel.Models.Servers.{
  InstallationState, MinecraftServer, InstallationJob, is_completed, is_unfinished,
}
use talos_panel.Models.Tables.{Database}

pub record InstallationManager : Type 0 where
  pub database : Database
  pub queue : List ℕ
  -- Whether `worker_task` is running.
  pub working : Bool

abbrev pub has_job_id : ℕ → InstallationJob → Bool
has_job_id k job = job.id == k

abbrev pub has_server_id : ℕ → MinecraftServer → Bool
has_server_id k server = server.id == k

abbrev pub update_job : ℕ → (InstallationJob → InstallationJob) → Database → Database
update_job k f db = record db { jobs = modify (has_job_id k) f db.jobs }

abbrev pub update_server : ℕ → (MinecraftServer → MinecraftServer) → Database → Database
update_server k f db = record db { servers = modify (has_server_id k) f db.servers }

-- The first commit of a run.
unfoldable pub begin_job : ℕ → ℕ → ℕ → Database → Database
begin_job job_id server_id now db =
    update_server server_id
      (λ s. record s { installation_state = some InstallationState.installing })
      (update_job job_id
        (λ j. record j { started_at = some now; state = InstallationState.installing }) db)

-- The second commit, after success.
unfoldable pub complete_job : ℕ → ℕ → Text → ℕ → ℕ → Database → Database
complete_job job_id server_id version java now db =
    update_server server_id
      (λ s. record s {
        installed_version = some version;
        java_version = some java;
        installation_state = some InstallationState.completed;
      })
      (update_job job_id
        (λ j. record j {
          installed_version = some version;
          java_version = some java;
          state = InstallationState.completed;
          finished_at = some now;
        })
        db)

-- The second commit, after a failure.
unfoldable pub fail_job : ℕ → ℕ → Text → Text → ℕ → Database → Database
fail_job job_id server_id code message now db =
    update_server server_id (λ s. record s { installation_state = some InstallationState.failed })
      (update_job job_id
        (λ j. record j {
          state = InstallationState.failed;
          error_code = some code;
          error_message = some (take 500 message);
          finished_at = some now;
        })
        db)

-- The body of the `try` and its handler.
unfoldable pub prepare_server :
    Unicode → ℕ → MinecraftServer → Option Text → ℕ → Database → Database
prepare_server u job_id server (some message) now db =
    fail_job job_id server.id (codes "configuration_failed") message now db
prepare_server u job_id server none now db = elim (java_version_for u server.game_version) [
  | Result.err e ↦
      fail_job job_id server.id (codes "unsupported_version")
        (codes "Unsupported Minecraft version") now db
  | Result.ok java ↦ complete_job job_id server.id server.game_version java now db
]

unfoldable pub run_job : Unicode → ℕ → Option Text → ℕ → ℕ → Database → Database
run_job u job_id failure now later db = elim (find (has_job_id job_id) db.jobs) [
  | none ↦ db
  | some job ↦
      if is_completed job.state then db else (elim (find (has_server_id job.server_id) db.servers) [
        | none ↦ db
        | some server ↦
            prepare_server u job_id server failure later (begin_job job_id server.id now db)
      ])
]

-- `start`: every unfinished job is queued again.
unfoldable pub start_manager : InstallationManager → InstallationManager
start_manager m = record {
  database = record m.database {
    jobs =
        modify (λ j. is_unfinished j.state)
          (λ j. record j {
            state = InstallationState.queued;
            error_code = none;
            error_message = none;
          })
          m.database.jobs;
  };
  queue = m.queue ++ map (λ j. j.id) (select (λ j. is_unfinished j.state) m.database.jobs);
  working = true;
}

unfoldable pub enqueue : ℕ → InstallationManager → InstallationManager
enqueue job_id m = record m { queue = m.queue ++ job_id ∷ [] }

-- A run that an exception ends which it does not catch, such as a failing commit: whether the first
-- commit was made before.
unfoldable pub broken_run : ℕ → Bool → ℕ → Database → Database
broken_run job_id false now db = db
broken_run job_id true now db = elim (find (has_job_id job_id) db.jobs) [
  | none ↦ db
  | some job ↦
      if is_completed job.state then db else (elim (find (has_server_id job.server_id) db.servers) [
        | none ↦ db
        | some server ↦ begin_job job_id server.id now db
      ])
]

-- What a run meets: the text of an `OSError`, if there is one, and the times of its two commits; or an
-- exception that it does not catch.
pub data Turn : Type 0 where
  caught : Option Text → ℕ → ℕ → Turn
  broken : Bool → ℕ → Turn

-- One turn of `_worker`; it waits while the queue is empty, and an exception that a run does not catch
-- ends it.
unfoldable pub worker_step : Unicode → Turn → InstallationManager → InstallationManager
worker_step u turn m = if not m.working then m else (elim m.queue [
  | [] ↦ m
  | job_id ∷ rest ↦ elim turn [
    | Turn.caught failure now later ↦ record {
      database = run_job u job_id failure now later m.database;
      queue = rest;
      working = true;
    }
    | Turn.broken committed now ↦ record {
      database = broken_run job_id committed now m.database;
      queue = rest;
      working = false;
    }
  ]
])
