-- ===== src/Install/Laws.antt =====
-- What an installation leaves.
use mathlib.Core.Path.{subst}
use talos_panel.Base.{
  Option-cases, ℕ, ◌≡◌, inl, inr, true, arith, take, find, find-holds, refl, ◌⊎◌, false, Option,
  none, some, ◌++◌, find-modify_self,
}
use talos_panel.Base.Decimal.{number_text}
use talos_panel.Base.Text.{Text, Unicode, codes}
use talos_panel.Http.{Result, Result-cases}
use talos_panel.Install.Jobs.{
  has_job_id, has_server_id, begin_job, complete_job, fail_job, prepare_server, run_job,
}
use talos_panel.Install.Versions.{release_version, java_of, java_version_for}
use talos_panel.Models.Servers.{InstallationState, MinecraftServer, InstallationJob, is_completed}
use talos_panel.Models.Tables.{Database}
use talos_panel.Runtime.Containers.{supported_java, profile_for, type_value, ascii_upper}

java_of-supported : (major minor : ℕ) → supported_java (java_of major minor) ≡ true
java_of-supported major minor = ground arith

java_version_for-supported :
    (u : Unicode) (version : Text) (java : ℕ)
    → java_version_for u version ≡ Result.ok java
    → supported_java java ≡ true
unfolding java_version_for
java_version_for-supported u version java h = elim (Option-cases (release_version u version)) [
  | inl none' ↦ ground arith
  | inr ((major, minor, patch), e) ↦
      subst (λ j. supported_java j ≡ true) {x = java_of major minor} {y = java} (ground arith)
        (java_of-supported major minor)
]

abbrev job_after : ℕ → Database → Option InstallationJob
job_after k db = find (has_job_id k) db.jobs

abbrev server_after : ℕ → Database → Option MinecraftServer
server_after k db = find (has_server_id k) db.servers

-- The job is completed and the server has an image to run in, or the job has failed with a code;
-- the server shows the state of the job.
abbrev pub Settled : InstallationJob → MinecraftServer → Type 0
Settled job server =
    (server.installation_state ≡ some job.state)
    × (((job.state ≡ InstallationState.completed)
          × ((profile : Text × Text) × (profile_for server ≡ Result.ok profile)))
        ⊎ ((job.state ≡ InstallationState.failed) × ((code : Text) × (job.error_code ≡ some code))))

abbrev SettledIn : ℕ → ℕ → Database → Type 0
SettledIn job_id server_id db =
    (job : InstallationJob) × (server : MinecraftServer) × (job_after job_id db ≡ some job)
    × (server_after server_id db ≡ some server)
    × Settled job server

module _ (db : Database) (job : InstallationJob) (server : MinecraftServer) (job_id server_id : ℕ)
    (has_job : job_after job_id db ≡ some job)
    (has_server : server_after server_id db ≡ some server) where
  profile_for-supported :
      (s : MinecraftServer) (java : ℕ)
      → s.java_version ≡ some java
      → supported_java java ≡ true
      → (profile : Text × Text) × (profile_for s ≡ Result.ok profile)
  unfolding profile_for
  profile_for-supported s java e h = (
    (
      codes "itzg/minecraft-server:java" ++ number_text java,
      ascii_upper (type_value s.server_type),
    ),
    rw (e, h) refl,
  )

  fail_job-Settled :
      (code message : Text) (now : ℕ)
      → SettledIn job_id server_id (fail_job job_id server_id code message now db)
  unfolding fail_job
  fail_job-Settled code message now = (
    record job {
      state = InstallationState.failed;
      error_code = some code;
      error_message = some (take 500 message);
      finished_at = some now;
    },
    record server { installation_state = some InstallationState.failed },
    find-modify_self (has_job_id job_id) _ db.jobs job has_job (λ y. refl),
    find-modify_self (has_server_id server_id) _ db.servers server has_server (λ y. refl),
    (refl, inr (refl, (code, refl))),
  )

  complete_job-Settled :
      (version : Text) (java now : ℕ)
      → supported_java java ≡ true
      → SettledIn job_id server_id (complete_job job_id server_id version java now db)
  unfolding complete_job
  complete_job-Settled version java now h = (
    record job {
      installed_version = some version;
      java_version = some java;
      state = InstallationState.completed;
      finished_at = some now;
    },
    record server {
      installed_version = some version;
      java_version = some java;
      installation_state = some InstallationState.completed;
    },
    find-modify_self (has_job_id job_id) _ db.jobs job has_job (λ y. refl),
    find-modify_self (has_server_id server_id) _ db.servers server has_server (λ y. refl),
    (refl, inl (refl, profile_for-supported _ java refl h)),
  )

  begin_job-kept :
      (now : ℕ)
      → ((j : InstallationJob) × (job_after job_id (begin_job job_id server_id now db) ≡ some j))
        × ((s : MinecraftServer) × (server_after server_id (begin_job job_id server_id now db)
              ≡ some s))
  unfolding begin_job
  begin_job-kept now = (
    (
      record job { started_at = some now; state = InstallationState.installing },
      find-modify_self (has_job_id job_id) _ db.jobs job has_job (λ y. refl),
    ),
    (
      record server { installation_state = some InstallationState.installing },
      find-modify_self (has_server_id server_id) _ db.servers server has_server (λ y. refl),
    ),
  )

prepare_server-Settled :
    (u : Unicode) (job_id : ℕ) (server : MinecraftServer) (failure : Option Text) (now : ℕ)
    (db : Database) (j : InstallationJob) (s : MinecraftServer)
    → job_after job_id db ≡ some j
    → server_after server.id db ≡ some s
    → SettledIn job_id server.id (prepare_server u job_id server failure now db)
unfolding prepare_server
prepare_server-Settled u job_id server (some message) now db j s has_job has_server =
    fail_job-Settled db j s job_id server.id has_job has_server _ message now
prepare_server-Settled u job_id server none now db j s has_job has_server =
    elim (Result-cases (java_version_for u server.game_version)) [
      | inl (e, k) ↦
          rw (k, prepare_server)
            (fail_job-Settled db j s job_id server.id has_job has_server _ _ now)
      | inr (java, k) ↦
          rw (k, prepare_server)
            (complete_job-Settled db j s job_id server.id has_job has_server _ java now
              (java_version_for-supported u server.game_version java k))
    ]

-- A run of a job that is not completed, of a stored server, ends it: the job is completed and its
-- server has a supported image, or it has failed with a code; and the server shows that state.
pub run_job_settles :
    (u : Unicode) (job_id : ℕ) (failure : Option Text) (now later : ℕ) (db : Database)
    (job : InstallationJob) (server : MinecraftServer)
    → find (has_job_id job_id) db.jobs ≡ some job
    → is_completed job.state ≡ false
    → find (has_server_id job.server_id) db.servers ≡ some server
    → (j : InstallationJob) × (s : MinecraftServer) × (find
          (has_job_id job_id)
          (run_job u job_id failure now later db).jobs
        ≡ some j)
      × (find (has_server_id server.id) (run_job u job_id failure now later db).servers ≡ some s)
      × Settled j s
unfolding run_job
run_job_settles u job_id failure now later db job server has_job unfinished has_server =
    let same : job.server_id ≡ server.id =
      ground (arith, find-holds (has_server_id job.server_id) db.servers server has_server) in
    let own : find (has_server_id server.id) db.servers ≡ some server =
      subst (λ k. find (has_server_id k) db.servers ≡ some server) same has_server in
    let ((j, e), (s, f)) = begin_job-kept db job server job_id server.id has_job own now in
    rw (has_job, unfinished, has_server, run_job)
      (prepare_server-Settled u job_id server failure later (begin_job job_id server.id now db) j s
        e f)
