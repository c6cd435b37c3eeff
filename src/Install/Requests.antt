-- ===== src/Install/Requests.antt =====
-- talos_panel/api.py, `install_server`: the request of an installation, which queues a job.
use mathlib.Core.Path.{subst}
use talos_panel.Auth.Audit.{on_server, record_audit}
use talos_panel.Auth.Requests.{Request, require_csrf, require_user}
use talos_panel.Base.{
  ◌==◌, Bool-cases, count, count-append, find, modify, ℕ, ◌≤◌, ◌≡◌, refl, inl, inr, Bool, true, not,
  ◌&&◌, Option, none, some, List, [], ◌∷◌, ◌++◌, arith, Option-cases,
}
use talos_panel.Base.Text.{Text}
use talos_panel.Handler.{◌>>=◌, ◌>>◌, Exec, Handler, pure, lift, refuse_if, gets, write}
use talos_panel.Http.{Result-cases}
use talos_panel.Install.Jobs.{InstallationManager, enqueue}
use talos_panel.Models.Servers.{
  InstallationState, MinecraftServer, InstallationJob, is_unfinished, installation_done,
}
use talos_panel.Models.Tables.{Database}
use talos_panel.Permissions.{require_server_access}
use talos_panel.Permissions.Laws.{database-require_server_access}

abbrev pub on_tables : {A : Type 0} → Handler A → Exec InstallationManager A
on_tables m w = let (r, db) = m w.database in (r, record w { database = db })

-- The job of the server that is not over.
abbrev pub is_active_job : ℕ → InstallationJob → Bool
is_active_job server_id job = job.server_id == server_id && is_unfinished job.state

unfoldable pub new_job : ℕ → MinecraftServer → ℕ → InstallationJob
new_job id server now = record {
  id = id;
  server_id = server.id;
  state = InstallationState.queued;
  requested_version = server.game_version;
  installed_version = none;
  java_version = none;
  error_code = none;
  error_message = none;
  eula_accepted_at = now;
  started_at = none;
  finished_at = none;
}

-- The rows of a new job, which is then queued and audited.
unfoldable pub add_job : ℕ → MinecraftServer → ℕ → Database → Database
unfolding new_job
add_job id server now db = record db {
  jobs = db.jobs ++ new_job id server now ∷ [];
  servers =
      modify (λ s. s.id == server.id)
        (λ s. record s { installation_state = some InstallationState.queued }) db.servers;
}

queue_job : Request → ℕ → MinecraftServer → ℕ → Exec InstallationManager InstallationJob
unfolding new_job
queue_job request id server now = do
  refuse_if (installation_done server.installation_state) 409 "Server is already installed"
  on_tables (write (add_job id server now))
  write (enqueue id)
  on_tables (record_audit request "server.install" (on_server server.id) none now)
  pure (new_job id server now)

-- `id` is the identifier of the new job.
unfoldable pub install_server :
    Request → Option Text → ℕ → Bool → ℕ → ℕ → Exec InstallationManager InstallationJob
unfolding queue_job
install_server request csrf_token server_id eula_accepted id now = do
  lift (require_csrf request csrf_token)
  refuse_if (not eula_accepted) 422 "Minecraft EULA acceptance is required"
  user ← lift (require_user request)
  server ← on_tables (require_server_access user server_id true)
  active ← gets (λ w. find (is_active_job server.id) w.database.jobs)
  elim active [ some job ↦ pure job | none ↦ queue_job request id server now ]

find-none-count :
    (p : InstallationJob → Bool) (jobs : List InstallationJob)
    → find p jobs ≡ none
    → count p jobs ≡ 0
find-none-count p [] h = refl
find-none-count p (j ∷ js) h = ground (arith, find-none-count p js)

count-single : (p : InstallationJob → Bool) (job : InstallationJob) → count p (job ∷ []) ≤ 1
count-single p job = ground arith

-- No server has two jobs that are not over.
abbrev pub OneActive : Database → Type 0
OneActive db = (k : ℕ) → count (is_active_job k) db.jobs ≤ 1

add_job-OneActive :
    (id : ℕ) (server : MinecraftServer) (now : ℕ) (db : Database)
    → find (is_active_job server.id) db.jobs ≡ none
    → OneActive db
    → OneActive (add_job id server now db)
unfolding add_job new_job
add_job-OneActive id server now db idle one k =
    let sum = count-append (is_active_job k) db.jobs (new_job id server now ∷ []) in
    let before = one k in
    let none' = find-none-count (is_active_job server.id) db.jobs idle in
    let single = count-single (is_active_job k) (new_job id server now) in
    elim (Bool-cases (server.id == k)) [
      | inl same ↦
          let same' : server.id ≡ k = ground arith in
          let zero' = subst (λ n. count (is_active_job n) db.jobs ≡ 0) same' none' in omega arith
      | inr other ↦
          let zero' : count (is_active_job k) (new_job id server now ∷ []) ≡ 0 =
            rw (other, new_job) refl in
          omega arith
    ]

queue_job-OneActive :
    (request : Request) (id : ℕ) (server : MinecraftServer) (now : ℕ) (w : InstallationManager)
    → find (is_active_job server.id) w.database.jobs ≡ none
    → OneActive w.database
    → OneActive (queue_job request id server now w).1.database
unfolding queue_job enqueue record_audit
queue_job-OneActive request id server now w idle one k =
    let active = add_job-OneActive id server now w.database idle one k in
    elim (Bool-cases (installation_done server.installation_state)) [
      | inl done ↦ rw done (one k)
      | inr fresh ↦ elim (Result-cases (require_user request)) [
        | inl (e, f) ↦ rw (fresh, f) active
        | inr (e, f) ↦ rw (fresh, f) active
      ]
    ]

-- However a request of an installation ends, no server has two jobs that are not over, where that
-- holds before.
pub install_server-OneActive :
    (request : Request) (token : Option Text) (server_id : ℕ) (eula : Bool) (id now : ℕ)
    (w : InstallationManager)
    → OneActive w.database
    → OneActive (install_server request token server_id eula id now w).1.database
unfolding install_server require_server_access
install_server-OneActive request token server_id eula id now w one =
    elim (Result-cases (require_csrf request token)) [
      | inl (e, a) ↦ rw a one
      | inr (u, a) ↦ elim (Bool-cases eula) [
        | inr b ↦ rw (a, b) one
        | inl b ↦ elim (Result-cases (require_user request)) [
          | inl (e, c) ↦ rw (a, b, c) one
          | inr (user, c) ↦
              let same = database-require_server_access user server_id true w.database in
              elim (Result-cases (require_server_access user server_id true w.database).0) [
                | inl (e, d) ↦ rw (a, b, c, d, same) one
                | inr (server, d) ↦
                    elim (Option-cases (find (is_active_job server.id) w.database.jobs)) [
                      | inl idle ↦
                          rw (a, b, c, d, same, idle)
                            (queue_job-OneActive request id server now w idle one)
                      | inr (job, busy) ↦ rw (a, b, c, d, same, busy) one
                    ]
              ]
        ]
      ]
    ]
