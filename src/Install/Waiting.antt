-- ===== src/Install/Waiting.antt =====
-- talos_panel/install_service.py: which jobs wait, and what a run of one job changes of that.
use talos_panel.Base.{
  ap, ◌==◌, if◌then◌else◌, Option-cases, is_some, map_option, find, modify, find-holds, find-modify,
  ℕ, ◌≡◌, refl, inl, inr, Bool, true, false, ◌&&◌, Option, none, some, List, arith, Bool-cases, ◌∙◌,
}
use talos_panel.Base.Text.{Text, Unicode}
use talos_panel.Http.{Result-cases}
use talos_panel.Install.Jobs.{
  has_job_id, has_server_id, update_job, update_server, begin_job, complete_job, fail_job,
  prepare_server, run_job,
}
use talos_panel.Install.Versions.{java_version_for}
use talos_panel.Models.Servers.{
  MinecraftServer, InstallationJob, is_unfinished, is_completed, InstallationState,
}
use talos_panel.Models.Tables.{Database}

unfoldable pub stored : ℕ → List MinecraftServer → Bool
stored k servers = is_some (find (has_server_id k) servers)

-- A job that is stored and not over, and whose server is stored.
unfoldable pub waiting : Option InstallationJob → List MinecraftServer → Bool
waiting none servers = false
waiting (some j) servers = is_unfinished j.state && stored j.server_id servers

abbrev pub waits : ℕ → Database → Bool
waits k db = waiting (find (has_job_id k) db.jobs) db.servers

is_some-map_option : {A : Type 0} (f : A → A) (x : Option A) → is_some (map_option f x) ≡ is_some x
is_some-map_option f none = refl
is_some-map_option f (some a) = refl

module _ (i sid : ℕ) (f : InstallationJob → InstallationJob) (h : MinecraftServer → MinecraftServer)
    (same_id : (j : InstallationJob) → (f j).id ≡ j.id)
    (same_server : (j : InstallationJob) → (f j).server_id ≡ j.server_id)
    (same_key : (s : MinecraftServer) → (h s).id ≡ s.id) (db : Database) where
  stored-modify : (k : ℕ) → stored k (modify (has_server_id sid) h db.servers) ≡ stored k db.servers
  unfolding stored
  stored-modify k =
      rw
        (find-modify (has_server_id k) (has_server_id sid) h db.servers
          (λ y. ap (λ n. n == k) (same_key y)))
        (is_some-map_option (λ x. if has_server_id sid x then h x else x)
          (find (has_server_id k) db.servers))

  -- A change of one job leaves the others waiting as they were.
  waits-update_other :
      (k : ℕ) → (i == k) ≡ false → waits k (update_server sid h (update_job i f db)) ≡ waits k db
  unfolding waiting
  waits-update_other k apart =
      rw (find-modify (has_job_id k) (has_job_id i) f db.jobs (λ y. ap (λ n. n == k) (same_id y)))
        (elim (Option-cases (find (has_job_id k) db.jobs)) [
          | inl e ↦ rw (e, waiting) refl
          | inr (j, e) ↦
              let at : (j.id == k) ≡ true = find-holds (has_job_id k) db.jobs j e in
              let not_this : (j.id == i) ≡ false = ground arith in
              rw (e, not_this, waiting, stored-modify j.server_id) refl
        ])

  -- A job that the change ends waits no more.
  waits-update_self :
      ((j : InstallationJob) → is_unfinished (f j).state ≡ false)
      → waits i (update_server sid h (update_job i f db)) ≡ false
  unfolding waiting
  waits-update_self over =
      rw (find-modify (has_job_id i) (has_job_id i) f db.jobs (λ y. ap (λ n. n == i) (same_id y)))
        (elim (Option-cases (find (has_job_id i) db.jobs)) [
          | inl e ↦ rw (e, waiting) refl
          | inr (j, e) ↦
              let at : (j.id == i) ≡ true = find-holds (has_job_id i) db.jobs j e in
              rw (e, at, waiting, over j) refl
        ])

module _ (k i sid : ℕ) (db : Database) (apart : (i == k) ≡ false) where
  begin_job-waits : (now : ℕ) → waits k (begin_job i sid now db) ≡ waits k db
  unfolding begin_job
  begin_job-waits now = waits-update_other i sid _ _ (λ j. refl) (λ j. refl) (λ s. refl) db k apart

  complete_job-waits :
      (version : Text) (java now : ℕ)
      → waits k (complete_job i sid version java now db) ≡ waits k db
  unfolding complete_job
  complete_job-waits version java now =
      waits-update_other i sid _ _ (λ j. refl) (λ j. refl) (λ s. refl) db k apart

  fail_job-waits :
      (code message : Text) (now : ℕ) → waits k (fail_job i sid code message now db) ≡ waits k db
  unfolding fail_job
  fail_job-waits code message now =
      waits-update_other i sid _ _ (λ j. refl) (λ j. refl) (λ s. refl) db k apart

module _ (k i : ℕ) (apart : (i == k) ≡ false) (u : Unicode) (failure : Option Text) where
  prepare_server-waits :
      (server : MinecraftServer) (failure : Option Text) (now : ℕ) (db : Database)
      → waits k (prepare_server u i server failure now db) ≡ waits k db
  unfolding prepare_server
  prepare_server-waits server (some message) now db =
      fail_job-waits k i server.id db apart _ message now
  prepare_server-waits server none now db =
      elim (Result-cases (java_version_for u server.game_version)) [
        | inl (e, h) ↦ rw (h, prepare_server) (fail_job-waits k i server.id db apart _ _ now)
        | inr (java, h) ↦
            rw (h, prepare_server) (complete_job-waits k i server.id db apart _ java now)
      ]

  -- A run of one job leaves the others waiting as they were.
  pub run_job-waits :
      (now later : ℕ) (db : Database) → waits k (run_job u i failure now later db) ≡ waits k db
  unfolding run_job
  run_job-waits now later db = elim (Option-cases (find (has_job_id i) db.jobs)) [
    | inl e ↦ rw (e, run_job) refl
    | inr (j, e) ↦ elim (Bool-cases (is_completed j.state)) [
      | inl done ↦ rw (e, done, run_job) refl
      | inr going ↦ elim (Option-cases (find (has_server_id j.server_id) db.servers)) [
        | inl gone ↦ rw (e, going, gone, run_job) refl
        | inr (server, there) ↦
            rw (e, going, there, run_job)
              (prepare_server-waits server failure later (begin_job i server.id now db)
                ∙ begin_job-waits k i server.id db apart now)
      ]
    ]
  ]

-- The job that is run ends.
pub prepare_server_ends :
    (u : Unicode) (i : ℕ) (server : MinecraftServer) (failure : Option Text) (now : ℕ)
    (db : Database)
    → waits i (prepare_server u i server failure now db) ≡ false
unfolding prepare_server fail_job complete_job
prepare_server_ends u i server (some message) now db =
    waits-update_self i server.id _ _ (λ j. refl) (λ j. refl) (λ s. refl) db (λ j. refl)
prepare_server_ends u i server none now db =
    elim (Result-cases (java_version_for u server.game_version)) [
      | inl (e, h) ↦
          rw (h, prepare_server)
            (waits-update_self i server.id _ _ (λ j. refl) (λ j. refl) (λ s. refl) db (λ j. refl))
      | inr (java, h) ↦
          rw (h, prepare_server)
            (waits-update_self i server.id _ _ (λ j. refl) (λ j. refl) (λ s. refl) db (λ j. refl))
    ]

completed_is_over : (s : InstallationState) → is_completed s ≡ true → is_unfinished s ≡ false
completed_is_over InstallationState.completed h = refl
completed_is_over s h = ground arith

-- After a run of a job, that job does not wait.
pub run_job_ends :
    (u : Unicode) (i : ℕ) (failure : Option Text) (now later : ℕ) (db : Database)
    → waits i (run_job u i failure now later db) ≡ false
unfolding run_job waiting stored
run_job_ends u i failure now later db = elim (Option-cases (find (has_job_id i) db.jobs)) [
  | inl e ↦ rw (e, run_job, e, waiting) refl
  | inr (j, e) ↦ elim (Bool-cases (is_completed j.state)) [
    | inl done ↦ rw (e, done, run_job, e, waiting, completed_is_over j.state done) refl
    | inr going ↦ elim (Option-cases (find (has_server_id j.server_id) db.servers)) [
      | inl gone ↦ rw (e, going, gone, run_job, e, waiting, stored, gone) (ground arith)
      | inr (server, there) ↦
          rw (e, going, there, run_job)
            (prepare_server_ends u i server failure later (begin_job i server.id now db))
    ]
  ]
]
