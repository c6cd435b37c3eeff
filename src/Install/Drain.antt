-- ===== src/Install/Drain.antt =====
-- talos_panel/install_service.py: what the worker makes of the queue that `start` fills.
use mathlib.Core.Path.{subst}
use talos_panel.Base.{
  sym, ap, ◌==◌, Option-cases, find, modify, find-modify, ℕ, ◌≡◌, refl, inl, inr, true, false,
  Option, none, some, List, arith, Bool-cases, ◌∙◌, length, any, ◌≤◌, [], ◌∷◌, select, ◌+◌, map,
  any-append, Bool, ◌||◌, All,
}
use talos_panel.Base.Text.{Text, Unicode}
use talos_panel.Install.Jobs.{
  Turn, has_job_id, has_server_id, run_job, InstallationManager, worker_step, start_manager,
}
use talos_panel.Install.Waiting.{stored, waiting, waits, run_job-waits, run_job_ends}
use talos_panel.Models.Servers.{MinecraftServer, InstallationJob, is_unfinished, InstallationState}
use talos_panel.Models.Tables.{Database}

-- Every job that waits is in the queue.
abbrev pub AllQueued : InstallationManager → Type 0
AllQueued m = (k : ℕ) → waits k m.database ≡ true → any (λ i. i == k) m.queue ≡ true

-- A manager whose worker runs.
abbrev at_work : Database → List ℕ → InstallationManager
at_work db queue = record { database = db; queue = queue; working = true }

worker_step-AllQueued :
    (u : Unicode) (failure : Option Text) (now later : ℕ) (db : Database) (queue : List ℕ)
    → AllQueued (at_work db queue)
    → AllQueued (worker_step u (Turn.caught failure now later) (at_work db queue))
unfolding worker_step
worker_step-AllQueued u failure now later db [] queued = queued
worker_step-AllQueued u failure now later db (i ∷ rest) queued = λ k w. elim (Bool-cases (i == k)) [
  | inl same ↦
      let is_k : i ≡ k = ground arith in
      absurd (
        cc (
          sym w
          ∙ subst (λ x. waits x (run_job u i failure now later db) ≡ false) is_k
              (run_job_ends u i failure now later db)))
  | inr apart ↦
      let before : waits k db ≡ true = sym (run_job-waits k i apart u failure now later db) ∙ w in
      ground (arith, queued k before)
]

unfoldable pub turns : Unicode → List Turn → InstallationManager → InstallationManager
turns u [] m = m
turns u (turn ∷ rest) m = turns u rest (worker_step u turn m)

-- A turn that is not ended by an exception that the run does not catch.
abbrev pub IsCaught : Turn → Type 0
IsCaught turn =
    (failure : Option Text) × (now : ℕ) × (later : ℕ) × (turn ≡ Turn.caught failure now later)

length-nil : (xs : List ℕ) → length xs ≤ 0 → xs ≡ []
length-nil [] h = refl
length-nil (x ∷ xs) h = absurd (omega arith)

worker_step-short :
    (u : Unicode) (failure : Option Text) (now later : ℕ) (db : Database) (queue : List ℕ) (n : ℕ)
    → length queue ≤ 1 + n
    → let m = worker_step u (Turn.caught failure now later) (at_work db queue) in
      (length m.queue ≤ n) × (m.working ≡ true)
unfolding worker_step
worker_step-short u failure now later db [] n h = (omega arith, refl)
worker_step-short u failure now later db (i ∷ rest) n h = (omega arith, refl)

turns_drain :
    (u : Unicode) (ts : List Turn) (db : Database) (queue : List ℕ)
    → All IsCaught ts
    → AllQueued (at_work db queue)
    → length queue ≤ length ts
    → AllQueued (turns u ts (at_work db queue)) × ((turns u ts (at_work db queue)).queue ≡ [])
unfolding turns
turns_drain u [] db queue fine queued enough = (queued, length-nil queue enough)
turns_drain u (turn ∷ rest) db queue ((failure, now, later, e), fine) queued enough =
    let m = worker_step u (Turn.caught failure now later) (at_work db queue) in
    let all_queued = worker_step-AllQueued u failure now later db queue queued in
    let (short, working) =
      worker_step-short u failure now later db queue (length rest) (omega arith) in
    let still : at_work m.database m.queue ≡ m =
      ap (λ b. record { database = m.database; queue = m.queue; working = b }) (sym working) in
    let ended = turns_drain u rest m.database m.queue fine all_queued short in
    rw e (subst (λ x. AllQueued (turns u rest x) × ((turns u rest x).queue ≡ [])) still ended)

module _ (k : ℕ) where
  abbrev reset : InstallationJob → InstallationJob
  reset j = record j { state = InstallationState.queued; error_code = none; error_message = none }

  selected :
      (jobs : List InstallationJob) (job : InstallationJob)
      → find (has_job_id k) jobs ≡ some job
      → is_unfinished job.state ≡ true
      → any (λ i. i == k) (map (λ j. j.id) (select (λ j. is_unfinished j.state) jobs)) ≡ true
  selected [] job e going = absurd (cc e)
  selected (j ∷ jobs) job e going = elim (Bool-cases (j.id == k)) [
    | inl same ↦
        let this : j ≡ job = ground arith in
        let unfinished : is_unfinished j.state ≡ true =
          subst (λ x. is_unfinished x.state ≡ true) (sym this) going in
        rw (unfinished, same) refl
    | inr apart ↦
        let later = selected jobs job (ground arith) going in
        elim (Bool-cases (is_unfinished j.state)) [
          | inl h ↦ rw (h, apart) later
          | inr h ↦ rw (h) later
        ]
  ]

  -- `start` puts every job that waits into the queue.
  unfinished_queued :
      (jobs : List InstallationJob) (servers : List MinecraftServer)
      → waiting (find (has_job_id k) (modify (λ j. is_unfinished j.state) reset jobs)) servers
        ≡ true
      → any (λ i. i == k) (map (λ j. j.id) (select (λ j. is_unfinished j.state) jobs)) ≡ true
  unfolding waiting
  unfinished_queued jobs servers w =
      let found = find-modify (has_job_id k) (λ j. is_unfinished j.state) reset jobs (λ y. refl) in
      let w' = subst (λ x. waiting x servers ≡ true) found w in
      elim (Option-cases (find (has_job_id k) jobs)) [
        | inl e ↦ absurd (ground arith)
        | inr (job, e) ↦ elim (Bool-cases (is_unfinished job.state)) [
          | inl going ↦ selected jobs job e going
          | inr over ↦ absurd (ground arith)
        ]
      ]

or-true : (b : Bool) → (b || true) ≡ true
or-true b = ground arith

start_manager-AllQueued : (m : InstallationManager) → AllQueued (start_manager m)
unfolding start_manager
start_manager-AllQueued m = λ k w.
    let ids = map (λ j. j.id) (select (λ j. is_unfinished j.state) m.database.jobs) in
    let queued : any (λ i. i == k) ids ≡ true =
      unfinished_queued k m.database.jobs m.database.servers w in
    any-append (λ i. i == k) m.queue ids
    ∙ ap (λ b. any (λ i. i == k) m.queue || b) queued
    ∙ or-true (any (λ i. i == k) m.queue)

-- After `start`, and as many turns of the worker as the queue then holds, none of which is ended by an
-- exception that the run does not catch, every stored job of a stored server has completed or failed.
pub installation_settles :
    (u : Unicode) (ts : List Turn) (m : InstallationManager) (k : ℕ) (job : InstallationJob)
    (server : MinecraftServer)
    → All IsCaught ts
    → length (start_manager m).queue ≤ length ts
    → find (has_job_id k) (turns u ts (start_manager m)).database.jobs ≡ some job
    → find (has_server_id job.server_id) (turns u ts (start_manager m)).database.servers
      ≡ some server
    → is_unfinished job.state ≡ false
unfolding waiting stored start_manager
installation_settles u ts m k job server fine enough there e =
    let final = turns u ts (start_manager m) in
    let (none_left, empty) =
      turns_drain u ts (start_manager m).database (start_manager m).queue fine
        (start_manager-AllQueued m) enough in
    elim (Bool-cases (is_unfinished job.state)) [
      | inr over ↦ over
      | inl going ↦
          let queued : any (λ i. i == k) final.queue ≡ true =
            none_left k (rw (there, waiting, going, stored, e) refl) in
          absurd (cc (sym queued ∙ ap (λ q. any (λ i. i == k) q) empty))
    ]
