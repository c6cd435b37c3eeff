-- ===== src/Operations/Pass.antt =====
-- talos_panel/operations_service.py, `run_once`: one pass over all servers, in one transaction.
use talos_panel.Auth.Session.{hours}
use talos_panel.Base.{
  leb, length, select, ℕ, ◌+◌, ◌-◌, ◌*◌, ◌≡◌, List, [], ◌∷◌, ◌++◌, length-append, refl, ◌⊎◌, inl,
  inr, Bool, arith,
}
use talos_panel.Handler.{Exec}
use talos_panel.Http.{Failure, Result, Result-cases}
use talos_panel.Models.Accounts.{AuditEvent}
use talos_panel.Models.Servers.{MinecraftServer, Backup, MetricSample}
use talos_panel.Models.Tables.{Database}
use talos_panel.Operations.Backups.{BackupRun, BackupStore, World, scheduled_backup, on_runtime}
use talos_panel.Operations.Recovery.{Sampled, OperationsEnv, sample_and_recover}
use talos_panel.Runtime.Interface.{Runtime}

-- The rows of a pass that is not committed yet.
pub record Pending : Type 0 where
  pub servers : List MinecraftServer
  pub samples : List MetricSample
  pub backups : List Backup
  pub events : List AuditEvent

module _ (R : Runtime) (B : BackupStore) (env : OperationsEnv) where
  -- The two steps of one server; `id` is the identifier of its backup row.
  maintain : MinecraftServer → ℕ → ℕ → Pending → Exec (World R B env) Pending
  maintain server now id rows w =
      let (sampled, w₁) = on_runtime R B env (sample_and_recover R env server now) w in
      elim sampled [
        | Result.err e ↦ (Result.err e, w₁)
        | Result.ok one ↦
            let (backed, w₂) = scheduled_backup R B env one.server now id rows.backups w₁ in
            elim backed [
              | Result.err e ↦ (Result.err e, w₂)
              | Result.ok done ↦ (
                Result.ok (record {
                  servers = rows.servers ++ done.server ∷ [];
                  samples = rows.samples ++ one.sample ∷ [];
                  backups = done.backups;
                  events = rows.events ++ one.events ++ done.events;
                }),
                w₂,
              )
            ]
      ]

  maintain_all : List MinecraftServer → ℕ → (ℕ → ℕ) → Pending → Exec (World R B env) Pending
  unfolding maintain
  maintain_all [] now ids rows w = (Result.ok rows, w)
  maintain_all (server ∷ rest) now ids rows w =
      let (r, w') = maintain server now (ids server.id) rows w in
      elim r [
        | Result.err e ↦ (Result.err e, w')
        | Result.ok rows' ↦ maintain_all rest now ids rows' w'
      ]

  -- An exception leaves the transaction without a commit: the database stays as it was, and the
  -- world is what the steps before it have made. `later` is the time of the deletion of samples.
  pub run_once :
      ℕ → ℕ → (ℕ → ℕ) → Database → World R B env → Result (Unit {0}) × Database × World R B env
  unfolding maintain_all
  run_once now later ids db w =
      let (r, w') =
        maintain_all db.servers now ids
          (record { servers = []; samples = db.samples; backups = db.backups; events = [] }) w in
      elim r [
        | Result.err e ↦ (Result.err e, db, w')
        | Result.ok rows ↦ (
          Result.ok tt,
          record db {
            servers = rows.servers;
            samples =
                select (λ m. leb (later - hours (24 * env.metric_retention_days)) m.recorded_at)
                  rows.samples;
            backups = rows.backups;
            audit = db.audit ++ rows.events;
          },
          w',
        )
      ]

  abbrev pub is_kept : ℕ → MetricSample → Bool
  is_kept later m = leb (later - hours (24 * env.metric_retention_days)) m.recorded_at

  maintain-servers :
      (server : MinecraftServer) (now id : ℕ) (rows rows' : Pending) (w w' : World R B env)
      → maintain server now id rows w ≡ (Result.ok rows', w')
      → length rows'.servers ≡ length rows.servers + 1
  unfolding maintain
  maintain-servers server now id rows rows' w w' h =
      elim (Result-cases (sample_and_recover R env server now w.0).0) [
        | inl (e, k) ↦ absurd (ground arith)
        | inr (one, k) ↦
            let w₁ = (on_runtime R B env (sample_and_recover R env server now) w).1 in
            elim (Result-cases (scheduled_backup R B env one.server now id rows.backups w₁).0) [
              | inl (e, l) ↦ absurd (ground arith)
              | inr (done, l) ↦
                  let longer = length-append rows.servers (done.server ∷ []) in ground arith
            ]
      ]

  maintain_all-servers :
      (servers : List MinecraftServer) (now : ℕ) (ids : ℕ → ℕ) (rows rows' : Pending)
      (w w' : World R B env)
      → maintain_all servers now ids rows w ≡ (Result.ok rows', w')
      → length rows'.servers ≡ length rows.servers + length servers
  unfolding maintain_all
  maintain_all-servers [] now ids rows rows' w w' h = ground arith
  maintain_all-servers (server ∷ rest) now ids rows rows' w w' h =
      elim (Result-cases (maintain server now (ids server.id) rows w).0) [
        | inl (e, k) ↦ absurd (ground arith)
        | inr (mid, k) ↦
            let w₁ = (maintain server now (ids server.id) rows w).1 in
            let one = maintain-servers server now (ids server.id) rows mid w w₁ (ground arith) in
            let others = maintain_all-servers rest now ids mid rows' w₁ w' (ground arith) in
            ground arith
      ]

  -- The two steps of each server succeed in turn, on some state of the world, and their rows are put
  -- behind those of the servers before it; the second step starts from what the first has made of the
  -- server, and the backups are those that the last one left.
  pub Passed : ℕ → (ℕ → ℕ) → List MinecraftServer → Pending → Pending → Type 0
  Passed now ids [] rows rows' = rows ≡ rows'
  Passed now ids (server ∷ rest) rows rows' =
      (one : Sampled) × (done : BackupRun) × (w : World R B env) × (w' : World R B env)
      × ((sample_and_recover R env server now w.0).0 ≡ Result.ok one)
      × ((scheduled_backup R B env one.server now (ids server.id) rows.backups w').0
          ≡ Result.ok done)
      × Passed now ids rest
          (record {
            servers = rows.servers ++ done.server ∷ [];
            samples = rows.samples ++ one.sample ∷ [];
            backups = done.backups;
            events = rows.events ++ one.events ++ done.events;
          })
          rows'

  maintain_all-Passed :
      (servers : List MinecraftServer) (now : ℕ) (ids : ℕ → ℕ) (rows rows' : Pending)
      (w w' : World R B env)
      → maintain_all servers now ids rows w ≡ (Result.ok rows', w')
      → Passed now ids servers rows rows'
  unfolding maintain_all maintain Passed
  maintain_all-Passed [] now ids rows rows' w w' h = ground arith
  maintain_all-Passed (server ∷ rest) now ids rows rows' w w' h =
      elim (Result-cases (sample_and_recover R env server now w.0).0) [
        | inl (e, k) ↦ absurd (ground arith)
        | inr (one, k) ↦
            let w₁ = (on_runtime R B env (sample_and_recover R env server now) w).1 in
            let second = scheduled_backup R B env one.server now (ids server.id) rows.backups w₁ in
            elim (Result-cases second.0) [
              | inl (e, l) ↦ absurd (ground arith)
              | inr (done, l) ↦ (
                one,
                done,
                w,
                w₁,
                k,
                l,
                maintain_all-Passed rest now ids _ rows' second.1 w' (ground arith),
              )
            ]
      ]

  -- A pass that raises leaves the database as it was. In one that does not, the two steps of every
  -- server have succeeded, and all of their rows are stored: as many servers as before, the samples
  -- that the retention allows, the backups, and the audit rows behind those of the log.
  pub run_once_atomic :
      (now later : ℕ) (ids : ℕ → ℕ) (db : Database) (w : World R B env)
      → let after = run_once now later ids db w in
        ((e : Failure) × (after.0 ≡ Result.err e) × (after.1 ≡ db))
        ⊎ ((rows : Pending) × (after.0 ≡ Result.ok tt)
            × Passed now ids db.servers
                (record { servers = []; samples = db.samples; backups = db.backups; events = [] })
                rows
            × (length after.1.servers ≡ length db.servers)
            × (after.1 ≡ record db {
              servers = rows.servers;
              samples = select (is_kept later) rows.samples;
              backups = rows.backups;
              audit = db.audit ++ rows.events;
            }))
  unfolding run_once
  run_once_atomic now later ids db w =
      let start' : Pending = record {
        servers = [];
        samples = db.samples;
        backups = db.backups;
        events = [];
      } in
      let result = maintain_all db.servers now ids start' w in
      elim (Result-cases result.0) [
        | inl (e, k) ↦ inl (e, rw (k, run_once) refl, rw (k, run_once) refl)
        | inr (rows, k) ↦
            let same =
              maintain_all-servers db.servers now ids start' rows w result.1 (ground arith) in
            inr (
              rows,
              rw (k, run_once) refl,
              maintain_all-Passed db.servers now ids start' rows w result.1 (ground arith),
              rw (k, run_once) (omega arith),
              rw (k, run_once) refl,
            )
      ]
