-- ===== src/Operations/Backups.antt =====
-- talos_panel/operations_service.py, `_scheduled_backup`: the backup of one server when it is due,
-- with the saves of a running server paused, and the retention of old backups.
pub mod Saves
pub mod Schedule
use talos_panel.Auth.Session.{hours}
use talos_panel.Base.{
  ltb, leb, ◌==◌, if◌then◌else◌, drop, select, ℕ, ◌+◌, String, Bool, true, false, not, ◌||◌, none,
  some, List, [], ◌∷◌, ◌++◌, str_eq,
}
use talos_panel.Base.Text.{Text, codes}
use talos_panel.Handler.{Exec}
use talos_panel.Http.{Failure, Result}
use talos_panel.Models.Accounts.{AuditEvent}
use talos_panel.Models.Servers.{MinecraftServer, Backup}
use talos_panel.Operations.Recovery.{OperationsEnv, server_event}
use talos_panel.Runtime.Interface.{Runtime}

pub record BackupArtifact : Type 0 where
  pub file_name : Text
  pub size_bytes : ℕ
  pub checksum_sha256 : Text

-- What talos_panel/backup_service.py offers to its callers.
pub record BackupStore : Type 1 where
  pub State : Type 0
  pub create_backup : ℕ → Exec State BackupArtifact
  pub delete_backup : ℕ → Text → Exec State (Unit {0})

-- `except (BackupError, RuntimeError)`, `except RuntimeError`, `except BackupError`.
abbrev pub raised : String → Failure → Bool
raised name (Failure.http status detail) = false
raised name (Failure.crash class) = str_eq class name

-- The row of the server, the backups and the audit rows that the call adds or keeps.
pub record BackupRun : Type 0 where
  pub server : MinecraftServer
  pub backups : List Backup
  pub events : List AuditEvent

-- `order_by(Backup.created_at.desc())`.
unfoldable pub insert_newest : Backup → List Backup → List Backup
insert_newest b [] = b ∷ []
insert_newest b (c ∷ cs) =
    let rest = insert_newest b cs in if leb c.created_at b.created_at then b ∷ c ∷ cs else c ∷ rest

unfoldable pub newest_first : List Backup → List Backup
unfolding insert_newest
newest_first [] = []
newest_first (b ∷ bs) = insert_newest b (newest_first bs)

-- The `Backup` row of an artifact; its identifier and creation time come from the database.
abbrev pub backup_row : ℕ → MinecraftServer → BackupArtifact → ℕ → Backup
backup_row id server artifact now = record {
  id = id;
  server_id = server.id;
  file_name = artifact.file_name;
  size_bytes = some artifact.size_bytes;
  checksum_sha256 = some artifact.checksum_sha256;
  installed_version = server.installed_version;
  game_version = some server.game_version;
  java_version = server.java_version;
  created_at = now;
}

module _ (R : Runtime) (B : BackupStore) (env : OperationsEnv) where
  abbrev pub World : Type 0
  World = R.State × B.State

  abbrev pub on_runtime : {A : Type 0} → Exec R.State A → Exec World A
  on_runtime m w = let (r, s) = m w.0 in (r, (s, w.1))

  abbrev on_store : {A : Type 0} → Exec B.State A → Exec World A
  on_store m w = let (r, s) = m w.1 in (r, (w.0, s))

  abbrev send : MinecraftServer → String → Exec World Text
  send server command = on_runtime (R.send_command server (codes command))

  -- The body of the `try`: the artifact or what was raised, and `saves_paused`.
  unfoldable pub take_backup :
      MinecraftServer → String → World → Result BackupArtifact × Bool × World
  take_backup server state w =
      if str_eq state "running"
      then (let (off, w₁) = send server "save-off" w in
          elim off [
            | Result.err e ↦ (Result.err e, false, w₁)
            | Result.ok _ ↦
                let (flush, w₂) = send server "save-all flush" w₁ in
                elim flush [
                  | Result.err e ↦ (Result.err e, true, w₂)
                  | Result.ok _ ↦
                      let (made, w₃) = on_store (B.create_backup server.id) w₂ in (made, true, w₃)
                ]
          ])
      else (let (made, w₁) = on_store (B.create_backup server.id) w in (made, false, w₁))

  -- The `finally`: a `RuntimeError` is logged only, another exception replaces the outcome.
  unfoldable pub resume_saves : MinecraftServer → Bool → Exec World (Unit {0})
  resume_saves server false w = (Result.ok tt, w)
  resume_saves server true w =
      let (on, w') = send server "save-on" w in
      elim on [
        | Result.ok _ ↦ (Result.ok tt, w')
        | Result.err e ↦ (if raised "RuntimeError" e then Result.ok tt else Result.err e, w')
      ]

  -- The loop over the expired backups: a row goes with its file, and stays on a `BackupError`.
  unfoldable pub expire : ℕ → List Backup → List Backup → Exec World (List Backup)
  expire server_id [] rows w = (Result.ok rows, w)
  expire server_id (b ∷ expired) rows w =
      let (r, w') = on_store (B.delete_backup server_id b.file_name) w in
      elim r [
        | Result.ok _ ↦ expire server_id expired (select (λ c. not (c.id == b.id)) rows) w'
        | Result.err e ↦
            if raised "BackupError" e then expire server_id expired rows w' else (Result.err e, w')
      ]

  abbrev own_backups : ℕ → List Backup → List Backup
  own_backups server_id rows = newest_first (select (λ b. b.server_id == server_id) rows)

  -- What follows the `try`: the failure is stored and the next try is in an hour, or the row is
  -- added, the next backup is due after the interval, and the expired backups are deleted.
  unfoldable pub settle :
      MinecraftServer → ℕ → ℕ → List Backup → Result BackupArtifact → Exec World BackupRun
  settle server now id rows (Result.err e) w =
      if raised "BackupError" e || raised "RuntimeError" e
      then (
        Result.ok (record {
          server = record server { next_backup_at = some (now + hours 1) };
          backups = rows;
          events = server_event "backup.scheduled_failed" server.id (env.error_text e) now ∷ [];
        }),
        w,
      )
      else (Result.err e, w)
  settle server now id rows (Result.ok artifact) w =
      let rows' = rows ++ backup_row id server artifact now ∷ [] in
      let expired = drop server.backup_retention (own_backups server.id rows') in
      let (kept, w') = expire server.id expired rows' w in
      elim kept [
        | Result.err e ↦ (Result.err e, w')
        | Result.ok left ↦ (
          Result.ok (record {
            server = record server {
              next_backup_at = some (now + hours server.backup_interval_hours);
            };
            backups = left;
            events = [];
          }),
          w',
        )
      ]

  -- The backup of a server that is due, whose state is known.
  unfoldable pub back_up : MinecraftServer → ℕ → ℕ → List Backup → String → Exec World BackupRun
  back_up server now id rows state w =
      let (made, paused, w₁) = take_backup server state w in
      let (resumed, w₂) = resume_saves server paused w₁ in
      elim resumed [
        | Result.err e ↦ (Result.err e, w₂)
        | Result.ok _ ↦ settle server now id rows made w₂
      ]

  abbrev unchanged : MinecraftServer → List Backup → BackupRun
  unchanged server rows = record { server = server; backups = rows; events = [] }

  unfoldable pub scheduled_backup : MinecraftServer → ℕ → ℕ → List Backup → Exec World BackupRun
  scheduled_backup server now id rows w =
      if not server.backup_enabled
      then (Result.ok (unchanged server rows), w)
      else (elim server.next_backup_at [
        | none ↦ (
          Result.ok (
              unchanged
                (record server { next_backup_at = some (now + hours server.backup_interval_hours) })
                rows),
          w,
        )
        | some due ↦
            if ltb now due
            then (Result.ok (unchanged server rows), w)
            else (let (state, w') = on_runtime (R.status server) w in
                elim state [
                  | Result.err e ↦ (Result.err e, w')
                  | Result.ok (container, current) ↦ back_up server now id rows current w'
                ])
      ])
