-- ===== src/Operations/Backups/Schedule.antt =====
-- When the next scheduled backup of a server is due.
use talos_panel.Base.{
  ltb, drop, ℕ, ◌≤◌, String, ◌≡◌, inl, inr, Bool, true, false, Option, none, some, List, [], ◌∷◌,
  ◌++◌, arith, Bool-cases, Option-cases,
}
use talos_panel.Http.{Result, Result-cases}
use talos_panel.Models.Servers.{MinecraftServer, Backup}
use talos_panel.Operations.Backups.{
  BackupArtifact, BackupStore, BackupRun, backup_row, World, take_backup, resume_saves, expire,
  own_backups, settle, back_up, scheduled_backup, on_runtime,
}
use talos_panel.Operations.Recovery.{OperationsEnv}
use talos_panel.Runtime.Interface.{Runtime}

-- A time is set, and it is after `now`.
abbrev pub due_after : ℕ → Option ℕ → Bool
due_after now none = false
due_after now (some t) = ltb now t

module _ (R : Runtime) (B : BackupStore) (env : OperationsEnv) where
  settle-later :
      (server : MinecraftServer) (now id : ℕ) (rows : List Backup) (r : Result BackupArtifact)
      (w : World R B env) (run : BackupRun)
      → 1 ≤ server.backup_interval_hours
      → (settle R B env server now id rows r w).0 ≡ Result.ok run
      → due_after now run.server.next_backup_at ≡ true
  unfolding settle
  settle-later server now id rows (Result.err f) w run h e = ground arith
  settle-later server now id rows (Result.ok artifact) w run h e =
      let rows' = rows ++ backup_row id server artifact now ∷ [] in
      let expired = drop server.backup_retention (own_backups R B env server.id rows') in
      elim (Result-cases (expire R B env server.id expired rows' w).0) [
        | inl (x, k) ↦ ground arith
        | inr (x, k) ↦ ground arith
      ]

  back_up-later :
      (server : MinecraftServer) (now id : ℕ) (rows : List Backup) (state : String)
      (w : World R B env) (run : BackupRun)
      → 1 ≤ server.backup_interval_hours
      → (back_up R B env server now id rows state w).0 ≡ Result.ok run
      → due_after now run.server.next_backup_at ≡ true
  unfolding back_up
  back_up-later server now id rows state w run h e =
      let (made, paused, w') = take_backup R B env server state w in
      let resumed = resume_saves R B env server paused w' in
      elim (Result-cases resumed.0) [
        | inl (x, k) ↦ ground arith
        | inr (x, k) ↦ settle-later server now id rows made resumed.1 run h (rw (k, back_up) at e)
      ]

  -- A pass over a server whose backups are on and whose interval is at least an hour that does not
  -- raise leaves the next backup at a time after the pass, whether the backup succeeded, failed or
  -- was not due.
  pub next_backup_is_later :
      (server : MinecraftServer) (now id : ℕ) (rows : List Backup) (w : World R B env)
      (run : BackupRun)
      → server.backup_enabled ≡ true
      → 1 ≤ server.backup_interval_hours
      → (scheduled_backup R B env server now id rows w).0 ≡ Result.ok run
      → due_after now run.server.next_backup_at ≡ true
  unfolding scheduled_backup
  next_backup_is_later server now id rows w run on h e = elim (Option-cases server.next_backup_at) [
    | inl unset ↦ ground arith
    | inr (due, at) ↦ elim (Bool-cases (ltb now due)) [
      | inl early ↦ ground arith
      | inr late ↦ elim (Result-cases (R.status server w.0).0) [
        | inl (x, k) ↦ ground arith
        | inr ((container, state), k) ↦
            back_up-later server now id rows state (on_runtime R B env (R.status server) w).1 run h
              (rw (on, at, late, k, scheduled_backup) at e)
      ]
    ]
  ]
