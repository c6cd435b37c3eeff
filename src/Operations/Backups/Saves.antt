-- ===== src/Operations/Backups/Saves.antt =====
-- The console commands of a backup, which pause and resume the saves of a running server.
use mathlib.Core.Path.{subst}
use talos_panel.Base.{
  ℕ, ◌≡◌, refl, ◌⊎◌, List, [], ◌∷◌, ◌++◌, inl, inr, ltb, Bool-cases, Option-cases, drop, String,
  Bool, true, false, ◌||◌, str_eq, ◌==◌, select, not,
}
use talos_panel.Base.Text.{Text, codes}
use talos_panel.Http.{Result, Result-cases}
use talos_panel.Models.Servers.{MinecraftServer, Backup}
use talos_panel.Operations.Backups.{
  BackupStore, World, expire, settle, scheduled_backup, BackupArtifact, raised, backup_row,
  on_runtime, take_backup, resume_saves, own_backups, back_up, on_store,
}
use talos_panel.Operations.Recovery.{OperationsEnv}
use talos_panel.Runtime.Interface.{Runtime}

abbrev accepted : {A : Type 0} → Result A → Bool
accepted (Result.ok a) = true
accepted (Result.err e) = false

-- A runtime that also notes the console commands that are sent, in order, and which were accepted.
abbrev pub traced : Runtime → Runtime
traced R = record {
  State = R.State × List (Text × Bool);
  start = λ server (s, log). (let (r, s') = R.start server s in (r, (s', log)));
  stop = λ server (s, log). (let (r, s') = R.stop server s in (r, (s', log)));
  restart = λ server (s, log). (let (r, s') = R.restart server s in (r, (s', log)));
  remove = λ server (s, log). (let (r, s') = R.remove server s in (r, (s', log)));
  status = λ server (s, log). (let (r, s') = R.status server s in (r, (s', log)));
  snapshot = λ server (s, log). (let (r, s') = R.snapshot server s in (r, (s', log)));
  send_command = λ server command (s, log).
      (let (r, s') = R.send_command server command s in
        (r, (s', log ++ (command, accepted r) ∷ [])));
  use_panel_restart_policy =
      λ server (s, log). (let (r, s') = R.use_panel_restart_policy server s in (r, (s', log)));
}

-- No command was sent; or `save-off` was sent and refused; or it was accepted, and the flush and
-- `save-on` were sent after it, whether these were accepted or not.
abbrev pub Balanced : List (Text × Bool) → List (Text × Bool) → Type 0
Balanced log log' =
    (log' ≡ log)
    ⊎ (log' ≡ log ++ (codes "save-off", false) ∷ [])
    ⊎ ((flushed : Bool) × (resumed : Bool) × (log'
          ≡ ((log ++ (codes "save-off", true) ∷ []) ++ (codes "save-all flush", flushed) ∷ [])
            ++ (codes "save-on", resumed) ∷ []))

module _ (R : Runtime) (B : BackupStore) (env : OperationsEnv) where
  expire-log :
      (id : ℕ) (expired rows : List Backup) (w : World (traced R) B env)
      → (expire (traced R) B env id expired rows w).1.0.1 ≡ w.0.1
  unfolding expire
  expire-log id [] rows w = refl
  expire-log id (b ∷ expired) rows w = elim (Result-cases (B.delete_backup id b.file_name w.1).0) [
    | inl (x, e) ↦ elim (Bool-cases (raised "BackupError" x)) [
      | inl k ↦
          rw (e, k, expire)
            (expire-log id expired rows
              (on_store (traced R) B env (B.delete_backup id b.file_name) w).1)
      | inr k ↦ rw (e, k, expire) refl
    ]
    | inr (f, e) ↦
        rw (e, expire)
          (expire-log id expired (select (λ c. not (c.id == b.id)) rows)
            (on_store (traced R) B env (B.delete_backup id b.file_name) w).1)
  ]

  settle-log :
      (server : MinecraftServer) (now id : ℕ) (rows : List Backup) (r : Result BackupArtifact)
      (w : World (traced R) B env)
      → (settle (traced R) B env server now id rows r w).1.0.1 ≡ w.0.1
  unfolding settle
  settle-log server now id rows (Result.err f) w =
      elim (Bool-cases (raised "BackupError" f || raised "RuntimeError" f)) [
        | inl k ↦ rw k refl
        | inr k ↦ rw k refl
      ]
  settle-log server now id rows (Result.ok artifact) w =
      let rows' = rows ++ backup_row id server artifact now ∷ [] in
      let expired = drop server.backup_retention (own_backups R B env server.id rows') in
      elim (Result-cases (expire (traced R) B env server.id expired rows' w).0) [
        | inl (x, e) ↦ rw (e, settle) (expire-log server.id expired rows' w)
        | inr (x, e) ↦ rw (e, settle) (expire-log server.id expired rows' w)
      ]

  resume-log :
      (server : MinecraftServer) (w : World (traced R) B env)
      → (resumed : Bool) × ((resume_saves (traced R) B env server true w).1.0.1
          ≡ w.0.1 ++ (codes "save-on", resumed) ∷ [])
  unfolding resume_saves
  resume-log server w =
      let sent = (R.send_command server (codes "save-on") w.0.0).0 in
      (
        accepted sent,
        elim (Result-cases sent) [
          | inl (x, e) ↦ rw (e, resume_saves) (rw e refl)
          | inr (x, e) ↦ rw (e, resume_saves) (rw e refl)
        ],
      )

  -- What `take_backup` sent, by its second result.
  Taken : List (Text × Bool) → Bool → List (Text × Bool) → Type 0
  Taken log false log' = (log' ≡ log) ⊎ (log' ≡ log ++ (codes "save-off", false) ∷ [])
  Taken log true log' =
      (flushed : Bool) × (log'
        ≡ (log ++ (codes "save-off", true) ∷ []) ++ (codes "save-all flush", flushed) ∷ [])

  take_backup-log :
      (server : MinecraftServer) (state : String) (w : World (traced R) B env)
      → (let (made, paused, w') = take_backup (traced R) B env server state w in
          Taken w.0.1 paused w'.0.1)
  unfolding take_backup Taken
  take_backup-log server state w = elim (Bool-cases (str_eq state "running")) [
    | inl running ↦ elim (Result-cases (R.send_command server (codes "save-off") w.0.0).0) [
      | inl (x, e) ↦ rw (running, e, take_backup) (inr (rw e refl))
      | inr (x, e) ↦
          elim (Result-cases
            (R.send_command server (codes "save-all flush")
              (R.send_command server (codes "save-off") w.0.0).1).0) [
                | inl (y, f) ↦ rw (running, e, f, take_backup) (false, rw (e, f) refl)
                | inr (y, f) ↦ rw (running, e, f, take_backup) (true, rw (e, f) refl)
              ]
    ]
    | inr down ↦ rw down (inl refl)
  ]

  resumed-Balanced :
      (log : List (Text × Bool)) (server : MinecraftServer) (paused : Bool)
      (w : World (traced R) B env)
      → Taken log paused w.0.1
      → Balanced log (resume_saves (traced R) B env server paused w).1.0.1
  unfolding Taken resume_saves
  resumed-Balanced log server true w (flushed, taken) =
      let (resumed, sent) = resume-log server w in
      inr (
        inr (
          flushed,
          resumed,
          subst
              (λ l.
                (resume_saves (traced R) B env server true w).1.0.1
                ≡ l ++ (codes "save-on", resumed) ∷ [])
              taken sent,
        ))
  resumed-Balanced log server false w (inl same) = inl same
  resumed-Balanced log server false w (inr off) = inr (inl off)

  back_up-resumed :
      (server : MinecraftServer) (now id : ℕ) (rows : List Backup) (state : String)
      (w : World (traced R) B env)
      → (let (made, paused, w') = take_backup (traced R) B env server state w in
          (back_up (traced R) B env server now id rows state w).1.0.1
          ≡ (resume_saves (traced R) B env server paused w').1.0.1)
  unfolding back_up
  back_up-resumed server now id rows state w =
      let (made, paused, w') = take_backup (traced R) B env server state w in
      elim (Result-cases (resume_saves (traced R) B env server paused w').0) [
        | inl (x, e) ↦ rw (e, back_up) refl
        | inr (x, e) ↦
            rw (e, back_up)
              (settle-log server now id rows made
                (resume_saves (traced R) B env server paused w').1)
      ]

  back_up-log :
      (server : MinecraftServer) (now id : ℕ) (rows : List Backup) (state : String)
      (w : World (traced R) B env)
      → Balanced w.0.1 (back_up (traced R) B env server now id rows state w).1.0.1
  back_up-log server now id rows state w =
      let (made, paused, w') = take_backup (traced R) B env server state w in
      rw (back_up-resumed server now id rows state w)
        (resumed-Balanced w.0.1 server paused w' (take_backup-log server state w))

  -- Whatever the store and the runtime answer, and whether the backup succeeds, fails or raises: if
  -- the server accepts `save-off`, it is sent `save-on` as the last command of the backup, whether the
  -- flush between them was accepted or not; if it refuses, or none is sent, no other command is sent.
  pub saves_resumed :
      (server : MinecraftServer) (now id : ℕ) (rows : List Backup) (w : World (traced R) B env)
      → Balanced w.0.1 (scheduled_backup (traced R) B env server now id rows w).1.0.1
  unfolding scheduled_backup
  saves_resumed server now id rows w = elim (Bool-cases server.backup_enabled) [
    | inr off ↦ rw off (inl refl)
    | inl on ↦ elim (Option-cases server.next_backup_at) [
      | inl unset ↦ rw (on, unset) (inl refl)
      | inr (due, at) ↦ elim (Bool-cases (ltb now due)) [
        | inl early ↦ rw (on, at, early) (inl refl)
        | inr late ↦ elim (Result-cases (R.status server w.0.0).0) [
          | inl (x, e) ↦ rw (on, at, late, e) (inl refl)
          | inr ((container, state), e) ↦
              rw (on, at, late, e)
                (back_up-log server now id rows state
                  (on_runtime (traced R) B env ((traced R).status server) w).1)
        ]
      ]
    ]
  ]
