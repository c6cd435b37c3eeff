-- ===== src/Operations/Recovery/Laws.antt =====
-- Crash recovery: who is restarted, and how often.
use mathlib.Core.Path.{subst}
use talos_panel.Base.{
  count, ℕ, ◌+◌, ◌≤◌, ◌≡◌, ◌⊎◌, Bool, false, ◌||◌, some, List, [], ◌∷◌, ◌++◌, arith, str_eq,
  Bool-cases, count-append, ◌-◌, String, refl, inl, inr,
}
use talos_panel.Base.Text.{Text}
use talos_panel.Handler.{Exec, bind_inv, ◌>>=◌}
use talos_panel.Http.{Result, Result-cases}
use talos_panel.Models.Accounts.{AuditEvent}
use talos_panel.Models.Servers.{MinecraftServer, wants_running}
use talos_panel.Operations.Recovery.{
  OperationsEnv, Sampled, failures_seen, crash_events, retried, sample_of, recover,
  sample_and_recover, should_retry,
}
use talos_panel.Runtime.Commands.{RuntimeSnapshot}
use talos_panel.Runtime.Interface.{Runtime}

-- The restarts among audit rows, those that failed included.
abbrev pub is_restart : AuditEvent → Bool
is_restart e = str_eq e.action "server.auto_restart" || str_eq e.action "server.auto_restart_failed"

module _ (R : Runtime) (env : OperationsEnv) where
  -- A server that the operator has stopped, that is not to be restarted, or that has used up its
  -- attempts is not started: after the snapshot the runtime's state stays as it is, and no restart
  -- is stored.
  pub recover_leaves_alone :
      (server : MinecraftServer) (snap : RuntimeSnapshot) (now : ℕ) (s : R.State)
      → (wants_running server.desired_state ≡ false)
        ⊎ (server.auto_restart ≡ false)
        ⊎ (env.crash_restart_limit ≤ failures_seen server snap.state)
      → (r : Sampled) × (recover R env server snap now s ≡ (Result.ok r, s))
        × (count is_restart r.events ≡ 0)
  unfolding recover
  recover_leaves_alone server snap now s h = (
    record {
      server = record server {
        restart_failures = failures_seen server snap.state;
        last_runtime_state = some snap.state;
      };
      sample = sample_of env server snap now;
      events = crash_events server snap.state now;
    },
    ground arith,
    ground arith,
  )

  crash_events-count :
      (server : MinecraftServer) (state : String) (now : ℕ)
      → count is_restart (crash_events server state now) ≡ 0
  crash_events-count server state now = ground arith

  retried_counts :
      (server : MinecraftServer) (n : ℕ) (state : String) (now : ℕ) (res : Result (Text × String))
      → ((retried env server n state now res).0.restart_failures ≡ n)
        × (count is_restart (retried env server n state now res).2 ≡ 1)
  unfolding retried
  retried_counts server n state now (Result.ok (id, started)) = (ground arith, ground arith)
  retried_counts server n state now (Result.err e) = (refl, ground arith)

  -- A pass over a server that is not seen running adds its restarts to the failures, and makes none
  -- beyond the limit.
  recover_counts :
      (server : MinecraftServer) (snap : RuntimeSnapshot) (now : ℕ) (s s' : R.State) (r : Sampled)
      → str_eq snap.state "running" ≡ false
      → recover R env server snap now s ≡ (Result.ok r, s')
      → (r.server.restart_failures ≡ server.restart_failures + count is_restart r.events)
        × ((count is_restart r.events ≡ 0) ⊎ (r.server.restart_failures ≤ env.crash_restart_limit))
  unfolding recover
  recover_counts server snap now s s' r d h =
      let n = server.restart_failures + 1 in
      let res = (R.start (record server { restart_failures = n }) s).0 in
      let (same, one) = retried_counts server n snap.state now res in
      let none' = crash_events-count server snap.state now in
      let both =
        count-append is_restart (crash_events server snap.state now)
          (retried env server n snap.state now res).2 in
      elim (Bool-cases (should_retry env server snap.state)) [
        | inl retry ↦ (ground (arith, same, one, none', both), inr (ground (arith, same)))
        | inr leave ↦ (ground (arith, none'), inl (ground (arith, none')))
      ]

  -- The passes of one server, one at each time; an exception ends them.
  unfoldable pub passes : List ℕ → MinecraftServer → Exec R.State (List AuditEvent)
  passes [] server s = (Result.ok [], s)
  passes (now ∷ later) server s =
      let (one, s') = sample_and_recover R env server now s in
      elim one [
        | Result.err e ↦ (Result.err e, s')
        | Result.ok r ↦
            let (rest, t) = passes later r.server s' in
            elim rest [
              | Result.err e ↦ (Result.err e, t)
              | Result.ok events ↦ (Result.ok (r.events ++ events), t)
            ]
      ]

  -- A runtime that never shows the server running: it has always crashed again by the next pass.
  abbrev pub NeverRuns : Type 0
  NeverRuns =
      (server : MinecraftServer) (s s' : R.State) (snap : RuntimeSnapshot)
      → R.snapshot server s ≡ (Result.ok snap, s')
      → str_eq snap.state "running" ≡ false

  sample_counts :
      (server : MinecraftServer) (now : ℕ) (s s' : R.State) (r : Sampled)
      → NeverRuns
      → sample_and_recover R env server now s ≡ (Result.ok r, s')
      → (r.server.restart_failures ≡ server.restart_failures + count is_restart r.events)
        × ((count is_restart r.events ≡ 0) ⊎ (r.server.restart_failures ≤ env.crash_restart_limit))
  unfolding sample_and_recover
  sample_counts server now s s' r never h =
      let step : RuntimeSnapshot → Exec R.State Sampled = λ snap. recover R env server snap now in
      let (u, t, e, h₁) =
        bind_inv (R.use_panel_restart_policy server) (λ _. R.snapshot server >>= step) s s' r h in
      let (snap, t', e', h₂) = bind_inv (R.snapshot server) step t s' r h₁ in
      recover_counts server snap now t' s' r (never server t t' snap e') h₂

  -- Under a runtime that never shows the server running, any number of passes over it that raise
  -- nothing restart it at most as often as the limit allows beyond the failures that are stored
  -- already.
  pub restarts_bounded :
      (times : List ℕ) (server : MinecraftServer) (s s' : R.State) (events : List AuditEvent)
      → NeverRuns
      → passes times server s ≡ (Result.ok events, s')
      → count is_restart events ≤ env.crash_restart_limit - server.restart_failures
  unfolding passes
  restarts_bounded [] server s s' events never h = ground arith
  restarts_bounded (now ∷ later) server s s' events never h =
      elim (Result-cases (sample_and_recover R env server now s).0) [
        | inl (e, q) ↦ absurd (ground arith)
        | inr (r, q) ↦
            elim (Result-cases
              (passes later r.server (sample_and_recover R env server now s).1).0) [
                | inl (e, q') ↦ absurd (ground arith)
                | inr (rest, q') ↦
                    let counts =
                      sample_counts server now s (sample_and_recover R env server now s).1 r never
                        (ground arith) in
                    let ih =
                      restarts_bounded later r.server (sample_and_recover R env server now s).1
                        (passes later r.server (sample_and_recover R env server now s).1).1 rest
                        never (ground arith) in
                    let all' = count-append is_restart r.events rest in
                    let same : r.events ++ rest ≡ events = ground arith in
                    subst
                      (λ l. count is_restart l ≤ env.crash_restart_limit - server.restart_failures)
                      same (ground (arith, counts, ih, all'))
              ]
      ]
