-- ===== src/Operations/Recovery.antt =====
-- talos_panel/operations_service.py, `_sample_and_recover`: one server in one maintenance pass.
pub mod Laws
use talos_panel.Auth.Login.Laws.{failures}
use talos_panel.Base.{
  ltb, if◌then◌else◌, take, ℕ, ◌+◌, String, Bool, false, not, ◌&&◌, ◌||◌, Option, none, some, List,
  [], ◌∷◌, ◌++◌, str_eq,
}
use talos_panel.Base.Decimal.{number_text}
use talos_panel.Base.Text.{Text, codes}
use talos_panel.Handler.{◌>>=◌, ◌>>◌, Exec}
use talos_panel.Http.{Failure, Result}
use talos_panel.Models.Accounts.{AuditEvent}
use talos_panel.Models.Servers.{MinecraftServer, MetricSample, wants_running}
use talos_panel.Models.Tables.{event}
use talos_panel.Runtime.Commands.{RuntimeSnapshot}
use talos_panel.Runtime.Interface.{Runtime}

-- The settings that are read, what the status query of the network gives for a server, and the
-- text of an exception.
pub record OperationsEnv : Type 0 where
  pub crash_restart_limit : ℕ
  pub metric_retention_days : ℕ
  pub query_players : MinecraftServer → Option ℕ
  pub error_text : Failure → Text

-- The row after the pass, its sample, and the audit rows that it added.
pub record Sampled : Type 0 where
  pub server : MinecraftServer
  pub sample : MetricSample
  pub events : List AuditEvent

-- `state not in {"running", "created"}`.
abbrev pub is_down : String → Bool
is_down state = not (str_eq state "running" || str_eq state "created")

abbrev was_running : MinecraftServer → Bool
was_running server = elim server.last_runtime_state [ none ↦ false | some t ↦ str_eq t "running" ]

abbrev pub server_event : String → ℕ → Text → ℕ → AuditEvent
server_event action server_id details now = record (event none action none (some details) now) {
  server_id = some server_id;
}

abbrev pub has_crashed : MinecraftServer → String → Bool
has_crashed server state = was_running server && is_down state && wants_running server.desired_state

-- `restart_failures` as the retry reads it: zero once the server is seen running.
abbrev pub failures_seen : MinecraftServer → String → ℕ
failures_seen server state = if str_eq state "running" then 0 else server.restart_failures

abbrev pub should_retry : OperationsEnv → MinecraftServer → String → Bool
should_retry env server state =
    is_down state
    && wants_running server.desired_state
    && server.auto_restart
    && ltb (failures_seen server state) env.crash_restart_limit

abbrev crash_events : MinecraftServer → String → ℕ → List AuditEvent
crash_events server state now =
    if str_eq state "running"
    then []
    else if has_crashed server state
    then server_event "server.crash_detected" server.id (codes "state=" ++ codes state) now ∷ []
    else []

abbrev attempt_text : ℕ → Text
attempt_text n = codes "attempt=" ++ number_text n

-- The row after a retry, the state that is stored as the last one, and the audit row.
unfoldable pub retried :
    OperationsEnv
    → MinecraftServer
    → ℕ
    → String
    → ℕ
    → Result (Text × String)
    → MinecraftServer × String × List AuditEvent
retried env server attempt state now (Result.ok (id, started)) =
    if str_eq started "running"
    then (
      record server { restart_failures = attempt; container_id = some id },
      started,
      server_event "server.auto_restart" server.id (attempt_text attempt) now ∷ [],
    )
    else (
      record server { restart_failures = attempt },
      state,
      server_event "server.auto_restart_failed" server.id
            (attempt_text attempt
              ++ codes "; "
              ++ take 450 (env.error_text (Failure.crash "RuntimeError")))
            now
          ∷ [],
    )
retried env server attempt state now (Result.err e) = (
  record server { restart_failures = attempt },
  state,
  server_event "server.auto_restart_failed" server.id
        (attempt_text attempt ++ codes "; " ++ take 450 (env.error_text e)) now
      ∷ [],
)

abbrev sample_of : OperationsEnv → MinecraftServer → RuntimeSnapshot → ℕ → MetricSample
sample_of env server snap now = record {
  server_id = server.id;
  recorded_at = now;
  runtime_state = snap.state;
  cpu_percent = snap.cpu_percent;
  memory_bytes = snap.memory_bytes;
  players_online = if str_eq snap.state "running" then env.query_players server else none;
}

module _ (R : Runtime) (env : OperationsEnv) where
  -- What follows the snapshot. `runtime.start` may raise: the exception is caught and stored.
  unfoldable pub recover : MinecraftServer → RuntimeSnapshot → ℕ → Exec R.State Sampled
  recover server snap now s =
      let failures = failures_seen server snap.state in
      if should_retry env server snap.state
      then (let (r, s') = R.start (record server { restart_failures = failures + 1 }) s in
          let (after, last, events) = retried env server (failures + 1) snap.state now r in
          (
            Result.ok (record {
              server = record after { last_runtime_state = some last };
              sample = sample_of env server snap now;
              events = crash_events server snap.state now ++ events;
            }),
            s',
          ))
      else (
        Result.ok (record {
          server = record server {
            restart_failures = failures;
            last_runtime_state = some snap.state;
          };
          sample = sample_of env server snap now;
          events = crash_events server snap.state now;
        }),
        s,
      )

  unfoldable pub sample_and_recover : MinecraftServer → ℕ → Exec R.State Sampled
  sample_and_recover server now = do
    R.use_panel_restart_policy server
    snap ← R.snapshot server
    recover server snap now
