-- ===== src/Models/Tables.antt =====
-- The tables of the panel's database, and the audit rows that handlers add.
use talos_panel.Base.{ℕ, String, Option, none, List, [], ◌∷◌, ◌++◌}
use talos_panel.Base.Text.{Text}
use talos_panel.Models.Accounts.{User, UserSession, AuditEvent}
use talos_panel.Models.Servers.{
  MinecraftServer, InstallationJob, ServerMember, Backup, ServerUpdate, MetricSample,
}

pub record Database : Type 0 where
  pub users : List User
  pub sessions : List UserSession
  pub audit : List AuditEvent
  pub servers : List MinecraftServer
  pub members : List ServerMember
  pub jobs : List InstallationJob
  pub backups : List Backup
  pub updates : List ServerUpdate
  pub samples : List MetricSample

abbrev pub no_rows : Database
no_rows = record {
  users = [];
  sessions = [];
  audit = [];
  servers = [];
  members = [];
  jobs = [];
  backups = [];
  updates = [];
  samples = [];
}

-- `AuditEvent(action=…, ip_address=…, details=…)` added at a time, by a user or by nobody.
abbrev pub event : Option ℕ → String → Option Text → Option Text → ℕ → AuditEvent
event user_id action ip_address details now = record {
  user_id = user_id;
  action = action;
  server_id = none;
  server_reference_id = none;
  server_name = none;
  ip_address = ip_address;
  details = details;
  created_at = now;
}

abbrev pub add_event : AuditEvent → Database → Database
add_event e db = record db { audit = db.audit ++ e ∷ [] }
