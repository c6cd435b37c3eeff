-- ===== src/Models/Servers.antt =====
-- talos_panel/models.py: servers, their members, jobs, backups, updates and metrics.
use talos_panel.Base.{ℕ, Bool, true, false, Option, some, none, String}
use talos_panel.Base.Text.{Text}

pub data ServerRole : Type 0 where
  owner operator : ServerRole

pub data ServerType : Type 0 where
  paper vanilla purpur pufferfish fabric quilt forge neoforge : ServerType

pub data DesiredState : Type 0 where
  running stopped : DesiredState

pub data InstallationState : Type 0 where
  queued resolving downloading verifying installing completed failed : InstallationState

pub record MinecraftServer : Type 0 where
  pub id : ℕ
  pub name : Text
  pub server_type : ServerType
  pub game_version : Text
  pub memory_mb : ℕ
  pub host_port : ℕ
  pub use_aikar_flags : Bool
  pub custom_jvm_flags : Text
  pub desired_state : DesiredState
  pub container_id : Option Text
  pub installation_state : Option InstallationState
  pub installed_version : Option Text
  pub java_version : Option ℕ
  pub backup_enabled : Bool
  pub backup_interval_hours : ℕ
  pub backup_retention : ℕ
  pub next_backup_at : Option ℕ
  pub auto_restart : Bool
  pub restart_failures : ℕ
  pub last_runtime_state : Option String

pub record InstallationJob : Type 0 where
  pub id : ℕ
  pub server_id : ℕ
  pub state : InstallationState
  pub requested_version : Text
  pub installed_version : Option Text
  pub java_version : Option ℕ
  pub error_code : Option Text
  pub error_message : Option Text
  pub eula_accepted_at : ℕ
  pub started_at : Option ℕ
  pub finished_at : Option ℕ

pub record ServerMember : Type 0 where
  pub server_id : ℕ
  pub user_id : ℕ
  pub role : ServerRole

pub record Backup : Type 0 where
  pub id : ℕ
  pub server_id : ℕ
  pub file_name : Text
  pub size_bytes : Option ℕ
  pub checksum_sha256 : Option Text
  pub installed_version : Option Text
  pub game_version : Option Text
  pub java_version : Option ℕ
  pub created_at : ℕ

-- The states that a row of an update takes are literals of the source.
pub record ServerUpdate : Type 0 where
  pub id : ℕ
  pub server_id : ℕ
  pub backup_id : Option ℕ
  pub from_version : Text
  pub to_version : Text
  pub state : String
  pub error_message : Option Text
  pub created_at : ℕ
  pub finished_at : Option ℕ

pub record MetricSample : Type 0 where
  pub server_id : ℕ
  pub recorded_at : ℕ
  pub runtime_state : String
  pub cpu_percent : Option ℕ
  pub memory_bytes : Option ℕ
  pub players_online : Option ℕ

-- The tests by which the source compares members of the enumerations.
abbrev pub is_owner : ServerRole → Bool
is_owner ServerRole.owner = true
is_owner ServerRole.operator = false

abbrev pub wants_running : DesiredState → Bool
wants_running DesiredState.running = true
wants_running DesiredState.stopped = false

abbrev pub is_completed : InstallationState → Bool
is_completed InstallationState.completed = true
is_completed _ = false

-- `state.not_in([COMPLETED, FAILED])`.
abbrev pub is_unfinished : InstallationState → Bool
is_unfinished InstallationState.completed = false
is_unfinished InstallationState.failed = false
is_unfinished _ = true

abbrev pub installation_done : Option InstallationState → Bool
installation_done none = false
installation_done (some s) = is_completed s
