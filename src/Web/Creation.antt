-- ===== src/Web/Creation.antt =====
-- talos_panel/web.py, `create_server`, and talos_panel/api.py, `create_server`, with `ServerCreate` of
-- talos_panel/schemas.py: a new server with its owner, its directory and, on the page, its
-- installation job.
use talos_panel.Auth.Audit.{on_server, record_audit}
use talos_panel.Auth.Requests.{Request, require_csrf, require_user}
use talos_panel.Base.{
  leb, ◌==◌, is_some, length, any, ℕ, Bool, true, false, not, ◌&&◌, Option, none, some, List, [],
  ◌∷◌, ◌++◌,
}
use talos_panel.Base.Text.{Text, strip}
use talos_panel.Handler.{◌>>=◌, ◌>>◌, Exec, pure, lift, refuse_if, gets, write}
use talos_panel.Http.{Failure, Result, raise_if}
use talos_panel.Install.Requests.{new_job}
use talos_panel.Install.Versions.{release_version}
use talos_panel.Models.Accounts.{User}
use talos_panel.Models.Servers.{
  ServerRole, ServerType, DesiredState, InstallationState, MinecraftServer, InstallationJob,
  ServerMember,
}
use talos_panel.Operations.Backups.{raised}
use talos_panel.Platform.{Platform}
use talos_panel.Runtime.Interface.{Runtime}
use talos_panel.Runtime.JvmFlags.{parse_custom_jvm_flags}
use talos_panel.ServerProperties.{ServerProperties}
use talos_panel.Web.Settings.{is_settings_error}
use talos_panel.Web.Site.{DataStore, WebEnv, catching, Site, in_database, in_data}

pub record ServerCreate : Type 0 where
  pub name : Text
  pub server_type : ServerType
  pub game_version : Text
  pub memory_mb : ℕ
  pub host_port : ℕ
  pub use_aikar_flags : Bool
  pub custom_jvm_flags : Text
  pub settings : ServerProperties

abbrev between : ℕ → ℕ → ℕ → Bool
between lo hi n = leb lo n && leb n hi

abbrev pub is_flags_error : Failure → Bool
is_flags_error e = raised "JvmFlagsError" e

abbrev flags_accepted : Result (List Text) → Bool
flags_accepted (Result.ok arguments) = true
flags_accepted (Result.err e) = false

-- `custom_jvm_flags.strip()`.
abbrev pub stripped_flags : ServerCreate → ServerCreate
stripped_flags form = record form { custom_jvm_flags = strip form.custom_jvm_flags }

-- The columns that are not given have the defaults of the model.
unfoldable pub new_server : ℕ → ServerCreate → Option InstallationState → MinecraftServer
new_server id payload installation_state = record {
  id = id;
  name = payload.name;
  server_type = payload.server_type;
  game_version = payload.game_version;
  memory_mb = payload.memory_mb;
  host_port = payload.host_port;
  use_aikar_flags = payload.use_aikar_flags;
  custom_jvm_flags = payload.custom_jvm_flags;
  desired_state = DesiredState.stopped;
  container_id = none;
  installation_state = installation_state;
  installed_version = none;
  java_version = none;
  backup_enabled = false;
  backup_interval_hours = 24;
  backup_retention = 7;
  next_backup_at = none;
  auto_restart = false;
  restart_failures = 0;
  last_runtime_state = none;
}

-- The bounds of the fields, which pydantic checks; the settings have passed theirs already.
unfoldable pub is_valid_payload : Platform → (Text → Option (List Text)) → ServerCreate → Bool
is_valid_payload p shlex payload =
    between 1 80 (length payload.name)
    && between 3 32 (length payload.game_version)
    && is_some (release_version p.recovery.unicode payload.game_version)
    && between 1024 32768 payload.memory_mb
    && between 1024 65535 payload.host_port
    && leb (length payload.custom_jvm_flags) 2048
    && flags_accepted (parse_custom_jvm_flags p shlex payload.custom_jvm_flags)

abbrev pub owner_of : ℕ → ℕ → ServerMember
owner_of server_id user_id = record {
  server_id = server_id;
  user_id = user_id;
  role = ServerRole.owner;
}

module _ (R : Runtime) (F : DataStore) (env : WebEnv) where
  -- The `try`: the row is flushed, the directory and its file are made, and everything is committed.
  unfoldable pub store_server :
      MinecraftServer
      → ServerProperties
      → ServerMember
      → List InstallationJob
      → Exec (Site R F) (Unit {0})
  store_server server properties member jobs = do
    taken ← gets (λ (db, s, f). any (λ v. v.host_port == server.host_port) db.servers)
    refuse_if taken 409 "Host port is already assigned"
    in_data R F (F.prepare_directory server.id)
    catching env is_settings_error 409
        (in_data R F (F.write_server_properties server.id properties))
    in_database R F (
        write (λ db. record db {
          servers = db.servers ++ server ∷ [];
          members = db.members ++ member ∷ [];
          jobs = db.jobs ++ jobs;
        }))

  -- The API's request: `id` is the identifier of the new server. The payload has been validated.
  unfoldable pub create_server :
      Request → Option Text → ServerCreate → ℕ → ℕ → Exec (Site R F) MinecraftServer
  create_server request csrf_token payload id now = do
    user ← in_database R F (lift (require_user request))
    in_database R F (lift (require_csrf request csrf_token))
    let server = new_server id payload none
    store_server server payload.settings (owner_of id user.id) []
    in_database R F (record_audit request "server.create" (on_server id) (some server.name) now)
    pure server

module _ (R : Runtime) (F : DataStore) (env : WebEnv) (p : Platform)
    (shlex : Text → Option (List Text)) where
  abbrev beside_queue : {A : Type 0} → Exec (Site R F) A → Exec (Site R F × List ℕ) A
  beside_queue m (w, queue) = let (r, w') = m w in (r, (w', queue))

  -- The checks of the page. Its fields are strings without bounds, which `ServerCreate` refuses with
  -- an exception that is no HTTP error.
  unfoldable pub checked_form : Request → Option Text → Bool → ServerCreate → Exec (Site R F) User
  checked_form request csrf_token eula_accepted form = do
    user ← in_database R F (lift (require_user request))
    in_database R F (lift (require_csrf request csrf_token))
    refuse_if (not eula_accepted) 422 "Minecraft EULA acceptance is required"
    _ ←
        catching env is_flags_error 422
          (lift (parse_custom_jvm_flags p shlex form.custom_jvm_flags))
    lift (
        raise_if (not (is_valid_payload p shlex (stripped_flags form)))
          (Failure.crash "ValidationError"))
    pure user

  -- The page: `id` and `job_id` are the identifiers of the new server and its job, which ends in the
  -- queue of the installation manager.
  unfoldable pub create_server_ui :
      Request → Option Text → Bool → ServerCreate → ℕ → ℕ → ℕ → Exec (Site R F × List ℕ) (Unit {0})
  create_server_ui request csrf_token eula_accepted form id job_id now = do
    user ← beside_queue (checked_form request csrf_token eula_accepted form)
    let server = new_server id (stripped_flags form) (some InstallationState.queued)
    beside_queue (
        store_server R F env server form.settings (owner_of id user.id)
          (new_job job_id server now ∷ []))
    write (λ (w, queue). (w, queue ++ job_id ∷ []))
    beside_queue (
        in_database R F
          (record_audit request "server.create" (on_server id) (some server.name) now))
