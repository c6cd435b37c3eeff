-- ===== src/Tests/World.antt =====
-- Concrete libraries, a platform, containers and rows for the tests.
use talos_panel.Auth.Recovery.{Loaded, Library}
use talos_panel.Auth.Requests.{Request, is_ascii}
use talos_panel.Auth.Session.{hours}
use talos_panel.Base.{
  if◌then◌else◌, ℕ, zero, suc, ◌≡◌, refl, sym, ap, true, false, Option, none, some, List, [], ◌∷◌,
  ◌≢◌, ◌%◌, ◌<◌, map, arith,
}
use talos_panel.Base.Text.{Text, codes, text_eq, ascii}
use talos_panel.Http.{Result}
use talos_panel.Models.Accounts.{UserRole, User, UserSession}
use talos_panel.Models.Servers.{
  ServerRole, ServerType, DesiredState, InstallationState, MinecraftServer,
}
use talos_panel.Models.Tables.{Database, no_rows}
use talos_panel.Operations.Backups.{BackupStore}
use talos_panel.Operations.Recovery.{OperationsEnv}
use talos_panel.Platform.{Platform}
use talos_panel.Runtime.Containers.{RuntimeEnv}
use talos_panel.Runtime.Docker.{Container, Docker, with_status, IsLawful}
use talos_panel.Runtime.Interface.{Runtime}

-- JSON of a list of strings, in a coding of its own: every string ends with 0.
unfoldable pub encode : List Text → Text
encode [] = []
encode ([] ∷ ts) = 0 ∷ encode ts
encode ((c ∷ t) ∷ ts) = suc c ∷ encode (t ∷ ts)

unfoldable pub onto_first : ℕ → List Text → List Text
onto_first c [] = (c ∷ []) ∷ []
onto_first c (t ∷ ts) = (c ∷ t) ∷ ts

unfoldable pub decode : Text → List Text
unfolding onto_first
decode [] = []
decode (zero ∷ s) = [] ∷ decode s
decode (suc c ∷ s) = onto_first c (decode s)

decode-encode : (ts : List Text) → decode (encode ts) ≡ ts
unfolding decode encode onto_first
decode-encode [] = refl
decode-encode ([] ∷ ts) = rw (decode-encode ts) refl
decode-encode ((c ∷ t) ∷ ts) = rw (decode-encode (t ∷ ts)) refl

unfoldable pub loads : Text → Loaded
loads [] = Loaded.malformed
loads (c ∷ s) = Loaded.strings (decode s)

pub loads-encode : (ts : List Text) → loads (1 ∷ encode ts) ≡ Loaded.strings ts
unfolding loads
loads-encode ts = ap (λ x. Loaded.strings x) (decode-encode ts)

pub encode-ne-nil : (ts : List Text) → (1 ∷ encode ts) ≢ []
encode-ne-nil ts e = cc e

pub digest_ascii : (t : Text) → is_ascii (map (λ c. c % 128) t) ≡ true
digest_ascii [] = refl
digest_ascii (c ∷ t) = let small : c % 128 < 128 = omega arith in ground (arith, digest_ascii t)

abbrev pub library : Library
library = record {
  unicode = ascii;
  sha256 = λ t. map (λ c. c % 128) t;
  sha256_ascii = digest_ascii;
  loads = loads;
  dumps = λ ts. 1 ∷ encode ts;
  loads-dumps = loads-encode;
  dumps-ne-nil = encode-ne-nil;
}

abbrev pub platform : Platform
platform = record {
  recovery = library;
  hash = λ salt password. password;
  verify = λ hashed password. text_eq hashed password;
  dummy_hash = [];
  totp = λ secret now value. text_eq secret value;
  uuid_text = λ n. n ∷ [];
}

-- A daemon whose calls succeed; its state gives the container of each name.
abbrev pub daemon : Docker
daemon = record {
  State = Text → Option Container;
  get = λ s name. s name;
  run = λ s spec. (
    some (codes "new"),
    λ n.
        if text_eq spec.name n
        then some (record {
          id = codes "new";
          status = "running";
          labels = spec.labels;
          restart_policy = "no";
        })
        else s n,
  );
  start = λ s name. some (λ n. if text_eq name n then with_status "running" (s n) else s n);
  stop = λ s name. some (λ n. if text_eq name n then with_status "exited" (s n) else s n);
  remove = λ s name. some (λ n. if text_eq name n then none else s n);
  set_restart_policy = λ s name policy. some s;
  exec_run = λ s name command. some (0, [], s);
  wait = λ s name. some (λ n. if text_eq name n then with_status "exited" (s n) else s n);
  send_stdin = λ s name line. some s;
  stats = λ s name. none;
}

some-injective : {A : Type 0} (a b : A) → some a ≡ some b → a ≡ b
some-injective a b e = cc e

pub daemon-IsLawful : IsLawful daemon
daemon-IsLawful = record {
  get-run = λ s spec id s' n e.
      let same = sym e in rw (some-injective _ _ (ap (λ r. r.0) same)) (ap (λ r. r.1 n) same);
  get-start = λ s name s' n e. ap (λ t. t n) (sym (some-injective _ _ e));
  get-stop = λ s name s' n e. ap (λ t. t n) (sym (some-injective _ _ e));
  get-wait = λ s name s' n e. ap (λ t. t n) (sym (some-injective _ _ e));
  get-exec_run = λ s name command code output s' n e.
      ap (λ t. with_status "exited" (t n)) (sym (ap (λ r. r.2) (some-injective _ _ e)));
  get-send_stdin =
      λ s name line s' n e. ap (λ t. with_status "exited" (t n)) (sym (some-injective _ _ e));
  get-remove = λ s name s' n e. ap (λ t. t n) (sym (some-injective _ _ e));
}

abbrev pub runtime_env : RuntimeEnv
runtime_env = record {
  platform = platform;
  host_data_root = codes "/srv";
  shlex = λ flags. some [];
}

abbrev pub operations_env : OperationsEnv
operations_env = record {
  crash_restart_limit = 3;
  metric_retention_days = 30;
  query_players = λ server. none;
  error_text = λ e. [];
}

-- A runtime whose servers have always crashed again by the next look.
abbrev pub crashing : Runtime
crashing = record {
  State = Unit;
  start = λ server s. (Result.ok (codes "new", "running"), s);
  stop = λ server s. (Result.ok (none, "exited"), s);
  restart = λ server s. (Result.ok (codes "new", "running"), s);
  remove = λ server s. (Result.ok none, s);
  status = λ server s. (Result.ok (none, "running"), s);
  snapshot = λ server s. (
    Result.ok (record {
      container_id = none;
      state = "exited";
      cpu_percent = none;
      memory_bytes = none;
      memory_limit_bytes = none;
    }),
    s,
  );
  send_command = λ server command s. (Result.ok [], s);
  use_panel_restart_policy = λ server s. (Result.ok tt, s);
}

abbrev pub store : BackupStore
store = record {
  State = Unit;
  create_backup = λ server_id s. (
    Result.ok (record { file_name = codes "a.tar.gz"; size_bytes = 1; checksum_sha256 = [] }),
    s,
  );
  delete_backup = λ server_id file_name s. (Result.ok tt, s);
}

abbrev pub ann : User
ann = record {
  id = 1;
  email = codes "a@b";
  password_hash = codes "correct horse";
  role = UserRole.admin;
  is_active = true;
  totp_secret = none;
  totp_enabled = false;
  totp_recovery_codes = none;
}

abbrev pub bob : User
bob = record {
  id = 2;
  email = codes "c@d";
  password_hash = codes "battery staple";
  role = UserRole.user;
  is_active = true;
  totp_secret = none;
  totp_enabled = false;
  totp_recovery_codes = none;
}

abbrev pub session : UserSession
session = record {
  id = 7;
  user_id = 1;
  token_hash = b't' ∷ [];
  csrf_secret = b'c' ∷ [];
  expires_at = hours 12;
  last_seen_at = 0;
  user_agent = none;
  ip_address = none;
  revoked_at = none;
}

abbrev pub survival : MinecraftServer
survival = record {
  id = 5;
  name = codes "survival";
  server_type = ServerType.paper;
  game_version = codes "1.21";
  memory_mb = 2048;
  host_port = 25565;
  use_aikar_flags = true;
  custom_jvm_flags = [];
  desired_state = DesiredState.running;
  container_id = none;
  installation_state = some InstallationState.completed;
  installed_version = none;
  java_version = some 21;
  backup_enabled = true;
  backup_interval_hours = 6;
  backup_retention = 2;
  next_backup_at = some 0;
  auto_restart = true;
  restart_failures = 0;
  last_runtime_state = some "running";
}

abbrev pub database : Database
database = record no_rows {
  users = ann ∷ bob ∷ [];
  sessions = session ∷ [];
  servers = survival ∷ [];
  members = record { server_id = 5; user_id = 2; role = ServerRole.operator } ∷ [];
}

-- A request of the first user, with its session.
abbrev pub from_ann : Request
from_ann = record {
  user = some ann;
  auth_session = some session;
  origin = none;
  host = none;
  client = some (codes "10.0.0.1");
}
