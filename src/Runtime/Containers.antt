-- ===== src/Runtime/Containers.antt =====
-- talos_panel/runtime.py: `profile_for` and the methods of `DockerRuntime` that start, stop, inspect
-- and remove the container of a server. Work that asyncio moves to a thread is done in place.
-- The directories and the network that `start` prepares are outside the container's state.
use talos_panel.Base.{
  ◌==◌, if◌then◌else◌, take, select, ℕ, ◌-◌, String, Bool, not, ◌&&◌, ◌||◌, Option, none, some,
  List, [], ◌∷◌, ◌++◌, map, str_eq, drop, false,
}
use talos_panel.Base.Decimal.{number_text}
use talos_panel.Base.Text.{Text, codes, has_prefix, is_lower_ascii}
use talos_panel.Handler.{◌>>=◌, ◌>>◌, Exec, pure}
use talos_panel.Http.{Failure, Result}
use talos_panel.Models.Servers.{ServerType, MinecraftServer}
use talos_panel.Platform.{Platform}
use talos_panel.Runtime.Docker.{Container, RunSpec, Docker, has_label}
use talos_panel.Runtime.JvmFlags.{startup_jvm_arguments}

-- The part of `Settings` and of the libraries that the runtime reads.
pub record RuntimeEnv : Type 0 where
  pub platform : Platform
  pub host_data_root : Text
  -- `shlex.split`; none is its `ValueError`.
  pub shlex : Text → Option (List Text)

abbrev pub type_value : ServerType → Text
type_value ServerType.paper = codes "paper"
type_value ServerType.vanilla = codes "vanilla"
type_value ServerType.purpur = codes "purpur"
type_value ServerType.pufferfish = codes "pufferfish"
type_value ServerType.fabric = codes "fabric"
type_value ServerType.quilt = codes "quilt"
type_value ServerType.forge = codes "forge"
type_value ServerType.neoforge = codes "neoforge"

abbrev pub ascii_upper : Text → Text
ascii_upper s = map (λ c. if is_lower_ascii c then c - 32 else c) s

-- `SUPPORTED_JAVA_VERSIONS`.
abbrev pub supported_java : ℕ → Bool
supported_java v = v == 8 || v == 11 || v == 17 || v == 21 || v == 25

-- The image and the ITZG type of the server's Java version.
unfoldable pub profile_for : MinecraftServer → Result (Text × Text)
profile_for server = elim server.java_version [
  | none ↦ Result.err (Failure.crash "ValueError")
  | some v ↦
      if supported_java v
      then Result.ok (
        codes "itzg/minecraft-server:java" ++ number_text v,
        ascii_upper (type_value server.server_type),
      )
      else Result.err (Failure.crash "ValueError")
]

-- `sha256(f"{use_aikar_flags}\0{custom_jvm_flags}")[:16]`.
unfoldable pub jvm_profile_hash : Platform → MinecraftServer → Text
jvm_profile_hash p server = take 16 (
    p.recovery.sha256 (
      (if server.use_aikar_flags then codes "True" else codes "False")
      ++ (0 ∷ server.custom_jvm_flags)))

unfoldable pub container_name : Platform → ℕ → Text
container_name p server_id = codes "talos-mc-" ++ p.uuid_text server_id

-- The labels of a container that is made for the server.
abbrev pub server_labels : Platform → MinecraftServer → List (String × Text)
server_labels p server =
    ("io.talos-panel.managed", codes "true")
    ∷ ("io.talos-panel.server-id", p.uuid_text server.id)
    ∷ ("io.talos-panel.memory-mb", number_text server.memory_mb)
    ∷ ("io.talos-panel.host-port", number_text server.host_port)
    ∷ ("io.talos-panel.jvm-profile", jvm_profile_hash p server)
    ∷ ("io.talos-panel.server-type", type_value server.server_type)
    ∷ ("io.talos-panel.game-version", server.game_version)
    ∷ ("io.talos-panel.runtime", codes "itzg")
    ∷ ("io.talos-panel.console-mode", codes "pipe")
    ∷ []

unfoldable pub profile_matches : Platform → MinecraftServer → Container → Bool
profile_matches p server c =
    has_label "io.talos-panel.memory-mb" (number_text server.memory_mb) c
    && has_label "io.talos-panel.host-port" (number_text server.host_port) c
    && has_label "io.talos-panel.jvm-profile" (jvm_profile_hash p server) c
    && has_label "io.talos-panel.server-type" (type_value server.server_type) c
    && has_label "io.talos-panel.game-version" server.game_version c
    && has_label "io.talos-panel.runtime" (codes "itzg") c
    && has_label "io.talos-panel.console-mode" (codes "pipe") c

abbrev pub is_running : Container → Bool
is_running c = str_eq c.status "running"

unfoldable pub is_managed : Platform → ℕ → Container → Bool
is_managed p server_id c =
    has_label "io.talos-panel.managed" (codes "true") c
    && has_label "io.talos-panel.server-id" (p.uuid_text server_id) c

-- `" ".join`.
abbrev join_words : List Text → Text
join_words [] = []
join_words (w ∷ []) = w
join_words (w ∷ v ∷ ws) = w ++ (32 ∷ join_words (v ∷ ws))

abbrev option_entry : String → List Text → List (String × Text)
option_entry name [] = []
option_entry name (w ∷ ws) = (name, join_words (w ∷ ws)) ∷ []

abbrev is_xx : Text → Bool
is_xx flag = has_prefix flag (codes "-XX")

server_environment : Text → MinecraftServer → List Text → List (String × Text)
server_environment itzg_type server flags =
    ("EULA", codes "TRUE")
    ∷ ("TYPE", itzg_type)
    ∷ ("VERSION", server.game_version)
    ∷ ("MEMORY", number_text server.memory_mb ++ codes "M")
    ∷ ("USE_AIKAR_FLAGS", if server.use_aikar_flags then codes "TRUE" else codes "FALSE")
    ∷ ("ENABLE_RCON", codes "FALSE")
    ∷ ("CREATE_CONSOLE_IN_PIPE", codes "TRUE")
    ∷ (option_entry "JVM_XX_OPTS" (select is_xx flags)
        ++ option_entry "JVM_OPTS" (select (λ f. not (is_xx f)) flags))

unfoldable pub run_spec : RuntimeEnv → MinecraftServer → Result RunSpec
unfolding server_environment
run_spec env server = elim (profile_for server) [
  | Result.err e ↦ Result.err e
  | Result.ok profile ↦
      elim (startup_jvm_arguments env.platform env.shlex server.memory_mb false
        server.custom_jvm_flags) [
          | Result.err e ↦ Result.err e
          | Result.ok arguments ↦ Result.ok (record {
            name = container_name env.platform server.id;
            image = profile.0;
            host_port = server.host_port;
            volume = env.host_data_root ++ codes "/servers/" ++ env.platform.uuid_text server.id;
            environment = server_environment profile.1 server (drop 2 arguments);
            mem_limit = number_text server.memory_mb ++ codes "m";
            labels = server_labels env.platform server;
          })
        ]
]

module _ (D : Docker) (env : RuntimeEnv) where
  -- A call that raises gives an `APIError` and leaves the containers as they are.
  abbrev docker_call : (D.State → Option D.State) → Exec D.State (Unit {0})
  docker_call call s = elim (call s) [
    | none ↦ (Result.err (Failure.crash "APIError"), s)
    | some s' ↦ (Result.ok tt, s')
  ]

  abbrev pub name_of : MinecraftServer → Text
  name_of server = container_name env.platform server.id

  -- `_managed_container`: none is `NotFound`.
  unfoldable pub managed_container : MinecraftServer → Exec D.State (Option Container)
  managed_container server s = elim (D.get s (name_of server)) [
    | none ↦ (Result.ok none, s)
    | some c ↦
        if is_managed env.platform server.id c
        then (Result.ok (some c), s)
        else (Result.err (Failure.crash "RuntimeError"), s)
  ]

  unfoldable pub run_container : MinecraftServer → Exec D.State (Text × String)
  run_container server s = elim (run_spec env server) [
    | Result.err e ↦ (Result.err e, s)
    | Result.ok spec ↦
        let (created, s') = D.run s spec in
        elim created [
          | none ↦ (Result.err (Failure.crash "APIError"), s')
          | some id ↦ (Result.ok (id, "running"), s')
        ]
  ]

  -- The container that is there is kept if it runs or has the server's profile, else made anew.
  unfoldable pub start_existing : MinecraftServer → Option Container → Exec D.State (Text × String)
  start_existing server none = run_container server
  start_existing server (some c) =
      if is_running c
      then pure (c.id, "running")
      else if profile_matches env.platform server c
      then (do docker_call (λ s. D.start s (name_of server)); pure (c.id, "running"))
      else (do docker_call (λ s. D.remove s (name_of server)); run_container server)

  unfoldable pub start : MinecraftServer → Exec D.State (Text × String)
  start server = do c ← managed_container server; start_existing server c

  unfoldable pub use_panel_restart_policy : MinecraftServer → Exec D.State (Unit {0})
  use_panel_restart_policy server = do
    found ← managed_container server
    elim found [
      | none ↦ pure tt
      | some c ↦
          if str_eq c.restart_policy "no"
          then pure tt
          else docker_call (λ s. D.set_restart_policy s (name_of server) "no")
    ]

  unfoldable pub status : MinecraftServer → Exec D.State (Option Text × String)
  status server = do
    found ← managed_container server
    pure (elim found [ none ↦ (none, "not_created") | some c ↦ (some c.id, c.status) ])

  unfoldable pub remove : MinecraftServer → Exec D.State (Option Text)
  remove server = do
    found ← managed_container server
    elim found [
      | none ↦ pure none
      | some c ↦ do
        (if is_running c then docker_call (λ s. D.stop s (name_of server)) else pure tt)
        docker_call (λ s. D.remove s (name_of server))
        pure (some c.id)
    ]
