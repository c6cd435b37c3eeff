-- ===== src/Web/Settings.antt =====
-- talos_panel/web.py, `update_server_settings_ui`, and talos_panel/api.py, `update_server_settings`:
-- the memory, the port and the properties of a server. The fields have passed the form's bounds.
use talos_panel.Auth.Audit.{on_server, record_audit}
use talos_panel.Auth.Requests.{Request}
use talos_panel.Base.{
  ◌==◌, if◌then◌else◌, any, select, ℕ, String, Bool, true, false, not, ◌&&◌, ◌||◌, Option, none,
  some, List, [], ◌∷◌, ◌++◌, str_eq,
}
use talos_panel.Base.Text.{Text, codes}
use talos_panel.Handler.{◌>>=◌, ◌>>◌, Exec, pure, refuse_if, gets}
use talos_panel.Http.{Failure, Result}
use talos_panel.Models.Servers.{MinecraftServer}
use talos_panel.Operations.Backups.{raised}
use talos_panel.Runtime.Interface.{Runtime}
use talos_panel.ServerProperties.{
  ServerProperties, changed_settings, has_changed_setting, live_setting_commands,
}
use talos_panel.Web.Site.{
  DataStore, WebEnv, catching, Site, in_database, in_runtime, in_data, set_server, entered,
}

abbrev pub is_settings_error : Failure → Bool
is_settings_error e = raised "ServerSettingsError" e

-- The unique constraint on `host_port`: another server has the port.
unfoldable pub port_taken : ℕ → ℕ → List MinecraftServer → Bool
port_taken server_id port servers =
    any (λ s. s.host_port == port && not (s.id == server_id)) servers

abbrev pub with_profile : ℕ → ℕ → MinecraftServer → MinecraftServer
with_profile memory_mb host_port server = record server {
  memory_mb = memory_mb;
  host_port = host_port;
}

-- The fields that the saved values change and no live command has applied, in sorted order.
abbrev sorted_fields : List String
sorted_fields =
    "allow_flight" ∷ "difficulty" ∷ "gamemode" ∷ "max_players" ∷ "motd" ∷ "pvp"
    ∷ "simulation_distance" ∷ "view_distance" ∷ "whitelist" ∷ []

unfoldable pub restart_fields : ServerProperties → ServerProperties → List String → List String
restart_fields before after applied =
    select
      (λ field.
        has_changed_setting field (changed_settings before after)
        && not (any (λ a. str_eq a field) applied))
      sorted_fields

-- `','.join(fields) or '-'`.
joined_fields : List String → Text
joined_fields [] = codes "-"
joined_fields (f ∷ []) = codes f
joined_fields (f ∷ g ∷ fs) = codes f ++ codes "," ++ joined_fields (g ∷ fs)

pub record SettingsSaved : Type 0 where
  pub message : String
  pub restart_required : Bool
  pub live_applied : List String
  pub restart_fields : List String

abbrev is_empty : List String → Bool
is_empty [] = true
is_empty (f ∷ fs) = false

abbrev settings_message : Bool → Bool → List String → String
settings_message changed restart_required applied =
    if not changed
    then "Settings are already up to date."
    else if restart_required && not (is_empty applied)
    then "Live settings applied. Remaining changes require a restart."
    else if restart_required
    then "Settings saved. Restart the server to apply them."
    else if not (is_empty applied)
    then "Settings saved and applied immediately."
    else "Settings saved."

-- What the page answers, from the state of the container and the fields that were applied.
unfoldable pub settings_saved :
    ServerProperties → ServerProperties → Bool → String → List String → SettingsSaved
settings_saved before after profile_changed state applied =
    let left = restart_fields before after applied in
    let restart_required = str_eq state "running" && (not (is_empty left) || profile_changed) in
    let changed = any (λ c. c.1) (changed_settings before after) || profile_changed in
    record {
      message = settings_message changed restart_required applied;
      restart_required = restart_required;
      live_applied = applied;
      restart_fields = left;
    }

settings_details : SettingsSaved → Bool → Text
unfolding joined_fields
settings_details saved profile_changed =
    codes "live="
    ++ joined_fields saved.live_applied
    ++ codes ";restart="
    ++ joined_fields saved.restart_fields
    ++ codes ";profile="
    ++ (if profile_changed then codes "True" else codes "False")

module _ (R : Runtime) (F : DataStore) (env : WebEnv) where
  -- The flush, the file and the commit: a failure leaves the database as it was.
  unfoldable pub save_settings :
      MinecraftServer → ServerProperties → ℕ → ℕ → Exec (Site R F) (Unit {0})
  save_settings server properties memory_mb host_port = do
    taken ← gets (λ (db, s, f). port_taken server.id host_port db.servers)
    refuse_if taken 409 "Host port is already assigned"
    catching env is_settings_error 409
        (in_data R F (F.write_server_properties server.id properties))
    set_server R F server.id (with_profile memory_mb host_port)

  -- The loop over the live commands: a `RuntimeError` leaves the field to the next start.
  unfoldable pub apply_live : MinecraftServer → List (String × Text) → Exec (Site R F) (List String)
  apply_live server [] w = (Result.ok [], w)
  apply_live server ((field, command) ∷ rest) w =
      let (sent, w') = in_runtime R F (R.send_command server command) w in
      elim sent [
        | Result.ok _ ↦
            let (later, w'') = apply_live server rest w' in
            elim later [
              | Result.err e ↦ (Result.err e, w'')
              | Result.ok fields ↦ (Result.ok (field ∷ fields), w'')
            ]
        | Result.err e ↦
            if raised "RuntimeError" e then apply_live server rest w' else (Result.err e, w')
      ]

  unfoldable pub apply_settings :
      MinecraftServer → ServerProperties → ServerProperties → String → Exec (Site R F) (List String)
  apply_settings server before after state =
      if str_eq state "running"
      then apply_live server (live_setting_commands before after)
      else pure []

  unfoldable pub update_server_settings_ui :
      Request → Option Text → ℕ → ServerProperties → ℕ → ℕ → ℕ → Exec (Site R F) SettingsSaved
  unfolding settings_details
  update_server_settings_ui request csrf_token server_id properties memory_mb host_port now = do
    server ← entered R F request csrf_token server_id true
    before ← catching env is_settings_error 409 (in_data R F (F.read_server_properties server.id))
    save_settings server properties memory_mb host_port
    let saved = with_profile memory_mb host_port server
    current ← in_runtime R F (R.status saved)
    applied ← apply_settings saved before properties current.1
    let profile_changed = not (server.memory_mb == memory_mb) || not (server.host_port == host_port)
    let answer = settings_saved before properties profile_changed current.1 applied
    in_database R F (
        record_audit request "server.settings_update" (on_server server.id)
          (some (settings_details answer profile_changed)) now)
    pure answer

  unfoldable pub update_server_settings :
      Request → Option Text → ℕ → ServerProperties → ℕ → ℕ → ℕ → Exec (Site R F) (Unit {0})
  update_server_settings request csrf_token server_id properties memory_mb host_port now = do
    server ← entered R F request csrf_token server_id true
    save_settings server properties memory_mb host_port
    in_database R F (record_audit request "server.settings_update" (on_server server.id) none now)
