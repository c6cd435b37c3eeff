-- ===== src/Tests/Pages.antt =====
-- The pages of a server at a concrete database.
use talos_panel.Auth.Audit.{record_audit}
use talos_panel.Auth.Requests.{require_csrf, require_user}
use talos_panel.Base.{
  ◌==◌, find, ◌≡◌, refl, ◌⊎◌, true, false, Option, none, some, [], ◌∷◌, arith, if◌then◌else◌, ℕ,
}
use talos_panel.Base.Text.{Text, codes, strip, ascii, split_on, text_eq}
use talos_panel.Files.Operations.{FileOps, posix_path}
use talos_panel.Files.Paths.{Kind, FileTree}
use talos_panel.Http.{Failure, Result}
use talos_panel.Install.Versions.{release_version, java_version_for}
use talos_panel.Models.Servers.{DesiredState, MinecraftServer, ServerUpdate}
use talos_panel.Models.Tables.{Database}
use talos_panel.Permissions.{require_server_access}
use talos_panel.Runtime.Console.{Normalized, normalize_console_command}
use talos_panel.Runtime.Interface.{Runtime}
use talos_panel.ServerProperties.{ServerProperties}
use talos_panel.Tests.World.{crashing, store, survival, database, from_ann, platform}
use talos_panel.Web.Lifecycle.{stop_server_ui}
use talos_panel.Web.Lifecycle.Laws.{LeftAlone, stop_server_ui_settles}
use talos_panel.Web.Pages.{Page, run_page, refused_page_changes_nothing}
use talos_panel.Web.Players.{validate_player_name, PlayerAction, player_command}
use talos_panel.Web.Players.Laws.{player_command-accepted}
use talos_panel.Web.Removal.{delete_server}
use talos_panel.Web.Site.{DataStore, WebEnv, Site, entered, require_stopped, server_backup}
use talos_panel.Web.Updates.{
  new_update, install_target, run_update, record_update, update_entered, update_server_version,
  undo_update, rollback_entered, rollback_server_update,
}
use talos_panel.Web.Updates.Laws.{StoredServer, run_update-UpdateEnded, UpdateEnded}
use talos_panel.Web.Updates.RoundTrip.{rollback-update}

abbrev quiet : Runtime
quiet = record crashing { status = λ server s. (Result.ok (none, "exited"), s) }

abbrev default_settings : ServerProperties
default_settings = record {
  motd = codes "A Minecraft Server";
  gamemode = codes "survival";
  difficulty = codes "easy";
  max_players = 20;
  whitelist = false;
  pvp = true;
  allow_flight = false;
  view_distance = 10;
  simulation_distance = 10;
}

abbrev data_store : DataStore
data_store = record {
  State = Unit;
  prepare_directory = λ id s. (Result.ok tt, s);
  create_backup = store.create_backup;
  restore_backup = λ id name checksum s. (Result.ok tt, s);
  delete_backup = store.delete_backup;
  read_server_properties = λ id s. (Result.ok default_settings, s);
  write_server_properties = λ id properties s. (Result.ok tt, s);
  archive_server_directory = λ id s. (Result.ok true, s);
}

abbrev web_env : WebEnv
web_env = record {
  unicode = ascii;
  error_text = λ e. [];
  error_detail = λ e. "";
  uuid_text = λ n. n ∷ [];
  versions = λ t. Result.ok (codes "1.21.4" ∷ []);
}

-- The server of the tests with an installed version.
abbrev installed_database : Database
installed_database = record database {
  servers = record survival { installed_version = some (codes "1.21") } ∷ [];
}

abbrev token : Option Text
token = some (b'c' ∷ [])

-- A directory with one configuration file.
abbrev pub tree : FileTree
tree = record {
  root_is_link = false;
  kind = λ parts. if text_eq (posix_path parts) (codes "ops.json") then some Kind.file else none;
  resolves_inside = λ parts. true;
  resolves_to_root = λ parts. false;
}

abbrev pub files : ℕ → FileOps Unit
files id = record {
  tree = λ s. tree;
  property_lines = λ s. [];
  size = λ s path. 2;
  contains_symlink = λ s path. false;
  mkdir = λ path s. (Result.ok tt, s);
  replace = λ source destination s. (Result.ok tt, s);
  copy = λ source destination s. (Result.ok tt, s);
  make_trash = λ s. (Result.ok tt, s);
  read_text = λ path s. (Result.ok (codes "[]"), s);
  write_text = λ path content s. (Result.ok tt, s);
}

refused_page_changes_nothing_example :
    run_page quiet data_store web_env platform files
      (Page.delete (codes "survival"))
      from_ann
      none
      5
      9
      (database, tt, tt)
    ≡ (Result.err (Failure.http 403 "Invalid CSRF token"), (database, tt, tt))
unfolding entered require_csrf
refused_page_changes_nothing_example =
    refused_page_changes_nothing quiet data_store web_env platform files
      (Page.delete (codes "survival")) from_ann none 5 9 (database, tt, tt)
      (Failure.http 403 "Invalid CSRF token") refl

abbrev after_delete : Result (Unit {0}) × Site quiet data_store
after_delete =
    delete_server quiet data_store web_env from_ann token 5 (codes "survival") 9 (database, tt, tt)

abbrev settled_server : MinecraftServer
settled_server = record survival { installed_version = some (codes "1.21") }

abbrev downloading : ServerUpdate
downloading = new_update 31 settled_server 30 (codes "1.21") (codes "1.21.4") 9

abbrev tried : Site quiet data_store
tried = (record installed_database { updates = downloading ∷ [] }, tt, tt)

run_update-UpdateEnded_example :
    UpdateEnded quiet data_store web_env settled_server downloading
      (codes "1.21.4")
      9
      tried
      (run_update quiet data_store web_env settled_server 31 (codes "1.21.4") 9 tried)
run_update-UpdateEnded_example =
    run_update-UpdateEnded quiet data_store web_env settled_server settled_server downloading
      (codes "1.21.4") 9 tried refl refl

abbrev updated : Site quiet data_store
updated =
    (update_server_version quiet data_store web_env from_ann token 5 (codes "1.21.4") 30 31 9
      (installed_database, tt, tt)).1

-- A later state, in which the audit log has been cleared.
abbrev after_update : Site quiet data_store
after_update = (record updated.0 { audit = [] }, tt, tt)

abbrev rolled_back : Site quiet data_store
rolled_back =
    (rollback_server_update quiet data_store web_env from_ann token 5 31 12 after_update).1

rollback-update_example :
    StoredServer quiet data_store web_env 5
      (λ v. (v.installed_version ≡ some (codes "1.21")) × (v.game_version ≡ codes "1.21"))
      rolled_back.0
unfolding update_server_version update_entered rollback_server_update rollback_entered entered
    require_stopped record_update run_update install_target undo_update server_backup
    java_version_for release_version require_csrf require_user require_server_access record_audit
    split_on
rollback-update_example =
    rollback-update quiet data_store web_env from_ann from_ann token token 5 30 31 9 12
      (codes "1.21.4") (codes "1.21") settled_server (installed_database, tt, tt) updated
      after_update rolled_back refl refl refl refl refl refl

abbrev after_stop : Result (Unit {0}) × Site quiet data_store
after_stop = stop_server_ui quiet data_store web_env from_ann token 5 9 (database, tt, tt)

stop_server_ui_settles_example :
    ((after_stop.0 ≡ Result.ok tt)
      × ((stored : MinecraftServer) × (find (λ s. s.id == 5) after_stop.1.0.servers ≡ some stored)
          × (stored.desired_state ≡ DesiredState.stopped))
      × LeftAlone quiet data_store web_env 5 after_stop.1.0)
    ⊎ ((e : Failure) × ((quiet.stop (record survival { desired_state = DesiredState.stopped }) tt).0
          ≡ Result.err e)
        × (after_stop.0 ≡ Result.err e)
        × ((stored : MinecraftServer) × (find (λ s. s.id == 5) after_stop.1.0.servers ≡ some stored)
            × (stored.desired_state ≡ DesiredState.running)))
unfolding entered require_csrf require_user require_server_access
stop_server_ui_settles_example =
    stop_server_ui_settles quiet data_store web_env from_ann token 5 9 (database, tt, tt) survival
      refl

abbrev ban : PlayerAction
ban = record { name = "ban"; command = "ban "; audited = "player.ban"; takes_reason = true }

player_command-accepted_example :
    normalize_console_command (player_command ban (codes "Steve") (strip (codes " for griefing ")))
    ≡ Normalized.command (player_command ban (codes "Steve") (strip (codes " for griefing ")))
unfolding validate_player_name
player_command-accepted_example =
    player_command-accepted (codes "Steve") (codes "Steve") (codes " for griefing ") "ban" ban refl
      refl (omega arith) refl
