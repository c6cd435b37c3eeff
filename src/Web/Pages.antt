-- ===== src/Web/Pages.antt =====
-- The pages of talos_panel/web.py that Web models, as one type, and that none of them does anything
-- before the checks that all of them begin with. The upload of files, the extraction of archives and
-- the pages for members are not among them.
use talos_panel.Auth.Requests.{Request}
use talos_panel.Base.{ap, ℕ, String, ◌≡◌, refl, Bool, true, false, Option}
use talos_panel.Base.Text.{Text}
use talos_panel.Files.Operations.{FileOps}
use talos_panel.Handler.{◌>>=◌, Exec}
use talos_panel.Http.{Failure, Result}
use talos_panel.Platform.{Platform}
use talos_panel.Runtime.Interface.{Runtime}
use talos_panel.ServerProperties.{ServerProperties}
use talos_panel.Web.Backups.{
  create_server_backup, update_backup_policy, restore_server_backup, delete_server_backup,
}
use talos_panel.Web.Files.{
  create_server_directory, organize_server_file, save_server_text_file, delete_server_file,
  toggle_plugin,
}
use talos_panel.Web.Lifecycle.{
  start_server_ui, restart_server_ui, stop_server_ui, server_command_ui, update_restart_policy,
}
use talos_panel.Web.Players.{player_action}
use talos_panel.Web.Removal.{delete_server}
use talos_panel.Web.Settings.{update_server_settings_ui}
use talos_panel.Web.Site.{DataStore, WebEnv, Site, entered}
use talos_panel.Web.Site.Laws.{state-entered}
use talos_panel.Web.Updates.{update_server_version, rollback_server_update}

pub data Page : Type 0 where
  start stop restart : Page
  command : Text → Page
  restart_policy : Bool → Page
  delete : Text → Page
  create_backup : ℕ → Page
  backup_policy : Bool → ℕ → ℕ → Page
  restore_backup : ℕ → ℕ → Page
  delete_backup : ℕ → Page
  update : Text → ℕ → ℕ → Page
  rollback : ℕ → Page
  player : Text → String → Text → Page
  settings : ServerProperties → ℕ → ℕ → Page
  make_directory : Text → Text → Page
  organize : String → Text → Text → Text → Page
  save_text : Text → Text → ℕ → Page
  delete_file : Text → Text → Page
  plugin : Text → Bool → Page

-- Whether the page asks for the owner's access.
unfoldable pub needs_owner : Page → Bool
needs_owner Page.start = false
needs_owner Page.stop = false
needs_owner Page.restart = false
needs_owner (Page.command t) = false
needs_owner (Page.player n a r) = false
needs_owner _ = true

abbrev pub without_value : {A : Type 0} → Result A → Result (Unit {0})
without_value (Result.ok a) = Result.ok tt
without_value (Result.err e) = Result.err e

module _ (R : Runtime) (F : DataStore) (env : WebEnv) (p : Platform)
    (files : ℕ → FileOps F.State) where
  abbrev unit_of : {A : Type 0} → Exec (Site R F) A → Exec (Site R F) (Unit {0})
  unit_of m w = let (r, w') = m w in (without_value r, w')

  unfoldable pub run_page : Page → Request → Option Text → ℕ → ℕ → Exec (Site R F) (Unit {0})
  run_page Page.start request token id now = start_server_ui R F env request token id now
  run_page Page.stop request token id now = stop_server_ui R F env request token id now
  run_page Page.restart request token id now = restart_server_ui R F env request token id now
  run_page (Page.command text) request token id now =
      unit_of (server_command_ui R F env request token id text now)
  run_page (Page.restart_policy auto) request token id now =
      update_restart_policy R F env request token id auto now
  run_page (Page.delete name) request token id now = delete_server R F env request token id name now
  run_page (Page.create_backup new) request token id now =
      create_server_backup R F env request token id new now
  run_page (Page.backup_policy enabled interval retention) request token id now =
      update_backup_policy R F env request token id enabled interval retention now
  run_page (Page.restore_backup backup new) request token id now =
      restore_server_backup R F env request token id backup new now
  run_page (Page.delete_backup backup) request token id now =
      delete_server_backup R F env request token id backup now
  run_page (Page.update target backup new) request token id now =
      update_server_version R F env request token id target backup new now
  run_page (Page.rollback point) request token id now =
      rollback_server_update R F env request token id point now
  run_page (Page.player name action reason) request token id now =
      player_action R F env request token id name action reason now
  run_page (Page.settings properties memory port) request token id now =
      unit_of (update_server_settings_ui R F env request token id properties memory port now)
  run_page (Page.make_directory parent name) request token id now =
      create_server_directory R F env p files request token id parent name now
  run_page (Page.organize action source parent name) request token id now =
      organize_server_file R F env p files request token id action source parent name now
  run_page (Page.save_text path content max_bytes) request token id now =
      save_server_text_file R F env p files request token id path content max_bytes now
  run_page (Page.delete_file path timestamp) request token id now =
      delete_server_file R F env p files request token id path timestamp now
  run_page (Page.plugin path enabled) request token id now =
      toggle_plugin R F env p files request token id path enabled now

  -- One of the nineteen pages of `Page`, whose first check of the token, the user and the access to the
  -- server is refused, answers with that refusal, and neither the database nor a container nor a data
  -- directory changes.
  pub refused_page_changes_nothing :
      (page : Page) (request : Request) (token : Option Text) (id now : ℕ) (w : Site R F)
      (e : Failure)
      → (entered R F request token id (needs_owner page) w).0 ≡ Result.err e
      → run_page page request token id now w ≡ (Result.err e, w)
  unfolding run_page needs_owner start_server_ui stop_server_ui restart_server_ui server_command_ui
      update_restart_policy delete_server create_server_backup update_backup_policy
      restore_server_backup delete_server_backup update_server_version rollback_server_update
      player_action update_server_settings_ui create_server_directory organize_server_file
      save_server_text_file delete_server_file toggle_plugin
  refused_page_changes_nothing Page.start request token id now w e h =
      rw (h, state-entered R F request token id false w, ◌>>=◌) refl
  refused_page_changes_nothing Page.stop request token id now w e h =
      rw (h, state-entered R F request token id false w, ◌>>=◌) refl
  refused_page_changes_nothing Page.restart request token id now w e h =
      rw (h, state-entered R F request token id false w, ◌>>=◌) refl
  refused_page_changes_nothing (Page.command t) request token id now w e h =
      let refused : server_command_ui R F env request token id t now w ≡ (Result.err e, w) =
        rw (h, state-entered R F request token id false w, ◌>>=◌) refl in
      ap (λ v. (without_value v.0, v.1)) refused
  refused_page_changes_nothing (Page.restart_policy b) request token id now w e h =
      rw (h, state-entered R F request token id true w, ◌>>=◌) refl
  refused_page_changes_nothing (Page.delete t) request token id now w e h =
      rw (h, state-entered R F request token id true w, ◌>>=◌) refl
  refused_page_changes_nothing (Page.create_backup n) request token id now w e h =
      rw (h, state-entered R F request token id true w, ◌>>=◌) refl
  refused_page_changes_nothing (Page.backup_policy b n m) request token id now w e h =
      rw (h, state-entered R F request token id true w, ◌>>=◌) refl
  refused_page_changes_nothing (Page.restore_backup n m) request token id now w e h =
      rw (h, state-entered R F request token id true w, ◌>>=◌) refl
  refused_page_changes_nothing (Page.delete_backup n) request token id now w e h =
      rw (h, state-entered R F request token id true w, ◌>>=◌) refl
  refused_page_changes_nothing (Page.update t n m) request token id now w e h =
      rw (h, state-entered R F request token id true w, ◌>>=◌) refl
  refused_page_changes_nothing (Page.rollback n) request token id now w e h =
      rw (h, state-entered R F request token id true w, ◌>>=◌) refl
  refused_page_changes_nothing (Page.player t a r) request token id now w e h =
      rw (h, state-entered R F request token id false w, ◌>>=◌) refl
  refused_page_changes_nothing (Page.settings p n m) request token id now w e h =
      let refused : update_server_settings_ui R F env request token id p n m now w
          ≡ (Result.err e, w) =
        rw (h, state-entered R F request token id true w, ◌>>=◌) refl in
      ap (λ v. (without_value v.0, v.1)) refused
  refused_page_changes_nothing (Page.make_directory t u) request token id now w e h =
      rw (h, state-entered R F request token id true w, ◌>>=◌) refl
  refused_page_changes_nothing (Page.organize a t u v) request token id now w e h =
      rw (h, state-entered R F request token id true w, ◌>>=◌) refl
  refused_page_changes_nothing (Page.save_text t u n) request token id now w e h =
      rw (h, state-entered R F request token id true w, ◌>>=◌) refl
  refused_page_changes_nothing (Page.delete_file t u) request token id now w e h =
      rw (h, state-entered R F request token id true w, ◌>>=◌) refl
  refused_page_changes_nothing (Page.plugin t b) request token id now w e h =
      rw (h, state-entered R F request token id true w, ◌>>=◌) refl
