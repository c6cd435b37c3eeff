-- ===== src/Web/Players.antt =====
-- talos_panel/player_service.py, `validate_player_name`, and talos_panel/web.py, `player_action`.
pub mod Laws
use talos_panel.Auth.Audit.{on_server, record_audit}
use talos_panel.Auth.Requests.{Request, require_user}
use talos_panel.Base.{
  ltb, leb, ◌==◌, if◌then◌else◌, length, any, all, find, ℕ, String, Bool, true, false, not, ◌&&◌,
  ◌||◌, Option, none, some, List, [], ◌∷◌, ◌++◌, str_eq,
}
use talos_panel.Base.Text.{
  Text, codes, text_eq, strip, is_lower_ascii, is_upper_ascii, is_digit_ascii,
}
use talos_panel.Handler.{◌>>=◌, ◌>>◌, Exec, pure, lift, refuse_if, gets, expect}
use talos_panel.Permissions.{can_manage_server}
use talos_panel.Runtime.Interface.{Runtime}
use talos_panel.Web.Site.{
  DataStore, WebEnv, catching, is_command_error, Site, in_database, in_runtime, entered,
}

abbrev pub is_name_character : ℕ → Bool
is_name_character c = is_lower_ascii c || is_upper_ascii c || is_digit_ascii c || c == b'_'

-- None stands for the `ValueError`.
unfoldable pub validate_player_name : Text → Option Text
validate_player_name name =
    let normalized = strip name in
    if leb 1 (length normalized) && leb (length normalized) 16 && all is_name_character normalized
    then some normalized
    else none

-- A row of `PLAYER_ACTION_COMMANDS`: the text in front of the name, and the action of the audit.
pub record PlayerAction : Type 0 where
  pub name : String
  pub command : String
  pub audited : String
  pub takes_reason : Bool

abbrev action : String → String → String → Bool → PlayerAction
action name command audited takes_reason = record {
  name = name;
  command = command;
  audited = audited;
  takes_reason = takes_reason;
}

abbrev pub player_actions : List PlayerAction
player_actions =
    action "kick" "kick " "player.kick" true
    ∷ action "ban" "ban " "player.ban" true
    ∷ action "pardon" "pardon " "player.pardon" false
    ∷ action "whitelist_add" "whitelist add " "player.whitelist_add" false
    ∷ action "whitelist_remove" "whitelist remove " "player.whitelist_remove" false
    ∷ action "op" "op " "player.op" false
    ∷ action "deop" "deop " "player.deop" false
    ∷ []

-- The console command of an action on a name, with the stripped reason.
unfoldable pub player_command : PlayerAction → Text → Text → Text
player_command a name reason =
    let command = codes a.command ++ name in
    if a.takes_reason && not (text_eq reason []) then command ++ (32 ∷ reason) else command

unfoldable pub player_details : Text → Text → Text
player_details name reason = if text_eq reason [] then name else name ++ codes ": " ++ reason

module _ (R : Runtime) (F : DataStore) (env : WebEnv) where
  -- The checks of the form's fields, in the order of the page.
  unfoldable pub checked_action : Text → String → Text → Exec (Site R F) (Text × PlayerAction)
  checked_action player_name action_name reason = do
    name ←
        expect (λ w. validate_player_name player_name) 422
          "Player name must contain 1–16 letters, numbers, or underscores"
    chosen ←
        expect (λ w. find (λ a. str_eq a.name action_name) player_actions) 422
          "Unsupported player action"
    refuse_if (any (λ c. ltb c 32) (strip reason)) 422 "Reason contains unsupported characters"
    pure (name, chosen)

  unfoldable pub player_action :
      Request → Option Text → ℕ → Text → String → Text → ℕ → Exec (Site R F) (Unit {0})
  player_action request csrf_token server_id player_name action_name reason now = do
    server ← entered R F request csrf_token server_id false
    user ← in_database R F (lift (require_user request))
    allowed ← gets (λ (db, s, f). can_manage_server user server.id db)
    refuse_if (not allowed) 403 "Owner access required"
    chosen ← checked_action player_name action_name reason
    _ ←
        catching env is_command_error 409
          (in_runtime R F (R.send_command server (player_command chosen.1 chosen.0 (strip reason))))
    in_database R F (
        record_audit request chosen.1.audited (on_server server.id)
          (some (player_details chosen.0 (strip reason))) now)
