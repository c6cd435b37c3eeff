-- ===== src/ServerProperties.antt =====
-- talos_panel/server_settings.py: the settings of a server, the console commands that apply a change
-- to a running server, and the text of server.properties after a change.
pub mod Laws
use talos_panel.Base.{
  ◌==◌, if◌then◌else◌, any, map_option, ℕ, String, Bool, true, false, not, ◌||◌, Option, none, some,
  List, [], ◌∷◌, ◌++◌, map, str_eq,
}
use talos_panel.Base.Decimal.{number_text}
use talos_panel.Base.Text.{Text, codes, text_eq, strip}

pub record ServerProperties : Type 0 where
  pub motd : Text
  pub gamemode : Text
  pub difficulty : Text
  pub max_players : ℕ
  pub whitelist : Bool
  pub pvp : Bool
  pub allow_flight : Bool
  pub view_distance : ℕ
  pub simulation_distance : ℕ

abbrev command_if : Bool → String → Text → List (String × Text)
command_if true field command = (field, command) ∷ []
command_if false field command = []

abbrev pub same_bool : Bool → Bool → Bool
same_bool true b = b
same_bool false b = not b

-- `changed_setting_fields`, field by field in the order of the class.
unfoldable pub changed_settings : ServerProperties → ServerProperties → List (String × Bool)
changed_settings before after =
    ("motd", not (text_eq before.motd after.motd))
    ∷ ("gamemode", not (text_eq before.gamemode after.gamemode))
    ∷ ("difficulty", not (text_eq before.difficulty after.difficulty))
    ∷ ("max_players", not (before.max_players == after.max_players))
    ∷ ("whitelist", not (same_bool before.whitelist after.whitelist))
    ∷ ("pvp", not (same_bool before.pvp after.pvp))
    ∷ ("allow_flight", not (same_bool before.allow_flight after.allow_flight))
    ∷ ("view_distance", not (before.view_distance == after.view_distance))
    ∷ ("simulation_distance", not (before.simulation_distance == after.simulation_distance))
    ∷ []

-- `field in changed`.
abbrev pub has_changed_setting : String → List (String × Bool) → Bool
has_changed_setting field [] = false
has_changed_setting field ((name, changed) ∷ rest) =
    if str_eq name field then changed else has_changed_setting field rest

unfoldable pub live_setting_commands : ServerProperties → ServerProperties → List (String × Text)
unfolding changed_settings
live_setting_commands before after =
    let changed = changed_settings before after in
    command_if (has_changed_setting "difficulty" changed) "difficulty"
      (codes "difficulty " ++ after.difficulty)
    ++ command_if (has_changed_setting "gamemode" changed) "gamemode"
        (codes "defaultgamemode " ++ after.gamemode)
    ++ command_if (has_changed_setting "whitelist" changed) "whitelist"
        (codes "whitelist " ++ (if after.whitelist then codes "on" else codes "off"))

-- `str(flag).lower()`.
abbrev flag_text : Bool → Text
flag_text true = codes "true"
flag_text false = codes "false"

-- `value.replace("\r", " ").replace("\n", " ")`.
abbrev one_line : Text → Text
one_line s = map (λ c. if c == 13 || c == 10 then 32 else c) s

unfoldable pub serialized : ServerProperties → List (Text × Text)
serialized s =
    (codes "motd", one_line s.motd)
    ∷ (codes "gamemode", s.gamemode)
    ∷ (codes "difficulty", s.difficulty)
    ∷ (codes "max-players", number_text s.max_players)
    ∷ (codes "white-list", flag_text s.whitelist)
    ∷ (codes "pvp", flag_text s.pvp)
    ∷ (codes "allow-flight", flag_text s.allow_flight)
    ∷ (codes "view-distance", number_text s.view_distance)
    ∷ (codes "simulation-distance", number_text s.simulation_distance)
    ∷ []

before_equals : Text → Option Text
before_equals [] = none
before_equals (c ∷ s) =
    let rest = before_equals s in if c == b'=' then some [] else map_option (λ t. c ∷ t) rest

-- `line.split("=", 1)[0].strip() if "=" in line else None`.
unfoldable pub line_key : Text → Option Text
unfolding before_equals
line_key line = map_option strip (before_equals line)

abbrev pub value_of : Text → List (Text × Text) → Option Text
value_of key [] = none
value_of key ((k, v) ∷ rest) = if text_eq k key then some v else value_of key rest

abbrev pub is_member : Text → List Text → Bool
is_member k ks = any (λ j. text_eq j k) ks

abbrev entry : Text → Text → Text
entry key value = key ++ (b'=' ∷ value)

-- What stands for one line of the file, by its key if that is written here: the line, the new entry
-- at its first occurrence, or nothing.
abbrev written_key : List (Text × Text) → Text → Option (Text × Text)
written_key entries line = elim (line_key line) [
  | none ↦ none
  | some key ↦ map_option (λ value. (key, value)) (value_of key entries)
]

-- The keys that were not met are added at the end.
added : List (Text × Text) → List Text → List Text
added [] written = []
added ((key, value) ∷ rest) written =
    if is_member key written then added rest written else entry key value ∷ added rest written

unfoldable pub merge_lines : List (Text × Text) → List Text → List Text → List Text
unfolding added
merge_lines entries [] written = added entries written
merge_lines entries (line ∷ lines) written = elim (written_key entries line) [
  | none ↦ line ∷ merge_lines entries lines written
  | some (key, value) ↦
      if is_member key written
      then merge_lines entries lines written
      else entry key value ∷ merge_lines entries lines (key ∷ written)
]

-- `write_server_properties`, from the lines of the file to its new text.
unfoldable pub join_lines : List Text → Text
join_lines [] = []
join_lines (line ∷ lines) = line ++ (10 ∷ join_lines lines)

unfoldable pub written_properties : ServerProperties → List Text → Text
written_properties settings existing = join_lines (merge_lines (serialized settings) existing [])
