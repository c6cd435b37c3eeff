-- ===== src/Security.antt =====
-- talos_panel/security_service.py. The state of the secret file and the containers that the client
-- lists are arguments.
pub mod Laws
use Prim.Native.Nat.{bit_and}
use talos_panel.Auth.Session.{Settings}
use talos_panel.Base.{
  ◌==◌, take, ℕ, String, Bool, true, false, not, Option, none, some, List, [], ◌∷◌, ◌++◌,
}
use talos_panel.Base.Text.{Text, codes, text_eq}
use talos_panel.Runtime.Console.{contains}

pub data Severity : Type 0 where
  info warning critical : Severity

pub record Finding : Type 0 where
  pub severity : Severity
  pub title : Text
  pub detail : Text

-- What the host configuration of a container shows.
pub record Inspected : Type 0 where
  pub name : Text
  pub privileged : Bool
  pub network_mode : Option Text
  pub memory : Option ℕ

-- The containers that were looked at, and the text of the exception that ended this, if one did.
pub record Listing : Type 0 where
  pub containers : List Inspected
  pub failure : Option Text

abbrev pub finding : Severity → String → Text → Finding
finding severity title detail = record { severity = severity; title = codes title; detail = detail }

abbrev found_if : Bool → Finding → List Finding
found_if true f = f ∷ []
found_if false f = []

abbrev pub on_host_network : Inspected → Bool
on_host_network c = elim c.network_mode [ none ↦ false | some m ↦ text_eq m (codes "host") ]

-- `not host_config.get("Memory")`.
abbrev pub is_unlimited : Inspected → Bool
is_unlimited c = elim c.memory [ none ↦ true | some n ↦ n == 0 ]

unfoldable pub container_findings : Inspected → List Finding
container_findings c =
    found_if c.privileged (
      finding Severity.critical "Privileged Minecraft container"
        (codes "Container " ++ c.name ++ codes " must not run in privileged mode."))
    ++ found_if (on_host_network c) (
        finding Severity.warning "Minecraft container uses host networking"
          (codes "Container " ++ c.name ++ codes " bypasses Docker network isolation."))
    ++ found_if (is_unlimited c) (
        finding Severity.warning "Minecraft container has no memory limit"
          (codes "Container " ++ c.name ++ codes " can exhaust host memory."))

unfoldable pub listed_findings : List Inspected → List Finding
listed_findings [] = []
listed_findings (c ∷ cs) = container_findings c ++ listed_findings cs

-- `mode & (stat.S_IRWXG | stat.S_IRWXO)`.
abbrev pub is_broad : ℕ → Bool
is_broad mode = not (bit_and mode 63 == 0)

-- `stat().st_mode` of the secret file, or none for an `OSError`.
unfoldable pub secret_findings : Option ℕ → List Finding
secret_findings none =
    finding Severity.critical "Application secret is unavailable"
      (codes "Talos could not inspect its persistent application secret.")
    ∷ []
secret_findings (some mode) = found_if (is_broad mode) (
    finding Severity.warning "Application secret permissions are broad"
      (codes "The secret file should be readable only by the panel process."))

unfoldable pub failure_findings : Option Text → List Finding
failure_findings none = []
failure_findings (some text) =
    finding Severity.warning "Docker security check failed" (take 240 text) ∷ []

unfoldable pub settings_findings : Settings → Text → List Finding
settings_findings settings database_url =
    found_if (not settings.secure_cookies) (
      finding Severity.warning "HTTPS cookies are disabled"
        (codes "Enable SECURE_COOKIES when the panel is served through HTTPS."))
    ++ found_if (contains (codes "change-me") database_url) (
        finding Severity.critical "Default database password"
          (codes "Replace the default PostgreSQL password before exposing the panel."))

abbrev docker_note : Finding
docker_note = finding Severity.info "Docker socket grants host-level control" (
    codes
      "Only trusted administrators should access Talos; keep the panel bound to localhost or behind an authenticated HTTPS proxy.")

unfoldable pub security_findings : Settings → Text → Option ℕ → Listing → List Finding
security_findings settings database_url mode listing =
    settings_findings settings database_url
    ++ secret_findings mode
    ++ (docker_note ∷ [])
    ++ listed_findings listing.containers
    ++ failure_findings listing.failure
