-- ===== src/Auth/Requests.antt =====
-- talos_panel/auth.py, `require_csrf`, `require_same_origin`, `require_user`, `require_admin`,
-- `content_security_policy` and `AuthenticationMiddleware`.
pub mod Laws
use mathlib.Core.List.{reverse}
use talos_panel.Auth.Session.{Settings, load_identity}
use talos_panel.Base.{
  ltb, ◌==◌, if◌then◌else◌, is_some, all, ℕ, String, Bool, true, false, not, ◌&&◌, ◌||◌, Option,
  none, some, List, [], ◌∷◌, ◌++◌,
}
use talos_panel.Base.Text.{Text, codes, text_eq, has_prefix}
use talos_panel.Http.{Failure, Result, raise_if, ◌>>=◌}
use talos_panel.Models.Accounts.{User, UserSession, is_admin}
use talos_panel.Models.Tables.{Database}

-- What the middleware leaves in `request.state`, and the headers that the checks read.
pub record Request : Type 0 where
  pub user : Option User
  pub auth_session : Option UserSession
  pub origin : Option Text
  pub host : Option Text
  pub client : Option Text

-- `hmac.compare_digest` on two strings raises `TypeError` unless both are ASCII.
abbrev pub is_ascii : Text → Bool
is_ascii s = all (λ c. ltb c 128) s

abbrev pub compare_digest : Text → Text → Result Bool
compare_digest a b =
    if is_ascii a && is_ascii b
    then Result.ok (text_eq a b)
    else Result.err (Failure.crash "TypeError")

abbrev invalid_csrf : Failure
invalid_csrf = Failure.http 403 "Invalid CSRF token"

abbrev accept : Failure → Bool → Result (Unit {0})
accept e same = if same then Result.ok tt else Result.err e

unfoldable pub require_csrf : Request → Option Text → Result (Unit {0})
require_csrf request supplied = elim request.auth_session [
  | none ↦ Result.err invalid_csrf
  | some session ↦ elim supplied [
    | none ↦ Result.err invalid_csrf
    | some token ↦
        if text_eq token []
        then Result.err invalid_csrf
        else compare_digest session.csrf_secret token >>= accept invalid_csrf
  ]
]

-- `origin.rstrip("/")`.
abbrev strip_slashes : Text → Text
strip_slashes [] = []
strip_slashes (c ∷ s) = let rest = strip_slashes s in if c == b'/' then rest else c ∷ s

rstrip_slashes : Text → Text
rstrip_slashes s = reverse (strip_slashes (reverse s))

-- An f-string writes a missing header as `None`.
abbrev header_text : Option Text → Text
header_text none = codes "None"
header_text (some h) = h

allowed_origin : Request → Text → Bool
unfolding rstrip_slashes
allowed_origin request origin =
    let o = rstrip_slashes origin in
    text_eq o (codes "http://" ++ header_text request.host)
    || text_eq o (codes "https://" ++ header_text request.host)

unfoldable pub require_same_origin : Request → Result (Unit {0})
unfolding allowed_origin
require_same_origin request = elim request.origin [
  | none ↦ Result.ok tt
  | some origin ↦
      raise_if (not (text_eq origin []) && not (allowed_origin request origin))
        (Failure.http 403 "Invalid request origin")
]

unfoldable pub require_user : Request → Result User
require_user request = elim request.user [
  | none ↦ Result.err (Failure.http 401 "Authentication required")
  | some user ↦ Result.ok user
]

unfoldable pub require_admin : Request → Result User
unfolding require_user
require_admin request = require_user request >>= λ user.
    if is_admin user.role
    then Result.ok user
    else Result.err (Failure.http 403 "Administrator access required")

-- The two policies of `content_security_policy`.
pub data Policy : Type 0 where
  own_sources docs_sources : Policy

pub content_security_policy : Text → Policy
content_security_policy path =
    if has_prefix path (codes "/docs") || text_eq path (codes "/redoc")
    then Policy.docs_sources
    else Policy.own_sources

-- `path.startswith(("/static/", "/language/"))`.
is_asset : Text → Bool
is_asset path = has_prefix path (codes "/static/") || has_prefix path (codes "/language/")

unfoldable pub is_public : Text → Bool
unfolding is_asset
is_public path =
    text_eq path (codes "/health")
    || is_asset path
    || (text_eq path (codes "/login") || text_eq path (codes "/setup"))

-- The paths that are served before the first user exists.
unfoldable pub is_setup : Text → Bool
unfolding is_asset
is_setup path = text_eq path (codes "/setup") || text_eq path (codes "/health") || is_asset path

unfoldable pub is_api : Text → Bool
is_api path = has_prefix path (codes "/api/")

-- The answers of the middleware: it calls the application, or refuses with a JSON error below
-- `/api/` and with a redirect elsewhere. A refusal for want of a user deletes the cookie.
pub data Gate : Type 0 where
  call : Option User → Option UserSession → Gate
  setup_required : Gate
  redirect_setup : Gate
  authentication_required : Gate
  redirect_login : Gate

unfoldable pub gate : Text → Bool → Option (User × UserSession) → Gate
gate path has_users identity =
    if not has_users && not (is_setup path)
    then (if is_api path then Gate.setup_required else Gate.redirect_setup)
    else if has_users && not (is_public path) && not (is_some identity)
    then (if is_api path then Gate.authentication_required else Gate.redirect_login)
    else elim identity [
      | none ↦ Gate.call none none
      | some (user, session) ↦ Gate.call (some user) (some session)
    ]

-- The headers that `secure_send` appends, by name; the policy is the one of the path.
pub secure_headers : Settings → Text → List String × Policy
secure_headers settings path = (
  "x-content-type-options"
      ∷ "referrer-policy"
      ∷ "x-frame-options"
      ∷ "content-security-policy"
      ∷ (if settings.secure_cookies then "strict-transport-security" ∷ [] else []),
  content_security_policy path,
)

abbrev pub has_rows {ℓ} : {A : Type ℓ} → List A → Bool
has_rows [] = false
has_rows (x ∷ xs) = true

-- `AuthenticationMiddleware.__call__`: what is not HTTP goes to the application as it is.
unfoldable pub authenticate :
    (Text → Text) → Settings → Bool → Text → Option Text → ℕ → Database → Gate × Database
unfolding gate
authenticate sha256 settings is_http path token now db =
    if not is_http
    then (Gate.call none none, db)
    else (let (identity, db') = load_identity sha256 settings token now db in
        (gate path (has_rows db'.users) identity, db'))
