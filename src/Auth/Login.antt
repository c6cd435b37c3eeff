-- ===== src/Auth/Login.antt =====
-- talos_panel/auth_web.py, `setup_admin`, `login` and `logout`.
pub mod Laws
pub mod Attempts
use talos_panel.Auth.Audit.{no_server, record_audit}
use talos_panel.Auth.Passwords.{hash_password, normalized_email, Factor, verify_second_factor}
use talos_panel.Auth.Requests.{Request, require_csrf, require_same_origin, has_rows}
use talos_panel.Auth.Session.{Settings, minutes, same_session, create_session}
use talos_panel.Base.{
  ltb, leb, ◌==◌, if◌then◌else◌, length, take, count, find, modify, ℕ, ◌+◌, Bool, true, false, not,
  ◌&&◌, ◌||◌, Option, none, some, [], ◌∷◌, ◌++◌, str_eq,
}
use talos_panel.Base.Text.{Text, text_eq, strip}
use talos_panel.Handler.{◌>>=◌, ◌>>◌, Handler, pure, lift, refuse_if, gets, write}
use talos_panel.Http.{Result}
use talos_panel.Models.Accounts.{UserRole, User, UserSession, AuditEvent}
use talos_panel.Models.Tables.{Database, event, add_event}
use talos_panel.Platform.{Platform, lower_text}

-- The form of a login, with what is read from the connection and drawn at random.
pub record Attempt : Type 0 where
  pub request : Request
  pub email : Text
  pub password : Text
  pub totp_code : Text
  pub user_agent : Option Text
  pub now : ℕ
  pub session_id : ℕ
  pub raw_token : Text
  pub csrf_secret : Text

-- A session that was opened, or the login page with status 401.
pub data Answer : Type 0 where
  opened : UserSession → Answer
  rejected : Answer

abbrev pub same_client : Option Text → Option Text → Bool
same_client none none = true
same_client (some a) (some b) = text_eq a b
same_client _ _ = false

-- The rows that the limit counts: failures of this client in the last fifteen minutes.
abbrev pub is_recent_failure : Option Text → ℕ → AuditEvent → Bool
is_recent_failure client now e =
    str_eq e.action "auth.login_failed"
    && same_client e.ip_address client
    && leb now (e.created_at + minutes 15)

abbrev pub user_by_email : Platform → Text → Database → Option User
user_by_email p email db = find (λ u. text_eq u.email (lower_text p (strip email))) db.users

unfoldable pub store_user : User → Database → Database
store_user user db = record db { users = modify (λ u. u.id == user.id) (λ _. user) db.users }

-- `AuditEvent(action="auth.login_failed", …, details=email[:320])` and the 401 page.
unfoldable pub reject : Attempt → Handler Answer
reject a = do
  write
      (add_event (event none "auth.login_failed" a.request.client (some (take 320 a.email)) a.now))
  pure Answer.rejected

unfoldable pub open_session : Platform → Settings → Attempt → User → Handler Answer
open_session p settings a user db =
    let (session, db') =
      create_session p.recovery.sha256 settings user a.session_id a.raw_token a.csrf_secret
        a.user_agent a.request.client a.now db in
    (Result.ok (Answer.opened session), db')

-- What follows a password that is right, of an active user: the second factor, if it is enabled.
unfoldable pub second_step : Platform → Settings → Attempt → User → Handler Answer
unfolding reject open_session store_user
second_step p settings a user =
    if not user.totp_enabled
    then open_session p settings a user
    else (elim (verify_second_factor p user a.now a.totp_code) [
      | Result.err e ↦ lift (Result.err e)
      | Result.ok (factor, user') ↦ elim factor [
        | none ↦ reject a
        | some Factor.totp ↦ open_session p settings a user'
        | some Factor.recovery ↦ do
          write (store_user user')
          write (
              add_event
                (event (some user.id) "auth.recovery_code_used" a.request.client none a.now))
          open_session p settings a user'
      ]
    ])

-- The password is verified for a user that is not there too, against the dummy hash.
unfoldable pub first_step : Platform → Settings → Attempt → Option User → Handler Answer
first_step p settings a none =
    let valid = p.verify p.dummy_hash a.password in if valid then reject a else reject a
first_step p settings a (some user) =
    if not (p.verify user.password_hash a.password) || not user.is_active
    then reject a
    else second_step p settings a user

unfoldable pub login : Platform → Settings → Attempt → Handler Answer
login p settings a = do
  refuse_if (ltb 32 (length a.totp_code)) 422 "totp_code: String should have at most 32 characters"
  lift (require_same_origin a.request)
  failures ← gets (λ db. count (is_recent_failure a.request.client a.now) db.audit)
  refuse_if (leb 5 failures) 429 "Too many login attempts; try again later"
  user ← gets (user_by_email p a.email)
  first_step p settings a user

-- `setup_admin`, under the advisory lock: the identifier of the user is `id`.
pub setup_admin : Platform → Settings → ℕ → ℕ → Attempt → Handler Answer
unfolding open_session
setup_admin p settings id salt a = do
  lift (require_same_origin a.request)
  password_hash ← lift (hash_password p salt a.password)
  exists ← gets (λ db. has_rows db.users)
  refuse_if exists 409 "Initial administrator already exists"
  email ← lift (normalized_email p a.email)
  let user : User = record {
    id = id;
    email = email;
    password_hash = password_hash;
    role = UserRole.admin;
    is_active = true;
    totp_secret = none;
    totp_enabled = false;
    totp_recovery_codes = none;
  }
  write (λ db. record db { users = db.users ++ user ∷ [] })
  open_session p settings a user

-- `logout`: revokes the session of the request and deletes the cookie.
pub logout : Request → Option Text → ℕ → Handler (Unit {0})
logout request csrf_token now = do
  lift (require_csrf request csrf_token)
  write (λ db. elim request.auth_session [
    | none ↦ db
    | some session ↦ record db {
      sessions =
          modify (same_session session) (λ s. record s { revoked_at = some now }) db.sessions;
    }
  ])
  record_audit request "auth.logout" no_server none now
