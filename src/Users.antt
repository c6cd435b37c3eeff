-- ===== src/Users.antt =====
-- talos_panel/auth_web.py, the administration of users: `create_user`, `revoke_user_sessions`,
-- `reset_user_two_factor`, `update_user_status` and `delete_user`.
pub mod Account
pub mod Rows
pub mod Admins
pub mod Lockout
use talos_panel.Auth.Audit.{no_server, record_audit}
use talos_panel.Auth.Passwords.{hash_password, normalized_email}
use talos_panel.Auth.Requests.{Request, require_csrf, require_admin}
use talos_panel.Auth.Session.{is_revoked}
use talos_panel.Base.{
  leb, ◌==◌, if◌then◌else◌, is_some, count, find, select, modify, ℕ, String, Bool, true, false, not,
  ◌&&◌, Option, none, some, [], ◌∷◌, ◌++◌,
}
use talos_panel.Base.Text.{Text, text_eq}
use talos_panel.Handler.{◌>>=◌, ◌>>◌, Handler, lift, refuse_if, gets, expect, write}
use talos_panel.Models.Accounts.{UserRole, User, is_admin}
use talos_panel.Models.Tables.{Database}
use talos_panel.Platform.{Platform}

abbrev pub has_id : ℕ → User → Bool
has_id k u = u.id == k

-- Sessions of a user that are not revoked are revoked now.
unfoldable pub revoke_sessions : ℕ → ℕ → Database → Database
revoke_sessions user_id now db = record db {
  sessions =
      modify (λ s. s.user_id == user_id && not (is_revoked s))
        (λ s. record s { revoked_at = some now }) db.sessions;
}

-- `select(func.count(User.id)).where(User.role == ADMIN, User.is_active)`, and without the latter.
abbrev pub is_active_admin : User → Bool
is_active_admin u = is_admin u.role && u.is_active

pub create_user :
    Platform
    → Request
    → Option Text
    → ℕ
    → ℕ
    → Text
    → Text
    → UserRole
    → Text
    → ℕ
    → Handler (Unit {0})
create_user p request csrf_token id salt email password role details now = do
  _ ← lift (require_admin request)
  lift (require_csrf request csrf_token)
  password_hash ← lift (hash_password p salt password)
  address ← lift (normalized_email p email)
  taken ← gets (λ db. is_some (find (λ u. text_eq u.email address) db.users))
  refuse_if taken 409 "A user with this email already exists"
  let user : User = record {
    id = id;
    email = address;
    password_hash = password_hash;
    role = role;
    is_active = true;
    totp_secret = none;
    totp_enabled = false;
    totp_recovery_codes = none;
  }
  write (λ db. record db { users = db.users ++ user ∷ [] })
  record_audit request "user.create" no_server (some details) now

pub revoke_user_sessions : Platform → Request → Option Text → ℕ → ℕ → Handler (Unit {0})
revoke_user_sessions p request csrf_token user_id now = do
  _ ← lift (require_admin request)
  lift (require_csrf request csrf_token)
  write (revoke_sessions user_id now)
  record_audit request "user.sessions_revoke" no_server (some (p.uuid_text user_id)) now

-- `administrator is None or not verify_password(…)`.
abbrev password_matches : Platform → Text → Option User → Bool
password_matches p password none = false
password_matches p password (some u) = p.verify u.password_hash password

-- `secret` is what `pyotp.random_base32` draws.
pub reset_user_two_factor :
    Platform → Request → Option Text → ℕ → Text → Text → ℕ → Handler (Unit {0})
reset_user_two_factor p request csrf_token user_id current_password secret now = do
  current_user ← lift (require_admin request)
  lift (require_csrf request csrf_token)
  refuse_if (user_id == current_user.id) 409 "Use your account settings to disable 2FA"
  administrator ← gets (λ db. find (has_id current_user.id) db.users)
  refuse_if (not (password_matches p current_password administrator)) 400
      "Current password is incorrect"
  target ← expect (λ db. find (has_id user_id) db.users) 404 "User not found"
  write (λ db. record db {
    users =
        modify (has_id user_id)
          (λ u. record u {
            totp_enabled = false;
            totp_secret = some secret;
            totp_recovery_codes = none;
          })
          db.users;
  })
  write (revoke_sessions user_id now)
  record_audit request "user.2fa_reset" no_server (some (p.uuid_text user_id)) now

pub data StatusAction : Type 0 where
  enable disable : StatusAction

abbrev pub disables : StatusAction → Bool
disables StatusAction.enable = false
disables StatusAction.disable = true

abbrev status_event : StatusAction → String
status_event StatusAction.enable = "user.enable"
status_event StatusAction.disable = "user.disable"

-- `f"{target_email}:{user_id}"`.
abbrev about : Platform → User → Option Text
about p u = some (u.email ++ (b':' ∷ p.uuid_text u.id))

abbrev set_active : ℕ → Bool → Database → Database
set_active user_id active db = record db {
  users = modify (has_id user_id) (λ u. record u { is_active = active }) db.users;
}

unfoldable pub update_user_status :
    Platform → Request → Option Text → ℕ → StatusAction → ℕ → Handler (Unit {0})
update_user_status p request csrf_token user_id action now = do
  current_user ← lift (require_admin request)
  lift (require_csrf request csrf_token)
  refuse_if (user_id == current_user.id && disables action) 409
      "You cannot disable your own account"
  target ← expect (λ db. find (has_id user_id) db.users) 404 "User not found"
  active_admins ← gets (λ db. count is_active_admin db.users)
  refuse_if (disables action && is_active_admin target && leb active_admins 1) 409
      "The last active administrator cannot be disabled"
  write (set_active user_id (not (disables action)))
  write (λ db. if disables action then revoke_sessions user_id now db else db)
  record_audit request (status_event action) no_server (about p target) now

-- The rows that go with a user: the memberships are deleted by the handler, the sessions by the
-- cascade, and audit rows keep their place without the user.
unfoldable pub remove_user : ℕ → Database → Database
remove_user user_id db = record db {
  members = select (λ m. not (m.user_id == user_id)) db.members;
  users = select (λ u. not (has_id user_id u)) db.users;
  sessions = select (λ s. not (s.user_id == user_id)) db.sessions;
  audit =
      modify (λ e. elim e.user_id [ none ↦ false | some k ↦ k == user_id ])
        (λ e. record e { user_id = none }) db.audit;
}

unfoldable pub delete_user : Platform → Request → Option Text → ℕ → ℕ → Handler (Unit {0})
delete_user p request csrf_token user_id now = do
  current_user ← lift (require_admin request)
  lift (require_csrf request csrf_token)
  refuse_if (user_id == current_user.id) 409 "You cannot delete your own account"
  target ← expect (λ db. find (has_id user_id) db.users) 404 "User not found"
  admin_count ← gets (λ db. count (λ u. is_admin u.role) db.users)
  refuse_if (is_admin target.role && leb admin_count 1) 409
      "The last administrator cannot be deleted"
  write (remove_user user_id)
  record_audit request "user.delete" no_server (about p target) now
