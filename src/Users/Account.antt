-- ===== src/Users/Account.antt =====
-- talos_panel/auth_web.py, a user's own account: `update_two_factor`, `revoke_own_session` and
-- `change_password`. Of `account_context` only the missing secret that it draws is state.
use talos_panel.Auth.Audit.{no_server, record_audit}
use talos_panel.Auth.Passwords.{hash_password, verify_second_factor}
use talos_panel.Auth.Recovery.{generate_recovery_codes}
use talos_panel.Auth.Requests.{Request, require_csrf, require_user}
use talos_panel.Auth.Session.{is_revoked}
use talos_panel.Base.{
  ◌==◌, if◌then◌else◌, is_some, find, modify, ℕ, String, Bool, true, false, not, ◌&&◌, Option, none,
  some, List, [],
}
use talos_panel.Base.Text.{Text, text_eq}
use talos_panel.Handler.{◌>>=◌, ◌>>◌, Handler, pure, lift, refuse_if, expect, write}
use talos_panel.Http.{Failure, Result}
use talos_panel.Install.Waiting.{stored}
use talos_panel.Models.Accounts.{User, UserSession}
use talos_panel.Models.Tables.{Database}
use talos_panel.Platform.{Platform}

pub data TwoFactorAction : Type 0 where
  enable disable regenerate : TwoFactorAction

abbrev issues_codes : TwoFactorAction → Bool
issues_codes TwoFactorAction.disable = false
issues_codes _ = true

abbrev two_factor_event : TwoFactorAction → String
two_factor_event TwoFactorAction.enable = "auth.2fa_enable"
two_factor_event TwoFactorAction.disable = "auth.2fa_disable"
two_factor_event TwoFactorAction.regenerate = "auth.2fa_regenerate"

abbrev secret_ready : User → Bool
secret_ready u = elim u.totp_secret [ none ↦ false | some t ↦ not (text_eq t []) ]

-- `request.state.auth_session.id`, after `require_csrf` has found a session.
abbrev current_session : Request → Result UserSession
current_session request = elim request.auth_session [
  | none ↦ Result.err (Failure.crash "AttributeError")
  | some s ↦ Result.ok s
]

-- The user's other sessions that are not revoked are revoked now.
unfoldable pub revoke_others : ℕ → ℕ → ℕ → Database → Database
revoke_others user_id kept now db = record db {
  sessions =
      modify (λ s. s.user_id == user_id && not (s.id == kept) && not (is_revoked s))
        (λ s. record s { revoked_at = some now }) db.sessions;
}

-- The user's row after the action; `secret` and `choice` are drawn at random.
apply_two_factor : Platform → (ℕ → ℕ) → Text → TwoFactorAction → User → User
apply_two_factor p choice secret TwoFactorAction.disable u = record u {
  totp_enabled = false;
  totp_secret = some secret;
  totp_recovery_codes = none;
}
apply_two_factor p choice secret _ u = record u {
  totp_enabled = true;
  totp_recovery_codes = some (generate_recovery_codes p.recovery choice).1;
}

abbrev starts_two_factor : TwoFactorAction → Bool
starts_two_factor TwoFactorAction.enable = true
starts_two_factor _ = false

abbrev save_user : User → Database → Database
save_user u db = record db { users = modify (λ v. v.id == u.id) (λ _. u) db.users }

-- Returns the codes that are shown once.
pub update_two_factor :
    Platform
    → Request
    → Option Text
    → (ℕ → ℕ)
    → Text
    → TwoFactorAction
    → Text
    → Text
    → ℕ
    → Handler (List Text)
unfolding apply_two_factor
update_two_factor p request csrf_token choice secret action totp_code current_password now = do
  user ← lift (require_user request)
  lift (require_csrf request csrf_token)
  stored ← expect (λ db. find (λ u. u.id == user.id) db.users) 409 "Two-factor setup is not ready"
  refuse_if (not (secret_ready stored)) 409 "Two-factor setup is not ready"
  refuse_if (not (p.verify stored.password_hash current_password)) 400
      "Current password is incorrect"
  checked ← lift (verify_second_factor p stored now totp_code)
  refuse_if (not (is_some checked.0)) 422 "Invalid authentication code"
  session ← lift (current_session request)
  write (save_user (apply_two_factor p choice secret action checked.1))
  write (λ db. if starts_two_factor action then revoke_others user.id session.id now db else db)
  record_audit request (two_factor_event action) no_server none now
  pure (if issues_codes action then (generate_recovery_codes p.recovery choice).0 else [])

pub revoke_own_session : Platform → Request → Option Text → ℕ → ℕ → Handler (Unit {0})
revoke_own_session p request csrf_token session_id now = do
  user ← lift (require_user request)
  lift (require_csrf request csrf_token)
  session ← lift (current_session request)
  refuse_if (session_id == session.id) 409 "Use log out to close the current session"
  write (λ db. record db {
    sessions =
        modify (λ s. s.id == session_id && s.user_id == user.id && not (is_revoked s))
          (λ s. record s { revoked_at = some now }) db.sessions;
  })
  record_audit request "auth.session_revoke" no_server (some (p.uuid_text session_id)) now

pub change_password : Platform → Request → Option Text → ℕ → Text → Text → ℕ → Handler (Unit {0})
change_password p request csrf_token salt current_password new_password now = do
  user ← lift (require_user request)
  lift (require_csrf request csrf_token)
  stored ← expect (λ db. find (λ u. u.id == user.id) db.users) 400 "Current password is incorrect"
  refuse_if (not (p.verify stored.password_hash current_password)) 400
      "Current password is incorrect"
  password_hash ← lift (hash_password p salt new_password)
  session ← lift (current_session request)
  write (save_user (record stored { password_hash = password_hash }))
  write (revoke_others user.id session.id now)
  record_audit request "auth.password_change" no_server none now
