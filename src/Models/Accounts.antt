-- ===== src/Models/Accounts.antt =====
-- talos_panel/models.py: users, their sessions and the audit log.
use talos_panel.Base.{ℕ, String, Bool, true, false, Option}
use talos_panel.Base.Text.{Text}

pub data UserRole : Type 0 where
  admin user : UserRole

pub record User : Type 0 where
  pub id : ℕ
  pub email : Text
  pub password_hash : Text
  pub role : UserRole
  pub is_active : Bool
  pub totp_secret : Option Text
  pub totp_enabled : Bool
  pub totp_recovery_codes : Option Text

pub record UserSession : Type 0 where
  pub id : ℕ
  pub user_id : ℕ
  pub token_hash : Text
  pub csrf_secret : Text
  pub expires_at : ℕ
  pub last_seen_at : ℕ
  pub user_agent : Option Text
  pub ip_address : Option Text
  pub revoked_at : Option ℕ

-- `created_at` is the server default of the mixin, which the login limit reads.
pub record AuditEvent : Type 0 where
  pub user_id : Option ℕ
  pub action : String
  pub server_id : Option ℕ
  pub server_reference_id : Option ℕ
  pub server_name : Option Text
  pub ip_address : Option Text
  pub details : Option Text
  pub created_at : ℕ

abbrev pub is_admin : UserRole → Bool
is_admin UserRole.admin = true
is_admin UserRole.user = false
