-- ===== src/Tests/Accounts.antt =====
-- Users and permissions at concrete inputs.
use talos_panel.Auth.Audit.{record_audit}
use talos_panel.Auth.Requests.{require_csrf, require_user, require_admin}
use talos_panel.Auth.Session.{default_settings, minutes, load_identity}
use talos_panel.Base.{
  ◌==◌, find, ◌≤◌, ◌≡◌, refl, ◌≢◌, ◌↔◌, ◌⊎◌, true, false, Option, some, [], ◌∷◌, arith, ℕ,
}
use talos_panel.Base.Text.{Text}
use talos_panel.Http.{Failure, Result}
use talos_panel.Models.Accounts.{UserRole, User, is_admin}
use talos_panel.Models.Servers.{ServerMember, is_owner}
use talos_panel.Models.Tables.{Database}
use talos_panel.Permissions.{membership_of, require_server_access, can_manage_server}
use talos_panel.Permissions.Laws.{
  require_server_access_iff, access_refusal, can_manage-require_server_access,
}
use talos_panel.Tests.World.{platform, ann, bob, session, survival, database, from_ann}
use talos_panel.Users.{StatusAction, update_user_status, delete_user, revoke_sessions, remove_user}
use talos_panel.Users.Admins.{
  active_admins, update_user_status_keeps_admin, delete_user_keeps_admin,
  delete_user_may_leave_none,
}
use talos_panel.Users.Lockout.{disabled_user_locked_out, deleted_user_locked_out}
use talos_panel.Users.Rows.{DistinctIds}

-- The second user as an administrator.
abbrev chief : User
chief = record bob { role = UserRole.admin }

abbrev two_admins : Database
two_admins = record database { users = ann ∷ chief ∷ [] }

abbrev csrf : Option Text
csrf = some (b'c' ∷ [])

two_admins-DistinctIds : DistinctIds two_admins.users
two_admins-DistinctIds = (((λ e. omega arith), tt), (tt, tt))

update_user_status_keeps_admin_example :
    1
    ≤ active_admins
        (update_user_status platform from_ann csrf 2 StatusAction.disable 0 two_admins).1
update_user_status_keeps_admin_example =
    update_user_status_keeps_admin platform from_ann csrf 2 StatusAction.disable 0 two_admins
      two_admins-DistinctIds (omega arith)

delete_user_keeps_admin_example :
    1 ≤ active_admins (delete_user platform from_ann csrf 2 0 two_admins).1
unfolding require_admin require_user
delete_user_keeps_admin_example =
    delete_user_keeps_admin platform from_ann csrf 2 0 two_admins ann ann refl refl refl

-- The administrator who asks has been disabled since the request was identified.
abbrev late : Database
late = record database { users = record ann { is_active = false } ∷ chief ∷ [] }

delete_user_may_leave_none_example :
    (active_admins (delete_user platform from_ann csrf 2 0 late).1 ≡ 0)
    × ((update_user_status platform from_ann csrf 2 StatusAction.disable 0 late).0
        ≡ Result.err (Failure.http 409 "The last active administrator cannot be disabled"))
unfolding require_admin require_user require_csrf
delete_user_may_leave_none_example =
    delete_user_may_leave_none platform from_ann csrf 0 late ann chief
      (((λ e. omega arith), tt), (tt, tt)) refl refl (λ e. omega arith) refl refl refl (omega arith)

-- The cookie of a session of the user who is not disabled still gives that user.
disabled_user_locked_out_example : ◌≢◌ {A = ℕ} 1 2
unfolding update_user_status load_identity require_admin require_user require_csrf record_audit
    revoke_sessions
disabled_user_locked_out_example =
    disabled_user_locked_out platform from_ann csrf 2 0 two_admins default_settings b't' []
      (minutes 5) ann (record session { last_seen_at = minutes 5 }) refl refl

deleted_user_locked_out_example : ◌≢◌ {A = ℕ} 1 2
unfolding delete_user load_identity require_admin require_user require_csrf record_audit remove_user
deleted_user_locked_out_example =
    deleted_user_locked_out platform from_ann csrf 2 0 two_admins ann default_settings b't' []
      (minutes 5) ann (record session { last_seen_at = minutes 5 }) refl refl refl

require_server_access_iff_example :
    (require_server_access bob 5 false database ≡ (Result.ok survival, database)) ↔ (
      (find (λ s. s.id == 5) database.servers ≡ some survival)
      × ((is_admin bob.role ≡ true)
          ⊎ ((m : ServerMember) × (find (membership_of 5 2) database.members ≡ some m)
              × (false ≡ true → is_owner m.role ≡ true))))
require_server_access_iff_example = require_server_access_iff bob 5 false database survival

can_manage-require_server_access_example :
    (can_manage_server bob 5 database ≡ true)
    ↔ ((require_server_access bob 5 true database).0 ≡ Result.ok survival)
can_manage-require_server_access_example =
    can_manage-require_server_access bob 5 database survival refl

access_refusal_example :
    (Failure.http 404 "Server not found" ≡ Failure.http 404 "Server not found")
    × ((require_server_access bob 6 false database).1 ≡ database)
unfolding require_server_access
access_refusal_example =
    access_refusal bob 6 false database (Failure.http 404 "Server not found") refl
