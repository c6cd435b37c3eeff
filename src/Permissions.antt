-- ===== src/Permissions.antt =====
-- talos_panel/permissions.py: which servers a user reaches, and who manages a server.
-- talos_panel/web.py: `add_server_member` and `remove_server_member`.
pub mod Laws
use talos_panel.Auth.Audit.{on_server, record_audit}
use talos_panel.Auth.Requests.{Request, require_csrf, require_admin}
use talos_panel.Base.{
  ◌==◌, if◌then◌else◌, is_some, find, select, modify, ℕ, Bool, true, false, not, ◌&&◌, ◌||◌, Option,
  none, some, List, [], ◌∷◌, ◌++◌,
}
use talos_panel.Base.Text.{Text}
use talos_panel.Handler.{◌>>=◌, ◌>>◌, Handler, pure, lift, refuse_if, gets, expect, write}
use talos_panel.Http.{Failure, raise_if}
use talos_panel.Models.Accounts.{User, is_admin}
use talos_panel.Models.Servers.{ServerRole, MinecraftServer, ServerMember, is_owner}
use talos_panel.Models.Tables.{Database}

abbrev pub membership_of : ℕ → ℕ → ServerMember → Bool
membership_of server_id user_id m = m.server_id == server_id && m.user_id == user_id

-- `select(MinecraftServer)`, joined with the memberships of the user unless that is an administrator.
joined : User → List ServerMember → MinecraftServer → List MinecraftServer
joined user [] server = []
joined user (m ∷ ms) server =
    let rest = joined user ms server in
    if m.server_id == server.id && m.user_id == user.id then server ∷ rest else rest

join_members : User → List ServerMember → List MinecraftServer → List MinecraftServer
unfolding joined
join_members user members [] = []
join_members user members (s ∷ ss) = joined user members s ++ join_members user members ss

pub accessible_servers : User → Database → List MinecraftServer
unfolding join_members
accessible_servers user db =
    if is_admin user.role then db.servers else join_members user db.members db.servers

-- `membership is None or (owner and membership.role is not ServerRole.OWNER)`.
abbrev lacks_access : Bool → Option ServerMember → Bool
lacks_access owner none = true
lacks_access owner (some m) = owner && not (is_owner m.role)

unfoldable pub require_server_access : User → ℕ → Bool → Handler MinecraftServer
require_server_access user server_id owner = do
  server ← expect (λ db. find (λ s. s.id == server_id) db.servers) 404 "Server not found"
  membership ← gets (λ db. find (membership_of server_id user.id) db.members)
  refuse_if (not (is_admin user.role) && lacks_access owner membership) 404 "Server not found"
  pure server

abbrev owns : Option ServerMember → Bool
owns none = false
owns (some m) = is_owner m.role

unfoldable pub can_manage_server : User → ℕ → Database → Bool
can_manage_server user server_id db =
    is_admin user.role || owns (find (membership_of server_id user.id) db.members)

-- `member.role = role`, or a new row: the unique constraint holds at most one row of the pair.
abbrev set_member : ℕ → ℕ → ServerRole → Database → Database
set_member server_id user_id role db = record db {
  members =
      if is_some (find (membership_of server_id user_id) db.members)
      then modify (membership_of server_id user_id) (λ m. record m { role = role }) db.members
      else db.members ++ record { server_id = server_id; user_id = user_id; role = role } ∷ [];
}

-- A new membership needs a stored user: its foreign key is checked by the database.
pub add_server_member :
    Request → Option Text → ℕ → ℕ → ServerRole → Option Text → ℕ → Handler (Unit {0})
add_server_member request csrf_token server_id user_id role details now = do
  user ← lift (require_admin request)
  lift (require_csrf request csrf_token)
  _ ← require_server_access user server_id false
  known ← gets (λ db.
      is_some (find (membership_of server_id user_id) db.members)
      || is_some (find (λ u. u.id == user_id) db.users))
  lift (raise_if (not known) (Failure.crash "IntegrityError"))
  write (set_member server_id user_id role)
  record_audit request "server.member_set" (on_server server_id) details now

pub remove_server_member : Request → Option Text → ℕ → ℕ → Option Text → ℕ → Handler (Unit {0})
remove_server_member request csrf_token server_id user_id details now = do
  user ← lift (require_admin request)
  lift (require_csrf request csrf_token)
  _ ← require_server_access user server_id false
  present ← gets (λ db. is_some (find (membership_of server_id user_id) db.members))
  write (λ db. record db {
    members = select (λ m. not (membership_of server_id user_id m)) db.members;
  })
  if present
      then record_audit request "server.member_remove" (on_server server_id) details now
      else pure tt
