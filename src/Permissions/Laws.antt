-- ===== src/Permissions/Laws.antt =====
-- Who reaches a server, by require_server_access and can_manage_server of permissions.py.
use talos_panel.Base.{
  ◌==◌, find, ℕ, ◌≡◌, ◌↔◌, ◌⊎◌, Bool, true, some, arith, Bool-cases, Option-cases, inl, inr,
}
use talos_panel.Http.{Failure, Result}
use talos_panel.Models.Accounts.{User, is_admin}
use talos_panel.Models.Servers.{MinecraftServer, ServerMember, is_owner}
use talos_panel.Models.Tables.{Database}
use talos_panel.Permissions.{membership_of, require_server_access, can_manage_server}

-- Access grants a server, with the database as it was, exactly when that server is stored under the
-- identifier and the user is an administrator or a member of it, as an owner if the owner's access
-- is asked for.
pub require_server_access_iff :
    (user : User) (server_id : ℕ) (owner : Bool) (db : Database) (server : MinecraftServer)
    → (require_server_access user server_id owner db ≡ (Result.ok server, db)) ↔ (
        (find (λ s. s.id == server_id) db.servers ≡ some server)
        × ((is_admin user.role ≡ true)
            ⊎ ((m : ServerMember) × (find (membership_of server_id user.id) db.members ≡ some m)
                × (owner ≡ true → is_owner m.role ≡ true))))
unfolding require_server_access
require_server_access_iff user server_id owner db server = (
  λ h. elim (Option-cases (find (membership_of server_id user.id) db.members)) [
    | inl none' ↦ (ground arith, inl (ground arith))
    | inr (m, e) ↦ elim (Bool-cases (is_admin user.role)) [
      | inl a ↦ (ground arith, inl a)
      | inr n ↦ (ground arith, inr (m, e, λ o. ground arith))
    ]
  ],
  λ h. ground arith,
)

-- A refusal does not tell a missing server from one that the user must not see: it is status 404
-- with the same detail, and the database stays as it is.
pub access_refusal :
    (user : User) (server_id : ℕ) (owner : Bool) (db : Database) (e : Failure)
    → (require_server_access user server_id owner db).0 ≡ Result.err e
    → (e ≡ Failure.http 404 "Server not found")
      × ((require_server_access user server_id owner db).1 ≡ db)
unfolding require_server_access
access_refusal user server_id owner db e h = (ground arith, ground arith)

-- Whoever may manage a stored server is granted the owner's access to it, and the other way round.
pub can_manage-require_server_access :
    (user : User) (server_id : ℕ) (db : Database) (server : MinecraftServer)
    → find (λ s. s.id == server_id) db.servers ≡ some server
    → (can_manage_server user server_id db ≡ true)
      ↔ ((require_server_access user server_id true db).0 ≡ Result.ok server)
unfolding require_server_access can_manage_server
can_manage-require_server_access user server_id db server e = ground arith

pub database-require_server_access :
    (user : User) (server_id : ℕ) (owner : Bool) (db : Database)
    → (require_server_access user server_id owner db).1 ≡ db
unfolding require_server_access
database-require_server_access user server_id owner db =
    elim (Option-cases (find (λ s. s.id == server_id) db.servers)) [
      | inl missing ↦ ground arith
      | inr (server, found) ↦ ground arith
    ]
