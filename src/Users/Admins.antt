-- ===== src/Users/Admins.antt =====
-- Active administrators before and after `update_user_status` and `delete_user`.
use talos_panel.Auth.Audit.{no_server, users-record_audit}
use talos_panel.Auth.Requests.{Request, require_csrf, require_admin}
use talos_panel.Base.{
  count, find, modify, ℕ, ◌≤◌, ◌≡◌, refl, ◌⊎◌, Bool, true, false, not, Option, some, List, arith,
  leb, ◌==◌, Bool-cases, Option-cases, inl, inr, ◌&&◌, if◌then◌else◌, select, ◌∙◌, ◌≢◌,
}
use talos_panel.Base.Text.{Text}
use talos_panel.Http.{Result-cases, Failure, Result}
use talos_panel.Models.Accounts.{User, is_admin}
use talos_panel.Models.Tables.{Database}
use talos_panel.Platform.{Platform}
use talos_panel.Users.{
  has_id, revoke_sessions, is_active_admin, StatusAction, disables, update_user_status,
  status_event, about, set_active, remove_user, delete_user,
}
use talos_panel.Users.Rows.{DistinctIds, count-modify, count-select, find-select_ne, find-count}

abbrev pub active_admins : Database → ℕ
active_admins db = count is_active_admin db.users

set_active_keeps :
    (k : ℕ) (active : Bool) (us : List User) (t : User)
    → DistinctIds us
    → find (has_id k) us ≡ some t
    → (active ≡ false → is_active_admin t ≡ true → 2 ≤ count is_active_admin us)
    → 1 ≤ count is_active_admin us
    → 1 ≤ count is_active_admin (modify (has_id k) (λ u. record u { is_active = active }) us)
set_active_keeps k true us t d e many one =
    ground (arith, count-modify is_active_admin (λ u. record u { is_active = true }) k us t d e)
set_active_keeps k false us t d e many one = ground (
  arith,
  many refl,
  count-modify is_active_admin (λ u. record u { is_active = false }) k us t d e,
)

-- What `update_user_status` does to the users: nothing, or the change of the target's row.
pub status_users :
    (p : Platform) (request : Request) (token : Option Text) (k : ℕ) (action : StatusAction)
    (now : ℕ) (db : Database)
    → (((update_user_status p request token k action now db).0 ≢ Result.ok tt)
        × ((update_user_status p request token k action now db).1.users ≡ db.users))
      ⊎ ((t : User) × (find (has_id k) db.users ≡ some t)
          × (disables action ≡ true → is_active_admin t ≡ true → 2 ≤ active_admins db)
          × ((update_user_status p request token k action now db).1.users
              ≡ modify (has_id k) (λ u. record u { is_active = not (disables action) }) db.users))
unfolding update_user_status revoke_sessions
status_users p request token k action now db = elim (Result-cases (require_admin request)) [
  | inl (e, q) ↦ inl (λ r. ground arith, ground arith)
  | inr (u, q) ↦ elim (Result-cases (require_csrf request token)) [
    | inl (e, q') ↦ inl (λ r. ground arith, ground arith)
    | inr (tt', q') ↦ elim (Option-cases (find (has_id k) db.users)) [
      | inl missing ↦ inl (λ r. ground arith, ground arith)
      | inr (t, found) ↦ elim (Bool-cases (k == u.id && disables action)) [
        | inl own ↦ inl (λ r. ground arith, ground arith)
        | inr other ↦
            elim (Bool-cases (disables action && is_active_admin t && leb (active_admins db) 1)) [
              | inl last ↦ inl (λ r. ground arith, ground arith)
              | inr spare ↦
                  let changed = set_active k (not (disables action)) db in
                  let revoked =
                    if disables action then revoke_sessions k now changed else changed in
                  let audited =
                    users-record_audit request (status_event action) no_server (about p t) now
                      revoked in
                  inr (t, found, λ d a. ground arith, ground (arith, audited))
            ]
      ]
    ]
  ]
]

-- Enabling or disabling a user, however the request ends, keeps an active administrator, where
-- the identifiers of the users are distinct and one is active before.
pub update_user_status_keeps_admin :
    (p : Platform) (request : Request) (token : Option Text) (k : ℕ) (action : StatusAction)
    (now : ℕ) (db : Database)
    → DistinctIds db.users
    → 1 ≤ active_admins db
    → 1 ≤ active_admins (update_user_status p request token k action now db).1
update_user_status_keeps_admin p request token k action now db d one =
    elim (status_users p request token k action now db) [
      | inl (failed, same) ↦ rw same one
      | inr (t, found, spare, changed) ↦ rw changed (
          set_active_keeps k (not (disables action)) db.users t d found
            (λ off. spare (ground arith)) one)
    ]

pub delete_users :
    (p : Platform) (request : Request) (token : Option Text) (k : ℕ) (now : ℕ) (db : Database)
    (u : User)
    → require_admin request ≡ Result.ok u
    → (((delete_user p request token k now db).0 ≢ Result.ok tt)
        × ((delete_user p request token k now db).1.users ≡ db.users))
      ⊎ ((k ≢ u.id)
          × ((delete_user p request token k now db).1.users
              ≡ select (λ v. not (has_id k v)) db.users))
unfolding delete_user remove_user
delete_users p request token k now db u q = elim (Result-cases (require_csrf request token)) [
  | inl (e, q') ↦ inl (λ r. ground arith, ground arith)
  | inr (tt', q') ↦ elim (Option-cases (find (has_id k) db.users)) [
    | inl missing ↦ inl (λ r. ground arith, ground arith)
    | inr (t, found) ↦ elim (Bool-cases (k == u.id)) [
      | inl own ↦ inl (λ r. ground arith, ground arith)
      | inr other ↦
          elim (Bool-cases (is_admin t.role && leb (count (λ v. is_admin v.role) db.users) 1)) [
            | inl last ↦ inl (λ r. ground arith, ground arith)
            | inr spare ↦
                let audited =
                  users-record_audit request "user.delete" no_server (about p t) now
                    (remove_user k db) in
                inr (ground arith, ground (arith, audited))
          ]
    ]
  ]
]

-- Deleting a user, however the request ends, keeps an active administrator, where the administrator
-- who asks is stored and active.
pub delete_user_keeps_admin :
    (p : Platform) (request : Request) (token : Option Text) (k : ℕ) (now : ℕ) (db : Database)
    (u stored : User)
    → require_admin request ≡ Result.ok u
    → find (has_id u.id) db.users ≡ some stored
    → is_active_admin stored ≡ true
    → 1 ≤ active_admins (delete_user p request token k now db).1
delete_user_keeps_admin p request token k now db u stored q found active =
    elim (delete_users p request token k now db u q) [
      | inl (failed, same) ↦
          rw same (find-count is_active_admin (has_id u.id) db.users stored found active)
      | inr (other, deleted) ↦ rw deleted (
          find-count is_active_admin (has_id u.id) _ stored
            (find-select_ne k u.id db.users other ∙ found) active)
    ]

-- The check of `delete_user` counts administrators that are disabled too. Where identifiers are
-- distinct, the target is the only active administrator and another one is disabled, a valid
-- request of a different administrator deletes the target and leaves no active administrator,
-- although its request to disable the target is refused with status 409.
pub delete_user_may_leave_none :
    (p : Platform) (request : Request) (token : Option Text) (now : ℕ) (db : Database) (u t : User)
    → DistinctIds db.users
    → require_admin request ≡ Result.ok u
    → require_csrf request token ≡ Result.ok tt
    → t.id ≢ u.id
    → find (has_id t.id) db.users ≡ some t
    → is_active_admin t ≡ true
    → active_admins db ≡ 1
    → 2 ≤ count (λ v. is_admin v.role) db.users
    → (active_admins (delete_user p request token t.id now db).1 ≡ 0)
      × ((update_user_status p request token t.id StatusAction.disable now db).0
          ≡ Result.err (Failure.http 409 "The last active administrator cannot be disabled"))
unfolding delete_user remove_user update_user_status
delete_user_may_leave_none p request token now db u t d q q' ne found active one many =
    let audited =
      users-record_audit request "user.delete" no_server (about p t) now (remove_user t.id db) in
    let gone = count-select is_active_admin t.id db.users t d found in
    (ground (arith, audited, gone), ground arith)
