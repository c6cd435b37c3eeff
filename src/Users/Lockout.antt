-- ===== src/Users/Lockout.antt =====
-- The identity of a user who has been disabled or deleted.
use mathlib.Core.Path.{subst}
use talos_panel.Auth.Requests.{Request, require_admin}
use talos_panel.Auth.Session.{Settings, load_identity}
use talos_panel.Auth.Session.Laws.{load_identity_iff}
use talos_panel.Base.{
  ◌==◌, find, select, modify, ℕ, ◌≡◌, ◌≢◌, inl, inr, Bool, true, false, not, Option, some, List, [],
  ◌∷◌, arith,
}
use talos_panel.Base.Text.{Text}
use talos_panel.Http.{Result}
use talos_panel.Models.Accounts.{User, UserSession}
use talos_panel.Models.Tables.{Database}
use talos_panel.Platform.{Platform}
use talos_panel.Users.{has_id, StatusAction, update_user_status, delete_user}
use talos_panel.Users.Admins.{status_users, delete_users}

find_disabled :
    (k : ℕ) (q : User → Bool) (us : List User) (u : User)
    → find q (modify (has_id k) (λ u. record u { is_active = false }) us) ≡ some u
    → u.is_active ≡ true
    → u.id ≢ k
find_disabled k q [] u e a = absurd (ground arith)
find_disabled k q (v ∷ vs) u e a = ground (arith, find_disabled k q vs u)

find_deleted :
    (k : ℕ) (q : User → Bool) (us : List User) (u : User)
    → find q (select (λ v. not (has_id k v)) us) ≡ some u
    → u.id ≢ k
find_deleted k q [] u e = absurd (ground arith)
find_deleted k q (v ∷ vs) u e = ground (arith, find_deleted k q vs u)

-- Once a user has been disabled with success, no cookie gives that user's identity from the
-- database that the request leaves, at any time and under any settings.
pub disabled_user_locked_out :
    (p : Platform) (request : Request) (token : Option Text) (k now : ℕ) (db : Database)
    (settings : Settings) (c : ℕ) (cs : Text) (later : ℕ) (u : User) (s : UserSession)
    → (update_user_status p request token k StatusAction.disable now db).0 ≡ Result.ok tt
    → (load_identity p.recovery.sha256 settings
        (some (c ∷ cs))
        later
        (update_user_status p request token k StatusAction.disable now db).1).0
      ≡ some (u, s)
    → u.id ≢ k
disabled_user_locked_out p request token k now db settings c cs later u s done found =
    let (t, live, _) = (load_identity_iff p.recovery.sha256 settings c cs later _ u s).0 found in
    elim (status_users p request token k StatusAction.disable now db) [
      | inl (failed, same) ↦ absurd (failed done)
      | inr (target, there, spare, changed) ↦
          find_disabled k (λ v. v.id == t.user_id) db.users u
            (subst (λ us. find (λ v. v.id == t.user_id) us ≡ some u) changed live.owner) live.active
    ]

-- Once a user has been deleted with success, no cookie gives that user's identity from the
-- database that the request leaves, at any time and under any settings.
pub deleted_user_locked_out :
    (p : Platform) (request : Request) (token : Option Text) (k now : ℕ) (db : Database)
    (admin' : User) (settings : Settings) (c : ℕ) (cs : Text) (later : ℕ) (u : User)
    (s : UserSession)
    → require_admin request ≡ Result.ok admin'
    → (delete_user p request token k now db).0 ≡ Result.ok tt
    → (load_identity p.recovery.sha256 settings
        (some (c ∷ cs))
        later
        (delete_user p request token k now db).1).0
      ≡ some (u, s)
    → u.id ≢ k
deleted_user_locked_out p request token k now db admin' settings c cs later u s q done found =
    let (t, live, _) = (load_identity_iff p.recovery.sha256 settings c cs later _ u s).0 found in
    elim (delete_users p request token k now db admin' q) [
      | inl (failed, same) ↦ absurd (failed done)
      | inr (other, changed) ↦
          find_deleted k (λ v. v.id == t.user_id) db.users u
            (subst (λ us. find (λ v. v.id == t.user_id) us ≡ some u) changed live.owner)
    ]
