-- ===== src/Web/Site/Laws.antt =====
-- How the checks of a page end.
use mathlib.Core.Path.{sym, ap}
use talos_panel.Auth.Requests.{Request, require_csrf, require_user}
use talos_panel.Base.{
  ◌==◌, find, find-holds, ℕ, ◌≡◌, refl, inl, inr, Bool, Option, some, arith, Bool-cases, String,
  str_eq, sym, ap, ◌∙◌,
}
use talos_panel.Base.Text.{Text}
use talos_panel.Http.{Result, Result-cases}
use talos_panel.Models.Accounts.{User}
use talos_panel.Models.Servers.{MinecraftServer}
use talos_panel.Permissions.{require_server_access}
use talos_panel.Permissions.Laws.{require_server_access_iff, database-require_server_access}
use talos_panel.Runtime.Interface.{Runtime}
use talos_panel.Web.Site.{DataStore, Site, entered, require_stopped}

module _ (R : Runtime) (F : DataStore) where
  -- The checks have found the server, and the user and the token are as they must be.
  abbrev pub Granted : Request → Option Text → ℕ → Bool → Site R F → MinecraftServer → Type 0
  Granted request token id owner w server =
      (user : User) × (require_user request ≡ Result.ok user)
      × (require_csrf request token ≡ Result.ok tt)
      × (require_server_access user id owner w.0 ≡ (Result.ok server, w.0))
      × (find (λ s. s.id == id) w.0.servers ≡ some server)
      × (server.id ≡ id)

  -- A refusal and a success leave everything as it is.
  pub state-entered :
      (request : Request) (token : Option Text) (id : ℕ) (owner : Bool) (w : Site R F)
      → (entered R F request token id owner w).1 ≡ w
  unfolding entered
  state-entered request token id owner (db, s, f) =
      elim (Result-cases (require_csrf request token)) [
        | inl (e, k) ↦ rw k refl
        | inr (u, k) ↦ elim (Result-cases (require_user request)) [
          | inl (e, l) ↦ rw (k, l) refl
          | inr (user, l) ↦ rw (k, l, database-require_server_access user id owner db) refl
        ]
      ]

  pub entered-Granted :
      (request : Request) (token : Option Text) (id : ℕ) (owner : Bool) (w : Site R F)
      (server : MinecraftServer)
      → (entered R F request token id owner w).0 ≡ Result.ok server
      → Granted request token id owner w server
  unfolding entered
  entered-Granted request token id owner (db, s, f) server h =
      elim (Result-cases (require_csrf request token)) [
        | inl (e, k) ↦ absurd (ground arith)
        | inr (u, k) ↦ elim (Result-cases (require_user request)) [
          | inl (e, l) ↦ absurd (ground arith)
          | inr (user, l) ↦
              let same = database-require_server_access user id owner db in
              let granted : require_server_access user id owner db ≡ (Result.ok server, db) =
                ground arith in
              let found = ((require_server_access_iff user id owner db server).0 granted).0 in
              let holds = find-holds (λ v. v.id == id) db.servers server found in
              (user, l, k, granted, found, ground arith)
        ]
      ]

  -- A server that is found stopped: the database is as it was.
  pub database-require_stopped :
      (server : MinecraftServer) (message : String) (w w' : Site R F) (u : Unit {0})
      → require_stopped R F server message w ≡ (Result.ok u, w')
      → w'.0 ≡ w.0
  unfolding require_stopped
  database-require_stopped server message (db, s, f) w' u h =
      elim (Result-cases (R.status server s).0) [
        | inl (e, k) ↦ absurd (ground arith)
        | inr (current, k) ↦ elim (Bool-cases (str_eq current.1 "running")) [
          | inl running ↦ absurd (ground arith)
          | inr stopped ↦ ground arith
        ]
      ]

  -- The checks that succeed give the stored server and change nothing.
  pub entered_inv :
      (request : Request) (token : Option Text) (id : ℕ) (owner : Bool) (w w' : Site R F)
      (server : MinecraftServer)
      → entered R F request token id owner w ≡ (Result.ok server, w')
      → (w' ≡ w) × (find (λ s. s.id == id) w.0.servers ≡ some server) × (server.id ≡ id)
  entered_inv request token id owner w w' server h =
      let (user, l, k, granted, found, same) =
        entered-Granted request token id owner w server (ap (λ r. r.0) h) in
      (sym (ap (λ r. r.1) h) ∙ state-entered request token id owner w, found, same)
