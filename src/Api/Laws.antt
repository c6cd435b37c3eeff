-- ===== src/Api/Laws.antt =====
-- Who may start a server.
use mathlib.Core.Path.{subst}
use talos_panel.Api.{Panel, checked_server, store_state, RuntimeStatus, on_containers, start_server}
use talos_panel.Auth.Audit.{record_audit}
use talos_panel.Auth.Requests.{Request, require_csrf, require_user}
use talos_panel.Base.{
  sym, ap, ℕ, ◌≡◌, inl, inr, true, false, Option, arith, ◌==◌, Bool-cases, find, String, refl, some,
  find-modify_self, ◌∙◌,
}
use talos_panel.Base.Text.{Text}
use talos_panel.Handler.{◌>>=◌, Exec, bind_inv}
use talos_panel.Http.{Result, Result-cases}
use talos_panel.Models.Accounts.{User}
use talos_panel.Models.Servers.{MinecraftServer, installation_done, DesiredState}
use talos_panel.Permissions.{require_server_access}
use talos_panel.Permissions.Laws.{require_server_access_iff, database-require_server_access}
use talos_panel.Runtime.Interface.{Runtime}

module _ (R : Runtime) where
  -- What the checks have found: the user may see the server, whose installation is complete.
  abbrev pub Checked : Request → Option Text → ℕ → Panel R → MinecraftServer → Type 0
  Checked request token server_id w server =
      (user : User) × (require_user request ≡ Result.ok user)
      × (require_csrf request token ≡ Result.ok tt)
      × (require_server_access user server_id false w.0 ≡ (Result.ok server, w.0))
      × (installation_done server.installation_state ≡ true)

  checked_server-Checked :
      (request : Request) (token : Option Text) (server_id : ℕ) (w w' : Panel R)
      (server : MinecraftServer)
      → checked_server R request token server_id true w ≡ (Result.ok server, w')
      → Checked request token server_id w server × (w' ≡ w)
  unfolding checked_server
  checked_server-Checked request token server_id w w' server h =
      elim (Result-cases (require_csrf request token)) [
        | inl (e, k) ↦ absurd (ground arith)
        | inr (u, k) ↦ elim (Result-cases (require_user request)) [
          | inl (e, l) ↦ absurd (ground arith)
          | inr (user, l) ↦
              let same = database-require_server_access user server_id false w.0 in
              elim (Result-cases (require_server_access user server_id false w.0).0) [
                | inl (e, m) ↦ absurd (ground arith)
                | inr (v, m) ↦ elim (Bool-cases (installation_done v.installation_state)) [
                  | inl done ↦ ((user, l, k, ground arith, ground arith), ground arith)
                  | inr open' ↦ absurd (ground arith)
                ]
              ]
        ]
      ]

  store_state-desired :
      (request : Request) (action : String) (server_id : ℕ) (desired : DesiredState) (now : ℕ)
      (result : Option Text × String) (w : Panel R) (server : MinecraftServer)
      → find (λ s. s.id == server_id) w.0.servers ≡ some server
      → (stored : MinecraftServer) × (find
            (λ s. s.id == server_id)
            (store_state R request action server_id desired now result w).1.0.servers
          ≡ some stored)
        × (stored.desired_state ≡ desired)
  unfolding store_state record_audit
  store_state-desired request action server_id desired now (container_id, state) w server found = (
    record server { container_id = container_id; desired_state = desired },
    elim (Result-cases (require_user request)) [
      | inl (e, k) ↦
          rw k (find-modify_self (λ s. s.id == server_id) _ w.0.servers server found (λ y. refl))
      | inr (e, k) ↦
          rw k (find-modify_self (λ s. s.id == server_id) _ w.0.servers server found (λ y. refl))
    ],
    refl,
  )

  -- A start that succeeds was asked for with the session's CSRF token by a user who may see the
  -- server, whose installation was complete, and leaves the server stored as one that shall run.
  pub start_server_sound :
      (request : Request) (token : Option Text) (server_id now : ℕ) (w w' : Panel R)
      (status : RuntimeStatus)
      → start_server R request token server_id now w ≡ (Result.ok status, w')
      → ((server : MinecraftServer) × Checked request token server_id w server)
        × ((stored : MinecraftServer) × (find (λ s. s.id == server_id) w'.0.servers ≡ some stored)
            × (stored.desired_state ≡ DesiredState.running))
  unfolding start_server
  start_server_sound request token server_id now w w' status h =
      let after : MinecraftServer → Text × String → Exec (Panel R) RuntimeStatus = λ server started.
        store_state R request "server.start" server_id DesiredState.running now
          (some started.0, started.1) in
      let (server, w₁, e, h₁) =
        bind_inv (checked_server R request token server_id true)
          (λ server. on_containers R (R.start server) >>= after server) w w' status h in
      let (checked, same) = checked_server-Checked request token server_id w w₁ server e in
      let (started, w₂, e', h₂) =
        bind_inv (on_containers R (R.start server)) (after server) w₁ w' status h₁ in
      let database : w₂.0 ≡ w.0 = ap (λ r. r.1.0) (sym e') ∙ ap (λ v. v.0) same in
      let (user, identified, csrf, granted, installed) = checked in
      let found : find (λ s. s.id == server_id) w₂.0.servers ≡ some server =
        subst (λ db. find (λ s. s.id == server_id) db.servers ≡ some server) (sym database)
          ((require_server_access_iff user server_id false w.0 server).0 granted).0 in
      let (stored, g, d) =
        store_state-desired request "server.start" server_id DesiredState.running now
          (some started.0, started.1) w₂ server found in
      (
        (server, checked),
        (
          stored,
          subst (λ db. find (λ s. s.id == server_id) db.servers ≡ some stored) (ap (λ r. r.1.0) h₂)
              g,
          d,
        ),
      )
