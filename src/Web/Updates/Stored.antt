-- ===== src/Web/Updates/Stored.antt =====
-- What an update that succeeds stores for a rollback.
use mathlib.Core.Path.{subst}
use talos_panel.Auth.Audit.{Target, on_server, record_audit}
use talos_panel.Auth.Requests.{Request, require_user}
use talos_panel.Base.{
  sym, ap, ◌==◌, ==_refl, find, find-append, ℕ, String, ◌≡◌, refl, ◌∙◌, inl, inr, true, Option,
  none, some, [], ◌∷◌, ◌++◌, arith,
}
use talos_panel.Base.Text.{Text, codes}
use talos_panel.Handler.{◌>>=◌, Exec, expect, bind_inv, expect_inv}
use talos_panel.Http.{Result, Result-cases}
use talos_panel.Models.Servers.{MinecraftServer, ServerUpdate}
use talos_panel.Models.Tables.{Database}
use talos_panel.Runtime.Interface.{Runtime}
use talos_panel.Web.Site.{DataStore, WebEnv, Site, in_database, entered, require_stopped}
use talos_panel.Web.Site.Laws.{database-require_stopped, entered_inv}
use talos_panel.Web.Updates.{
  installed_of, new_update, run_update, record_update, update_entered, update_server_version,
}
use talos_panel.Web.Updates.Laws.{finished, StoredUpdate, run_update-UpdateEnded}

module _ (R : Runtime) (F : DataStore) (env : WebEnv) where
  pub servers-record_audit :
      (request : Request) (action : String) (t : Target) (details : Option Text) (now : ℕ)
      (db : Database)
      → ((record_audit request action t details now db).1.servers ≡ db.servers)
        × ((record_audit request action t details now db).1.updates ≡ db.updates)
  unfolding record_audit
  servers-record_audit request action t details now db =
      elim (Result-cases (require_user request)) [
        | inl (e, k) ↦ (rw k refl, rw k refl)
        | inr (user, k) ↦ (rw k refl, rw k refl)
      ]

  -- What an update stores before it is tried.
  tables-record_update :
      (server : MinecraftServer) (version target : Text) (backup_id update_id now : ℕ)
      (w w' : Site R F) (u : Unit {0})
      → record_update R F env server version target backup_id update_id now w ≡ (Result.ok u, w')
      → (w'.0.updates
          ≡ w.0.updates ++ new_update update_id server backup_id version target now ∷ [])
        × (w'.0.servers ≡ w.0.servers)
  unfolding record_update
  tables-record_update server version target backup_id update_id now (db, s, f) w' u h =
      elim (Result-cases (F.create_backup server.id f).0) [
        | inl (e, k) ↦ absurd (ground arith)
        | inr (artifact, k) ↦ (ground arith, ground arith)
      ]

  installed_of-some :
      (server : MinecraftServer) (version from_version : Text)
      → server.installed_version ≡ some version
      → installed_of server ≡ some from_version
      → from_version ≡ version
  installed_of-some server version from_version h g = ground arith

  -- The row of an update whose try has succeeded.
  run-StoredUpdate :
      (target version : Text) (backup_id update_id now : ℕ) (server v : MinecraftServer)
      (w w₁ w₂ : Site R F) (u₁ u₂ : Unit {0})
      → find (λ u. u.id == update_id) w.0.updates ≡ none
      → find (λ s. s.id == server.id) w.0.servers ≡ some v
      → record_update R F env server version target backup_id update_id now w ≡ (Result.ok u₁, w₁)
      → run_update R F env server update_id target now w₁ ≡ (Result.ok u₂, w₂)
      → StoredUpdate R F env update_id
          (finished (new_update update_id server backup_id version target now) "completed" none now)
          w₂.0
  run-StoredUpdate target version backup_id update_id now server v w w₁ w₂ u₁ u₂ fresh found h g =
      let (updates, servers) =
        tables-record_update server version target backup_id update_id now w w₁ u₁ h in
      let row' = new_update update_id server backup_id version target now in
      let row : StoredUpdate R F env update_id row' w₁.0 = rw updates (
        find-append (λ u. u.id == update_id) w.0.updates (row' ∷ []) fresh
        ∙ rw (==_refl update_id) refl) in
      elim (run_update-UpdateEnded R F env server v row' target now w₁ row (rw servers found)) [
        | inl (fine, stored, there) ↦
            subst (λ r. StoredUpdate R F env update_id (finished row' "completed" none now) r.1.0) g
              stored
        | inr (inl (e, caught, failed, stored)) ↦ absurd (cc (sym failed ∙ ap (λ r. r.0) g))
        | inr (inr (e, caught, failed, stored)) ↦ absurd (cc (sym failed ∙ ap (λ r. r.0) g))
      ]

  -- The row in a later database with the same updates, under another name of the former version.
  StoredUpdate-after :
      (id : ℕ) (version : Text) (u : ServerUpdate) (now : ℕ) (db db' : Database)
      → u.from_version ≡ version
      → db'.updates ≡ db.updates
      → StoredUpdate R F env id (finished u "completed" none now) db
      → StoredUpdate R F env id
          (finished (record u { from_version = version }) "completed" none now)
          db'
  StoredUpdate-after id version u now db db' same updates stored =
      subst
        (λ x.
          find (λ v. v.id == id) db'.updates
          ≡ some (finished (record u { from_version = x }) "completed" none now))
        same (ap (λ l. find (λ v. v.id == id) l) updates ∙ stored)

  -- An update that succeeds leaves its row, which knows the former version.
  update_entered-StoredUpdate :
      (request : Request) (target version : Text) (backup_id update_id now : ℕ)
      (server v : MinecraftServer) (w w' : Site R F)
      → find (λ u. u.id == update_id) w.0.updates ≡ none
      → find (λ s. s.id == server.id) w.0.servers ≡ some v
      → server.installed_version ≡ some version
      → update_entered R F env request target backup_id update_id now server w ≡ (Result.ok tt, w')
      → StoredUpdate R F env update_id
          (finished (new_update update_id server backup_id version target now) "completed" none now)
          w'.0
  unfolding update_entered
  update_entered-StoredUpdate request target version backup_id update_id now server v w w' fresh
        found installed h =
      let audit : Text → Exec (Site R F) (Unit {0}) = λ from_version. in_database R F (
        record_audit request "server.update" (on_server server.id)
          (some (from_version ++ codes "->" ++ target)) now) in
      let run = run_update R F env server update_id target now in
      let record' = λ (from_version : Text).
        record_update R F env server from_version target backup_id update_id now in
      let check = expect (λ (v : Site R F). installed_of server) 409 "Server is not installed" in
      let (u₁, w₁, e₁, h₁) =
        bind_inv (require_stopped R F server "Stop the server before updating it")
          (λ _. check >>= λ from. record' from >>= λ _. run >>= λ _. audit from) w w' tt h in
      let (from, w₂, e₂, h₂) =
        bind_inv check (λ from. record' from >>= λ _. run >>= λ _. audit from) w₁ w' tt h₁ in
      let (u₃, w₃, e₃, h₃) = bind_inv (record' from) (λ _. run >>= λ _. audit from) w₂ w' tt h₂ in
      let (u₄, w₄, e₄, h₄) = bind_inv run (λ _. audit from) w₃ w' tt h₃ in
      let kept : w₂.0 ≡ w.0 =
        ap (λ v. v.0) (expect_inv (λ (v : Site R F). installed_of server) 409 _ w₁ w₂ from e₂).1
        ∙ database-require_stopped R F server _ w w₁ u₁ e₁ in
      let same : from ≡ version =
        installed_of-some server version from installed
          (expect_inv (λ (v : Site R F). installed_of server) 409 _ w₁ w₂ from e₂).0 in
      let stored =
        run-StoredUpdate target from backup_id update_id now server v w₂ w₃ w₄ u₃ u₄
          (subst (λ db. find (λ u. u.id == update_id) db.updates ≡ none) (sym kept) fresh)
          (subst (λ db. find (λ s. s.id == server.id) db.servers ≡ some v) (sym kept) found) e₃
          e₄ in
      StoredUpdate-after update_id version (new_update update_id server backup_id from target now)
        now w₄.0 w'.0 same
        (ap (λ r. r.1.0.updates) (sym h₄) ∙ (servers-record_audit request _ _ _ now w₄.0).1) stored

  pub update_server_version-StoredUpdate :
      (request : Request) (token : Option Text) (server_id backup_id update_id now : ℕ)
      (target version : Text) (server : MinecraftServer) (w w' : Site R F)
      → find (λ s. s.id == server_id) w.0.servers ≡ some server
      → server.installed_version ≡ some version
      → find (λ u. u.id == update_id) w.0.updates ≡ none
      → update_server_version R F env request token server_id target backup_id update_id now w
        ≡ (Result.ok tt, w')
      → (u : ServerUpdate) × StoredUpdate R F env update_id u w'.0 × (u.from_version ≡ version)
  unfolding update_server_version
  update_server_version-StoredUpdate request token server_id backup_id update_id now target version
        server w w' found installed fresh h =
      let (server', v, e, g) =
        bind_inv (entered R F request token server_id true)
          (update_entered R F env request target backup_id update_id now) w w' tt h in
      let (kept, found', id) = entered_inv R F request token server_id true w v server' e in
      let same : server' ≡ server = cc (sym found' ∙ found) in
      (
        finished (new_update update_id server' backup_id version target now) "completed" none now,
        update_entered-StoredUpdate request target version backup_id update_id now server' server' v
            w' (rw kept fresh) (rw (kept, id) found') (rw same installed) g,
        refl,
      )
