-- ===== src/Web/Updates/RoundTrip.antt =====
-- An update and its rollback.
use mathlib.Core.Path.{subst}
use talos_panel.Auth.Audit.{on_server, record_audit}
use talos_panel.Auth.Requests.{Request}
use talos_panel.Base.{
  sym, ap, ◌==◌, Bool-cases, Option-cases, find, modify, find-modify_self, ℕ, ◌≡◌, refl, ◌∙◌, inl,
  inr, true, ◌&&◌, Option, none, some, arith,
}
use talos_panel.Base.Text.{Text}
use talos_panel.Handler.{◌>>=◌, Exec, expect, bind_inv, expect_inv}
use talos_panel.Http.{Result, Result-cases}
use talos_panel.Install.Versions.{java_version_for}
use talos_panel.Install.Waiting.{stored}
use talos_panel.Models.Servers.{MinecraftServer, Backup, ServerUpdate}
use talos_panel.Models.Tables.{Database}
use talos_panel.Runtime.Interface.{Runtime}
use talos_panel.Web.Site.{
  DataStore, WebEnv, Site, in_database, entered, require_stopped, server_backup,
}
use talos_panel.Web.Site.Laws.{database-require_stopped, entered_inv}
use talos_panel.Web.Updates.{
  recovery_point, update_server_version, undo_update, rollback_entered, rollback_server_update,
}
use talos_panel.Web.Updates.Laws.{StoredUpdate, StoredServer}
use talos_panel.Web.Updates.Stored.{servers-record_audit, update_server_version-StoredUpdate}

module _ (R : Runtime) (F : DataStore) (env : WebEnv) where
  StoredVersion : ℕ → Text → Database → Type 0
  StoredVersion id version db =
      StoredServer R F env id
        (λ v. (v.installed_version ≡ some version) × (v.game_version ≡ version)) db

  StoredVersion-same :
      (id : ℕ) (version : Text) (db db' : Database)
      → db'.servers ≡ db.servers
      → StoredVersion id version db
      → StoredVersion id version db'
  unfolding StoredVersion
  StoredVersion-same id version db db' h (stored, there, versions) =
      (stored, ap (λ l. find (λ s. s.id == id) l) h ∙ there, versions)

  undo_update-StoredVersion :
      (server v : MinecraftServer) (u : ServerUpdate) (backup : Backup) (w w' : Site R F)
      (t : Unit {0})
      → find (λ s. s.id == server.id) w.0.servers ≡ some v
      → undo_update R F env server u backup w ≡ (Result.ok t, w')
      → StoredVersion server.id u.from_version w'.0
  unfolding undo_update StoredVersion
  undo_update-StoredVersion server v u backup (db, s, f) w' t found h =
      elim (Result-cases (F.restore_backup server.id backup.file_name backup.checksum_sha256 f).0) [
        | inl (e, k) ↦ absurd (ground arith)
        | inr (t', k) ↦ elim (Result-cases (java_version_for env.unicode u.from_version)) [
          | inl (e, j) ↦ absurd (ground arith)
          | inr (java, j) ↦
              let restored = record server {
                installed_version = some u.from_version;
                game_version = u.from_version;
                java_version = some java;
              } in
              elim (Result-cases (R.remove restored s).0) [
                | inl (e, r) ↦ absurd (ground arith)
                | inr (c, r) ↦
                    let change : MinecraftServer → MinecraftServer = λ v. record v {
                      installed_version = some u.from_version;
                      game_version = u.from_version;
                      java_version = some java;
                      container_id = none;
                    } in
                    let servers : w'.0.servers ≡ modify (λ v. v.id == server.id) change db.servers =
                      ground arith in
                    (
                      change v,
                      rw servers (
                          find-modify_self (λ v. v.id == server.id) change db.servers v found
                            (λ y. refl)),
                      (refl, refl),
                    )
              ]
        ]
      ]

  state-server_backup :
      (server_id backup_id : ℕ) (w w' : Site R F) (b : Backup)
      → server_backup R F server_id backup_id w ≡ (Result.ok b, w')
      → w' ≡ w
  unfolding server_backup
  state-server_backup server_id backup_id w w' b h =
      (expect_inv
        (λ (db, s, f). find (λ b. b.id == backup_id && b.server_id == server_id) db.backups) 404 _ w
        w' b h).1

  recovery_point-same :
      (update_id server_id : ℕ) (db : Database) (u : ServerUpdate) (point : ServerUpdate × ℕ)
      → find (λ v. v.id == update_id) db.updates ≡ some u
      → recovery_point update_id server_id db ≡ some point
      → point.0 ≡ u
  recovery_point-same update_id server_id db u point h g =
      elim (Bool-cases (u.server_id == server_id)) [
        | inr other ↦ absurd (ground arith)
        | inl own ↦ elim (Option-cases u.backup_id) [
          | inl none' ↦ absurd (ground arith)
          | inr (b, e) ↦ ground arith
        ]
      ]

  -- A rollback that succeeds stores the former version of the update that it undoes.
  rollback_entered-StoredVersion :
      (request : Request) (update_id now : ℕ) (server v : MinecraftServer) (u : ServerUpdate)
      (w w' : Site R F)
      → StoredUpdate R F env update_id u w.0
      → find (λ s. s.id == server.id) w.0.servers ≡ some v
      → rollback_entered R F env request update_id now server w ≡ (Result.ok tt, w')
      → StoredVersion server.id u.from_version w'.0
  unfolding rollback_entered
  rollback_entered-StoredVersion request update_id now server v u w w' row found h =
      let audit : Exec (Site R F) (Unit {0}) =
        in_database R F
          (record_audit request "server.update_rollback" (on_server server.id) none now) in
      let undo : ServerUpdate × ℕ → Backup → Exec (Site R F) (Unit {0}) =
        λ point backup. undo_update R F env server point.0 backup in
      let seek : Exec (Site R F) (ServerUpdate × ℕ) =
        expect (λ (db, s, f). recovery_point update_id server.id db) 404
          "Update recovery point not found" in
      let pick : ServerUpdate × ℕ → Exec (Site R F) Backup =
        λ point. server_backup R F server.id point.1 in
      let (u₁, w₁, e₁, h₁) =
        bind_inv (require_stopped R F server "Stop the server before rolling back")
          (λ _. seek >>= λ point. pick point >>= λ b. undo point b >>= λ _. audit) w w' tt h in
      let (point, w₂, e₂, h₂) =
        bind_inv seek (λ point. pick point >>= λ b. undo point b >>= λ _. audit) w₁ w' tt h₁ in
      let (b, w₃, e₃, h₃) = bind_inv (pick point) (λ b. undo point b >>= λ _. audit) w₂ w' tt h₂ in
      let (u₄, w₄, e₄, h₄) = bind_inv (undo point b) (λ _. audit) w₃ w' tt h₃ in
      let query : Site R F → Option (ServerUpdate × ℕ) =
        λ (db, s, f). recovery_point update_id server.id db in
      let (pointed, same₂) = expect_inv query 404 _ w₁ w₂ point e₂ in
      let stopped = database-require_stopped R F server _ w w₁ u₁ e₁ in
      let kept : w₃.0 ≡ w.0 =
        ap (λ v. v.0) (state-server_backup server.id point.1 w₂ w₃ b e₃ ∙ same₂) ∙ stopped in
      let same : point.0 ≡ u =
        recovery_point-same update_id server.id w₁.0 u point (rw stopped row) pointed in
      StoredVersion-same server.id u.from_version w₄.0 w'.0
        (ap (λ r. r.1.0.servers) (sym h₄) ∙ (servers-record_audit R F env request _ _ _ now w₄.0).0)
        (subst (λ x. StoredVersion server.id x.from_version w₄.0) same
          (undo_update-StoredVersion server v point.0 b w₃ w₄ u₄ (rw kept found) e₄))

  rollback_server_update-StoredVersion :
      (request : Request) (token : Option Text) (server_id update_id now : ℕ) (u : ServerUpdate)
      (w w' : Site R F)
      → StoredUpdate R F env update_id u w.0
      → rollback_server_update R F env request token server_id update_id now w ≡ (Result.ok tt, w')
      → StoredVersion server_id u.from_version w'.0
  unfolding rollback_server_update
  rollback_server_update-StoredVersion request token server_id update_id now u w w' row h =
      let (server, v, e, g) =
        bind_inv (entered R F request token server_id true)
          (rollback_entered R F env request update_id now) w w' tt h in
      let (kept, found, id) = entered_inv R F request token server_id true w v server e in
      subst (λ i. StoredVersion i u.from_version w'.0) id
        (rollback_entered-StoredVersion request update_id now server server u v w' (rw kept row)
          (rw (kept, id) found) g)

  -- An update that succeeds, under a new identifier, and a later rollback of it that succeeds, where
  -- the row of the update is as the update left it and everything else is in any state: the server is
  -- stored with the version that it had, as its installed version and as its game version.
  pub rollback-update :
      (request request' : Request) (token token' : Option Text)
      (server_id backup_id update_id now later : ℕ) (target version : Text)
      (server : MinecraftServer) (w w₁ w₂ w₃ : Site R F)
      → find (λ s. s.id == server_id) w.0.servers ≡ some server
      → server.installed_version ≡ some version
      → find (λ u. u.id == update_id) w.0.updates ≡ none
      → update_server_version R F env request token server_id target backup_id update_id now w
        ≡ (Result.ok tt, w₁)
      → find (λ u. u.id == update_id) w₂.0.updates ≡ find (λ u. u.id == update_id) w₁.0.updates
      → rollback_server_update R F env request' token' server_id update_id later w₂
        ≡ (Result.ok tt, w₃)
      → StoredServer R F env server_id
          (λ v. (v.installed_version ≡ some version) × (v.game_version ≡ version))
          w₃.0
  unfolding StoredVersion
  rollback-update request request' token token' server_id backup_id update_id now later target
        version server w w₁ w₂ w₃ found installed fresh h same h' =
      let (u, row, from) =
        update_server_version-StoredUpdate R F env request token server_id backup_id update_id now
          target version server w w₁ found installed fresh h in
      subst (λ x. StoredVersion server_id x w₃.0) from
        (rollback_server_update-StoredVersion request' token' server_id update_id later u w₂ w₃
          (same ∙ row) h')
