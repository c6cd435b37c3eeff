-- ===== src/Web/Lifecycle/Laws.antt =====
-- How a stop ends, and what the maintenance makes of it.
use mathlib.Core.Path.{subst}
use talos_panel.Auth.Audit.{record_audit}
use talos_panel.Auth.Requests.{Request, require_user}
use talos_panel.Base.{
  sym, ◌==◌, find, find-modify_self, ℕ, ◌≡◌, refl, ◌∙◌, ◌⊎◌, inl, inr, false, Option, some, modify,
}
use talos_panel.Base.Text.{Text}
use talos_panel.Handler.{◌>>=◌, bind-ok}
use talos_panel.Http.{Failure, Result, Result-cases}
use talos_panel.Models.Accounts.{User}
use talos_panel.Models.Servers.{DesiredState, MinecraftServer, wants_running}
use talos_panel.Models.Tables.{Database}
use talos_panel.Operations.Recovery.{OperationsEnv, Sampled, recover}
use talos_panel.Operations.Recovery.Laws.{recover_leaves_alone}
use talos_panel.Runtime.Commands.{RuntimeSnapshot}
use talos_panel.Runtime.Interface.{Runtime}
use talos_panel.Web.Lifecycle.{stop_or_reset, stop_entered, stop_server_ui}
use talos_panel.Web.Site.{DataStore, WebEnv, Site, entered, set_server}
use talos_panel.Web.Site.Laws.{state-entered, entered-Granted}

module _ (R : Runtime) (F : DataStore) (env : WebEnv) where
  abbrev StoredDesired : ℕ → DesiredState → Database → Type 0
  StoredDesired id desired db =
      (stored : MinecraftServer) × (find (λ s. s.id == id) db.servers ≡ some stored)
      × (stored.desired_state ≡ desired)

  -- No maintenance pass over the row that is stored starts the server.
  abbrev pub LeftAlone : ℕ → Database → Type 0
  LeftAlone id db =
      (operations : OperationsEnv) (stored : MinecraftServer) (snap : RuntimeSnapshot) (later : ℕ)
      (s : R.State)
      → find (λ v. v.id == id) db.servers ≡ some stored
      → (r : Sampled) × (recover R operations stored snap later s ≡ (Result.ok r, s))

  LeftAlone-stopped :
      (id : ℕ) (db : Database) → StoredDesired id DesiredState.stopped db → LeftAlone id db
  LeftAlone-stopped id db (v, found, h) operations stored snap later s found' =
      let same : v ≡ stored = cc (sym found ∙ found') in
      let idle : wants_running stored.desired_state ≡ false =
        subst (λ x. wants_running x.desired_state ≡ false) same (rw h refl) in
      let (r, left, none') = recover_leaves_alone R operations stored snap later s (inl idle) in
      (r, left)

  -- The two ways in which a stop ends.
  abbrev Outcome : ℕ → MinecraftServer → Site R F → Result (Unit {0}) × Site R F → Type 0
  Outcome id server w after =
      ((after.0 ≡ Result.ok tt) × StoredDesired id DesiredState.stopped after.1.0)
      ⊎ ((e : Failure) × ((R.stop (record server { desired_state = DesiredState.stopped }) w.1).0
            ≡ Result.err e)
          × (after.0 ≡ Result.err e)
          × StoredDesired id DesiredState.running after.1.0)

  stop_or_reset-cases :
      (server : MinecraftServer) (w : Site R F)
      → (((stop_or_reset R F env server w).0 ≡ Result.ok tt)
          × ((stop_or_reset R F env server w).1.0 ≡ w.0))
        ⊎ ((e : Failure) × ((R.stop server w.1).0 ≡ Result.err e)
            × ((stop_or_reset R F env server w).0 ≡ Result.err e)
            × ((stop_or_reset R F env server w).1.0.servers
                ≡ modify
                    (λ v. v.id == server.id)
                    (λ v. record v { desired_state = DesiredState.running })
                    w.0.servers))
  unfolding stop_or_reset
  stop_or_reset-cases server (db, s, f) = elim (Result-cases (R.stop server s).0) [
    | inl (e, k) ↦ inr (e, k, rw (k, stop_or_reset) refl, rw (k, stop_or_reset) refl)
    | inr (c, k) ↦ inl (rw (k, stop_or_reset) refl, rw (k, stop_or_reset) refl)
  ]

  stop_entered-Outcome :
      (request : Request) (now : ℕ) (user : User) (server v : MinecraftServer) (w : Site R F)
      → require_user request ≡ Result.ok user
      → find (λ s. s.id == server.id) w.0.servers ≡ some v
      → Outcome server.id server w (stop_entered R F env request now server w)
  unfolding stop_entered record_audit
  stop_entered-Outcome request now user server v w h found =
      let changed : MinecraftServer = record v { desired_state = DesiredState.stopped } in
      let stopped' : Site R F =
        (set_server R F server.id (λ v. record v { desired_state = DesiredState.stopped }) w).1 in
      let stored : find (λ v. v.id == server.id) stopped'.0.servers ≡ some changed =
        find-modify_self (λ v. v.id == server.id) _ w.0.servers v found (λ y. refl) in
      elim (stop_or_reset-cases (record server { desired_state = DesiredState.stopped }) stopped') [
        | inl (k, same) ↦
            inl (rw (k, h, ◌>>=◌) refl, (changed, rw (k, h, ◌>>=◌) (rw same stored), refl))
        | inr (e, r, k, same) ↦ inr (
          e,
          r,
          rw (k, ◌>>=◌) refl,
          (
            record v { desired_state = DesiredState.running },
            rw (k, ◌>>=◌)
                (rw same (
                  find-modify_self (λ v. v.id == server.id)
                    (λ v. record v { desired_state = DesiredState.running }) stopped'.0.servers
                    changed stored (λ y. refl))),
            refl,
          ),
        )
      ]

  -- A stop by a user who may see the server ends in one of two ways. It succeeds, the server is stored
  -- as one that shall not run, and no maintenance pass over that row starts it. Or the runtime raises
  -- an exception, which is the answer, and the server is stored as one that shall run.
  pub stop_server_ui_settles :
      (request : Request) (token : Option Text) (server_id now : ℕ) (w : Site R F)
      (server : MinecraftServer)
      → (entered R F request token server_id false w).0 ≡ Result.ok server
      → let after = stop_server_ui R F env request token server_id now w in
        ((after.0 ≡ Result.ok tt)
          × StoredDesired server_id DesiredState.stopped after.1.0
          × LeftAlone server_id after.1.0)
        ⊎ ((e : Failure) × ((R.stop (record server { desired_state = DesiredState.stopped }) w.1).0
              ≡ Result.err e)
            × (after.0 ≡ Result.err e)
            × StoredDesired server_id DesiredState.running after.1.0)
  unfolding stop_server_ui
  stop_server_ui_settles request token server_id now w server h =
      let check = entered R F request token server_id false in
      let body = stop_entered R F env request now in
      let state = state-entered R F request token server_id false w in
      let (user, identified, csrf, granted, found, same) =
        entered-Granted R F request token server_id false w server h in
      let outcome : Outcome server.id server w (stop_entered R F env request now server w) =
        stop_entered-Outcome request now user server server w identified
          (subst (λ i. find (λ s. s.id == i) w.0.servers ≡ some server) (sym same) found) in
      elim (subst (λ id. Outcome id server w ((check >>= body) w)) same
        (subst (λ r. Outcome server.id server w r) (sym (bind-ok check body w w server h state))
          outcome)) [
            | inl (fine, stored) ↦
                inl (fine, stored, LeftAlone-stopped server_id ((check >>= body) w).1.0 stored)
            | inr failed ↦ inr failed
          ]
