-- ===== src/Web/Updates/Laws.antt =====
-- How an update of a server ends.
use mathlib.Core.Path.{subst}
use talos_panel.Base.{
  ◌==◌, take, find, ℕ, String, ◌≡◌, refl, ◌⊎◌, inl, inr, true, false, Option, none, some,
  Bool-cases, Option-cases, find-modify_self, arith,
}
use talos_panel.Base.Text.{Text, Unicode}
use talos_panel.Handler.{◌>>=◌}
use talos_panel.Http.{Failure, Result, Result-cases}
use talos_panel.Install.Versions.{java_version_for, release_version}
use talos_panel.Models.Servers.{MinecraftServer, ServerUpdate}
use talos_panel.Models.Tables.{Database}
use talos_panel.Runtime.Interface.{Runtime}
use talos_panel.ServerProperties.{is_member}
use talos_panel.Web.Site.{DataStore, WebEnv, Site}
use talos_panel.Web.Updates.{is_update_error, install_target, run_update}

abbrev pub finished : ServerUpdate → String → Option Text → ℕ → ServerUpdate
finished u state message now = record u {
  state = state;
  error_message = message;
  finished_at = some now;
}

java-is_update_error :
    (u : Unicode) (target : Text) (e : Failure)
    → java_version_for u target ≡ Result.err e
    → is_update_error e ≡ true
unfolding java_version_for
java-is_update_error u target e h = elim (Option-cases (release_version u target)) [
  | inl k ↦
      let same : Failure.crash "InstallationError" ≡ e = ground arith in
      subst (λ x. is_update_error x ≡ true) same refl
  | inr ((a, b, c), k) ↦ absurd (ground arith)
]

module _ (R : Runtime) (F : DataStore) (env : WebEnv) where
  abbrev pub StoredUpdate : ℕ → ServerUpdate → Database → Type 0
  StoredUpdate id u db = find (λ v. v.id == id) db.updates ≡ some u

  abbrev pub StoredServer : ℕ → (MinecraftServer → Type 0) → Database → Type 0
  StoredServer id P db =
      (stored : MinecraftServer) × (find (λ s. s.id == id) db.servers ≡ some stored) × P stored

  -- The two ways in which the `try` of an update ends are stored: it is completed and the server has
  -- the target's version and Java, or it has failed and the request is refused. Otherwise an
  -- exception that the page does not catch left the database as it was.
  abbrev pub UpdateEnded :
      MinecraftServer → ServerUpdate → Text → ℕ → Site R F → Result (Unit {0}) × Site R F → Type 0
  UpdateEnded server u target now w after =
      ((after.0 ≡ Result.ok tt)
        × StoredUpdate u.id (finished u "completed" u.error_message now) after.1.0
        × StoredServer server.id
            (λ v.
              (v.installed_version ≡ some target)
              × (v.game_version ≡ target)
              × (v.container_id ≡ none))
            after.1.0)
      ⊎ ((e : Failure) × (is_update_error e ≡ true)
          × (after.0 ≡ Result.err (Failure.http 409 (env.error_detail e)))
          × StoredUpdate u.id (finished u "failed" (some (take 500 (env.error_text e))) now)
              after.1.0)
      ⊎ ((e : Failure) × (is_update_error e ≡ false) × (after.0 ≡ Result.err e) × (after.1.0 ≡ w.0))

  -- What the body of the `try` stores.
  abbrev Installed :
      MinecraftServer → ServerUpdate → Text → ℕ → Site R F → Result (Unit {0}) × Site R F → Type 0
  Installed server u target now w after =
      ((after.0 ≡ Result.ok tt)
        × StoredUpdate u.id (finished u "completed" u.error_message now) after.1.0
        × StoredServer server.id
            (λ v.
              (v.installed_version ≡ some target)
              × (v.game_version ≡ target)
              × (v.container_id ≡ none))
            after.1.0)
      ⊎ ((e : Failure) × (after.0 ≡ Result.err e)
          × (after.1.0.updates ≡ w.0.updates)
          × ((is_update_error e ≡ true) ⊎ (after.1.0 ≡ w.0)))

  install_target-Installed :
      (server v : MinecraftServer) (u : ServerUpdate) (target : Text) (now : ℕ) (w : Site R F)
      → StoredUpdate u.id u w.0
      → find (λ s. s.id == server.id) w.0.servers ≡ some v
      → Installed server u target now w (install_target R F env server u.id target now w)
  unfolding install_target
  install_target-Installed server v u target now (db, s, f) row found =
      elim (Result-cases (env.versions server.server_type)) [
        | inl (e, k) ↦ inr (e, rw k refl, rw k refl, inr (rw k refl))
        | inr (versions, k) ↦ elim (Bool-cases (is_member target versions)) [
          | inr m ↦ inr (
            Failure.crash "InstallationError",
            rw (k, m, ◌>>=◌) refl,
            rw (k, m, ◌>>=◌) refl,
            inl refl,
          )
          | inl m ↦ elim (Result-cases (R.remove server s).0) [
            | inl (e, r) ↦ inr (
              e,
              rw (k, m, r, ◌>>=◌) refl,
              rw (k, m, r, ◌>>=◌) refl,
              inr (rw (k, m, r, ◌>>=◌) refl),
            )
            | inr (c, r) ↦ elim (Result-cases (java_version_for env.unicode target)) [
              | inl (e, j) ↦ inr (
                e,
                rw (k, m, r, j, ◌>>=◌) refl,
                rw (k, m, r, j, ◌>>=◌) refl,
                inl (java-is_update_error env.unicode target e j),
              )
              | inr (java, j) ↦ inl (
                rw (k, m, r, j, ◌>>=◌) refl,
                rw (k, m, r, j, ◌>>=◌)
                    (find-modify_self (λ v. v.id == u.id) _ db.updates u row (λ y. refl)),
                (
                  record v {
                    installed_version = some target;
                    game_version = target;
                    java_version = some java;
                    container_id = none;
                  },
                  rw (k, m, r, j, ◌>>=◌)
                      (find-modify_self (λ v. v.id == server.id) _ _ _
                        (find-modify_self (λ v. v.id == server.id) _ db.servers v found (λ y. refl))
                        (λ y. refl)),
                  (refl, refl, refl),
                ),
              )
            ]
          ]
        ]
      ]

  -- An update whose row is stored ends as a completed one, with the target's version, or as a failed
  -- one that is refused with status 409; or an exception that the page does not catch has left the
  -- database as it was.
  pub run_update-UpdateEnded :
      (server v : MinecraftServer) (u : ServerUpdate) (target : Text) (now : ℕ) (w : Site R F)
      → StoredUpdate u.id u w.0
      → find (λ s. s.id == server.id) w.0.servers ≡ some v
      → UpdateEnded server u target now w (run_update R F env server u.id target now w)
  unfolding run_update install_target
  run_update-UpdateEnded server v u target now w row found =
      elim (install_target-Installed server v u target now w row found) [
        | inl (k, stored, there) ↦ inl (rw k refl, rw k stored, rw k there)
        | inr (e, k, same, inl caught) ↦ inr (
            inl (
              e,
              caught,
              rw (k, caught) refl,
              rw (k, caught) (find-modify_self (λ v. v.id == u.id) _ _ u (rw same row) (λ y. refl)),
            ))
        | inr (e, k, same, inr kept) ↦ elim (Bool-cases (is_update_error e)) [
          | inl caught ↦ inr (
              inl (
                e,
                caught,
                rw (k, caught) refl,
                rw (k, caught)
                    (find-modify_self (λ v. v.id == u.id) _ _ u (rw same row) (λ y. refl)),
              ))
          | inr not_caught ↦
              inr (inr (e, not_caught, rw (k, not_caught) refl, rw (k, not_caught) kept))
        ]
      ]
