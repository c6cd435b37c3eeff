-- ===== src/Web/Removal/Laws.antt =====
-- What the removal of a server leaves in the database.
use talos_panel.Base.{◌==◌, any, ℕ, ◌≡◌, ◌⊎◌, Bool, false, ◌||◌}
use talos_panel.Base.Text.{Text}
use talos_panel.Http.{Failure, Result}
use talos_panel.Models.Tables.{Database}
use talos_panel.Runtime.Interface.{Runtime}
use talos_panel.Web.Removal.{refers_to}
use talos_panel.Web.Site.{DataStore, WebEnv, Site}

-- Whether a row of any table but the audit log belongs to the server, or it is the server of a row of
-- the log; `server_reference_id`, which outlives the server, is not looked at.
abbrev pub mentions : ℕ → Database → Bool
mentions id db =
    any (λ s. s.id == id) db.servers
    || any (λ m. m.server_id == id) db.members
    || any (λ j. j.server_id == id) db.jobs
    || any (λ b. b.server_id == id) db.backups
    || any (λ u. u.server_id == id) db.updates
    || any (λ m. m.server_id == id) db.samples
    || any (λ e. refers_to id e.server_id) db.audit

module _ (R : Runtime) (F : DataStore) (env : WebEnv) where
  abbrev Outcome : ℕ → Site R F → Result (Unit {0}) × Site R F → Type 0
  Outcome server_id w after =
      ((e : Failure) × (after.0 ≡ Result.err e) × (after.1.0 ≡ w.0))
      ⊎ ((after.0 ≡ Result.ok tt) × (mentions server_id after.1.0 ≡ false))
