-- ===== src/Auth/Audit.antt =====
-- talos_panel/auth.py, `record_audit`.
use talos_panel.Auth.Requests.{Request, require_user}
use talos_panel.Base.{◌==◌, map_option, find, ℕ, String, ◌≡◌, Option, none, some, arith, refl}
use talos_panel.Base.Text.{Text}
use talos_panel.Handler.{◌>>=◌, Handler, lift, write}
use talos_panel.Http.{Result}
use talos_panel.Models.Accounts.{AuditEvent, User}
use talos_panel.Models.Tables.{Database, add_event}

-- The arguments that name a server, each of which may be left out.
pub record Target : Type 0 where
  pub server_id : Option ℕ
  pub server_reference_id : Option ℕ
  pub server_name : Option Text

abbrev pub no_server : Target
no_server = record { server_id = none; server_reference_id = none; server_name = none }

abbrev pub on_server : ℕ → Target
on_server id = record { server_id = some id; server_reference_id = none; server_name = none }

abbrev pub by_reference : ℕ → Option Text → Target
by_reference id name = record {
  server_id = none;
  server_reference_id = some id;
  server_name = name;
}

-- The name of the server that is stored, where an identifier and no name is given.
abbrev audited_name : Target → Database → Option Text
audited_name t db = elim t.server_name [
  | some name ↦ some name
  | none ↦ elim t.server_id [
    | none ↦ none
    | some id ↦ map_option (λ s. s.name) (find (λ s. s.id == id) db.servers)
  ]
]

abbrev first_some : Option ℕ → Option ℕ → Option ℕ
first_some none b = b
first_some (some a) b = some a

abbrev audit_event : Option ℕ → Request → String → Target → Option Text → ℕ → Database → AuditEvent
audit_event user_id request action t details now db = record {
  user_id = user_id;
  action = action;
  server_id = t.server_id;
  server_reference_id = first_some t.server_reference_id t.server_id;
  server_name = audited_name t db;
  ip_address = request.client;
  details = details;
  created_at = now;
}

unfoldable pub record_audit : Request → String → Target → Option Text → ℕ → Handler (Unit {0})
record_audit request action t details now = do
  user ← lift (require_user request)
  write (λ db. add_event (audit_event (some user.id) request action t details now db) db)

-- The audit log is the only table that it writes.
pub users-record_audit :
    (request : Request) (action : String) (t : Target) (details : Option Text) (now : ℕ)
    (db : Database)
    → (record_audit request action t details now db).1.users ≡ db.users
unfolding record_audit
users-record_audit request action t details now db = ground arith

pub ok-record_audit :
    (request : Request) (action : String) (t : Target) (details : Option Text) (now : ℕ)
    (user : User) (db : Database)
    → require_user request ≡ Result.ok user
    → (record_audit request action t details now db).0 ≡ Result.ok tt
unfolding record_audit
ok-record_audit request action t details now user db h = rw h refl
