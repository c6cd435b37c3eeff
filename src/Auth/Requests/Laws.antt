-- ===== src/Auth/Requests/Laws.antt =====
-- Who passes the request checks.
use talos_panel.Auth.Requests.{
  Request, require_csrf, is_public, Gate, gate, authenticate, is_api, has_rows,
}
use talos_panel.Auth.Session.{Settings}
use talos_panel.Auth.Session.Laws.{
  IsLive, load_identity_iff, users-load_identity, load_identity-none, refreshed,
}
use talos_panel.Base.{
  ltb, all, ℕ, ◌≡◌, ◌≢◌, ◌↔◌, true, false, Option, none, some, [], ◌∷◌, arith, if◌then◌else◌, refl,
}
use talos_panel.Base.Text.{Text, text_eq_iff}
use talos_panel.Http.{Failure, Result}
use talos_panel.Models.Accounts.{User, UserSession}
use talos_panel.Models.Tables.{Database}

-- With a session whose CSRF secret is ASCII, an ASCII token is accepted exactly when it is not
-- empty and is that secret.
pub require_csrf_iff :
    (request : Request) (session : UserSession) (token : Text)
    → request.auth_session ≡ some session
    → all (λ c. ltb c 128) session.csrf_secret ≡ true
    → all (λ c. ltb c 128) token ≡ true
    → (require_csrf request (some token) ≡ Result.ok tt)
      ↔ ((token ≢ []) × (token ≡ session.csrf_secret))
unfolding require_csrf
require_csrf_iff request session token e sa ta =
    ground (arith, text_eq_iff token [], text_eq_iff session.csrf_secret token)

-- Without a session every request that must carry a CSRF token is refused with status 403.
no_session_no_csrf :
    (request : Request) (supplied : Option Text)
    → request.auth_session ≡ none
    → require_csrf request supplied ≡ Result.err (Failure.http 403 "Invalid CSRF token")
unfolding require_csrf
no_session_no_csrf request supplied e = ground arith

gate_call_identity :
    (path : Text) (identity : Option (User × UserSession)) (u : Option User)
    (s : Option UserSession)
    → is_public path ≡ false
    → gate path true identity ≡ Gate.call u s
    → (w : User) × (t : UserSession) × (identity ≡ some (w, t)) × (u ≡ some w) × (s ≡ some t)
unfolding gate
gate_call_identity path none u s np h = absurd (ground arith)
gate_call_identity path (some (w, t)) u s np h = (w, t, refl, ground arith, ground arith)

-- Once a user exists, an HTTP request with a cookie on a path that is not public reaches the
-- application only with the user and the session of that cookie, whose last-seen time is refreshed
-- after a minute, and that session is live: it is stored, not revoked, not expired and not idle, and
-- its user is stored and active.
pub protected_needs_identity :
    (sha256 : Text → Text) (settings : Settings) (path : Text) (c : ℕ) (cs : Text) (now : ℕ)
    (db : Database) (u : Option User) (s : Option UserSession)
    → is_public path ≡ false
    → has_rows db.users ≡ true
    → (authenticate sha256 settings true path (some (c ∷ cs)) now db).0 ≡ Gate.call u s
    → (w : User) × (t : UserSession) × (u ≡ some w)
      × (s ≡ some (refreshed sha256 settings t now))
      × IsLive sha256 settings (c ∷ cs) now db t w
unfolding authenticate
protected_needs_identity sha256 settings path c cs now db u s np some_user h =
    let users = users-load_identity sha256 settings (some (c ∷ cs)) now db in
    let h' = rw (users, some_user) at h in
    let (w, t, found, eu, es) = gate_call_identity path _ u s np h' in
    let (t', live, fresh) = (load_identity_iff sha256 settings c cs now db w t).0 found in
    (w, t', eu, rw (← fresh) es, live)

-- Once a user exists, an HTTP request without a cookie on a path that is not public is refused,
-- with status 401 below `/api/` and by a redirect to the login page elsewhere, and the database
-- stays as it is.
pub protected_refuses_anonymous :
    (sha256 : Text → Text) (settings : Settings) (path : Text) (now : ℕ) (db : Database)
    → is_public path ≡ false
    → has_rows db.users ≡ true
    → authenticate sha256 settings true path none now db
      ≡ (if is_api path then Gate.authentication_required else Gate.redirect_login, db)
unfolding authenticate gate
protected_refuses_anonymous sha256 settings path now db np h =
    rw (load_identity-none sha256 settings now db, h, np) (ground arith)
