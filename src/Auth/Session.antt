-- ===== src/Auth/Session.antt =====
-- talos_panel/auth.py, `create_session` and `load_identity`; talos_panel/config.py, the settings.
-- `sha256` stands for the hexadecimal digest, and `token` for the random bytes that are drawn.
pub mod Laws
use talos_panel.Base.{
  ℕ, ◌+◌, ◌*◌, Bool, true, false, not, ◌||◌, Option, none, some, [], ◌∷◌, ◌++◌, leb, ◌==◌,
  if◌then◌else◌, find, modify, take,
}
use talos_panel.Base.Text.{Text, text_eq}
use talos_panel.Models.Accounts.{User, UserSession}
use talos_panel.Models.Tables.{Database, event, add_event}

pub record Settings : Type 0 where
  pub session_idle_minutes : ℕ
  pub session_absolute_hours : ℕ
  pub secure_cookies : Bool

abbrev pub default_settings : Settings
default_settings = record {
  session_idle_minutes = 30;
  session_absolute_hours = 12;
  secure_cookies = false;
}

-- `timedelta(minutes=n)` and `timedelta(hours=n)` in microseconds.
abbrev pub minutes : ℕ → ℕ
minutes n = n * 60000000

abbrev pub hours : ℕ → ℕ
hours n = n * 3600000000

-- `(headers.get("user-agent") or "")[:255] or None`.
abbrev user_agent_column : Option Text → Option Text
user_agent_column none = none
user_agent_column (some []) = none
user_agent_column (some (c ∷ s)) = some (take 255 (c ∷ s))

-- `timedelta` sums and comparisons of `load_identity`.
abbrev pub is_expired : UserSession → ℕ → Bool
is_expired s now = leb s.expires_at now

abbrev pub is_idle : Settings → UserSession → ℕ → Bool
is_idle settings s now = leb (s.last_seen_at + minutes settings.session_idle_minutes) now

abbrev pub is_revoked : UserSession → Bool
is_revoked s = elim s.revoked_at [ none ↦ false | some t ↦ true ]

abbrev pub same_session : UserSession → UserSession → Bool
same_session s t = s.id == t.id

module _ (sha256 : Text → Text) where
  abbrev pub has_token : Text → UserSession → Bool
  has_token raw_token s = text_eq s.token_hash (sha256 raw_token)

  -- `create_session`: `id`, `raw_token` and `csrf_secret` are drawn by the caller's libraries.
  unfoldable pub create_session :
      Settings
      → User
      → ℕ
      → Text
      → Text
      → Option Text
      → Option Text
      → ℕ
      → Database
      → UserSession × Database
  create_session settings user id raw_token csrf_secret user_agent ip now db =
      let session : UserSession = record {
        id = id;
        user_id = user.id;
        token_hash = sha256 raw_token;
        csrf_secret = csrf_secret;
        expires_at = now + hours settings.session_absolute_hours;
        last_seen_at = now;
        user_agent = user_agent_column user_agent;
        ip_address = ip;
        revoked_at = none;
      } in
      (
        session,
        add_event (event (some user.id) "auth.login" ip none now)
            (record db { sessions = db.sessions ++ session ∷ [] }),
      )

  -- `session.revoked_at = now` and `session.last_seen_at = now` on the stored row.
  pub revoke : Text → ℕ → Database → Database
  revoke raw_token now db = record db {
    sessions = modify (has_token raw_token) (λ s. record s { revoked_at = some now }) db.sessions;
  }

  pub touch : Text → ℕ → Database → Database
  touch raw_token now db = record db {
    sessions = modify (has_token raw_token) (λ s. record s { last_seen_at = now }) db.sessions;
  }

  -- The checks of the owner, and the refresh of `last_seen_at` after a minute.
  load_user :
      Text → ℕ → UserSession → Option User → Database → Option (User × UserSession) × Database
  unfolding touch
  load_user raw_token now session none db = (none, db)
  load_user raw_token now session (some user) db =
      if not user.is_active
      then (none, db)
      else if leb (session.last_seen_at + minutes 1) now
      then (some (user, record session { last_seen_at = now }), touch raw_token now db)
      else (some (user, session), db)

  load_session :
      Settings → Text → ℕ → Option UserSession → Database → Option (User × UserSession) × Database
  unfolding load_user revoke
  load_session settings raw_token now none db = (none, db)
  load_session settings raw_token now (some session) db =
      if is_revoked session || is_expired session now
      then (none, db)
      else if is_idle settings session now
      then (none, revoke raw_token now db)
      else load_user raw_token now session (find (λ u. u.id == session.user_id) db.users) db

  -- `load_identity`: the cookie's token, or none; an empty cookie is falsy.
  unfoldable pub load_identity :
      Settings → Option Text → ℕ → Database → Option (User × UserSession) × Database
  unfolding load_session
  load_identity settings none now db = (none, db)
  load_identity settings (some []) now db = (none, db)
  load_identity settings (some (c ∷ cs)) now db =
      load_session settings (c ∷ cs) now (find (has_token (c ∷ cs)) db.sessions) db
