-- ===== src/Auth/Session/Laws.antt =====
-- What `load_identity` accepts and refuses.
use talos_panel.Auth.Session.{Settings, minutes, is_revoked, has_token, load_identity}
use talos_panel.Base.{
  leb, ◌==◌, if◌then◌else◌, Option-cases, find, find-modify, ℕ, ◌+◌, ◌≤◌, ◌<◌, ◌≡◌, refl, ◌↔◌, ◌⊎◌,
  inl, inr, true, none, some, ◌∷◌, arith, Option, [],
}
use talos_panel.Base.Text.{Text}
use talos_panel.Models.Accounts.{User, UserSession}
use talos_panel.Models.Tables.{Database}

module _ (sha256 : Text → Text) (settings : Settings) where
  -- A stored session of an active user that is neither revoked nor expired nor idle.
  pub record IsLive (token : Text) (now : ℕ) (db : Database) (s : UserSession) (u : User)
      : Type 0 where
    pub stored : find (has_token sha256 token) db.sessions ≡ some s
    pub kept : s.revoked_at ≡ none
    pub unexpired : now < s.expires_at
    pub recent : now < s.last_seen_at + minutes settings.session_idle_minutes
    pub owner : find (λ u. u.id == s.user_id) db.users ≡ some u
    pub active : u.is_active ≡ true

  -- The session as it is handed on: seen now, if it was last seen a minute ago or earlier.
  abbrev pub refreshed : UserSession → ℕ → UserSession
  refreshed s now =
      if leb (s.last_seen_at + minutes 1) now then record s { last_seen_at = now } else s

  sound :
      (c : ℕ) (cs : Text) (now : ℕ) (db : Database) (u : User) (t : UserSession)
      → (load_identity sha256 settings (some (c ∷ cs)) now db).0 ≡ some (u, t)
      → (s : UserSession) × IsLive (c ∷ cs) now db s u × (t ≡ refreshed s now)
  unfolding load_identity
  sound c cs now db u t h = elim (Option-cases (find (has_token sha256 (c ∷ cs)) db.sessions)) [
    | inl e ↦ absurd (ground arith)
    | inr (s, e) ↦ (s, ground arith, ground arith)
  ]

  complete :
      (c : ℕ) (cs : Text) (now : ℕ) (db : Database) (u : User) (s : UserSession)
      → IsLive (c ∷ cs) now db s u
      → (load_identity sha256 settings (some (c ∷ cs)) now db).0 ≡ some (u, refreshed s now)
  unfolding load_identity
  complete c cs now db u s h = ground (arith, h.stored, h.owner)

  -- For a token that is not empty, an identity is returned exactly when the token's session is
  -- stored, not revoked, not expired and not idle, and its user is stored and active; the session
  -- that is returned has its last-seen time refreshed after a minute, and is otherwise the stored one.
  pub load_identity_iff :
      (c : ℕ) (cs : Text) (now : ℕ) (db : Database) (u : User) (t : UserSession)
      → ((load_identity sha256 settings (some (c ∷ cs)) now db).0 ≡ some (u, t))
        ↔ ((s : UserSession) × IsLive (c ∷ cs) now db s u × (t ≡ refreshed s now))
  load_identity_iff c cs now db u t =
      (sound c cs now db u t, λ (s, h, e). rw e (complete c cs now db u s h))

  -- The session of a token is revoked, expired or idle.
  abbrev pub IsDead : UserSession → ℕ → Type 0
  IsDead s now =
      (is_revoked s ≡ true)
      ⊎ (s.expires_at ≤ now)
      ⊎ (s.last_seen_at + minutes settings.session_idle_minutes ≤ now)

  -- A request with a revoked, expired or idle session is refused, and so is a later request with
  -- that token on the database that the refusal left.
  pub dead_stays_dead :
      (c : ℕ) (cs : Text) (now later : ℕ) (db : Database) (s : UserSession)
      → find (has_token sha256 (c ∷ cs)) db.sessions ≡ some s
      → IsDead s now
      → now ≤ later
      → ((load_identity sha256 settings (some (c ∷ cs)) now db).0 ≡ none)
        × ((load_identity sha256 settings
              (some (c ∷ cs))
              later
              (load_identity sha256 settings (some (c ∷ cs)) now db).1).0
            ≡ none)
  unfolding load_identity
  dead_stays_dead c cs now later db s e d le =
      let p = has_token sha256 (c ∷ cs) in
      let f : UserSession → UserSession = λ s. record s { revoked_at = some now } in
      let m = find-modify p p f db.sessions (λ y. refl) in (ground arith, ground (arith, m))

  -- Loading an identity changes no user.
  pub users-load_identity :
      (token : Option Text) (now : ℕ) (db : Database)
      → (load_identity sha256 settings token now db).1.users ≡ db.users
  unfolding load_identity
  users-load_identity none now db = refl
  users-load_identity (some []) now db = refl
  users-load_identity (some (c ∷ cs)) now db = ground arith

  pub load_identity-none :
      (now : ℕ) (db : Database) → load_identity sha256 settings none now db ≡ (none, db)
  unfolding load_identity
  load_identity-none now db = refl
