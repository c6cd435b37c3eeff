-- ===== src/Auth/Login/Laws.antt =====
-- Who may log in, and attempts one after another.
use mathlib.Core.Path.{ap}
use talos_panel.Auth.Login.{
  Attempt, Answer, is_recent_failure, user_by_email, login, open_session, second_step, first_step,
  reject,
}
use talos_panel.Auth.Passwords.{verify_second_factor, Factor}
use talos_panel.Auth.Session.{Settings, minutes, hours, create_session}
use talos_panel.Base.{
  count, ℕ, ◌+◌, ◌≤◌, ◌<◌, ◌≡◌, ◌⊎◌, Bool, true, false, Option, some, List, [], ◌∷◌, arith, refl,
  none, Bool-cases, Option-cases, ap, ◌∙◌, inl, inr,
}
use talos_panel.Base.Text.{Text}
use talos_panel.Http.{Result, Result-cases}
use talos_panel.Models.Accounts.{User, UserSession}
use talos_panel.Models.Tables.{Database}
use talos_panel.Platform.{Platform}

abbrev pub failures : Option Text → ℕ → Database → ℕ
failures client now db = count (is_recent_failure client now) db.audit

-- The session is of the user, from the time of the attempt.
abbrev pub Belongs : Settings → Attempt → User → UserSession → Type 0
Belongs settings a user s =
    (s.user_id ≡ user.id) × (s.expires_at ≡ a.now + hours settings.session_absolute_hours)

open_session-Belongs :
    (p : Platform) (settings : Settings) (a : Attempt) (user : User) (db : Database)
    (s : UserSession)
    → (open_session p settings a user db).0 ≡ Result.ok (Answer.opened s)
    → Belongs settings a user s
unfolding open_session create_session
open_session-Belongs p settings a user db s h = (ground arith, ground arith)

second_factor-id :
    (p : Platform) (user : User) (now : ℕ) (code : Text) (factor : Option Factor) (user' : User)
    → verify_second_factor p user now code ≡ Result.ok (factor, user')
    → user'.id ≡ user.id
unfolding verify_second_factor
second_factor-id p user now code factor user' h = ground arith

-- The second factor is not enabled, or is accepted.
abbrev pub SecondFactor : Platform → Attempt → User → Type 0
SecondFactor p a user =
    (user.totp_enabled ≡ false)
    ⊎ ((factor : Factor) × (user' : User) × (verify_second_factor p user a.now a.totp_code
          ≡ Result.ok (some factor, user')))

second_step_sound :
    (p : Platform) (settings : Settings) (a : Attempt) (user : User) (db : Database)
    (s : UserSession)
    → (second_step p settings a user db).0 ≡ Result.ok (Answer.opened s)
    → SecondFactor p a user × Belongs settings a user s
unfolding second_step create_session
second_step_sound p settings a user db s h = elim (Bool-cases user.totp_enabled) [
  | inr off ↦ (inl off, (ground arith, ground arith))
  | inl on ↦ elim (Result-cases (verify_second_factor p user a.now a.totp_code)) [
    | inl (e, k) ↦ absurd (ground arith)
    | inr ((factor, user'), k) ↦
        let id = second_factor-id p user a.now a.totp_code factor user' k in
        elim (Option-cases factor) [
          | inl none' ↦ absurd (ground arith)
          | inr (f, e) ↦
              (inr (f, user', k ∙ ap (λ x. Result.ok (x, user')) e), (ground arith, ground arith))
        ]
  ]
]

first_step_sound :
    (p : Platform) (settings : Settings) (a : Attempt) (o : Option User) (db : Database)
    (s : UserSession)
    → (first_step p settings a o db).0 ≡ Result.ok (Answer.opened s)
    → (user : User) × (o ≡ some user)
      × (p.verify user.password_hash a.password ≡ true)
      × (user.is_active ≡ true)
      × SecondFactor p a user
      × Belongs settings a user s
unfolding first_step reject
first_step_sound p settings a none db s h = absurd (ground arith)
first_step_sound p settings a (some user) db s h =
    let valid : p.verify user.password_hash a.password ≡ true = ground arith in
    let active : user.is_active ≡ true = ground arith in
    let stepped : (second_step p settings a user db).0 ≡ Result.ok (Answer.opened s) =
      ground arith in
    let (factor, own) = second_step_sound p settings a user db s stepped in
    (user, refl, valid, active, factor, own)

-- A login opens a session only for the active user of that address whose password was verified,
-- with an accepted second factor where that user has one enabled, and with fewer than five recent
-- failures of the client; the session belongs to that user and lives for the configured hours.
pub login_sound :
    (p : Platform) (settings : Settings) (a : Attempt) (db : Database) (s : UserSession)
    → (login p settings a db).0 ≡ Result.ok (Answer.opened s)
    → (failures a.request.client a.now db < 5)
      × ((user : User) × (user_by_email p a.email db ≡ some user)
          × (p.verify user.password_hash a.password ≡ true)
          × (user.is_active ≡ true)
          × SecondFactor p a user
          × Belongs settings a user s)
unfolding login
login_sound p settings a db s h =
    let few : failures a.request.client a.now db < 5 = ground arith in
    let passed : (first_step p settings a (user_by_email p a.email db) db).0
        ≡ Result.ok (Answer.opened s) =
      ground arith in
    (few, first_step_sound p settings a _ db s passed)

-- The attempts are made one after another, each on the database that the last one left.
unfoldable pub run_attempts : Platform → Settings → List Attempt → Database → List (Result Answer)
run_attempts p settings [] db = []
run_attempts p settings (a ∷ as') db =
    let (r, db') = login p settings a db in r ∷ run_attempts p settings as' db'

abbrev pub is_rejected : Result Answer → Bool
is_rejected (Result.ok Answer.rejected) = true
is_rejected _ = false

-- Made by the client within fifteen minutes from `start`.
abbrev pub InWindow : Option Text → ℕ → Attempt → Type 0
InWindow client start a =
    (a.request.client ≡ client) × (start ≤ a.now) × (a.now ≤ start + minutes 15)
