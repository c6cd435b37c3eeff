-- ===== src/Auth/Login/Attempts.antt =====
-- The rejected logins of a client in a window of time.
use mathlib.Core.Path.{subst}
use talos_panel.Auth.Login.{
  Attempt, Answer, same_client, is_recent_failure, user_by_email, store_user, reject, open_session,
  second_step, first_step, login,
}
use talos_panel.Auth.Login.Laws.{InWindow, run_attempts, is_rejected}
use talos_panel.Auth.Passwords.{verify_second_factor}
use talos_panel.Auth.Session.{Settings, minutes, create_session}
use talos_panel.Base.{
  leb, if◌then◌else◌, take, count, count-append, All, ℕ, ◌+◌, ◌≤◌, ◌<◌, ◌≡◌, refl, Bool, true, ◌&&◌,
  Option, none, some, List, [], ◌∷◌, arith, str_eq, Bool-cases, ◌-◌, inl, inr,
}
use talos_panel.Base.Text.{Text, text_eq_iff}
use talos_panel.Handler.{◌>>◌, write}
use talos_panel.Http.{Result, Result-cases}
use talos_panel.Models.Accounts.{User, AuditEvent}
use talos_panel.Models.Tables.{Database, event, add_event}
use talos_panel.Platform.{Platform}

-- The failures of the client that were stored from `start` on.
abbrev counted : Option Text → ℕ → AuditEvent → Bool
counted client start e =
    str_eq e.action "auth.login_failed" && same_client e.ip_address client && leb start e.created_at

abbrev since : Option Text → ℕ → Database → ℕ
since client start db = count (counted client start) db.audit

same_client_refl : (o : Option Text) → same_client o o ≡ true
same_client_refl none = refl
same_client_refl (some t) = (text_eq_iff t t).1 refl

-- What the limit counts holds all that was stored from the start of the window on.
since-le-failures :
    (client : Option Text) (start now : ℕ) (events : List AuditEvent)
    → now ≤ start + minutes 15
    → count (counted client start) events ≤ count (is_recent_failure client now) events
since-le-failures client start now [] h = omega arith
since-le-failures client start now (e ∷ es) h =
    ground (arith, since-le-failures client start now es h)

-- One more failure is stored with each rejection, and with nothing else.
abbrev Counts : Option Text → ℕ → Database → Result Answer × Database → Type 0
Counts client start db r =
    since client start r.1 ≡ since client start db + (if is_rejected r.0 then 1 else 0)

module _ (p : Platform) (settings : Settings) (a : Attempt) (start : ℕ) where
  open_session-Counts :
      (user : User) (db : Database)
      → Counts a.request.client start db (open_session p settings a user db)
  unfolding open_session create_session
  open_session-Counts user db = ground (
    arith,
    count-append (counted a.request.client start) db.audit
        (event (some user.id) "auth.login" a.request.client none a.now ∷ []),
  )

  reject-Counts : (db : Database) → start ≤ a.now → Counts a.request.client start db (reject a db)
  unfolding reject
  reject-Counts db h = ground (
    arith,
    count-append (counted a.request.client start) db.audit
        (event none "auth.login_failed" a.request.client (some (take 320 a.email)) a.now ∷ []),
    same_client_refl a.request.client,
  )

  recovery-Counts :
      (user user' : User) (db : Database)
      → Counts a.request.client start db (
          (do
            write (store_user user')
            write (
                add_event
                  (event (some user.id) "auth.recovery_code_used" a.request.client none a.now))
            open_session p settings a user')
            db)
  unfolding store_user
  recovery-Counts user user' db =
      let used = event (some user.id) "auth.recovery_code_used" a.request.client none a.now in
      ground (
        arith,
        open_session-Counts user' (add_event used (store_user user' db)),
        count-append (counted a.request.client start) db.audit (used ∷ []),
      )

  second_step-Counts :
      (user : User) (db : Database)
      → start ≤ a.now
      → Counts a.request.client start db (second_step p settings a user db)
  unfolding second_step
  second_step-Counts user db h =
      elim (Result-cases (verify_second_factor p user a.now a.totp_code)) [
        | inl (e, k) ↦ ground (arith, open_session-Counts user db)
        | inr ((factor, user'), k) ↦ ground (
          arith,
          reject-Counts db h,
          open_session-Counts user db,
          open_session-Counts user' db,
          recovery-Counts user user' db,
        )
      ]

  first_step-Counts :
      (o : Option User) (db : Database)
      → start ≤ a.now
      → Counts a.request.client start db (first_step p settings a o db)
  unfolding first_step
  first_step-Counts none db h = ground (arith, reject-Counts db h)
  first_step-Counts (some user) db h =
      ground (arith, reject-Counts db h, second_step-Counts user db h)

  login-Counts :
      (db : Database) → start ≤ a.now → Counts a.request.client start db (login p settings a db)
  unfolding login
  login-Counts db h = ground (arith, first_step-Counts (user_by_email p a.email db) db h)

  login_few :
      (db : Database)
      → a.now ≤ start + minutes 15
      → is_rejected (login p settings a db).0 ≡ true
      → since a.request.client start db < 5
  unfolding login
  login_few db h r = ground (arith, since-le-failures a.request.client start a.now db.audit h)

rejections_and_past :
    (p : Platform) (settings : Settings) (client : Option Text) (start : ℕ)
    (attempts : List Attempt) (db : Database)
    → All (InWindow client start) attempts
    → count is_rejected (run_attempts p settings attempts db) ≤ 5 - since client start db
unfolding run_attempts
rejections_and_past p settings client start [] db w = omega arith
rejections_and_past p settings client start (a ∷ attempts) db w =
    let (here, rest) = w in
    let (same, from, until) = here in
    let db' = (login p settings a db).1 in
    let counts : Counts client start db (login p settings a db) =
      subst (λ c. Counts c start db (login p settings a db)) same
        (login-Counts p settings a start db from) in
    let few : is_rejected (login p settings a db).0 ≡ true → since client start db < 5 =
      subst (λ c. is_rejected (login p settings a db).0 ≡ true → since c start db < 5) same
        (login_few p settings a start db until) in
    let ih = rejections_and_past p settings client start attempts db' rest in
    elim (Bool-cases (is_rejected (login p settings a db).0)) [
      | inl yes' ↦ ground (arith, counts, few yes', ih)
      | inr no' ↦ ground (arith, counts, ih)
    ]

-- From any database, of any attempts that one client makes within fifteen minutes, whatever their
-- addresses, passwords and codes, at most five are answered with the rejected-login page.
pub at_most_five_rejections :
    (p : Platform) (settings : Settings) (client : Option Text) (start : ℕ)
    (attempts : List Attempt) (db : Database)
    → All (InWindow client start) attempts
    → count is_rejected (run_attempts p settings attempts db) ≤ 5
at_most_five_rejections p settings client start attempts db w =
    omega (arith, rejections_and_past p settings client start attempts db w)
