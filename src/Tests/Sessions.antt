-- ===== src/Tests/Sessions.antt =====
-- Sessions, requests and recovery codes at concrete inputs.
use talos_panel.Auth.Login.{Attempt, user_by_email, open_session, second_step, first_step, login}
use talos_panel.Auth.Login.Attempts.{at_most_five_rejections}
use talos_panel.Auth.Login.Laws.{
  failures, Belongs, SecondFactor, login_sound, run_attempts, is_rejected,
}
use talos_panel.Auth.Recovery.{
  remove_first, normalize_recovery_code, recovery_code_hash, consume_recovery_code, raw_code,
  generate_recovery_codes,
}
use talos_panel.Auth.Recovery.Laws.{consume_takes_one, IsAlphabet, generated_code_accepted}
use talos_panel.Auth.Requests.{is_public, gate, authenticate, require_same_origin}
use talos_panel.Auth.Requests.Laws.{protected_needs_identity}
use talos_panel.Auth.Session.{default_settings, minutes, load_identity, hours, create_session}
use talos_panel.Auth.Session.Laws.{IsLive, refreshed, load_identity_iff, dead_stays_dead}
use talos_panel.Base.{
  if◌then◌else◌, count, ◌+◌, ◌≡◌, refl, ◌↔◌, inr, true, none, some, List, [], ◌∷◌, arith, ℕ, ◌%◌,
  ◌≤◌, ◌<◌, length, Option,
}
use talos_panel.Base.Text.{Text, codes, text_eq}
use talos_panel.Http.{Result}
use talos_panel.Models.Accounts.{User, UserSession, AuditEvent}
use talos_panel.Models.Tables.{event, Database}
use talos_panel.Tests.World.{
  library, ann, session, database, from_ann, platform, encode, onto_first, decode, loads,
}

abbrev token : Text
token = b't' ∷ []

load_identity_iff_example :
    ((load_identity library.sha256 default_settings (some token) (minutes 5) database).0
      ≡ some (ann, record session { last_seen_at = minutes 5 }))
    ↔ ((s : UserSession) × IsLive library.sha256 default_settings token (minutes 5) database s ann
        × (record session { last_seen_at = minutes 5 }
            ≡ refreshed library.sha256 default_settings s (minutes 5)))
load_identity_iff_example =
    load_identity_iff library.sha256 default_settings b't' [] (minutes 5) database ann
      (record session { last_seen_at = minutes 5 })

dead_stays_dead_example :
    ((load_identity library.sha256 default_settings (some token) (minutes 40) database).0 ≡ none)
    × ((load_identity library.sha256 default_settings
          (some token)
          (minutes 41)
          (load_identity library.sha256 default_settings (some token) (minutes 40) database).1).0
        ≡ none)
dead_stays_dead_example =
    dead_stays_dead library.sha256 default_settings b't' [] (minutes 40) (minutes 41) database
      session refl (inr (inr (omega arith))) (omega arith)

protected_needs_identity_example :
    (w : User) × (t : UserSession) × (some ann ≡ some w)
    × (some (record session { last_seen_at = minutes 5 })
        ≡ some (refreshed library.sha256 default_settings t (minutes 5)))
    × IsLive library.sha256 default_settings token (minutes 5) database t w
unfolding is_public authenticate load_identity gate
protected_needs_identity_example =
    protected_needs_identity library.sha256 default_settings (codes "/servers") b't' [] (minutes 5)
      database (some ann) (some (record session { last_seen_at = minutes 5 })) refl refl refl

abbrev code : Text
code = codes "ABCDEFGHABCDEFGH"

consume_takes_one_example :
    (rest : List Text) × (some (library.dumps []) ≡ some (library.dumps rest))
    × ((k : Text)
        → count (λ x. text_eq x k) rest
            + (if text_eq (recovery_code_hash library (normalize_recovery_code library code)) k
                then 1
                else 0)
          ≡ count (λ x. text_eq x k) (recovery_code_hash library code ∷ []))
unfolding consume_recovery_code normalize_recovery_code remove_first loads encode decode onto_first
consume_takes_one_example =
    consume_takes_one library (recovery_code_hash library code ∷ []) code (some (library.dumps []))
      refl

draws : ℕ → ℕ
draws n = b'A' + n % 26

draws-IsAlphabet : (j : ℕ) → IsAlphabet library (draws j)
unfolding draws
draws-IsAlphabet j = ground arith

generated_code_accepted_example :
    (length (generate_recovery_codes library draws).0 ≡ 10)
    × ((left : Option Text) × (consume_recovery_code library
            (some (generate_recovery_codes library draws).1)
            (raw_code draws 48)
          ≡ Result.ok (true, left)))
unfolding generate_recovery_codes
generated_code_accepted_example =
    generated_code_accepted library draws draws-IsAlphabet 3 (raw_code draws 48) (omega arith) refl

abbrev attempt : Text → ℕ → Attempt
attempt password now = record {
  request = from_ann;
  email = codes "a@b";
  password = password;
  totp_code = [];
  user_agent = none;
  now = now;
  session_id = 8;
  raw_token = codes "raw";
  csrf_secret = codes "csrf";
}

abbrev opened : UserSession
opened = record {
  id = 8;
  user_id = 1;
  token_hash = codes "raw";
  csrf_secret = codes "csrf";
  expires_at = minutes 1 + hours 12;
  last_seen_at = minutes 1;
  user_agent = none;
  ip_address = some (codes "10.0.0.1");
  revoked_at = none;
}

login_sound_example :
    (failures (some (codes "10.0.0.1")) (minutes 1) database < 5)
    × ((user : User) × (user_by_email platform (codes "a@b") database ≡ some user)
        × (platform.verify user.password_hash (codes "correct horse") ≡ true)
        × (user.is_active ≡ true)
        × SecondFactor platform (attempt (codes "correct horse") (minutes 1)) user
        × Belongs default_settings (attempt (codes "correct horse") (minutes 1)) user opened)
unfolding login first_step second_step open_session create_session require_same_origin
login_sound_example =
    login_sound platform default_settings (attempt (codes "correct horse") (minutes 1)) database
      opened refl

abbrev failed : AuditEvent
failed = event none "auth.login_failed" (some (codes "10.0.0.1")) none 0

abbrev attacked : Database
attacked = record database { audit = failed ∷ failed ∷ failed ∷ failed ∷ failed ∷ [] }

at_most_five_rejections_example :
    count is_rejected (
      run_attempts platform default_settings
        (attempt (codes "wrong") 0 ∷ attempt (codes "wrong") (minutes 1) ∷ [])
        database)
    ≤ 5
at_most_five_rejections_example =
    at_most_five_rejections platform default_settings (some (codes "10.0.0.1")) 0
      (attempt (codes "wrong") 0 ∷ attempt (codes "wrong") (minutes 1) ∷ []) database
      ((refl, omega arith, omega arith), ((refl, omega arith, omega arith), tt))
