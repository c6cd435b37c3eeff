-- ===== src/Auth/Passwords.antt =====
-- talos_panel/auth.py, `hash_password` and `verify_password`;
-- talos_panel/auth_web.py, `normalized_email` and `verify_second_factor`.
use talos_panel.Auth.Recovery.{consume_recovery_code}
use talos_panel.Base.{
  ltb, ◌==◌, if◌then◌else◌, length, any, ℕ, Bool, false, not, ◌||◌, Option, none, some, [], ◌∷◌,
}
use talos_panel.Base.Text.{Text, text_eq, strip}
use talos_panel.Http.{Failure, Result}
use talos_panel.Models.Accounts.{User}
use talos_panel.Platform.{Platform, lower_text}

-- `hash_password`: its `ValueError` is answered with status 422 by every caller.
unfoldable pub hash_password : Platform → ℕ → Text → Result Text
hash_password p salt password =
    if ltb (length password) 12 || ltb 256 (length password)
    then Result.err (Failure.http 422 "Password must contain between 12 and 256 characters")
    else Result.ok (p.hash salt password)

unfoldable pub normalized_email : Platform → Text → Result Text
normalized_email p email =
    let value = lower_text p (strip email) in
    if text_eq value [] || ltb 320 (length value) || not (any (λ c. c == b'@') value)
    then Result.err (Failure.http 422 "Enter a valid email address")
    else Result.ok value

pub data Factor : Type 0 where
  totp recovery : Factor

-- A secret that is missing or empty is falsy.
abbrev totp_accepts : Platform → Option Text → ℕ → Text → Bool
totp_accepts p none now value = false
totp_accepts p (some []) now value = false
totp_accepts p (some (c ∷ cs)) now value = p.totp (c ∷ cs) now value

-- `verify_second_factor`: the factor that was accepted, and the user whose codes it may consume; or
-- the `TypeError` of a stored hash that is not ASCII.
unfoldable pub verify_second_factor : Platform → User → ℕ → Text → Result (Option Factor × User)
verify_second_factor p user now supplied =
    let value = strip supplied in
    if totp_accepts p user.totp_secret now value
    then Result.ok (some Factor.totp, user)
    else (elim (consume_recovery_code p.recovery user.totp_recovery_codes value) [
      | Result.err e ↦ Result.err e
      | Result.ok (accepted, remaining) ↦ Result.ok (
          if accepted
          then (some Factor.recovery, record user { totp_recovery_codes = remaining })
          else (none, user))
    ])
