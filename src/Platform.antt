-- ===== src/Platform.antt =====
-- What the handlers take from libraries: the Unicode tables, SHA-256 and JSON (`recovery`), the
-- Argon2 password hasher with its salt, TOTP verification at a time, and the text of a UUID.
-- The theorems hold for every choice of these functions that keeps the laws stated with them.
use talos_panel.Auth.Recovery.{Library}
use talos_panel.Base.{ℕ, Bool}
use talos_panel.Base.Text.{Text}

pub record Platform : Type 0 where
  pub recovery : Library
  pub hash : ℕ → Text → Text
  pub verify : Text → Text → Bool
  pub dummy_hash : Text
  pub totp : Text → ℕ → Text → Bool
  pub uuid_text : ℕ → Text

-- `str.lower`.
abbrev pub lower_text : Platform → Text → Text
lower_text p s = p.recovery.unicode.lower s
