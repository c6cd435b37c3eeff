-- ===== src/Auth.antt =====
-- talos_panel/auth.py: sessions, the request gate, CSRF and origin checks, recovery codes.
pub mod Session
pub mod Requests
pub mod Recovery
pub mod Audit
pub mod Passwords
pub mod Login
