-- ===== src/Tests.antt =====
-- The theorems at concrete inputs.
mod World
mod Sessions
mod Accounts
mod Servers
mod Services
mod Pages
mod Files
