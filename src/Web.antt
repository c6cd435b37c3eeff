-- ===== src/Web.antt =====
-- talos_panel/web.py: pages of a server that change it.
pub mod Site
pub mod Lifecycle
pub mod Removal
pub mod Backups
pub mod Updates
pub mod Players
pub mod Settings
pub mod Creation
pub mod Files
pub mod Pages
