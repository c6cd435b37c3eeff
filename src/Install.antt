-- ===== src/Install.antt =====
-- talos_panel/installer.py, talos_panel/install_service.py, and install_server of talos_panel/api.py.
pub mod Versions
pub mod Jobs
pub mod Requests
pub mod Laws
pub mod Waiting
pub mod Drain
