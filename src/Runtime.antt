-- ===== src/Runtime.antt =====
-- talos_panel/runtime.py: `DockerRuntime` over the Docker client.
pub mod JvmFlags
pub mod Docker
pub mod Console
pub mod Containers
pub mod Commands
pub mod Interface
pub mod LifeCycle
pub mod Laws
