-- ===== src/Files.antt =====
-- talos_panel/file_service.py: the paths below the directory of a server that the panel touches, and
-- the operations on them. A path is the list of its parts below that directory.
pub mod Paths
pub mod Operations
