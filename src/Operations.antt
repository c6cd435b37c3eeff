-- ===== src/Operations.antt =====
-- talos_panel/operations_service.py: `OperationsManager`, over any runtime.
pub mod Recovery
pub mod Pass
pub mod Backups
