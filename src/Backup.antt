-- ===== src/Backup.antt =====
-- business/domain/backup: one backup, its verification and its record.
pub mod Run
pub mod Execute
pub mod Store
pub mod Runner
