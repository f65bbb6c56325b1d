-- ===== src/Tests.antt =====
-- Runs of the models at concrete inputs, and the theorems applied to them.
mod SelfUpdate
mod Plan
mod Rotation
mod Business
mod Backup
mod Reporting
mod Daemon
mod Disclosure
mod Repository
mod Attempt
mod Page
mod Survey
mod Managed
mod Polling
mod Stub
mod Diag
mod Enrolling
mod Settings
