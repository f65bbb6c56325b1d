-- ===== src/SelfUpdate.antt =====
-- foundation/selfupdate: the program replaces its own binary, tries the new version on probation,
-- and goes back to the previous one when it cannot stay running.
pub mod Version
pub mod Disk
pub mod Swap
pub mod Refused
pub mod Probation
pub mod Apply
