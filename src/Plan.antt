-- ===== src/Plan.antt =====
-- business/domain/plan/planbus: what this machine backs up and when, and when it should move to a
-- fresh bucket.
pub mod Schedule
pub mod Record
pub mod Measurement
pub mod Integrity
pub mod Rotation
pub mod Machine
pub mod Store
pub mod Business
