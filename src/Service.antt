-- ===== src/Service.antt =====
-- internal/service: the business operations.
pub mod Event
pub mod Projector
pub mod User
pub mod Auth
pub mod Balance
pub mod Transaction
pub mod Scheduled
pub mod Quiet
pub mod Coherence
pub mod Tests
