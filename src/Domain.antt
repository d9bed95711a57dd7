-- ===== src/Domain.antt =====
-- The business entities of internal/domain. A time is its number of nanoseconds, a UUID its
-- 128-bit value (`uuid.Nil` is 0), and an amount of money is a number of tenths of a cent, which
-- the columns of migrations/ round to cents (Repository/Numeric).
pub mod Error
pub mod Balance
pub mod Total
pub mod Change
pub mod Transaction
pub mod Scheduled
pub mod User
pub mod Patterns
pub mod Grammar
pub mod UserRules
pub mod Event
pub mod Payload
mod Tests
