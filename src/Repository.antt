-- ===== src/Repository.antt =====
-- internal/repository: the tables and what each statement of the repositories does to them.
pub mod Numeric
pub mod World
pub mod Constraints
pub mod Users
pub mod Balances
pub mod Transactions
pub mod Scheduled
pub mod Journal
pub mod Cache
pub mod Frames
pub mod Versions
pub mod Quiet
