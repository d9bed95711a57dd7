-- ===== src/Worker.antt =====
-- internal/worker: jobs and the pool that runs them.
pub mod Jobs
pub mod Results
pub mod Pool
pub mod Accounts
pub mod Answers
pub mod Shutdown
pub mod Draining
mod Tests
