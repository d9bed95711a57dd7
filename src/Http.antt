-- ===== src/Http.antt =====
-- internal/api/middleware: what stands between a request and its handler; and internal/api/v1: the
-- handlers. The role checks are in Rbac, and the circuit breaker's in Breaker/Middleware.
pub mod Authentication
pub mod Bearer
pub mod RateLimit
pub mod Limits
pub mod Reply
pub mod Transactions
pub mod Permission
pub mod Users
pub mod Administration
pub mod Schedules
pub mod Ownership
mod Tests
mod HandlerTests
