-- ===== src/Service/Transaction.antt =====
-- internal/service/transaction.go: credits, debits, transfers and rollbacks. This file has what
-- the operations share; the operations are in the modules below.
pub mod Common
pub mod Credit
pub mod Debit
pub mod Transfer
pub mod Rollback
pub mod Queries
pub mod Access
pub mod Responses
pub mod RollbackLegs
pub mod RollbackEffects
pub mod RollbackLaws
pub mod Write
pub mod Moving
pub mod TransferLaws
pub mod CreditLaws
pub mod DebitLaws
