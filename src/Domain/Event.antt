-- ===== src/Domain/Event.antt =====
-- internal/domain/event.go and audit.go: domain events and audit log entries. What the program
-- turns into JSON is kept as the data itself.
use insider_banking_project.Base.{ℕ, Bool, String, Option, List}
use insider_banking_project.Base.Int.{ℤ}

-- The payloads of the event types.
pub data EventData : Type 0 where
  -- user, email, username, password hash, role
  user_registered : ℕ → String → String → String → String → EventData
  -- user, and the username, email and role of the new data that are texts
  user_updated : ℕ → Option String → Option String → Option String → EventData
  -- user, amount, currency
  balance_initialized : ℕ → ℤ → String → EventData
  -- user, amount, currency, transaction, reason
  amount_credited : ℕ → ℤ → String → ℕ → String → EventData
  amount_debited : ℕ → ℤ → String → ℕ → String → EventData
  -- sender, receiver, amount, currency, transaction
  transfer_executed : ℕ → ℕ → ℤ → String → ℕ → EventData
  -- transaction, sender, receiver, amount, type
  transaction_started : ℕ → Option ℕ → Option ℕ → ℤ → String → EventData
  transaction_completed : ℕ → Option ℕ → Option ℕ → ℤ → String → EventData
  -- and the error's text
  transaction_failed : ℕ → Option ℕ → Option ℕ → ℤ → String → String → EventData

pub record Event : Type 0 where
  pub id : ℕ
  pub aggregate_type : String
  pub aggregate_id : ℕ
  pub event_type : String
  pub event_data : EventData
  pub created_at : ℕ
  pub version : ℕ

-- The values of the detail maps that the services log.
pub data Detail : Type 0 where
  id_detail : ℕ → Detail
  amount_detail : ℤ → Detail
  text_detail : String → Detail
  flag_detail : Bool → Detail

pub record AuditLog : Type 0 where
  pub id : ℕ
  pub entity_type : String
  pub entity_id : ℕ
  pub action : String
  pub details : List (String × Detail)
  pub created_at : ℕ
