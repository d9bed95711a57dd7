-- ===== src/Service/Scheduled/Creation.antt =====
-- What a successful `Create` of a scheduled transaction stores.
use insider_banking_project.Domain.Scheduled.{AddDate, ScheduledTransaction}
use insider_banking_project.Repository.Numeric.{to_numeric}
use insider_banking_project.Repository.World.{Env}

module _ (e : Env) (add_date : AddDate) where
  abbrev rounded : ScheduledTransaction → ScheduledTransaction
  rounded st = record st { amount = to_numeric st.amount }
