-- ===== src/Worker/Jobs.antt =====
-- internal/worker/types.go, and the processing of one job in internal/worker/pool.go, with the
-- adapter of cmd/server/main.go that hands a job to the transaction service. Contexts are left out.
use insider_banking_project.Base.{
  ℕ, Bool, true, false, String, str_eq, Option, none, some, if◌then◌else◌,
}
use insider_banking_project.Base.Int.{ℤ}
use insider_banking_project.Domain.Error.{Error, plain}
use insider_banking_project.Domain.Transaction.{
  CreditRequest, DebitRequest, TransferRequest, TransactionResponse,
}
use insider_banking_project.Repository.World.{
  Env, World, Result, ok, err, M, pure, fail, of_result, with_context, ◌>>=◌,
}
use insider_banking_project.Service.Transaction.Common.{Service}
use insider_banking_project.Service.Transaction.Credit.{credit_sync}
use insider_banking_project.Service.Transaction.Debit.{debit_sync}
use insider_banking_project.Service.Transaction.Transfer.{transfer_sync}
use insider_banking_project.Service.Transaction.Rollback.{rollback_sync}

abbrev pub job_type_credit : String
job_type_credit = "credit"

abbrev pub job_type_debit : String
job_type_debit = "debit"

abbrev pub job_type_transfer : String
job_type_transfer = "transfer"

abbrev pub job_type_rollback : String
job_type_rollback = "rollback"

-- `response_chan` is the address of the channel.
pub record TransactionJob : Type 0 where
  pub id : ℕ
  pub type : String
  pub user_id : ℕ
  pub from_user_id : Option ℕ
  pub to_user_id : Option ℕ
  pub amount : ℤ
  pub original_tx_id : Option ℕ
  pub credit_request : Option CreditRequest
  pub debit_request : Option DebitRequest
  pub transfer_request : Option TransferRequest
  pub response_chan : ℕ

pub record TransactionJobResult : Type 0 where
  pub job_id : ℕ
  pub transaction : Option TransactionResponse
  pub error : Option Error
  pub success : Bool

-- `(*TransactionJob).ToResult`
abbrev pub to_result :
    TransactionJob → Option TransactionResponse → Option Error → TransactionJobResult
to_result j transaction none = record {
  job_id = j.id;
  transaction = transaction;
  error = none;
  success = true;
}
to_result j transaction (some e) = record {
  job_id = j.id;
  transaction = transaction;
  error = some e;
  success = false;
}

-- The dynamic types of the values that cross the interface: what `interface{}` holds.
pub data JobRequest : Type 0 where
  credit_request : CreditRequest → JobRequest
  debit_request : DebitRequest → JobRequest
  transfer_request : TransferRequest → JobRequest

pub data JobResponse : Type 0 where
  transaction_response : TransactionResponse → JobResponse
  other_response : JobResponse

-- The worker's `TransactionService` interface: users and transactions are named by texts.
pub record TransactionService : Type 0 where
  pub call_credit : String → JobRequest → M JobResponse
  pub call_debit : String → JobRequest → M JobResponse
  pub call_transfer : String → JobRequest → M JobResponse
  pub call_rollback : String → String → M JobResponse

-- The type assertion on what the service gave.
abbrev pub asserted : TransactionJob → String → Result JobResponse → TransactionJobResult
asserted j invalid (err e) = to_result j none (some e)
asserted j invalid (ok (transaction_response t)) = to_result j (some t) none
asserted j invalid (ok other_response) = to_result j none (some (plain invalid))

-- Call the service and assert the type of what it gives.
abbrev pub called : TransactionJob → String → M JobResponse → M TransactionJobResult
called j invalid m w = (ok (asserted j invalid (m w).0), (m w).1)

abbrev missing : TransactionJob → String → M TransactionJobResult
missing j s = pure (to_result j none (some (plain s)))

-- The worker's answer: an error of the processing itself is a result too.
abbrev pub job_result : TransactionJob → Result TransactionJobResult → TransactionJobResult
job_result j (ok r) = r
job_result j (err e) = to_result j none (some e)

-- `uuid.UUID.String` and `uuid.Parse`
pub record UuidText : Type 0 where
  pub print : ℕ → String
  pub parse : String → Result ℕ

module _ (uuid : UuidText) (svc : TransactionService) where
  unfoldable pub process_credit : TransactionJob → M TransactionJobResult
  process_credit j = elim j.credit_request [
    | none ↦ missing j "invalid credit job: missing credit_request"
    | some req ↦
        called j "invalid response type from credit operation"
          (svc.call_credit (uuid.print j.user_id) (credit_request req))
  ]

  unfoldable pub process_debit : TransactionJob → M TransactionJobResult
  process_debit j = elim j.debit_request [
    | none ↦ missing j "invalid debit job: missing debit_request"
    | some req ↦
        called j "invalid response type from debit operation"
          (svc.call_debit (uuid.print j.user_id) (debit_request req))
  ]

  unfoldable pub process_transfer : TransactionJob → M TransactionJobResult
  process_transfer j = elim j.from_user_id [
    | none ↦ missing j "invalid transfer job: missing from_user_id or transfer_request"
    | some u ↦ elim j.transfer_request [
      | none ↦ missing j "invalid transfer job: missing from_user_id or transfer_request"
      | some req ↦
          called j "invalid response type from transfer operation"
            (svc.call_transfer (uuid.print u) (transfer_request req))
    ]
  ]

  unfoldable pub process_rollback : TransactionJob → M TransactionJobResult
  process_rollback j = elim j.original_tx_id [
    | none ↦ missing j "invalid rollback job: missing original_tx_id"
    | some t ↦
        called j "invalid response type from rollback operation"
          (svc.call_rollback (uuid.print t) (uuid.print j.user_id))
  ]

  abbrev pub process_by_type : TransactionJob → M TransactionJobResult
  process_by_type j =
      if str_eq j.type job_type_credit
      then process_credit j
      else if str_eq j.type job_type_debit
      then process_debit j
      else if str_eq j.type job_type_transfer
      then process_transfer j
      else if str_eq j.type job_type_rollback
      then process_rollback j
      else fail (plain "unknown job type")

  -- `processJob` up to the sending of the result
  unfoldable pub process_job : TransactionJob → World → TransactionJobResult × World
  unfolding process_credit process_debit process_transfer process_rollback
  process_job j w = (job_result j (process_by_type j w).0, (process_by_type j w).1)

abbrev pub as_response : M TransactionResponse → M JobResponse
as_response m w = (elim (m w).0 [ ok t ↦ ok (transaction_response t) | err e ↦ err e ], (m w).1)

abbrev pub parsed : UuidText → String → String → M ℕ
parsed uuid invalid s = with_context invalid (of_result (uuid.parse s))

-- `transactionServiceAdapter`
module _ (uuid : UuidText) (e : Env) (s : Service) where
  unfoldable pub adapter_credit : String → JobRequest → M JobResponse
  adapter_credit user req = do
    uid ← parsed uuid "invalid user ID" user
    elim req [
      | credit_request r ↦ as_response (credit_sync e s uid r)
      | _ ↦ fail (plain "invalid credit request type")
    ]

  unfoldable pub adapter_debit : String → JobRequest → M JobResponse
  adapter_debit user req = do
    uid ← parsed uuid "invalid user ID" user
    elim req [
      | debit_request r ↦ as_response (debit_sync e s uid r)
      | _ ↦ fail (plain "invalid debit request type")
    ]

  unfoldable pub adapter_transfer : String → JobRequest → M JobResponse
  adapter_transfer user req = do
    uid ← parsed uuid "invalid from user ID" user
    elim req [
      | transfer_request r ↦ as_response (transfer_sync e s uid r)
      | _ ↦ fail (plain "invalid transfer request type")
    ]

  unfoldable pub adapter_rollback : String → String → M JobResponse
  adapter_rollback transaction user = do
    tx ← parsed uuid "invalid transaction ID" transaction
    uid ← parsed uuid "invalid requesting user ID" user
    as_response (rollback_sync e s tx uid)

  abbrev pub adapter : TransactionService
  adapter = record {
    call_credit = adapter_credit;
    call_debit = adapter_debit;
    call_transfer = adapter_transfer;
    call_rollback = adapter_rollback;
  }
