-- ===== src/Worker/Results.antt =====
-- What a job's processing gives, against the transaction service itself.
use insider_banking_project.Base.{
  ℕ, ◌≡◌, ◌∙◌, ap, ◌⊎◌, false, inl, inr, refl, true, Bool-cases, String, str_eq, none, some,
  Option-cases,
}
use insider_banking_project.Domain.Error.{Error, plain}
use insider_banking_project.Domain.Transaction.{
  CreditRequest, DebitRequest, TransferRequest, TransactionResponse,
}
use insider_banking_project.Repository.World.{Env, World, Result, Result-cases, ok, err, M}
use insider_banking_project.Service.Transaction.Common.{Service}
use insider_banking_project.Service.Transaction.Credit.{credit_sync}
use insider_banking_project.Service.Transaction.Debit.{debit_sync}
use insider_banking_project.Service.Transaction.Transfer.{transfer_sync}
use insider_banking_project.Service.Transaction.Rollback.{rollback_sync}
use insider_banking_project.Worker.Jobs.{
  TransactionJob, TransactionJobResult, TransactionService, UuidText, adapter, process_job,
  process_credit, process_debit, process_transfer, process_rollback, job_result, JobResponse,
  transaction_response, other_response, to_result, called, as_response, asserted, credit_request,
  debit_request, transfer_request, adapter_credit, adapter_debit, adapter_transfer,
  adapter_rollback, job_type_credit, job_type_debit, job_type_transfer, job_type_rollback,
}

-- What a job asks for.
pub data Task : Type 0 where
  crediting : ℕ → CreditRequest → Task
  debiting : ℕ → DebitRequest → Task
  transferring : ℕ → TransferRequest → Task
  -- a transaction, for a user
  rolling_back : ℕ → ℕ → Task

abbrev pub Asks : TransactionJob → Task → Type 0
Asks j (crediting u r) = (j.type ≡ "credit") × (j.user_id ≡ u) × (j.credit_request ≡ some r)
Asks j (debiting u r) = (j.type ≡ "debit") × (j.user_id ≡ u) × (j.debit_request ≡ some r)
Asks j (transferring u r) =
    (j.type ≡ "transfer") × (j.from_user_id ≡ some u) × (j.transfer_request ≡ some r)
Asks j (rolling_back t u) = (j.type ≡ "rollback") × (j.original_tx_id ≡ some t) × (j.user_id ≡ u)

module _ (uuid : UuidText) (e : Env) (s : Service) where
  abbrev pub perform : Task → M TransactionResponse
  perform (crediting u r) = credit_sync e s u r
  perform (debiting u r) = debit_sync e s u r
  perform (transferring u r) = transfer_sync e s u r
  perform (rolling_back t u) = rollback_sync e s t u

  abbrev pub reported : TransactionJob → Result TransactionResponse → TransactionJobResult
  reported j (ok t) = record { job_id = j.id; transaction = some t; error = none; success = true }
  reported j (err x) = record { job_id = j.id; transaction = none; error = some x; success = false }

  called-as_response :
      (j : TransactionJob) (invalid : String) (m : M TransactionResponse) (w : World)
      → called j invalid (as_response m) w ≡ (ok (reported j (m w).0), (m w).1)
  called-as_response j invalid m w = elim (Result-cases (m w).0) [
    | inl (a, h) ↦ rw h refl
    | inr (x, h) ↦ rw h refl
  ]

  adapter-performs :
      (u : ℕ) (w : World)
      → uuid.parse (uuid.print u) ≡ ok u
      → ((r : CreditRequest)
          → adapter_credit uuid e s (uuid.print u) (credit_request r) w
            ≡ as_response (credit_sync e s u r) w)
        × ((r : DebitRequest)
            → adapter_debit uuid e s (uuid.print u) (debit_request r) w
              ≡ as_response (debit_sync e s u r) w)
        × ((r : TransferRequest)
            → adapter_transfer uuid e s (uuid.print u) (transfer_request r) w
              ≡ as_response (transfer_sync e s u r) w)
        × ((t : ℕ)
            → uuid.parse (uuid.print t) ≡ ok t
            → adapter_rollback uuid e s (uuid.print t) (uuid.print u) w
              ≡ as_response (rollback_sync e s t u) w)
  unfolding adapter_credit adapter_debit adapter_transfer adapter_rollback
  adapter-performs u w p = (λ r. rw p refl, λ r. rw p refl, λ r. rw p refl, λ t q. rw (q, p) refl)

  -- The processing of a job by one operation of the transaction service.
  abbrev pub done_with : TransactionJob → M TransactionResponse → M TransactionJobResult
  done_with j m w = (ok (reported j (m w).0), (m w).1)

  adapted :
      (m : M TransactionResponse) (m' : M JobResponse) (j : TransactionJob) (invalid : String)
      (w : World)
      → m' w ≡ as_response m w
      → called j invalid m' w ≡ done_with j m w
  adapted m m' j invalid w h =
      ap (λ z. (ok (asserted j invalid z.0), z.1)) h ∙ called-as_response j invalid m w

  process_credit-performs :
      (u : ℕ) (r : CreditRequest) (j : TransactionJob) (w : World)
      → uuid.parse (uuid.print u) ≡ ok u
      → j.user_id ≡ u
      → j.credit_request ≡ some r
      → process_credit uuid (adapter uuid e s) j w ≡ done_with j (credit_sync e s u r) w
  unfolding process_credit
  process_credit-performs u r j w parses q p =
      let asked : process_credit uuid (adapter uuid e s) j w
          ≡ called j "invalid response type from credit operation"
              (adapter_credit uuid e s (uuid.print u) (credit_request r)) w =
        rw (q, p) refl in
      asked
      ∙ adapted (credit_sync e s u r) (adapter_credit uuid e s (uuid.print u) (credit_request r)) j
          "invalid response type from credit operation" w ((adapter-performs u w parses).0 r)

  process_debit-performs :
      (u : ℕ) (r : DebitRequest) (j : TransactionJob) (w : World)
      → uuid.parse (uuid.print u) ≡ ok u
      → j.user_id ≡ u
      → j.debit_request ≡ some r
      → process_debit uuid (adapter uuid e s) j w ≡ done_with j (debit_sync e s u r) w
  unfolding process_debit
  process_debit-performs u r j w parses q p =
      let asked : process_debit uuid (adapter uuid e s) j w
          ≡ called j "invalid response type from debit operation"
              (adapter_debit uuid e s (uuid.print u) (debit_request r)) w =
        rw (q, p) refl in
      asked
      ∙ adapted (debit_sync e s u r) (adapter_debit uuid e s (uuid.print u) (debit_request r)) j
          "invalid response type from debit operation" w ((adapter-performs u w parses).1 r)

  process_transfer-performs :
      (u : ℕ) (r : TransferRequest) (j : TransactionJob) (w : World)
      → uuid.parse (uuid.print u) ≡ ok u
      → j.from_user_id ≡ some u
      → j.transfer_request ≡ some r
      → process_transfer uuid (adapter uuid e s) j w ≡ done_with j (transfer_sync e s u r) w
  unfolding process_transfer
  process_transfer-performs u r j w parses q p =
      let asked : process_transfer uuid (adapter uuid e s) j w
          ≡ called j "invalid response type from transfer operation"
              (adapter_transfer uuid e s (uuid.print u) (transfer_request r)) w =
        rw (q, p) refl in
      asked
      ∙ adapted (transfer_sync e s u r)
          (adapter_transfer uuid e s (uuid.print u) (transfer_request r)) j
          "invalid response type from transfer operation" w ((adapter-performs u w parses).2 r)

  process_rollback-performs :
      (t u : ℕ) (j : TransactionJob) (w : World)
      → ((u : ℕ) → uuid.parse (uuid.print u) ≡ ok u)
      → j.original_tx_id ≡ some t
      → j.user_id ≡ u
      → process_rollback uuid (adapter uuid e s) j w ≡ done_with j (rollback_sync e s t u) w
  unfolding process_rollback
  process_rollback-performs t u j w parses q p =
      let invalid : String = "invalid response type from rollback operation" in
      let asked : process_rollback uuid (adapter uuid e s) j w
          ≡ called j invalid (adapter_rollback uuid e s (uuid.print t) (uuid.print u)) w =
        rw (q, p) refl in
      asked
      ∙ adapted (rollback_sync e s t u) (adapter_rollback uuid e s (uuid.print t) (uuid.print u)) j
          invalid w ((adapter-performs u w (parses u)).3 t (parses t))

  -- If a UUID's text parses to the same UUID, a job that asks for a credit, a debit, a transfer or
  -- a rollback does to the world what that operation of the transaction service does, and its
  -- result is the operation's, under the job's id: a success with the transaction, or a failure
  -- with the error.
  pub process_job-performs :
      (task : Task) (j : TransactionJob) (w : World)
      → ((u : ℕ) → uuid.parse (uuid.print u) ≡ ok u)
      → Asks j task
      → process_job uuid (adapter uuid e s) j w
        ≡ (reported j (perform task w).0, (perform task w).1)
  unfolding process_job
  process_job-performs (crediting u r) j w parses (t, q, p) =
      let is_credit : str_eq j.type job_type_credit ≡ true = ap (λ z. str_eq z job_type_credit) t in
      rw (is_credit)
        (ap (λ z. (job_result j z.0, z.1)) (process_credit-performs u r j w (parses u) q p))
  process_job-performs (debiting u r) j w parses (t, q, p) =
      let is_credit : str_eq j.type job_type_credit ≡ false =
        ap (λ z. str_eq z job_type_credit) t in
      let is_debit : str_eq j.type job_type_debit ≡ true = ap (λ z. str_eq z job_type_debit) t in
      rw (is_credit, is_debit)
        (ap (λ z. (job_result j z.0, z.1)) (process_debit-performs u r j w (parses u) q p))
  process_job-performs (transferring u r) j w parses (t, q, p) =
      let is_credit : str_eq j.type job_type_credit ≡ false =
        ap (λ z. str_eq z job_type_credit) t in
      let is_debit : str_eq j.type job_type_debit ≡ false = ap (λ z. str_eq z job_type_debit) t in
      let is_transfer : str_eq j.type job_type_transfer ≡ true =
        ap (λ z. str_eq z job_type_transfer) t in
      rw (is_credit, is_debit, is_transfer)
        (ap (λ z. (job_result j z.0, z.1)) (process_transfer-performs u r j w (parses u) q p))
  process_job-performs (rolling_back t u) j w parses (k, q, p) =
      let is_credit : str_eq j.type job_type_credit ≡ false =
        ap (λ z. str_eq z job_type_credit) k in
      let is_debit : str_eq j.type job_type_debit ≡ false = ap (λ z. str_eq z job_type_debit) k in
      let is_transfer : str_eq j.type job_type_transfer ≡ false =
        ap (λ z. str_eq z job_type_transfer) k in
      let is_rollback : str_eq j.type job_type_rollback ≡ true =
        ap (λ z. str_eq z job_type_rollback) k in
      rw (is_credit, is_debit, is_transfer, is_rollback)
        (ap (λ z. (job_result j z.0, z.1)) (process_rollback-performs t u j w parses q p))

-- A result is of its job, and it is a success exactly when it has no error, and then it has a
-- transaction.
abbrev pub IsConsistent : TransactionJob → TransactionJobResult → Type 0
IsConsistent j r =
    (r.job_id ≡ j.id)
    × (((r.success ≡ true)
          × (r.error ≡ none)
          × ((t : TransactionResponse) × (r.transaction ≡ some t)))
        ⊎ ((r.success ≡ false) × (r.transaction ≡ none) × ((x : Error) × (r.error ≡ some x))))

module _ (uuid : UuidText) (svc : TransactionService) where
  asserted-IsConsistent :
      (j : TransactionJob) (invalid : String) (r : Result JobResponse)
      → IsConsistent j (asserted j invalid r)
  asserted-IsConsistent j invalid (err e) = (refl, inr (refl, refl, (e, refl)))
  asserted-IsConsistent j invalid (ok (transaction_response t)) =
      (refl, inl (refl, refl, (t, refl)))
  asserted-IsConsistent j invalid (ok other_response) =
      (refl, inr (refl, refl, (plain invalid, refl)))

  failed-IsConsistent :
      (j : TransactionJob) (x : Error) → IsConsistent j (to_result j none (some x))
  failed-IsConsistent j x = (refl, inr (refl, refl, (x, refl)))

  -- Whatever the service does, a processed job has a result of its own id: either a success with a
  -- transaction and no error, or a failure with an error and no transaction.
  pub process_job-IsConsistent :
      (j : TransactionJob) (w : World) → IsConsistent j (process_job uuid svc j w).0
  unfolding process_job process_credit process_debit process_transfer process_rollback
  process_job-IsConsistent j w = elim (Bool-cases (str_eq j.type job_type_credit)) [
    | inl c ↦ elim (Option-cases j.credit_request) [
      | inl p ↦ rw (c, p) (failed-IsConsistent j _)
      | inr (r, p) ↦ rw (c, p) (asserted-IsConsistent j _ _)
    ]
    | inr c ↦ elim (Bool-cases (str_eq j.type job_type_debit)) [
      | inl d ↦ elim (Option-cases j.debit_request) [
        | inl p ↦ rw (c, d, p) (failed-IsConsistent j _)
        | inr (r, p) ↦ rw (c, d, p) (asserted-IsConsistent j _ _)
      ]
      | inr d ↦ elim (Bool-cases (str_eq j.type job_type_transfer)) [
        | inl m ↦ elim (Option-cases j.from_user_id) [
          | inl p ↦ rw (c, d, m, p) (failed-IsConsistent j _)
          | inr (u, q) ↦ elim (Option-cases j.transfer_request) [
            | inl p ↦ rw (c, d, m, q, p) (failed-IsConsistent j _)
            | inr (r, p) ↦ rw (c, d, m, q, p) (asserted-IsConsistent j _ _)
          ]
        ]
        | inr m ↦ elim (Bool-cases (str_eq j.type job_type_rollback)) [
          | inr k ↦ rw (c, d, m, k) (failed-IsConsistent j _)
          | inl k ↦ elim (Option-cases j.original_tx_id) [
            | inl p ↦ rw (c, d, m, k, p) (failed-IsConsistent j _)
            | inr (t, p) ↦ rw (c, d, m, k, p) (asserted-IsConsistent j _ _)
          ]
        ]
      ]
    ]
  ]
