-- ===== src/Service/Transaction/Responses.antt =====
-- What a credit, a debit and a transfer that succeed report.
use insider_banking_project.Base.{
  ℕ, ◌≡◌, inl, inr, refl, sym, ap, ◌∙◌, some, Option-cases, arith, String, List, [], ◌∷◌,
}
use insider_banking_project.Base.Dict.{lookup, lookup-insert_self}
use insider_banking_project.Domain.Event.{Detail, id_detail, amount_detail}
use insider_banking_project.Repository.Balances.{upsert}
use mathlib.Core.Path.{subst}
use insider_banking_project.Repository.Journal.{audit_log}
use insider_banking_project.Repository.Cache.{
  invalidate_balance_cache, invalidate_transaction_history_cache, cache_transaction,
}
use insider_banking_project.Domain.Balance.{Balance}
use insider_banking_project.Domain.Transaction.{
  Transaction, TransactionResponse, transaction_to_response, status_pending, status_success,
  CreditRequest, credit_request_validate,
}
use insider_banking_project.Repository.World.{Env, World, ok, Result-cases}
use insider_banking_project.Repository.Transactions.{
  create_pending, mark_completed, update_transaction_status,
}
use insider_banking_project.Service.Balance.{get_current}
use insider_banking_project.Service.Transaction.Common.{
  Service, after_success, refresh_cache, increment_transaction_counter,
}
use insider_banking_project.Service.Transaction.Credit.{
  credit_sync, credit_write, credited, credit_record, credit_base,
}

module _ (e : Env) where
  create_pending_status :
      (t : Transaction) (w : World) {t' : Transaction}
      → (create_pending e t w).0 ≡ ok t'
      → t'.status ≡ status_pending
  unfolding create_pending
  create_pending_status t w h = ground arith

  mark_completed_row :
      (id : ℕ) (w : World)
      → (mark_completed e id w).0 ≡ ok tt
      → (t : Transaction) × (lookup id w.db.transactions ≡ some t)
        × (lookup id (mark_completed e id w).1.db.transactions
            ≡ some (record t { status = status_success }))
  unfolding mark_completed update_transaction_status
  mark_completed_row id w h = elim (Option-cases (lookup id w.db.transactions)) [
    | inl missing ↦ absurd (ground arith)
    | inr (t, there) ↦ (
      t,
      there,
      ground
          (arith, lookup-insert_self id (record t { status = status_success }) w.db.transactions),
    )
  ]

  audit_log_same :
      (type : String) (id : ℕ) (action : String) (details : List (String × Detail)) (w : World)
      → (audit_log e type id action details w).1.db.transactions ≡ w.db.transactions
  unfolding audit_log
  audit_log_same type id action details w = ground arith

module _ (e : Env) (s : Service) where
  refresh_cache_same :
      (u : ℕ) (t : Transaction) (w : World) → (refresh_cache e s (u ∷ []) t w).1.db ≡ w.db
  unfolding refresh_cache invalidate_balance_cache invalidate_transaction_history_cache
      cache_transaction
  refresh_cache_same u t w = ground arith

  after_success_same :
      (u : ℕ) (t : Transaction) (action : String) (details : List (String × Detail)) (w : World)
      → (after_success e s (u ∷ []) t action details w).1.db.transactions ≡ w.db.transactions
  unfolding after_success increment_transaction_counter
  after_success_same u t action details w =
      let w1 = (refresh_cache e s (u ∷ []) t w).1 in
      ground
        (arith, refresh_cache_same u t w, audit_log_same e "transaction" t.id action details w1)

-- The answer says "pending", while the stored row of the same id says "success".
abbrev pub IsBehind : TransactionResponse → World → Type 0
IsBehind r w =
    (r.status ≡ status_pending)
    × (t : Transaction) × (lookup r.id w.db.transactions ≡ some t)
    × (t.status ≡ status_success)

module _ (e : Env) (s : Service) (u : ℕ) where
  credit_write-IsBehind :
      (req : CreditRequest) (current : Balance) (w : World) {r : TransactionResponse}
      → (credit_write e s u req current w).0 ≡ ok r
      → IsBehind r (credit_write e s u req current w).1
  unfolding credit_write
  credit_write-IsBehind req current w {r} h =
      let w1 = (create_pending e (credit_record u req) w).1 in
      let put = upsert e (credited u req current) w1 in
      elim (Result-cases (create_pending e (credit_record u req) w).0) [
        | inr (x, p) ↦ absurd (ground arith)
        | inl (t, p) ↦ elim (Result-cases put.0) [
          | inr (x, q) ↦ absurd (ground arith)
          | inl (_, q) ↦ elim (Result-cases (mark_completed e t.id put.1).0) [
            | inr (x, k) ↦ absurd (ground arith)
            | inl (_, k) ↦
                let (row, there, now) = mark_completed_row e t.id put.1 k in
                let w2 = (mark_completed e t.id put.1).1 in
                let kept =
                  after_success_same e s u t "credit"
                    (("user_id", id_detail u) ∷ ("amount", amount_detail req.amount) ∷ []) w2 in
                let same : r ≡ transaction_to_response t = ground arith in
                (
                  ground (arith, same, create_pending_status e (credit_record u req) w p),
                  record row { status = status_success },
                  ground (arith, same, kept, now),
                  refl,
                )
          ]
        ]
      ]

  -- A credit that succeeds answers with the status "pending", although the row of the transaction
  -- that it has made and stored says "success".
  pub credit_sync-IsBehind :
      (req : CreditRequest) (w : World) {r : TransactionResponse}
      → (credit_sync e s u req w).0 ≡ ok r
      → IsBehind r (credit_sync e s u req w).1
  unfolding credit_sync
  credit_sync-IsBehind req w {r} h =
      let found = get_current e s.has_cache u w in
      elim (Option-cases (credit_request_validate req)) [
        | inr (x, p) ↦ absurd (ground arith)
        | inl valid ↦ elim (Result-cases (credit_base u req found.0)) [
          | inr (x, q) ↦ absurd (ground arith)
          | inl (current, q) ↦
              let reaches : credit_sync e s u req w ≡ credit_write e s u req current found.1 =
                ground arith in
              subst (λ z. IsBehind r z.1) (sym reaches)
                (credit_write-IsBehind req current found.1 (ap (λ z. z.0) (sym reaches) ∙ h))
        ]
      ]
