-- ===== src/Repository/Transactions.antt =====
-- internal/repository/transactions.go: creating a transaction and moving its status.
use insider_banking_project.Base.{
  ℕ, ⊤, Bool, true, false, String, str_eq, Option, none, some, ◌==◌, if◌then◌else◌,
}
use insider_banking_project.Base.Dict.{lookup, insert}
use insider_banking_project.Domain.Error.{plain}
use insider_banking_project.Domain.Transaction.{
  Transaction, status_pending, status_success, status_failed,
}
use insider_banking_project.Repository.World.{
  Env, ok, err, M, pure, fail, with_context, ◌>>=◌, ◌>>◌, call, time_now, new_uuid,
}
use insider_banking_project.Repository.Numeric.{to_numeric}
use insider_banking_project.Repository.Constraints.{transaction_row_ok}

abbrev pub put_transaction : ℕ → Transaction → M ⊤
put_transaction id t w =
    (ok tt, record w { db = record (w.db) { transactions = insert id t w.db.transactions } })

abbrev pub select_transaction : ℕ → M (Option Transaction)
select_transaction id w = (ok (lookup id w.db.transactions), w)

abbrev pub found_transaction : Option Transaction → M Transaction
found_transaction none = fail (plain "transaction not found")
found_transaction (some t) = pure t

-- UPDATE transactions SET status = new WHERE id = id AND status = expected: were rows affected?
abbrev pub set_status : ℕ → String → String → Option Transaction → M Bool
set_status id expected new none w = (ok false, w)
set_status id expected new (some t) w =
    if str_eq t.status expected
    then (put_transaction id (record t { status = new }) >>= λ _. pure true) w
    else (ok false, w)

abbrev pub update_status : ℕ → String → String → M Bool
update_status id expected new w = set_status id expected new (lookup id w.db.transactions) w

abbrev pub refuse_transition : Option Transaction → M ⊤
refuse_transition none = fail (plain "transaction not found")
refuse_transition (some t) = fail (plain "invalid state transition")

module _ (e : Env) where
  abbrev pub id_or_new : ℕ → M ℕ
  id_or_new id w = if id == 0 then new_uuid e w else (ok id, w)

  abbrev pub insert_transaction : Transaction → M ⊤
  insert_transaction t w =
      let row = record t { amount = to_numeric t.amount } in
      if transaction_row_ok w.db row
      then put_transaction t.id row w
      else (err (plain e.violation), w)

  -- `CreatePending`, which also fills in the caller's record.
  unfoldable pub create_pending : Transaction → M Transaction
  create_pending t = do
    id ← id_or_new t.id
    now ← time_now e
    let t' = record t { id = id; status = status_pending; created_at = now }
    with_context "failed to create pending transaction" (call e (insert_transaction t'))
    pure t'

  -- The rows that the update did not reach: why.
  abbrev pub explain_status : ℕ → Bool → M ⊤
  explain_status id true = pure tt
  explain_status id false = do
    row ← with_context "failed to check transaction status" (call e (select_transaction id))
    refuse_transition row

  -- `updateTransactionStatus`
  unfoldable pub update_transaction_status : ℕ → String → String → M ⊤
  update_transaction_status id expected new = do
    affected ←
        with_context "failed to update transaction status" (call e (update_status id expected new))
    explain_status id affected

  unfoldable pub mark_completed : ℕ → M ⊤
  unfolding update_transaction_status
  mark_completed id = update_transaction_status id status_pending status_success

  unfoldable pub mark_failed : ℕ → M ⊤
  unfolding update_transaction_status
  mark_failed id = update_transaction_status id status_pending status_failed

  -- `GetByID`
  unfoldable pub get_by_id : ℕ → M Transaction
  get_by_id id = do
    row ← with_context "failed to get transaction by ID" (call e (select_transaction id))
    found_transaction row
