-- ===== src/Service/Transaction/Write.antt =====
-- The part that the credit and the debit have in common: a pending record is created, the balance
-- is written, and the record is completed.
use insider_banking_project.Base.{ℕ, ◌≡◌, ◌⊎◌, inl, inr, arith}
use insider_banking_project.Base.Dict.{insert}
use insider_banking_project.Domain.Error.{Error, wrap}
use insider_banking_project.Domain.Balance.{Balance}
use insider_banking_project.Domain.Transaction.{Transaction, TransactionResponse}
use insider_banking_project.Repository.Numeric.{to_numeric}
use insider_banking_project.Repository.World.{
  Env, World, Result, ok, err, Result-cases, M, ◌>>=◌, ◌>>◌, with_context, on_error, ignore,
}
use insider_banking_project.Repository.Frames.{upsert_ok, upsert_err}
use insider_banking_project.Repository.Balances.{upsert}
use insider_banking_project.Repository.Transactions.{create_pending, mark_completed, mark_failed}
use insider_banking_project.Repository.Quiet.{
  Quiet, create_pending-Quiet, mark_completed-Quiet, mark_failed-Quiet,
}

-- How an operation that has written its balance ends: with a success, or with the failure to
-- complete the record.
abbrev pub WriteEnd : Result TransactionResponse → Type 0
WriteEnd r =
    ((t : TransactionResponse) × (r ≡ ok t))
    ⊎ ((x : Error) × (r ≡ err (wrap "failed to mark transaction completed" x)))

-- How the write of a balance ended: it was made, and the result is a success or the failure to
-- complete the record; or nothing was written, and the result is an error.
pub data WriteOutcome (b : Balance) (w : World) (r : Result TransactionResponse) (w' : World)
    : Type 0 where
  made :
      (now : ℕ)
      → w'.db.balances
        ≡ insert b.user_id
            (record b { amount = to_numeric b.amount; last_updated_at = now })
            w.db.balances
      → WriteEnd r
      → WriteOutcome b w r w'
  refused : (x : Error) → r ≡ err x → w'.db.balances ≡ w.db.balances → WriteOutcome b w r w'

-- The outcome is about the balances alone.
pub WriteOutcome-from :
    {b : Balance} {w w1 : World} {r : Result TransactionResponse} {w' : World}
    → w1.db.balances ≡ w.db.balances
    → WriteOutcome b w1 r w'
    → WriteOutcome b w r w'
WriteOutcome-from same (made now written how) = made now (ground arith) how
WriteOutcome-from same (refused x failed kept) = refused x failed (ground arith)

module _ (e : Env) (t0 : Transaction) (b : Balance) (done : Transaction → M TransactionResponse)
    (response : Transaction → TransactionResponse)
    (done-ok : (t : Transaction) (w : World) → (done t w).0 ≡ ok (response t))
    (done-Quiet : (t : Transaction) (w : World) → Quiet w (done t w).1) where
  abbrev pub write_steps : M TransactionResponse
  write_steps = do
    t ← with_context "failed to create transaction" (create_pending e t0)
    on_error (ignore (mark_failed e t.id)) (with_context "failed to update balance" (upsert e b))
    with_context "failed to mark transaction completed" (mark_completed e t.id)
    done t

  pub write_steps-WriteOutcome : (w : World) → WriteOutcome b w (write_steps w).0 (write_steps w).1
  write_steps-WriteOutcome w =
      let w1 = (create_pending e t0 w).1 in
      let q1 = create_pending-Quiet e t0 w in
      elim (Result-cases (create_pending e t0 w).0) [
        | inr (x, p) ↦
            refused (wrap "failed to create transaction" x) (ground arith) (ground (arith, q1))
        | inl (t, p) ↦ elim (Result-cases (upsert e b w1).0) [
          | inr (x, q) ↦
              refused (wrap "failed to update balance" x) (ground arith) (
                ground (arith, q1, mark_failed-Quiet e t.id (upsert e b w1).1, upsert_err e b w1 q))
          | inl (_, q) ↦ elim (Result-cases (mark_completed e t.id (upsert e b w1).1).0) [
            | inr (x, c) ↦
                made (e.now w1.tick)
                  (ground
                    (arith, q1, upsert_ok e b w1, mark_completed-Quiet e t.id (upsert e b w1).1))
                  (inr (x, ground arith))
            | inl (_, c) ↦
                made (e.now w1.tick)
                  (ground (
                    arith,
                    q1,
                    upsert_ok e b w1,
                    mark_completed-Quiet e t.id (upsert e b w1).1,
                    done-Quiet t (mark_completed e t.id (upsert e b w1).1).1,
                  ))
                  (inl (
                    response t,
                    ground (arith, done-ok t (mark_completed e t.id (upsert e b w1).1).1),
                  ))
          ]
        ]
      ]
