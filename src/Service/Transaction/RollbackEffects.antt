-- ===== src/Service/Transaction/RollbackEffects.antt =====
-- What each kind of rollback does to the balances, step by step.

use insider_banking_project.Base.{
  ℕ, ◌≡◌, refl, sym, ◌∙◌, ap, inl, inr, Bool-cases, String, Option, none, some, [], ◌∷◌, arith,
}
use insider_banking_project.Base.Int.{ℤ, pos, ◌+ℤ◌, ◌-ℤ◌, int_laws}
use insider_banking_project.Base.Dict.{Dict, lookup, insert}
use insider_banking_project.Domain.Error.{Error}
use insider_banking_project.Domain.Balance.{Balance}
use insider_banking_project.Domain.Total.{amount_at}
use insider_banking_project.Domain.Transaction.{Transaction, TransactionResponse}
use insider_banking_project.Domain.Event.{id_detail, amount_detail}
use insider_banking_project.Repository.Numeric.{to_numeric}
use insider_banking_project.Repository.World.{Env, World, ok, err, Result-cases}
use insider_banking_project.Repository.Transactions.{create_pending, mark_completed}
use insider_banking_project.Repository.Cache.{cache_transaction}
use insider_banking_project.Repository.Quiet.{
  Quiet, Quiet-trans, mark_completed-Quiet, create_pending-Quiet, audit_log-Quiet,
  cache_transaction-Quiet, invalidate_transaction_cache-Quiet, invalidate_balance_cache-Quiet,
  invalidate_transaction_history_cache-Quiet,
}
use insider_banking_project.Service.Transaction.Common.{Service, increment_transaction_counter}
use insider_banking_project.Service.Transaction.Moving.{Moved, moved}
use insider_banking_project.Service.Transaction.Rollback.{
  balance_for_rollback, plus_amount, debit_found, rollback_credit, rollback_debit,
  rollback_transfer, rollback_record, execute_rollback, forget_user, rollback_refresh_cache,
  rollback_finish, rollback_transaction,
}
use insider_banking_project.Service.Transaction.RollbackLegs.{
  Written, written, plus_amount_lem, balance_for_rollback_row, balance_for_rollback-Quiet,
  write_rollback-Written,
}

Written-from :
    {u : ℕ} {amount amount' : ℤ} {before before' after after' : Dict Balance}
    → amount ≡ amount'
    → before ≡ before'
    → after' ≡ after
    → Written u amount before after
    → Written u amount' before' after'
Written-from p q r (written b amount low put) =
    written b (amount ∙ ap to_numeric p) low (ground arith)

taken : (x y : ℤ) → x -ℤ y ≡ x +ℤ (pos 0 -ℤ y)
taken x y = omega int_laws

module _ (e : Env) (id : ℕ) (t : Transaction) where
  pub rollback_credit_ok :
      (v : ℕ) (w : World)
      → (rollback_credit e id t (some v) w).0 ≡ ok tt
      → Written v
          (amount_at (lookup v w.db.balances) +ℤ t.amount)
          w.db.balances
          (rollback_credit e id t (some v) w).1.db.balances
  unfolding rollback_credit
  rollback_credit_ok v w h =
      let w1 = (balance_for_rollback e "failed to get balance for rollback" v w).1 in
      elim (Result-cases (balance_for_rollback e "failed to get balance for rollback" v w).0) [
        | inr (x, p) ↦ absurd (ground arith)
        | inl (o, p) ↦
            Written-from
              (plus_amount_lem o t.amount
                ∙ ap (λ z. amount_at z +ℤ t.amount) (sym (balance_for_rollback_row e _ v w p)))
              (balance_for_rollback-Quiet e _ v w).same_balances (ground arith)
              (write_rollback-Written e "rollback would result in negative balance"
                "failed to rollback credit" v (plus_amount o t.amount) t w1 (ground arith))
      ]

  debit_found_ok :
      (negative failed : String) (u : ℕ) (b : Balance) (w : World)
      → (debit_found e u t (some b) negative failed w).0 ≡ ok tt
      → Written u
          (b.amount -ℤ t.amount)
          w.db.balances
          (debit_found e u t (some b) negative failed w).1.db.balances
  debit_found_ok negative failed u b w h = write_rollback-Written e negative failed u _ t w h

  pub rollback_debit_ok :
      (u : ℕ) (b : Balance) (w : World)
      → lookup u w.db.balances ≡ some b
      → (rollback_debit e id t (some u) w).0 ≡ ok tt
      → Written u
          (b.amount -ℤ t.amount)
          w.db.balances
          (rollback_debit e id t (some u) w).1.db.balances
  unfolding rollback_debit
  rollback_debit_ok u b w row h =
      let w1 = (balance_for_rollback e "failed to get balance for rollback" u w).1 in
      elim (Result-cases (balance_for_rollback e "failed to get balance for rollback" u w).0) [
        | inr (x, p) ↦ absurd (ground arith)
        | inl (o, p) ↦
            let found : o ≡ some b = sym (balance_for_rollback_row e _ u w p) ∙ row in
            Written-from refl (balance_for_rollback-Quiet e _ u w).same_balances (ground arith) (
              debit_found_ok "rollback would result in negative balance" "failed to rollback debit"
                u b w1 (ground arith))
      ]

  -- The world after the reading and the debit of the recipient.
  abbrev after_recipient : ℕ → Option Balance → World → World
  after_recipient u o w =
      (debit_found e u t o "transfer rollback would result in negative balance for recipient"
        "failed to rollback transfer (debit recipient)"
        (balance_for_rollback e "failed to get recipient balance for rollback" u w).1).1

  -- The sender's leg, from the world that the recipient's leg leaves.
  sender_leg_ok :
      (u v : ℕ) (o : Option Balance) (w : World)
      → (balance_for_rollback e "failed to get recipient balance for rollback" u w).0 ≡ ok o
      → (rollback_transfer e id t (some u) (some v) w).0 ≡ ok tt
      → ((debit_found e u t o "transfer rollback would result in negative balance for recipient"
            "failed to rollback transfer (debit recipient)"
            (balance_for_rollback e "failed to get recipient balance for rollback" u w).1).0
          ≡ ok tt)
        × Written v
            (amount_at (lookup v (after_recipient u o w).db.balances) +ℤ t.amount)
            (after_recipient u o w).db.balances
            (rollback_transfer e id t (some u) (some v) w).1.db.balances
  unfolding rollback_transfer
  sender_leg_ok u v o w p h =
      let w2 = after_recipient u o w in
      let sender = balance_for_rollback e "failed to get sender balance for rollback" v w2 in
      elim (Result-cases
        (debit_found e u t o "transfer rollback would result in negative balance for recipient"
          "failed to rollback transfer (debit recipient)"
          (balance_for_rollback e "failed to get recipient balance for rollback" u w).1).0) [
            | inr (x, q) ↦ absurd (ground arith)
            | inl (_, q) ↦ (
              q,
              elim (Result-cases sender.0) [
                | inr (x, r) ↦ absurd (ground arith)
                | inl (b, r) ↦
                    Written-from
                      (plus_amount_lem b t.amount
                        ∙ ap (λ z. amount_at z +ℤ t.amount)
                            (sym (balance_for_rollback_row e _ v w2 r)))
                      (balance_for_rollback-Quiet e _ v w2).same_balances (ground arith)
                      (write_rollback-Written e
                        "transfer rollback would result in negative balance for sender"
                        "failed to rollback transfer (credit sender)" v (plus_amount b t.amount) t
                        sender.1 (ground arith))
              ],
            )
          ]

  rollback_transfer_unread :
      (u v : ℕ) (w : World) {x : Error}
      → (balance_for_rollback e "failed to get recipient balance for rollback" u w).0 ≡ err x
      → (rollback_transfer e id t (some u) (some v) w).0 ≡ ok tt
      → ⊥
  unfolding rollback_transfer
  rollback_transfer_unread u v w p h = ground arith

  -- The recipient of the original pays back, and its sender receives.
  pub rollback_transfer_ok :
      (u v : ℕ) (a : Balance) (w : World)
      → lookup u w.db.balances ≡ some a
      → (rollback_transfer e id t (some u) (some v) w).0 ≡ ok tt
      → Moved u v t.amount w.db.balances
          (rollback_transfer e id t (some u) (some v) w).1.db.balances
  rollback_transfer_ok u v a w row h =
      let read = balance_for_rollback e "failed to get recipient balance for rollback" u w in
      elim (Result-cases read.0) [
        | inr (x, p) ↦ absurd (rollback_transfer_unread u v w p h)
        | inl (o, p) ↦
            let found : o ≡ some a = sym (balance_for_rollback_row e _ u w p) ∙ row in
            let p' : read.0 ≡ ok (some a) = p ∙ ap ok found in
            let (q, high) = sender_leg_ok u v (some a) w p' h in
            join
              (Written-from refl (balance_for_rollback-Quiet e _ u w).same_balances refl
                (debit_found_ok _ _ u a read.1 q))
              high
      ]
    where
      join :
          {mid after : Dict Balance}
          → Written u (a.amount -ℤ t.amount) w.db.balances mid
          → Written v (amount_at (lookup v mid) +ℤ t.amount) mid after
          → Moved u v t.amount w.db.balances after
      join {mid} {after} (written b low b_pos put) (written c high c_pos put') =
          let put_c : after ≡ insert v c (insert u b w.db.balances) = put' ∙ ap (insert v c) put in
          moved b c
            (low
              ∙ ap to_numeric (
                  taken a.amount t.amount ∙ ap (λ z. amount_at z +ℤ (pos 0 -ℤ t.amount)) (sym row)))
            b_pos (high ∙ ap (λ z. to_numeric (amount_at (lookup v z) +ℤ t.amount)) put) put_c

module _ (e : Env) (s : Service) where
  forget_user-Quiet : (u : Option ℕ) (w : World) → Quiet w (forget_user e s u w).1
  forget_user-Quiet none w = ground arith
  forget_user-Quiet (some u) w =
      Quiet-trans (invalidate_balance_cache-Quiet e u w)
        (invalidate_transaction_history_cache-Quiet e u _)

  refresh-Quiet :
      (t original : Transaction) (w : World) → Quiet w (rollback_refresh_cache e s t original w).1
  unfolding rollback_refresh_cache
  refresh-Quiet t original w = elim (Bool-cases s.has_cache) [
    | inr off ↦ ground arith
    | inl on ↦
        let w1 = (forget_user e s t.from_user_id w).1 in
        let w2 = (forget_user e s t.to_user_id w1).1 in
        ground (
          arith,
          on,
          forget_user-Quiet t.from_user_id w,
          forget_user-Quiet t.to_user_id w1,
          cache_transaction-Quiet e t w2,
          invalidate_transaction_cache-Quiet e original.id (cache_transaction e t w2).1,
        )
  ]

  rollback_finish-Quiet :
      (t original : Transaction) (user : ℕ) (w : World)
      → Quiet w (rollback_finish e s t original user w).1
  unfolding rollback_finish rollback_refresh_cache increment_transaction_counter
  rollback_finish-Quiet t original user w =
      let w1 = (mark_completed e t.id w).1 in
      let w2 = (rollback_refresh_cache e s t original w1).1 in
      ground (
        arith,
        mark_completed-Quiet e t.id w,
        refresh-Quiet t original w1,
        audit_log-Quiet e "transaction" t.id "rollback"
            (("original_transaction_id", id_detail original.id)
              ∷ ("user_id", id_detail user)
              ∷ ("amount", amount_detail original.amount)
              ∷ [])
            w2,
      )

  -- A rollback that succeeds has executed its plan, and nothing else has moved money.
  pub rollback_transaction_ok :
      (original : Transaction) (user : ℕ) (w : World) {r : TransactionResponse}
      → (rollback_transaction e s original user w).0 ≡ ok r
      → (id : ℕ) × (w1 : World) × (w1.db.balances ≡ w.db.balances)
        × ((execute_rollback e id original w1).0 ≡ ok tt)
        × ((rollback_transaction e s original user w).1.db.balances
            ≡ (execute_rollback e id original w1).1.db.balances)
  unfolding rollback_transaction
  rollback_transaction_ok original user w h =
      let w1 = (create_pending e (rollback_record original) w).1 in
      elim (Result-cases (create_pending e (rollback_record original) w).0) [
        | inr (x, p) ↦ absurd (ground arith)
        | inl (t, p) ↦ elim (Result-cases (execute_rollback e t.id original w1).0) [
          | inr (x, q) ↦ absurd (ground arith)
          | inl (_, q) ↦ (
            t.id,
            w1,
            (create_pending-Quiet e (rollback_record original) w).same_balances,
            q,
            ground (
              arith,
              rollback_finish-Quiet t original user (execute_rollback e t.id original w1).1,
            ),
          )
        ]
      ]
