-- ===== src/Service/Transaction/RollbackLaws.antt =====
-- `RollbackSync` and `rollbackTransaction` (internal/service/transaction.go): who may roll back
-- what, and what it does to the balances.
use mathlib.Core.Path.{subst}
use insider_banking_project.Base.{
  ℕ, ◌≡◌, refl, sym, ◌∙◌, ap, ◌≢◌, inl, inr, true, Bool-cases, str_eq, Option, none, some, eq_iff,
  arith,
}
use insider_banking_project.Base.Int.{ℤ, pos, ◌+ℤ◌, ◌-ℤ◌, int_laws}
use insider_banking_project.Base.Dict.{Dict, lookup}
use insider_banking_project.Domain.Error.{Error}
use insider_banking_project.Domain.Balance.{Balance}
use insider_banking_project.Domain.Change.{Added, written-Added}
use insider_banking_project.Domain.Total.{total, amount_at}
use insider_banking_project.Domain.Transaction.{
  Transaction, TransactionResponse, status_success, type_credit, type_debit, type_transfer,
}
use insider_banking_project.Repository.Numeric.{
  to_numeric, IsWhole, AllWhole, to_numeric-plus, to_numeric-minus,
}
use insider_banking_project.Repository.World.{Env, World, ok, err, Result-cases}
use insider_banking_project.Repository.Frames.{get_by_id_row}
use insider_banking_project.Repository.Transactions.{get_by_id}
use insider_banking_project.Repository.Quiet.{get_by_id-Quiet}
use insider_banking_project.Service.Transaction.Common.{Service}
use insider_banking_project.Service.Transaction.Moving.{Moved, Moved-total, Moved-rows}
use insider_banking_project.Service.Transaction.Rollback.{
  rollback_credit, rollback_debit, rollback_transfer, rollback_plan, execute_rollback,
  rollback_transaction, may_roll_back, rollback_sync, rollback_by_admin,
}
use insider_banking_project.Service.Transaction.RollbackLegs.{Written, written}
use insider_banking_project.Service.Transaction.RollbackEffects.{
  rollback_credit_ok, rollback_debit_ok, rollback_transfer_ok, rollback_transaction_ok,
}

may_roll_back_lem : (o : Option ℕ) (u : ℕ) → may_roll_back o u ≡ true → o ≡ some u
may_roll_back_lem none u h = absurd (ground arith)
may_roll_back_lem (some v) u h = ground arith

some_injective {ℓ} : {A : Type ℓ} {a b : A} → some a ≡ some b → a ≡ b
some_injective p = cc

module _ (e : Env) (s : Service) where
  -- What `RollbackSync` has checked when it succeeds.
  rollback_sync_checks :
      (id user : ℕ) (w : World) (t : Transaction) {r : TransactionResponse}
      → (get_by_id e id w).0 ≡ ok t
      → (rollback_sync e s id user w).0 ≡ ok r
      → (t.status ≡ status_success)
        × (t.from_user_id ≡ some user)
        × (rollback_sync e s id user w ≡ rollback_transaction e s t user (get_by_id e id w).1)
  unfolding rollback_sync
  rollback_sync_checks id user w t p h = elim (Bool-cases (str_eq t.status status_success)) [
    | inr k ↦ absurd (ground arith)
    | inl k ↦ elim (Bool-cases (may_roll_back t.from_user_id user)) [
      | inr l ↦ absurd (ground arith)
      | inl l ↦ (
        (eq_iff t.status status_success).0 k,
        may_roll_back_lem t.from_user_id user l,
        ground arith,
      )
    ]
  ]

  rollback_sync_unread :
      (id user : ℕ) (w : World) {x : Error} {r : TransactionResponse}
      → (get_by_id e id w).0 ≡ err x
      → (rollback_sync e s id user w).0 ≡ ok r
      → ⊥
  unfolding rollback_sync
  rollback_sync_unread id user w p h = ground arith

-- What the switch of the rollback runs for each type of the original.
module _ (e : Env) (id : ℕ) (t : Transaction) (w : World) where
  execute_transfer :
      {u v : Option ℕ}
      → t.type ≡ type_transfer
      → t.to_user_id ≡ u
      → t.from_user_id ≡ v
      → execute_rollback e id t w ≡ rollback_transfer e id t u v w
  unfolding execute_rollback rollback_plan
  execute_transfer p q r = rw (p, q, r) refl

  execute_debit :
      {u : Option ℕ}
      → t.type ≡ type_debit
      → t.from_user_id ≡ u
      → execute_rollback e id t w ≡ rollback_credit e id t u w
  unfolding execute_rollback rollback_plan
  execute_debit p q = rw (p, q) refl

  execute_credit :
      {u : Option ℕ}
      → t.type ≡ type_credit
      → t.to_user_id ≡ u
      → execute_rollback e id t w ≡ rollback_debit e id t u w
  unfolding execute_rollback rollback_plan
  execute_credit p q = rw (p, q) refl

taken : (x y : ℤ) → x -ℤ y ≡ x +ℤ (pos 0 -ℤ y)
taken x y = omega int_laws

Written-Added :
    {u : ℕ} {amount : ℤ} {before after : Dict Balance} (row : Balance) (delta : ℤ)
    → lookup u before ≡ some row
    → to_numeric amount ≡ row.amount +ℤ delta
    → Written u amount before after
    → Added u row delta before after
Written-Added {u} {amount} {before} row delta was sum (written b put low p) =
    subst (λ z. Added u row delta before z) (sym p)
      (written-Added u row delta b before was (put ∙ sum))

module _ (e : Env) (s : Service) (original : Transaction) (user : ℕ) (w : World) where
  -- Rolling back a transfer moves its amount back.
  rollback_transaction_transfer :
      (u v : ℕ) (row : Balance) {r : TransactionResponse}
      → original.type ≡ type_transfer
      → original.to_user_id ≡ some u
      → original.from_user_id ≡ some v
      → lookup u w.db.balances ≡ some row
      → (rollback_transaction e s original user w).0 ≡ ok r
      → Moved u v original.amount w.db.balances
          (rollback_transaction e s original user w).1.db.balances
  rollback_transaction_transfer u v row p q k was h =
      let (id, w1, same, ran, reaches) = rollback_transaction_ok e s original user w h in
      let runs = execute_transfer e id original w1 p q k in
      subst (λ z. Moved u v original.amount w.db.balances z)
        (ap (λ z. z.1.db.balances) (sym runs) ∙ sym reaches)
        (subst
          (λ z.
            Moved u v original.amount z
              (rollback_transfer e id original (some u) (some v) w1).1.db.balances)
          same
          (rollback_transfer_ok e id original u v row w1 (ap (lookup u) same ∙ was)
            (ap (λ z. z.0) (sym runs) ∙ ran)))

  -- Rolling back a debit gives its amount back to the user.
  rollback_transaction_debit :
      (v : ℕ) (row : Balance) {r : TransactionResponse}
      → IsWhole original.amount
      → IsWhole row.amount
      → original.type ≡ type_debit
      → original.from_user_id ≡ some v
      → lookup v w.db.balances ≡ some row
      → (rollback_transaction e s original user w).0 ≡ ok r
      → Added v row original.amount w.db.balances
          (rollback_transaction e s original user w).1.db.balances
  rollback_transaction_debit v row whole row_whole p q was h =
      let (id, w1, same, ran, reaches) = rollback_transaction_ok e s original user w h in
      let runs = execute_debit e id original w1 p q in
      subst (λ z. Added v row original.amount w.db.balances z)
        (ap (λ z. z.1.db.balances) (sym runs) ∙ sym reaches)
        (subst
          (λ z.
            Added v row original.amount z (rollback_credit e id original (some v) w1).1.db.balances)
          same
          (Written-Added row original.amount (ap (lookup v) same ∙ was)
            (ap (λ z. to_numeric (amount_at (lookup v z) +ℤ original.amount)) same
              ∙ ap (λ z. to_numeric (amount_at z +ℤ original.amount)) was
              ∙ to_numeric-plus row.amount original.amount row_whole whole)
            (rollback_credit_ok e id original v w1 (ap (λ z. z.0) (sym runs) ∙ ran))))

  -- Rolling back a credit takes its amount from the user.
  rollback_transaction_credit :
      (u : ℕ) (row : Balance) {r : TransactionResponse}
      → IsWhole original.amount
      → IsWhole row.amount
      → original.type ≡ type_credit
      → original.to_user_id ≡ some u
      → lookup u w.db.balances ≡ some row
      → (rollback_transaction e s original user w).0 ≡ ok r
      → Added u row
          (pos 0 -ℤ original.amount)
          w.db.balances
          (rollback_transaction e s original user w).1.db.balances
  rollback_transaction_credit u row whole row_whole p q was h =
      let (id, w1, same, ran, reaches) = rollback_transaction_ok e s original user w h in
      let runs = execute_credit e id original w1 p q in
      subst (λ z. Added u row (pos 0 -ℤ original.amount) w.db.balances z)
        (ap (λ z. z.1.db.balances) (sym runs) ∙ sym reaches)
        (subst
          (λ z.
            Added u row (pos 0 -ℤ original.amount) z
              (rollback_debit e id original (some u) w1).1.db.balances)
          same
          (Written-Added row (pos 0 -ℤ original.amount) (ap (lookup u) same ∙ was)
            (to_numeric-minus row.amount original.amount row_whole whole
              ∙ taken row.amount original.amount)
            (rollback_debit_ok e id original u row w1 (ap (lookup u) same ∙ was)
              (ap (λ z. z.0) (sym runs) ∙ ran))))

module _ (e : Env) (s : Service) where
  -- A rollback by a user that succeeds is one of a stored, completed transaction that the user sent.
  pub rollback_sync_sender :
      (id user : ℕ) (w : World) {r : TransactionResponse}
      → (rollback_sync e s id user w).0 ≡ ok r
      → (t : Transaction) × (lookup id w.db.transactions ≡ some t)
        × (t.status ≡ status_success)
        × (t.from_user_id ≡ some user)
  rollback_sync_sender id user w h = elim (Result-cases (get_by_id e id w).0) [
    | inr (x, p) ↦ absurd (rollback_sync_unread e s id user w p h)
    | inl (t, p) ↦
        let (good, sender, runs) = rollback_sync_checks e s id user w t p h in
        (t, get_by_id_row e id w p, good, sender)
  ]

  pub rollback_by_admin_completed :
      (id : ℕ) (w : World) {r : TransactionResponse}
      → (rollback_by_admin e s id w).0 ≡ ok r
      → (t : Transaction) × (lookup id w.db.transactions ≡ some t) × (t.status ≡ status_success)
  unfolding rollback_by_admin
  rollback_by_admin_completed id w h = elim (Result-cases (get_by_id e id w).0) [
    | inr (x, p) ↦ absurd (ground arith)
    | inl (t, p) ↦ elim (Bool-cases (str_eq t.status status_success)) [
      | inr k ↦ absurd (ground arith)
      | inl k ↦ (t, get_by_id_row e id w p, (eq_iff t.status status_success).0 k)
    ]
  ]

  rollback_sync_ok :
      (id user : ℕ) (w : World) (t : Transaction) {r : TransactionResponse}
      → lookup id w.db.transactions ≡ some t
      → (rollback_sync e s id user w).0 ≡ ok r
      → (t.status ≡ status_success)
        × (t.from_user_id ≡ some user)
        × (w1 : World) × (w1.db.balances ≡ w.db.balances)
        × (rollback_sync e s id user w ≡ rollback_transaction e s t user w1)
  rollback_sync_ok id user w t there h = elim (Result-cases (get_by_id e id w).0) [
    | inr (x, p) ↦ absurd (rollback_sync_unread e s id user w p h)
    | inl (t', p) ↦
        let found : t' ≡ t = some_injective (sym (get_by_id_row e id w p) ∙ there) in
        let (good, sender, runs) = rollback_sync_checks e s id user w t (p ∙ ap ok found) h in
        (good, sender, (get_by_id e id w).1, (get_by_id-Quiet e id w).same_balances, runs)
  ]

  rollback_by_admin_ok :
      (id : ℕ) (w : World) (t : Transaction) {r : TransactionResponse}
      → lookup id w.db.transactions ≡ some t
      → (rollback_by_admin e s id w).0 ≡ ok r
      → (t.status ≡ status_success)
        × (w1 : World) × (w1.db.balances ≡ w.db.balances)
        × (rollback_by_admin e s id w ≡ rollback_transaction e s t 0 w1)
  unfolding rollback_by_admin
  rollback_by_admin_ok id w t there h = elim (Result-cases (get_by_id e id w).0) [
    | inr (x, p) ↦ absurd (ground arith)
    | inl (t', p) ↦
        let found : t' ≡ t = some_injective (sym (get_by_id_row e id w p) ∙ there) in
        elim (Bool-cases (str_eq t.status status_success)) [
          | inr k ↦ absurd (ground arith)
          | inl k ↦ (
            (eq_iff t.status status_success).0 k,
            (get_by_id e id w).1,
            (get_by_id-Quiet e id w).same_balances,
            ground arith,
          )
        ]
  ]

  -- When `RollbackSync` of a stored transfer to another user v, who has a balance, succeeds, the
  -- transfer was a success, the user who asks is its sender, and its amount goes back from v to
  -- the user: the two amounts change by it, no other row changes, and the total of all balances
  -- stays the same. What is stored is taken to be in whole cents.
  pub rollback_sync_reverses_transfer :
      (id user v : ℕ) (w : World) (t : Transaction) (row : Balance) {r : TransactionResponse}
      → AllWhole w.db.balances
      → IsWhole t.amount
      → lookup id w.db.transactions ≡ some t
      → t.type ≡ type_transfer
      → t.to_user_id ≡ some v
      → v ≢ user
      → lookup v w.db.balances ≡ some row
      → (rollback_sync e s id user w).0 ≡ ok r
      → (t.status ≡ status_success)
        × (t.from_user_id ≡ some user)
        × (amount_at (lookup v (rollback_sync e s id user w).1.db.balances)
            ≡ row.amount -ℤ t.amount)
        × (amount_at (lookup user (rollback_sync e s id user w).1.db.balances)
            ≡ amount_at (lookup user w.db.balances) +ℤ t.amount)
        × ((k : ℕ)
            → k ≢ v
            → k ≢ user
            → lookup k (rollback_sync e s id user w).1.db.balances ≡ lookup k w.db.balances)
        × (total (rollback_sync e s id user w).1.db.balances ≡ total w.db.balances)
  rollback_sync_reverses_transfer id user v w t row whole whole_amount there p q ne was h =
      let (good, sender, w1, same, runs) = rollback_sync_ok id user w t there h in
      let back =
        subst (λ z. Moved v user t.amount w.db.balances z) (ap (λ z. z.1.db.balances) (sym runs))
          (subst (λ z. Moved v user t.amount z (rollback_transaction e s t user w1).1.db.balances)
            same
            (rollback_transaction_transfer e s t user w1 v user row p q sender
              (ap (lookup v) same ∙ was) (ap (λ z. z.0) (sym runs) ∙ h))) in
      let (low, high, others) = Moved-rows ne back in
      (
        good,
        sender,
        low
            ∙ to_numeric-minus _ t.amount (whole v) whole_amount
            ∙ ap (λ z. amount_at z -ℤ t.amount) was,
        high ∙ to_numeric-plus _ t.amount (whole user) whole_amount,
        others,
        Moved-total whole whole_amount back,
      )

  -- When `RollbackSync` of a stored debit succeeds and the user has a balance, the debit was a
  -- success, the user who asks is the one it was taken from, and its amount is added to the
  -- user's balance: no other row changes, and the total of all balances grows by the amount. What is
  -- stored is taken to be in whole cents.
  pub rollback_sync_reverses_debit :
      (id user : ℕ) (w : World) (t : Transaction) (row : Balance) {r : TransactionResponse}
      → IsWhole t.amount
      → IsWhole row.amount
      → lookup id w.db.transactions ≡ some t
      → t.type ≡ type_debit
      → lookup user w.db.balances ≡ some row
      → (rollback_sync e s id user w).0 ≡ ok r
      → (t.status ≡ status_success)
        × (t.from_user_id ≡ some user)
        × Added user row t.amount w.db.balances (rollback_sync e s id user w).1.db.balances
  rollback_sync_reverses_debit id user w t row whole row_whole there p was h =
      let (good, sender, w1, same, runs) = rollback_sync_ok id user w t there h in
      (
        good,
        sender,
        subst (λ z. Added user row t.amount w.db.balances z) (ap (λ z. z.1.db.balances) (sym runs))
            (subst
              (λ z. Added user row t.amount z (rollback_transaction e s t user w1).1.db.balances)
              same
              (rollback_transaction_debit e s t user w1 user row whole row_whole p sender
                (ap (lookup user) same ∙ was) (ap (λ z. z.0) (sym runs) ∙ h))),
      )

  -- When `RollbackByAdmin` of a stored credit succeeds and its receiver u has a balance, the
  -- credit was a success, and its amount is taken from that balance: no other row changes, and
  -- the total of all balances falls by the amount. What is stored is taken to be in
  -- whole cents.
  pub rollback_by_admin_reverses_credit :
      (id u : ℕ) (w : World) (t : Transaction) (row : Balance) {r : TransactionResponse}
      → IsWhole t.amount
      → IsWhole row.amount
      → lookup id w.db.transactions ≡ some t
      → t.type ≡ type_credit
      → t.to_user_id ≡ some u
      → lookup u w.db.balances ≡ some row
      → (rollback_by_admin e s id w).0 ≡ ok r
      → (t.status ≡ status_success)
        × Added u row (pos 0 -ℤ t.amount) w.db.balances (rollback_by_admin e s id w).1.db.balances
  rollback_by_admin_reverses_credit id u w t row whole row_whole there p q was h =
      let (good, w1, same, runs) = rollback_by_admin_ok id w t there h in
      (
        good,
        subst (λ z. Added u row (pos 0 -ℤ t.amount) w.db.balances z)
            (ap (λ z. z.1.db.balances) (sym runs))
            (subst
              (λ z.
                Added u row (pos 0 -ℤ t.amount) z (rollback_transaction e s t 0 w1).1.db.balances)
              same
              (rollback_transaction_credit e s t 0 w1 u row whole row_whole p q
                (ap (lookup u) same ∙ was) (ap (λ z. z.0) (sym runs) ∙ h))),
      )
