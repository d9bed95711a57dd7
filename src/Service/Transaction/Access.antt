-- ===== src/Service/Transaction/Access.antt =====
-- Who may read a transaction with `GetByID`, and what a credit, a debit and a transfer report.
use insider_banking_project.Base.{
  ℕ, ◌≡◌, inl, inr, true, Bool-cases, none, some, Option-cases, arith,
}
use insider_banking_project.Base.Dict.{lookup}
use insider_banking_project.Domain.Error.{Error, plain}
use insider_banking_project.Domain.Transaction.{
  Transaction, TransactionResponse, transaction_to_response,
}
use insider_banking_project.Repository.World.{Env, World, ok, err, Result-cases}
use insider_banking_project.Repository.Frames.{get_by_id_row}
use insider_banking_project.Repository.Transactions.{get_by_id}
use insider_banking_project.Repository.Cache.{get_cached_transaction}
use insider_banking_project.Service.Transaction.Common.{Service}
use insider_banking_project.Service.Transaction.Queries.{
  can_view, transaction_from_database, get_transaction,
}

module _ (e : Env) (s : Service) (id user : ℕ) (w : World) where
  from_database :
      (w' : World) {r : TransactionResponse}
      → (transaction_from_database e s id user w').0 ≡ ok r
      → (t : Transaction) × (lookup id w'.db.transactions ≡ some t)
        × (r ≡ transaction_to_response t)
        × (can_view t user ≡ true)
  unfolding transaction_from_database
  from_database w' h = elim (Result-cases (get_by_id e id w').0) [
    | inr (x, p) ↦ absurd (ground arith)
    | inl (t, p) ↦ elim (Bool-cases (can_view t user)) [
      | inr q ↦ absurd (ground arith)
      | inl q ↦ (t, get_by_id_row e id w' p, ground arith, q)
    ]
  ]

  cached_misses :
      lookup id w.cache.transactions ≡ none
      → ((x : Error) × ((get_cached_transaction e id w).0 ≡ err x))
        × ((get_cached_transaction e id w).1.db ≡ w.db)
  unfolding get_cached_transaction
  cached_misses missing = elim (Option-cases (e.fault w.tick)) [
    | inl fine ↦ ((plain "key not found", ground arith), ground arith)
    | inr (m, q) ↦ ((plain m, ground arith), ground arith)
  ]

  -- Where the cache has no entry for a transaction, `GetByID` succeeds only for a user who is the
  -- sender or the receiver of the stored transaction, and gives that transaction.
  pub get_transaction_needs_party :
      {r : TransactionResponse}
      → lookup id w.cache.transactions ≡ none
      → (get_transaction e s id user w).0 ≡ ok r
      → (t : Transaction) × (lookup id w.db.transactions ≡ some t)
        × (r ≡ transaction_to_response t)
        × (can_view t user ≡ true)
  unfolding get_transaction
  get_transaction_needs_party {r} missing h = elim (Bool-cases s.has_cache) [
    | inr off ↦ from_database w {r = r} (ground arith)
    | inl on ↦
        let ((x, p), same) = cached_misses missing in
        rw (← same) (from_database (get_cached_transaction e id w).1 {r = r} (ground arith))
  ]

  -- A transaction that is in the cache is given to any user, whether or not the user took part in
  -- it, when the cache can be read.
  pub get_transaction_cached :
      (r : TransactionResponse)
      → s.has_cache ≡ true
      → e.fault w.tick ≡ none
      → lookup id w.cache.transactions ≡ some r
      → (get_transaction e s id user w).0 ≡ ok r
  unfolding get_transaction get_cached_transaction
  get_transaction_cached r on fine there = ground arith
