-- ===== src/Service/Tests.antt =====
-- A small bank on which the operations run: two users with balances and one without.
use insider_banking_project.Base.{
  ℕ, ◌≡◌, refl, ◌≢◌, ◌⊎◌, true, false, String, Option, none, some, [], ◌∷◌, arith, ◌==◌, ◌+◌,
  if◌then◌else◌,
}
use insider_banking_project.Base.Int.{pos, ◌+ℤ◌, ◌-ℤ◌}
use insider_banking_project.Base.Dict.{lookup, insert}
use insider_banking_project.Domain.Error.{Error, plain, wrap}
use insider_banking_project.Domain.Balance.{Balance}
use insider_banking_project.Domain.Total.{total, amount_at}
use insider_banking_project.Domain.Change.{Added}
use insider_banking_project.Domain.User.{User, role_user}
use insider_banking_project.Domain.Transaction.{
  Transaction, CreditRequest, DebitRequest, TransferRequest, type_credit, type_debit, type_transfer,
  status_success,
}
use insider_banking_project.Repository.Numeric.{to_numeric, AllWhole, IsWhole}
use insider_banking_project.Repository.World.{Env, Db, World, err}
use insider_banking_project.Service.Coherence.{IsCoherent, IsKeyed}
use insider_banking_project.Service.Transaction.Common.{Service, pgx_pool}
use insider_banking_project.Service.Transaction.Moving.{Moved}
use insider_banking_project.Service.Transaction.Credit.{credit_sync}
use insider_banking_project.Service.Transaction.Debit.{debit_sync}
use insider_banking_project.Service.Transaction.Transfer.{transfer_sync}
use insider_banking_project.Service.Transaction.Rollback.{rollback_sync, rollback_by_admin}
use insider_banking_project.Service.Transaction.CreditLaws.{
  Credited, credit_sync_adds, credit_sync_error, credit_sync_needs_balance,
}
use insider_banking_project.Service.Transaction.DebitLaws.{
  Debited, debit_sync_takes, debit_sync_error,
}
use insider_banking_project.Service.Transaction.TransferLaws.{
  Transferred, transfer_sync_conserves, transfer_sync_moves, transfer_sync_error,
  transfer_sync_makes_cent,
}
use insider_banking_project.Service.Transaction.RollbackLaws.{
  rollback_sync_reverses_transfer, rollback_sync_reverses_debit, rollback_by_admin_reverses_credit,
}
use insider_banking_project.Domain.Balance.{is_valid_currency, one_of, supported_currencies}
use insider_banking_project.Domain.Transaction.{
  credit_request_validate, debit_request_validate, transfer_request_validate,
  validate_transaction_amount,
}
use insider_banking_project.Repository.Balances.{add_amount_tx, get_by_user_id, upsert}
use insider_banking_project.Repository.Constraints.{balance_row_ok, transaction_row_ok}
use insider_banking_project.Repository.Journal.{append_event, audit_log}
use insider_banking_project.Repository.Transactions.{
  create_pending, get_by_id, mark_completed, update_transaction_status,
}
use insider_banking_project.Service.Balance.{current_from_database, get_current}
use insider_banking_project.Service.Transaction.Common.{
  after_success, increment_transaction_counter, is_not_found_error, refresh_cache,
}
use insider_banking_project.Service.Transaction.Credit.{credit_base, credit_write}
use insider_banking_project.Service.Transaction.Debit.{debit_write}
use insider_banking_project.Service.Transaction.Rollback.{
  balance_for_rollback, execute_rollback, rollback_credit, rollback_debit, rollback_finish,
  rollback_plan, rollback_refresh_cache, rollback_transaction, rollback_transfer, write_rollback,
}
use insider_banking_project.Service.Transaction.Transfer.{
  begin, commit, move_amount, publish_transfer_executed, transfer_finish, transfer_write,
}
use insider_banking_project.Domain.Transaction.{TransactionResponse, transaction_to_response}
use insider_banking_project.Service.Transaction.Access.{get_transaction_needs_party}
use insider_banking_project.Service.Transaction.Queries.{
  can_view, get_transaction, transaction_from_database,
}
use insider_banking_project.Service.Transaction.Responses.{IsBehind, credit_sync-IsBehind}

-- Nothing fails; ids and times are drawn from the tick.
abbrev pub calm : Env
calm = record { fault = λ n. none; new_uuid = λ n. n + 100; now = λ n. n; violation = "constraint" }

-- The call of one tick fails.
abbrev faulty : ℕ → Env
faulty k = record (calm) { fault = λ n. if n == k then some "connection lost" else none }

abbrev pub service : Service
service = record { has_cache = false; has_events = true; has_metrics = true; pool = pgx_pool }

abbrev user : ℕ → User
user k = record {
  id = k;
  username = "name";
  email = "name@example.com";
  password_hash = "hash";
  role = role_user;
  created_at = 0;
  updated_at = 0;
  is_active = true;
}

abbrev dollars : ℕ → ℕ → Balance
dollars k n = record { user_id = k; amount = pos n; currency = "USD"; last_updated_at = 0 }

abbrev done : ℕ → Option ℕ → Option ℕ → String → Transaction
done k u v type = record {
  id = k;
  from_user_id = u;
  to_user_id = v;
  amount = pos 300;
  currency = "USD";
  type = type;
  status = status_success;
  created_at = 0;
}

abbrev db : Db
db = record {
  users = (1, user 1) ∷ (2, user 2) ∷ (3, user 3) ∷ [];
  balances = (1, dollars 1 10000) ∷ (2, dollars 2 500) ∷ [];
  transactions =
      (11, done 11 (some 1) (some 2) type_transfer)
      ∷ (12, done 12 (some 1) none type_debit)
      ∷ (13, done 13 none (some 2) type_credit)
      ∷ [];
  audit_logs = [];
  events = [];
}

abbrev pub world : World
world = record {
  db = db;
  cache = record { users = []; balances = []; transactions = []; histories = [] };
  tx = none;
  processed = 0;
  tick = 0;
}

world-IsCoherent : IsCoherent world
unfolding lookup
world-IsCoherent u = tt

world-IsKeyed : IsKeyed world.db.balances
unfolding lookup
world-IsKeyed u b h = ground arith

world-AllWhole : AllWhole world.db.balances
unfolding lookup to_numeric
world-AllWhole k = ground arith

abbrev alice : ℕ
alice = 1

abbrev bob : ℕ
bob = 2

one_is_not_two : alice ≢ bob
one_is_not_two h = absurd (omega arith)

two_is_not_one : bob ≢ alice
two_is_not_one h = absurd (omega arith)

abbrev credit_request : CreditRequest
credit_request = record { amount = pos 250; currency = "USD" }

abbrev debit_request : DebitRequest
debit_request = record { amount = pos 250; currency = "USD" }

abbrev transfer_request : TransferRequest
transfer_request = record { to_user_id = 2; amount = pos 250; currency = "USD" }

credit_sync_adds_example :
    Credited calm service 1 credit_request world (credit_sync calm service 1 credit_request world).1
unfolding lookup insert ◌+ℤ◌ ◌-ℤ◌ supported_currencies one_of is_valid_currency
    validate_transaction_amount balance_row_ok transaction_row_ok get_by_user_id upsert to_numeric
    create_pending update_transaction_status mark_completed audit_log current_from_database
    get_current is_not_found_error increment_transaction_counter refresh_cache after_success
    credit_request_validate credit_base credit_write credit_sync
credit_sync_adds_example =
    credit_sync_adds calm service 1 credit_request world world-IsCoherent refl

credit_sync_error_example :
    ((credit_sync (faulty 6) service 1 credit_request world).1.db.balances ≡ world.db.balances)
    ⊎ (((y : Error) × (wrap "failed to mark transaction completed"
              (wrap "failed to update transaction status" (plain "connection lost"))
            ≡ wrap "failed to mark transaction completed" y))
        × Credited
            (faulty 6)
            service
            1
            credit_request
            world
            (credit_sync (faulty 6) service 1 credit_request world).1)
unfolding lookup insert ◌+ℤ◌ ◌-ℤ◌ supported_currencies one_of is_valid_currency
    validate_transaction_amount balance_row_ok transaction_row_ok get_by_user_id upsert to_numeric
    create_pending update_transaction_status mark_completed audit_log current_from_database
    get_current is_not_found_error increment_transaction_counter refresh_cache after_success
    credit_request_validate credit_base credit_write credit_sync
credit_sync_error_example =
    credit_sync_error (faulty 6) service 1 credit_request world world-IsCoherent refl

credit_sync_needs_balance_example :
    ((x : Error) × ((credit_sync calm service 3 credit_request world).0 ≡ err x))
    × ((credit_sync calm service 3 credit_request world).1.db.balances ≡ world.db.balances)
unfolding lookup
credit_sync_needs_balance_example =
    credit_sync_needs_balance calm service 3 credit_request world refl refl

debit_sync_takes_example :
    Debited calm service 1 debit_request world (debit_sync calm service 1 debit_request world).1
unfolding lookup insert ◌+ℤ◌ ◌-ℤ◌ supported_currencies one_of is_valid_currency
    validate_transaction_amount balance_row_ok transaction_row_ok get_by_user_id upsert to_numeric
    create_pending update_transaction_status mark_completed audit_log current_from_database
    get_current is_not_found_error increment_transaction_counter refresh_cache after_success
    debit_request_validate debit_write debit_sync
debit_sync_takes_example = debit_sync_takes calm service 1 debit_request world world-IsCoherent refl

debit_sync_error_example :
    ((debit_sync (faulty 6) service 1 debit_request world).1.db.balances ≡ world.db.balances)
    ⊎ (((y : Error) × (wrap "failed to mark transaction completed"
              (wrap "failed to update transaction status" (plain "connection lost"))
            ≡ wrap "failed to mark transaction completed" y))
        × Debited
            (faulty 6)
            service
            1
            debit_request
            world
            (debit_sync (faulty 6) service 1 debit_request world).1)
unfolding lookup insert ◌+ℤ◌ ◌-ℤ◌ supported_currencies one_of is_valid_currency
    validate_transaction_amount balance_row_ok transaction_row_ok get_by_user_id upsert to_numeric
    create_pending update_transaction_status mark_completed audit_log current_from_database
    get_current is_not_found_error increment_transaction_counter refresh_cache after_success
    debit_request_validate debit_write debit_sync
debit_sync_error_example =
    debit_sync_error (faulty 6) service 1 debit_request world world-IsCoherent refl

transfer_sync_conserves_example :
    total (transfer_sync calm service 1 transfer_request world).1.db.balances
    ≡ total world.db.balances
unfolding to_numeric
transfer_sync_conserves_example =
    transfer_sync_conserves calm service 1 transfer_request world world-AllWhole refl

transfer_sync_moves_example :
    Transferred calm service 1 transfer_request world
      (transfer_sync calm service 1 transfer_request world).1.db.balances
    × (AllWhole world.db.balances
        → IsWhole transfer_request.amount
        → (amount_at
              (lookup alice (transfer_sync calm service 1 transfer_request world).1.db.balances)
            ≡ amount_at (lookup alice world.db.balances) -ℤ transfer_request.amount)
          × (amount_at
                (lookup bob (transfer_sync calm service 1 transfer_request world).1.db.balances)
              ≡ amount_at (lookup bob world.db.balances) +ℤ transfer_request.amount))
unfolding lookup insert ◌+ℤ◌ ◌-ℤ◌ supported_currencies one_of is_valid_currency
    validate_transaction_amount balance_row_ok transaction_row_ok get_by_user_id upsert to_numeric
    create_pending update_transaction_status mark_completed audit_log current_from_database
    get_current is_not_found_error increment_transaction_counter refresh_cache after_success
    transfer_request_validate add_amount_tx begin commit publish_transfer_executed append_event
    move_amount transfer_finish transfer_write transfer_sync
transfer_sync_moves_example =
    transfer_sync_moves calm service 1 transfer_request world world-IsKeyed world-IsCoherent
      one_is_not_two refl

transfer_sync_error_example :
    ((transfer_sync (faulty 11) service 1 transfer_request world).1.db.balances ≡ world.db.balances)
    ⊎ (((y : Error) × (wrap "failed to mark transaction completed"
              (wrap "failed to update transaction status" (plain "connection lost"))
            ≡ wrap "failed to mark transaction completed" y))
        × Moved 1 2
            (pos 250)
            world.db.balances
            (transfer_sync (faulty 11) service 1 transfer_request world).1.db.balances)
unfolding lookup insert ◌+ℤ◌ ◌-ℤ◌ supported_currencies one_of is_valid_currency
    validate_transaction_amount balance_row_ok transaction_row_ok get_by_user_id upsert to_numeric
    create_pending update_transaction_status mark_completed audit_log current_from_database
    get_current is_not_found_error increment_transaction_counter refresh_cache after_success
    transfer_request_validate add_amount_tx begin commit publish_transfer_executed append_event
    move_amount transfer_finish transfer_write transfer_sync
transfer_sync_error_example = transfer_sync_error (faulty 11) service 1 transfer_request world refl

-- A transfer of half a cent.
abbrev half_request : TransferRequest
half_request = record (transfer_request) { amount = pos 5 }

transfer_sync_makes_cent_example :
    total (transfer_sync calm service 1 half_request world).1.db.balances
    ≡ total world.db.balances +ℤ pos 10
unfolding lookup insert ◌+ℤ◌ ◌-ℤ◌ supported_currencies one_of is_valid_currency
    validate_transaction_amount balance_row_ok transaction_row_ok get_by_user_id upsert to_numeric
    create_pending update_transaction_status mark_completed audit_log current_from_database
    get_current is_not_found_error increment_transaction_counter refresh_cache after_success
    transfer_request_validate add_amount_tx begin commit publish_transfer_executed append_event
    move_amount transfer_finish transfer_write transfer_sync
transfer_sync_makes_cent_example =
    transfer_sync_makes_cent calm service 1 half_request world world-AllWhole (omega arith)
      one_is_not_two refl refl

rollback_sync_reverses_transfer_example :
    (status_success ≡ status_success)
    × (some alice ≡ some alice)
    × (amount_at (lookup 2 (rollback_sync calm service 11 1 world).1.db.balances)
        ≡ pos 500 -ℤ pos 300)
    × (amount_at (lookup 1 (rollback_sync calm service 11 1 world).1.db.balances)
        ≡ amount_at (lookup 1 world.db.balances) +ℤ pos 300)
    × ((k : ℕ)
        → k ≢ 2
        → k ≢ 1
        → lookup k (rollback_sync calm service 11 1 world).1.db.balances
          ≡ lookup k world.db.balances)
    × (total (rollback_sync calm service 11 1 world).1.db.balances ≡ total world.db.balances)
unfolding lookup insert ◌+ℤ◌ ◌-ℤ◌ supported_currencies one_of is_valid_currency
    validate_transaction_amount balance_row_ok transaction_row_ok get_by_user_id upsert to_numeric
    create_pending update_transaction_status mark_completed audit_log current_from_database
    get_current is_not_found_error increment_transaction_counter refresh_cache after_success
    get_by_id rollback_plan balance_for_rollback write_rollback rollback_credit rollback_debit
    rollback_transfer execute_rollback rollback_refresh_cache rollback_finish rollback_transaction
    rollback_sync rollback_by_admin
rollback_sync_reverses_transfer_example =
    rollback_sync_reverses_transfer calm service 11 1 2 world
      (done 11 (some 1) (some 2) type_transfer) (dollars 2 500) world-AllWhole refl refl refl refl
      two_is_not_one refl refl

rollback_sync_reverses_debit_example :
    (status_success ≡ status_success)
    × (some alice ≡ some alice)
    × Added 1
        (dollars 1 10000)
        (pos 300)
        world.db.balances
        (rollback_sync calm service 12 1 world).1.db.balances
unfolding lookup insert ◌+ℤ◌ ◌-ℤ◌ supported_currencies one_of is_valid_currency
    validate_transaction_amount balance_row_ok transaction_row_ok get_by_user_id upsert to_numeric
    create_pending update_transaction_status mark_completed audit_log current_from_database
    get_current is_not_found_error increment_transaction_counter refresh_cache after_success
    get_by_id rollback_plan balance_for_rollback write_rollback rollback_credit rollback_debit
    rollback_transfer execute_rollback rollback_refresh_cache rollback_finish rollback_transaction
    rollback_sync rollback_by_admin
rollback_sync_reverses_debit_example =
    rollback_sync_reverses_debit calm service 12 1 world (done 12 (some 1) none type_debit)
      (dollars 1 10000) refl refl refl refl refl refl

rollback_by_admin_reverses_credit_example :
    (status_success ≡ status_success)
    × Added 2
        (dollars 2 500)
        (pos 0 -ℤ pos 300)
        world.db.balances
        (rollback_by_admin calm service 13 world).1.db.balances
unfolding lookup insert ◌+ℤ◌ ◌-ℤ◌ supported_currencies one_of is_valid_currency
    validate_transaction_amount balance_row_ok transaction_row_ok get_by_user_id upsert to_numeric
    create_pending update_transaction_status mark_completed audit_log current_from_database
    get_current is_not_found_error increment_transaction_counter refresh_cache after_success
    get_by_id rollback_plan balance_for_rollback write_rollback rollback_credit rollback_debit
    rollback_transfer execute_rollback rollback_refresh_cache rollback_finish rollback_transaction
    rollback_sync rollback_by_admin
rollback_by_admin_reverses_credit_example =
    rollback_by_admin_reverses_credit calm service 13 2 world (done 13 none (some 2) type_credit)
      (dollars 2 500) refl refl refl refl refl refl refl

abbrev credit_response : TransactionResponse
credit_response = record {
  id = 101;
  from_user_id = none;
  to_user_id = some 1;
  amount = pos 250;
  currency = "USD";
  type = type_credit;
  status = "pending";
  created_at = 2;
}

credit_sync-IsBehind_example :
    IsBehind credit_response (credit_sync calm service 1 credit_request world).1
unfolding lookup insert ◌+ℤ◌ ◌-ℤ◌ supported_currencies one_of is_valid_currency
    validate_transaction_amount balance_row_ok transaction_row_ok get_by_user_id upsert to_numeric
    create_pending update_transaction_status mark_completed audit_log current_from_database
    get_current is_not_found_error increment_transaction_counter refresh_cache after_success
    credit_request_validate credit_base credit_write credit_sync
credit_sync-IsBehind_example = credit_sync-IsBehind calm service 1 credit_request world refl

get_transaction_needs_party_example :
    (t : Transaction) × (lookup 11 world.db.transactions ≡ some t)
    × (transaction_to_response (done 11 (some 1) (some 2) type_transfer)
        ≡ transaction_to_response t)
    × (can_view t 2 ≡ true)
unfolding lookup get_by_id transaction_from_database get_transaction
get_transaction_needs_party_example = get_transaction_needs_party calm service 11 2 world refl refl

abbrev caching_service : Service
caching_service = record (service) { has_cache = true }

abbrev warm_world : World
warm_world = record (world) {
  cache = record {
    users = [];
    balances = [];
    transactions = (101, credit_response) ∷ [];
    histories = [];
  };
}
