-- ===== src/Repository/Constraints.antt =====
-- The constraints of the tables (migrations/002, 003, 004 and 008): a row that violates one is
-- refused by the database. An amount must fit NUMERIC(18,2).
use insider_banking_project.Base.{
  ℕ, Bool, true, false, ◌&&◌, ◌||◌, String, str_eq, Option, none, some, ltb, is_none, is_some,
  if◌then◌else◌,
}
use insider_banking_project.Base.Int.{ℤ, pos, pos_part, leb_ℤ}
use insider_banking_project.Base.Dict.{Dict, lookup}
use insider_banking_project.Domain.Balance.{Balance, is_valid_currency}
use insider_banking_project.Domain.Transaction.{Transaction, type_credit, type_debit, type_transfer}
use insider_banking_project.Domain.User.{User}
use insider_banking_project.Repository.World.{Db}

-- `REFERENCES users(id)`
abbrev pub user_exists : Dict User → ℕ → Bool
user_exists users u = is_some (lookup u users)

-- A null reference is allowed.
abbrev pub reference_ok : Dict User → Option ℕ → Bool
reference_ok users none = true
reference_ok users (some u) = user_exists users u

abbrev pub amount_ok : ℤ → Bool
amount_ok a = leb_ℤ (pos 0) a && ltb (pos_part a) 10000000000000000000

unfoldable pub balance_row_ok : Dict User → Balance → Bool
balance_row_ok users b =
    user_exists users b.user_id && (amount_ok b.amount && is_valid_currency b.currency)

-- chk_transactions_transfer_users, chk_transactions_credit_users, chk_transactions_debit_users
abbrev pub transaction_users_ok : Transaction → Bool
transaction_users_ok t =
    if str_eq t.type type_transfer
    then is_some t.from_user_id && is_some t.to_user_id
    else if str_eq t.type type_credit
    then is_some t.to_user_id && is_none t.from_user_id
    else if str_eq t.type type_debit
    then is_some t.from_user_id && is_none t.to_user_id
    else false

abbrev pub status_ok : String → Bool
status_ok s = str_eq s "pending" || (str_eq s "success" || str_eq s "failed")

unfoldable pub transaction_row_ok : Db → Transaction → Bool
transaction_row_ok db t =
    is_none (lookup t.id db.transactions)
    && ((reference_ok db.users t.from_user_id && reference_ok db.users t.to_user_id)
        && (amount_ok t.amount
            && (transaction_users_ok t && (status_ok t.status && is_valid_currency t.currency))))
