-- ===== src/Domain/Transaction.antt =====
-- internal/domain/transaction.go: transactions, the requests that make them, and the validation
-- of both.
use insider_banking_project.Base.{
  ℕ, ◌+◌, Bool, false, not, ◌&&◌, ◌||◌, String, str_eq, Option, none, some, map, leb, ◌==◌,
  if◌then◌else◌, is_none, is_some,
}
use insider_banking_project.Base.Int.{ℤ, pos, ltb_ℤ, leb_ℤ}
use insider_banking_project.Domain.Error.{Error, codes, codes_eq, require, ◌then_check◌, in_context}
use insider_banking_project.Domain.Balance.{is_valid_currency}

pub record Transaction : Type 0 where
  pub id : ℕ
  pub from_user_id : Option ℕ
  pub to_user_id : Option ℕ
  pub amount : ℤ
  pub currency : String
  pub type : String
  pub status : String
  pub created_at : ℕ

abbrev pub type_credit : String
type_credit = "credit"

abbrev pub type_debit : String
type_debit = "debit"

abbrev pub type_transfer : String
type_transfer = "transfer"

abbrev pub status_pending : String
status_pending = "pending"

abbrev pub status_success : String
status_success = "success"

abbrev pub status_failed : String
status_failed = "failed"

pub record TransferRequest : Type 0 where
  pub to_user_id : ℕ
  pub amount : ℤ
  pub currency : String

pub record CreditRequest : Type 0 where
  pub amount : ℤ
  pub currency : String

pub record DebitRequest : Type 0 where
  pub amount : ℤ
  pub currency : String

pub record TransactionResponse : Type 0 where
  pub id : ℕ
  pub from_user_id : Option ℕ
  pub to_user_id : Option ℕ
  pub amount : ℤ
  pub currency : String
  pub type : String
  pub status : String
  pub created_at : ℕ

-- `(*Transaction).ToResponse`
abbrev pub transaction_to_response : Transaction → TransactionResponse
transaction_to_response t = record {
  id = t.id;
  from_user_id = t.from_user_id;
  to_user_id = t.to_user_id;
  amount = t.amount;
  currency = t.currency;
  type = t.type;
  status = t.status;
  created_at = t.created_at;
}

unfoldable pub validate_transaction_amount : ℤ → Option Error
validate_transaction_amount amount =
    require (not (leb_ℤ amount (pos 0))) "amount must be greater than 0"
    then_check require (not (ltb_ℤ (pos 1000000000) amount)) "amount cannot exceed 1,000,000"

-- `unicode.ToLower` of one code point, as far as words of ASCII letters are compared with the
-- result: of the capitals above 127 only İ and the Kelvin sign go to an ASCII letter.
abbrev pub to_lower : ℕ → ℕ
to_lower c =
    if leb b'A' c && leb c b'Z'
    then c + 32
    else if c == 0x130
    then b'i'
    else if c == 0x212a
    then b'k'
    else c

-- `strings.ToLower(s) == word`
abbrev pub lower_is : String → String → Bool
lower_is s word = codes_eq (map to_lower (codes s)) (codes word)

unfoldable pub validate_transaction_type : String → Option Error
validate_transaction_type tx_type =
    require
      (lower_is tx_type type_credit
        || (lower_is tx_type type_debit || lower_is tx_type type_transfer))
      "invalid type, must be 'credit', 'debit', or 'transfer'"

unfoldable pub validate_transaction_status : String → Option Error
validate_transaction_status status =
    require
      (lower_is status status_pending
        || (lower_is status status_success || lower_is status status_failed))
      "invalid status, must be 'pending', 'success', or 'failed'"

-- `*from == *to`, where both are given
abbrev pub same_user : Option ℕ → Option ℕ → Bool
same_user (some a) (some b) = a == b
same_user _ _ = false

unfoldable pub validate_business_rules : Transaction → Option Error
validate_business_rules t =
    if str_eq t.type type_credit
    then require (is_some t.to_user_id) "credit transaction must have to_user_id"
      then_check require (is_none t.from_user_id) "credit transaction must not have from_user_id"
    else if str_eq t.type type_debit
    then require (is_some t.from_user_id) "debit transaction must have from_user_id"
      then_check require (is_none t.to_user_id) "debit transaction must not have to_user_id"
    else if str_eq t.type type_transfer
    then require (is_some t.from_user_id) "transfer transaction must have from_user_id"
      then_check require (is_some t.to_user_id) "transfer transaction must have to_user_id"
      then_check require (not (same_user t.from_user_id t.to_user_id))
          "transfer cannot be to the same user"
    else none

-- `(*Transaction).Validate`; an empty currency stands for USD.
unfoldable pub transaction_validate : Transaction → Option Error
transaction_validate t =
    in_context "amount" (validate_transaction_amount t.amount)
    then_check require (is_valid_currency (if str_eq t.currency "" then "USD" else t.currency))
        "unsupported currency"
    then_check in_context "type" (validate_transaction_type t.type)
    then_check in_context "status" (validate_transaction_status t.status)
    then_check validate_business_rules t

-- `(*TransferRequest).Validate`
unfoldable pub transfer_request_validate : TransferRequest → Option Error
transfer_request_validate r =
    in_context "amount" (validate_transaction_amount r.amount)
    then_check require (is_valid_currency r.currency) "unsupported currency"
    then_check require (not (r.to_user_id == 0)) "to_user_id is required"

-- `(*CreditRequest).Validate`
unfoldable pub credit_request_validate : CreditRequest → Option Error
credit_request_validate r =
    validate_transaction_amount r.amount
    then_check require (is_valid_currency r.currency) "unsupported currency"

-- `(*DebitRequest).Validate`
unfoldable pub debit_request_validate : DebitRequest → Option Error
debit_request_validate r =
    validate_transaction_amount r.amount
    then_check require (is_valid_currency r.currency) "unsupported currency"
