-- ===== src/Domain/Payload.antt =====
-- The decoding of an event's JSON into a payload, `UnmarshalData` of internal/domain/event.go: a
-- field that the JSON does not have is left empty, and no field has two shapes, so that decoding
-- what the program has encoded does not fail.
use insider_banking_project.Base.{ℕ, String, Option, none, some}
use insider_banking_project.Base.Int.{ℤ, pos}
use insider_banking_project.Domain.Event.{
  EventData, user_registered, user_updated, balance_initialized, amount_credited, amount_debited,
  transfer_executed, transaction_started, transaction_completed, transaction_failed,
}

-- The field `user_id`: transactions have the nil UUID there.
abbrev pub payload_user_id : EventData → ℕ
payload_user_id (user_registered u email name hash role) = u
payload_user_id (user_updated u name email role) = u
payload_user_id (balance_initialized u amount currency) = u
payload_user_id (amount_credited u amount currency id reason) = u
payload_user_id (amount_debited u amount currency id reason) = u
payload_user_id _ = 0

abbrev pub payload_amount : EventData → ℤ
payload_amount (balance_initialized u amount currency) = amount
payload_amount (amount_credited u amount currency id reason) = amount
payload_amount (amount_debited u amount currency id reason) = amount
payload_amount (transfer_executed from_user to_user amount currency id) = amount
payload_amount (transaction_started id from_user to_user amount type) = amount
payload_amount (transaction_completed id from_user to_user amount type) = amount
payload_amount (transaction_failed id from_user to_user amount type error) = amount
payload_amount _ = pos 0

abbrev pub payload_currency : EventData → String
payload_currency (balance_initialized u amount currency) = currency
payload_currency (amount_credited u amount currency id reason) = currency
payload_currency (amount_debited u amount currency id reason) = currency
payload_currency (transfer_executed from_user to_user amount currency id) = currency
payload_currency _ = ""

abbrev pub payload_transaction_id : EventData → ℕ
payload_transaction_id (amount_credited u amount currency id reason) = id
payload_transaction_id (amount_debited u amount currency id reason) = id
payload_transaction_id (transfer_executed from_user to_user amount currency id) = id
payload_transaction_id (transaction_started id from_user to_user amount type) = id
payload_transaction_id (transaction_completed id from_user to_user amount type) = id
payload_transaction_id (transaction_failed id from_user to_user amount type error) = id
payload_transaction_id _ = 0

abbrev pub payload_from_user : EventData → Option ℕ
payload_from_user (transfer_executed from_user to_user amount currency id) = some from_user
payload_from_user (transaction_started id from_user to_user amount type) = from_user
payload_from_user (transaction_completed id from_user to_user amount type) = from_user
payload_from_user (transaction_failed id from_user to_user amount type error) = from_user
payload_from_user _ = none

abbrev pub payload_to_user : EventData → Option ℕ
payload_to_user (transfer_executed from_user to_user amount currency id) = some to_user
payload_to_user (transaction_started id from_user to_user amount type) = to_user
payload_to_user (transaction_completed id from_user to_user amount type) = to_user
payload_to_user (transaction_failed id from_user to_user amount type error) = to_user
payload_to_user _ = none

abbrev pub payload_type : EventData → String
payload_type (transaction_started id from_user to_user amount type) = type
payload_type (transaction_completed id from_user to_user amount type) = type
payload_type (transaction_failed id from_user to_user amount type error) = type
payload_type _ = ""

-- A UUID that is not a pointer is nil where the field is missing.
abbrev pub or_nil : Option ℕ → ℕ
or_nil none = 0
or_nil (some u) = u

-- The fields of a registration.
pub record Registration : Type 0 where
  pub user_id : ℕ
  pub email : String
  pub username : String
  pub password_hash : String
  pub role : String

abbrev pub payload_registration : EventData → Registration
payload_registration (user_registered u email name hash role) = record {
  user_id = u;
  email = email;
  username = name;
  password_hash = hash;
  role = role;
}
payload_registration d = record {
  user_id = payload_user_id d;
  email = "";
  username = "";
  password_hash = "";
  role = "";
}

-- The texts among the new data of an update: the username, the email and the role.
abbrev pub payload_new_data : EventData → Option String × Option String × Option String
payload_new_data (user_updated u name email role) = (name, email, role)
payload_new_data _ = (none, none, none)
