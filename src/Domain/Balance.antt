-- ===== src/Domain/Balance.antt =====
-- internal/domain/balance.go: balances, currencies and their validation.
use insider_banking_project.Base.{
  ℕ, Bool, true, false, not, String, str_eq, Option, List, [], ◌∷◌, if◌then◌else◌,
}
use insider_banking_project.Base.Int.{ℤ, pos, ltb_ℤ}
use insider_banking_project.Domain.Error.{Error, require, ◌then_check◌}

pub record Balance : Type 0 where
  pub user_id : ℕ
  pub amount : ℤ
  pub currency : String
  pub last_updated_at : ℕ

pub record BalanceResponse : Type 0 where
  pub user_id : ℕ
  pub amount : ℤ
  pub currency : String
  pub last_updated_at : ℕ

-- `(*Balance).ToResponse`
abbrev pub balance_to_response : Balance → BalanceResponse
balance_to_response b = record {
  user_id = b.user_id;
  amount = b.amount;
  currency = b.currency;
  last_updated_at = b.last_updated_at;
}

unfoldable pub supported_currencies : List String
supported_currencies = "USD" ∷ "EUR" ∷ "GBP" ∷ "JPY" ∷ "CAD" ∷ "AUD" ∷ []

-- The loop of `IsValidCurrency` over the supported codes.
unfoldable pub one_of : List String → String → Bool
one_of [] currency = false
one_of (c ∷ cs) currency = if str_eq c currency then true else one_of cs currency

unfoldable pub is_valid_currency : String → Bool
unfolding supported_currencies one_of
is_valid_currency currency = one_of supported_currencies currency

unfoldable pub validate_amount : ℤ → Option Error
validate_amount amount =
    require (not (ltb_ℤ amount (pos 0))) "amount cannot be negative"
    then_check require (not (ltb_ℤ (pos 10000000000) amount)) "amount cannot exceed 10,000,000"

-- `(*Balance).Validate`
unfoldable pub balance_validate : Balance → Option Error
unfolding validate_amount
balance_validate b =
    validate_amount b.amount
    then_check require (is_valid_currency b.currency) "unsupported currency"
