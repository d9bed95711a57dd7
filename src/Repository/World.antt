-- ===== src/Repository/World.antt =====
-- What the services change: the database's tables (migrations/*.up.sql), the Redis cache, and the
-- counters. A call of the outside world (a statement, a cache command, `uuid.New`, `time.Now`)
-- takes one tick, and the environment says for each tick what that call meets.
use insider_banking_project.Base.{
  ◌≡◌, refl, ◌⊎◌, inl, inr, ℕ, ◌+◌, ⊤, Bool, true, false, String, Option, none, some, List,
}
use insider_banking_project.Base.Dict.{Dict}
use insider_banking_project.Domain.Error.{Error, plain, wrap}
use insider_banking_project.Domain.Balance.{Balance, BalanceResponse}
use insider_banking_project.Domain.Transaction.{Transaction, TransactionResponse}
use insider_banking_project.Domain.User.{User, UserResponse}
use insider_banking_project.Domain.Event.{Event, AuditLog}

-- What is outside the program. `fault n` is the message with which the call of tick n fails (a
-- lost connection, an expired cache entry); a call that fails changes nothing.
pub record Env : Type 0 where
  pub fault : ℕ → Option String
  pub new_uuid : ℕ → ℕ
  pub now : ℕ → ℕ
  -- the database's message for a violated constraint
  pub violation : String

pub record Db : Type 0 where
  pub users : Dict User
  pub balances : Dict Balance
  pub transactions : Dict Transaction
  pub audit_logs : List AuditLog
  pub events : List Event

-- The keys `user:<id>`, `balance:<id>`, `transaction:<id>` and `transaction_history:<id>`.
pub record Cache : Type 0 where
  pub users : Dict UserResponse
  pub balances : Dict BalanceResponse
  pub transactions : Dict TransactionResponse
  pub histories : Dict ⊤

pub record World : Type 0 where
  pub db : Db
  pub cache : Cache
  -- the balances as an open database transaction sees them
  pub tx : Option (Dict Balance)
  -- the metrics counter of processed transactions
  pub processed : ℕ
  pub tick : ℕ

pub data Result {ℓ} (A : Type ℓ) : Type ℓ where
  ok : A → Result A
  err : Error → Result A

pub Result-cases {ℓ} :
    {A : Type ℓ} (r : Result A) → ((a : A) × (r ≡ ok a)) ⊎ ((x : Error) × (r ≡ err x))
Result-cases (ok a) = inl (a, refl)
Result-cases (err x) = inr (x, refl)

abbrev pub M : Type 0 → Type 0
M A = World → Result A × World

module _ {A : Type 0} where
  abbrev pub pure : A → M A
  pure a w = (ok a, w)

  abbrev pub fail : Error → M A
  fail e w = (err e, w)

  -- The result of a call as a value, for code that goes on after an error.
  abbrev pub attempt : M A → M (Result A)
  attempt m w = let (r, w') = m w in (ok r, w')

  abbrev pub of_result : Result A → M A
  of_result r w = (r, w)

  -- `_ = f()`, or an error that is only logged
  abbrev pub ignore : M A → M ⊤
  ignore m w = (ok tt, (m w).1)

  -- `return fmt.Errorf("s: %w", err)`
  abbrev pub context_result : String → Result A → Result A
  context_result s (ok a) = ok a
  context_result s (err e) = err (wrap s e)

  abbrev pub with_context : String → M A → M A
  with_context s m w = (context_result s (m w).0, (m w).1)

infixl 5 ◌>>=◌ ◌>>◌
abbrev pub ◌>>=◌ : {A B : Type 0} → M A → (A → M B) → M B
◌>>=◌ m f w = elim (m w).0 [ ok a ↦ f a (m w).1 | err e ↦ (err e, (m w).1) ]

abbrev pub ◌>>◌ : {A B : Type 0} → M A → M B → M B
m >> k = m >>= λ _. k

-- Run `cleanup` before an error is returned.
abbrev pub on_error : {A : Type 0} → M ⊤ → M A → M A
on_error cleanup m w = elim (m w).0 [
  | ok a ↦ (ok a, (m w).1)
  | err e ↦ (err e, (cleanup (m w).1).1)
]

abbrev pub when : Bool → M ⊤ → M ⊤
when true m = m
when false m = pure tt

-- `if err := r.Validate(); err != nil { return fmt.Errorf("s: %w", err) }`
abbrev pub check : String → Option Error → M ⊤
check s none = pure tt
check s (some e) = fail (wrap s e)

abbrev pub guard : Bool → String → M ⊤
guard true s = pure tt
guard false s = fail (plain s)

abbrev pub get_tick : M ℕ
get_tick w = (ok w.tick, record w { tick = w.tick + 1 })

module _ (e : Env) where
  -- One call of the outside world: it fails with the environment's message, or does its work.
  abbrev pub call : {A : Type 0} → M A → M A
  call m w =
      let w' = record w { tick = w.tick + 1 } in
      elim (e.fault w.tick) [ none ↦ m w' | some s ↦ (err (plain s), w') ]

  abbrev pub new_uuid : M ℕ
  new_uuid w = (ok (e.new_uuid w.tick), record w { tick = w.tick + 1 })

  abbrev pub time_now : M ℕ
  time_now w = (ok (e.now w.tick), record w { tick = w.tick + 1 })
