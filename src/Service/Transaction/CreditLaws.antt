-- ===== src/Service/Transaction/CreditLaws.antt =====
-- What a credit does to the balances, on every outcome.
use insider_banking_project.Base.{
  ℕ, ◌≡◌, refl, sym, ◌∙◌, ap, ◌⊎◌, inl, inr, true, Bool-cases, str_eq, eq_iff, none, Option-cases,
  [], ◌∷◌, arith,
}
use insider_banking_project.Base.Int.{ℤ, ◌+ℤ◌, ◌-ℤ◌, int_laws}
use insider_banking_project.Base.Dict.{lookup}
use mathlib.Core.Path.{subst}
use insider_banking_project.Domain.Error.{Error, plain, wrap}
use insider_banking_project.Domain.Balance.{Balance, BalanceResponse}
use insider_banking_project.Domain.Change.{Added, written-Added}
use insider_banking_project.Domain.Transaction.{
  CreditRequest, TransactionResponse, transaction_to_response, credit_request_validate,
}
use insider_banking_project.Domain.Event.{id_detail, amount_detail}
use insider_banking_project.Repository.Numeric.{
  to_numeric, IsNearest, to_numeric-IsNearest, IsWhole, to_numeric-plus,
}
use insider_banking_project.Repository.World.{Env, World, Result, ok, err, Result-cases}
use insider_banking_project.Service.Balance.{get_current}
use insider_banking_project.Service.Transaction.Common.{Service, after_success}
use insider_banking_project.Service.Transaction.Credit.{
  credit_base, credit_record, credited, credit_write, credit_sync,
}
use insider_banking_project.Service.Quiet.{get_current-Quiet, after_success-Quiet}
use insider_banking_project.Service.Coherence.{
  IsCoherent, get_current-Reports, get_current_missing, get_current_error,
}
use insider_banking_project.Service.Transaction.Write.{
  WriteOutcome, WriteOutcome-from, WriteEnd, made, refused, write_steps-WriteOutcome,
}

abbrev as_balance : BalanceResponse → Balance
as_balance r = record {
  user_id = r.user_id;
  amount = r.amount;
  currency = r.currency;
  last_updated_at = 0;
}

-- How a credit ended: refused with nothing written, or a write on top of the balance that
-- `GetCurrent` reported, in the request's currency.
pub data CreditOutcome (e : Env) (s : Service) (u : ℕ) (req : CreditRequest) (w : World)
    (r : Result TransactionResponse) (w' : World) : Type 0 where
  nothing :
      (x : Error) → r ≡ err x → w'.db.balances ≡ w.db.balances → CreditOutcome e s u req w r w'
  wrote :
      (c : BalanceResponse)
      → (get_current e s.has_cache u w).0 ≡ ok c
      → c.currency ≡ req.currency
      → WriteOutcome (credited u req (as_balance c)) w r w'
      → CreditOutcome e s u req w r w'

module _ (e : Env) (s : Service) (u : ℕ) (req : CreditRequest) where
  credit_write-WriteOutcome :
      (current : Balance) (w : World)
      → WriteOutcome
          (credited u req current)
          w
          (credit_write e s u req current w).0
          (credit_write e s u req current w).1
  unfolding credit_write after_success
  credit_write-WriteOutcome current w =
      write_steps-WriteOutcome e (credit_record u req) (credited u req current)
        (λ t w'. (
          ok (transaction_to_response t),
          (after_success e s (u ∷ []) t "credit"
              (("user_id", id_detail u) ∷ ("amount", amount_detail req.amount) ∷ []) w').1,
        ))
        transaction_to_response (λ t w'. refl)
        (λ t w'. after_success-Quiet e s (u ∷ []) t "credit" _ w') w

  credit_sync-reaches :
      (w : World) (c : BalanceResponse)
      → credit_request_validate req ≡ none
      → (get_current e s.has_cache u w).0 ≡ ok c
      → str_eq c.currency req.currency ≡ true
      → credit_sync e s u req w
        ≡ credit_write e s u req (as_balance c) (get_current e s.has_cache u w).1
  unfolding credit_sync credit_base
  credit_sync-reaches w c valid found same = rw (valid, found, same)

  pub credit_sync-CreditOutcome :
      (w : World)
      → CreditOutcome e s u req w (credit_sync e s u req w).0 (credit_sync e s u req w).1
  unfolding credit_sync credit_base
  credit_sync-CreditOutcome w =
      let quiet = get_current-Quiet e s.has_cache u w in
      elim (Option-cases (credit_request_validate req)) [
        | inr (x, p) ↦ nothing (wrap "invalid credit request" x) (ground arith) (ground arith)
        | inl valid ↦ elim (Result-cases (get_current e s.has_cache u w).0) [
          | inr (x, p) ↦
              nothing (wrap "failed to get current balance" x)
                (ground (arith, get_current_error e s.has_cache u w p))
                (ground (arith, get_current_error e s.has_cache u w p, quiet))
          | inl (c, p) ↦ elim (Bool-cases (str_eq c.currency req.currency)) [
            | inr q ↦ nothing (plain "currency mismatch") (ground arith) (ground (arith, quiet))
            | inl q ↦ wrote c p ((eq_iff _ _).0 q) (
                subst (λ z. WriteOutcome (credited u req (as_balance c)) w z.0 z.1)
                  (sym (credit_sync-reaches w c valid p q))
                  (WriteOutcome-from quiet.same_balances
                    (credit_write-WriteOutcome (as_balance c) _)))
          ]
        ]
      ]

back : (a b : ℤ) → b ≡ a +ℤ (b -ℤ a)
back a b = omega int_laws

module _ (e : Env) (s : Service) (u : ℕ) (req : CreditRequest) (w : World) where
  -- The user had a row in the request's currency, and now holds the sum, rounded to cents; in whole
  -- cents, that is the amount more.
  abbrev pub Credited : World → Type 0
  Credited w' =
      (row : Balance) × Added u row (to_numeric (row.amount +ℤ req.amount) -ℤ row.amount)
        w.db.balances w'.db.balances
      × IsNearest (row.amount +ℤ req.amount) (to_numeric (row.amount +ℤ req.amount))
      × (row.currency ≡ req.currency)
      × (IsWhole row.amount
          → IsWhole req.amount
          → Added u row req.amount w.db.balances w'.db.balances)

  CreditOutcome-Credited :
      {r : Result TransactionResponse} {w' : World}
      → IsCoherent w
      → CreditOutcome e s u req w r w'
      → (((x : Error) × (r ≡ err x)) × (w'.db.balances ≡ w.db.balances))
        ⊎ (WriteEnd r × Credited w')
  CreditOutcome-Credited coherent (nothing x p same) = inl ((x, p), same)
  CreditOutcome-Credited coherent (wrote c p cur (refused x q same)) = inl ((x, q), same)
  CreditOutcome-Credited coherent (wrote c p cur (made now q how)) =
      let (b, was, amount, currency) =
        get_current-Reports e s.has_cache u w {r = c} (coherent u) p in
      inr (
        how,
        (
          b,
          rw q (
              written-Added u b _ _ w.db.balances was
                (ap (λ z. to_numeric (z +ℤ req.amount)) amount ∙ back b.amount _)),
          to_numeric-IsNearest (b.amount +ℤ req.amount),
          sym currency ∙ cur,
          λ whole whole_amount. rw q (
              written-Added u b req.amount _ w.db.balances was (
                ap (λ z. to_numeric (z +ℤ req.amount)) amount
                ∙ to_numeric-plus b.amount req.amount whole whole_amount)),
        ),
      )

  -- A credit that succeeds leaves in the user's row, which is in the request's currency, the old
  -- amount plus the requested one, rounded to the nearest whole cent, and changes no other row, whenever the
  -- cache agrees with the table. If both amounts are in whole cents, the row grows by the amount.
  pub credit_sync_adds :
      {t : TransactionResponse}
      → IsCoherent w
      → (credit_sync e s u req w).0 ≡ ok t
      → Credited (credit_sync e s u req w).1
  credit_sync_adds coherent h =
      elim (CreditOutcome-Credited coherent (credit_sync-CreditOutcome e s u req w)) [
        | inl ((x, p), same) ↦ absurd (cc)
        | inr (how, added) ↦ added
      ]

  -- A credit that returns an error has left every balance as it was, unless the error says that
  -- the record could not be completed: then the amount has been added all the same, rounded as in a
  -- success. The cache is taken to agree with the table.
  pub credit_sync_error :
      {x : Error}
      → IsCoherent w
      → (credit_sync e s u req w).0 ≡ err x
      → ((credit_sync e s u req w).1.db.balances ≡ w.db.balances)
        ⊎ (((y : Error) × (x ≡ wrap "failed to mark transaction completed" y))
            × Credited (credit_sync e s u req w).1)
  credit_sync_error coherent h =
      elim (CreditOutcome-Credited coherent (credit_sync-CreditOutcome e s u req w)) [
        | inl (failed, same) ↦ inl same
        | inr (inl (t, p), added) ↦ absurd (cc)
        | inr (inr (y, p), added) ↦ inr ((y, cc), added)
      ]

  -- A credit to a user with no balance, in the table or in the cache, fails and writes no balance.
  pub credit_sync_needs_balance :
      lookup u w.db.balances ≡ none
      → lookup u w.cache.balances ≡ none
      → ((x : Error) × ((credit_sync e s u req w).0 ≡ err x))
        × ((credit_sync e s u req w).1.db.balances ≡ w.db.balances)
  credit_sync_needs_balance row cached = go (credit_sync-CreditOutcome e s u req w)
    where
      go :
          {r : Result TransactionResponse} {w' : World}
          → CreditOutcome e s u req w r w'
          → ((x : Error) × (r ≡ err x)) × (w'.db.balances ≡ w.db.balances)
      go (nothing x p same) = ((x, p), same)
      go (wrote c p cur outcome) =
          let (y, q) = get_current_missing e s.has_cache u w row cached in absurd (cc)
