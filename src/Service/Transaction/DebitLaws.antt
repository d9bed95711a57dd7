-- ===== src/Service/Transaction/DebitLaws.antt =====
-- What a debit does to the balances, on every outcome.
use mathlib.Core.Path.{subst}
use insider_banking_project.Base.{
  ℕ, ◌≡◌, refl, sym, ap, ◌∙◌, ◌⊎◌, inl, inr, true, false, Bool-cases, str_eq, eq_iff, none,
  Option-cases, [], ◌∷◌, arith,
}
use insider_banking_project.Base.Int.{ℤ, ◌+ℤ◌, pos, ◌-ℤ◌, ◌≤ℤ◌, ltb_ℤ, int_laws}
use insider_banking_project.Domain.Error.{Error, plain, wrap}
use insider_banking_project.Domain.Balance.{Balance, BalanceResponse}
use insider_banking_project.Domain.Change.{Added, written-Added}
use insider_banking_project.Domain.Transaction.{
  DebitRequest, TransactionResponse, transaction_to_response, debit_request_validate,
}
use insider_banking_project.Domain.Event.{id_detail, amount_detail}
use insider_banking_project.Repository.Numeric.{
  to_numeric, IsNearest, to_numeric-IsNearest, IsWhole, to_numeric-minus,
}
use insider_banking_project.Repository.World.{Env, World, Result, ok, err, Result-cases}
use insider_banking_project.Service.Balance.{get_current}
use insider_banking_project.Service.Transaction.Common.{Service, after_success}
use insider_banking_project.Service.Transaction.Debit.{
  debit_record, debited, debit_write, debit_sync,
}
use insider_banking_project.Service.Quiet.{get_current-Quiet, after_success-Quiet}
use insider_banking_project.Service.Coherence.{IsCoherent, get_current-Reports}
use insider_banking_project.Service.Transaction.Write.{
  WriteOutcome, WriteOutcome-from, WriteEnd, made, refused, write_steps-WriteOutcome,
}

-- How a debit ended: refused with nothing written, or a write below the balance that `GetCurrent`
-- reported, which covers the amount and is in the request's currency.
pub data DebitOutcome (e : Env) (s : Service) (u : ℕ) (req : DebitRequest) (w : World)
    (r : Result TransactionResponse) (w' : World) : Type 0 where
  nothing : (x : Error) → r ≡ err x → w'.db.balances ≡ w.db.balances → DebitOutcome e s u req w r w'
  wrote :
      (c : BalanceResponse)
      → (get_current e s.has_cache u w).0 ≡ ok c
      → c.currency ≡ req.currency
      → ltb_ℤ c.amount req.amount ≡ false
      → WriteOutcome (debited u req c) w r w'
      → DebitOutcome e s u req w r w'

module _ (e : Env) (s : Service) (u : ℕ) (req : DebitRequest) where
  debit_write-WriteOutcome :
      (c : BalanceResponse) (w : World)
      → WriteOutcome (debited u req c) w (debit_write e s u req c w).0 (debit_write e s u req c w).1
  unfolding debit_write after_success
  debit_write-WriteOutcome c w =
      write_steps-WriteOutcome e (debit_record u req) (debited u req c)
        (λ t w'. (
          ok (transaction_to_response t),
          (after_success e s (u ∷ []) t "debit"
              (("user_id", id_detail u) ∷ ("amount", amount_detail req.amount) ∷ []) w').1,
        ))
        transaction_to_response (λ t w'. refl)
        (λ t w'. after_success-Quiet e s (u ∷ []) t "debit" _ w') w

  debit_sync-reaches :
      (w : World) (c : BalanceResponse)
      → debit_request_validate req ≡ none
      → (get_current e s.has_cache u w).0 ≡ ok c
      → str_eq c.currency req.currency ≡ true
      → ltb_ℤ c.amount req.amount ≡ false
      → debit_sync e s u req w ≡ debit_write e s u req c (get_current e s.has_cache u w).1
  unfolding debit_sync
  debit_sync-reaches w c valid found same covered = ground arith

  pub debit_sync-DebitOutcome :
      (w : World) → DebitOutcome e s u req w (debit_sync e s u req w).0 (debit_sync e s u req w).1
  unfolding debit_sync
  debit_sync-DebitOutcome w =
      let quiet = get_current-Quiet e s.has_cache u w in
      elim (Option-cases (debit_request_validate req)) [
        | inr (x, p) ↦ nothing (wrap "invalid debit request" x) (ground arith) (ground arith)
        | inl valid ↦ elim (Result-cases (get_current e s.has_cache u w).0) [
          | inr (x, p) ↦
              nothing (wrap "failed to get current balance" x) (ground arith)
                (ground (arith, quiet))
          | inl (c, p) ↦ elim (Bool-cases (str_eq c.currency req.currency)) [
            | inr q ↦ nothing (plain "currency mismatch") (ground arith) (ground (arith, quiet))
            | inl q ↦ elim (Bool-cases (ltb_ℤ c.amount req.amount)) [
              | inl short ↦
                  nothing (plain "insufficient funds") (ground arith) (ground (arith, quiet))
              | inr covered ↦ wrote c p ((eq_iff _ _).0 q) covered (
                  subst (λ z. WriteOutcome (debited u req c) w z.0 z.1)
                    (sym (debit_sync-reaches w c valid p q covered))
                    (WriteOutcome-from quiet.same_balances (debit_write-WriteOutcome c _)))
            ]
          ]
        ]
      ]

back : (a b : ℤ) → b ≡ a +ℤ (b -ℤ a)
back a b = omega int_laws

taken : (x y : ℤ) → x -ℤ y ≡ x +ℤ (pos 0 -ℤ y)
taken x y = omega int_laws

module _ (e : Env) (s : Service) (u : ℕ) (req : DebitRequest) (w : World) where
  -- The user had a row in the request's currency, which covered the amount, and now holds the
  -- difference, rounded to cents; in whole cents, that is the amount less.
  abbrev pub Debited : World → Type 0
  Debited w' =
      (row : Balance) × Added u row (to_numeric (row.amount -ℤ req.amount) -ℤ row.amount)
        w.db.balances w'.db.balances
      × IsNearest (row.amount -ℤ req.amount) (to_numeric (row.amount -ℤ req.amount))
      × (row.currency ≡ req.currency)
      × (req.amount ≤ℤ row.amount)
      × (IsWhole row.amount
          → IsWhole req.amount
          → Added u row (pos 0 -ℤ req.amount) w.db.balances w'.db.balances)

  DebitOutcome-Debited :
      {r : Result TransactionResponse} {w' : World}
      → IsCoherent w
      → DebitOutcome e s u req w r w'
      → (((x : Error) × (r ≡ err x)) × (w'.db.balances ≡ w.db.balances)) ⊎ (WriteEnd r × Debited w')
  DebitOutcome-Debited coherent (nothing x p same) = inl ((x, p), same)
  DebitOutcome-Debited coherent (wrote c p cur covered (refused x q same)) = inl ((x, q), same)
  DebitOutcome-Debited coherent (wrote c p cur covered (made now q how)) =
      let (b, was, amount, currency) =
        get_current-Reports e s.has_cache u w {r = c} (coherent u) p in
      inr (
        how,
        (
          b,
          rw q (
              written-Added u b _ _ w.db.balances was
                (ap (λ z. to_numeric (z -ℤ req.amount)) amount ∙ back b.amount _)),
          to_numeric-IsNearest (b.amount -ℤ req.amount),
          sym currency ∙ cur,
          rw (← amount) (ground arith),
          λ whole whole_amount. rw q (
              written-Added u b (pos 0 -ℤ req.amount) _ w.db.balances was (
                ap (λ z. to_numeric (z -ℤ req.amount)) amount
                ∙ to_numeric-minus b.amount req.amount whole whole_amount
                ∙ taken b.amount req.amount)),
        ),
      )

  -- A debit that succeeds leaves in the user's row, which is in the request's currency and held at
  -- least the requested amount, the old amount less the requested one, rounded to the nearest whole cent, and
  -- changes no other row, whenever the cache agrees with the table. If both amounts are in whole
  -- cents, the row falls by the amount.
  pub debit_sync_takes :
      {t : TransactionResponse}
      → IsCoherent w
      → (debit_sync e s u req w).0 ≡ ok t
      → Debited (debit_sync e s u req w).1
  debit_sync_takes coherent h =
      elim (DebitOutcome-Debited coherent (debit_sync-DebitOutcome e s u req w)) [
        | inl ((x, p), same) ↦ absurd (cc)
        | inr (how, taken) ↦ taken
      ]

  -- A debit that returns an error has left every balance as it was, unless the error says that
  -- the record could not be completed: then the amount has been taken all the same, rounded as
  -- in a success. The cache is taken to agree with the table.
  pub debit_sync_error :
      {x : Error}
      → IsCoherent w
      → (debit_sync e s u req w).0 ≡ err x
      → ((debit_sync e s u req w).1.db.balances ≡ w.db.balances)
        ⊎ (((y : Error) × (x ≡ wrap "failed to mark transaction completed" y))
            × Debited (debit_sync e s u req w).1)
  debit_sync_error coherent h =
      elim (DebitOutcome-Debited coherent (debit_sync-DebitOutcome e s u req w)) [
        | inl (failed, same) ↦ inl same
        | inr (inl (t, p), taken) ↦ absurd (cc)
        | inr (inr (y, p), taken) ↦ inr ((y, cc), taken)
      ]
