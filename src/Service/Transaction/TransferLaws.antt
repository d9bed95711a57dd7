-- ===== src/Service/Transaction/TransferLaws.antt =====
-- What a transfer does to the balances, on every outcome.
use mathlib.Core.Path.{subst}
use insider_banking_project.Base.{
  ℕ, ◌≡◌, refl, sym, ◌∙◌, ap, ◌≢◌, ◌⊎◌, inl, inr, true, false, Bool-cases, str_eq, eq_iff, none,
  some, Option-cases, [], ◌∷◌, arith,
}
use insider_banking_project.Base.Int.{pos, ◌+ℤ◌, ◌-ℤ◌, ◌≤ℤ◌, ltb_ℤ}
use insider_banking_project.Base.Dict.{Dict, lookup}
use insider_banking_project.Domain.Error.{Error, plain, wrap}
use insider_banking_project.Domain.Balance.{Balance, BalanceResponse}
use insider_banking_project.Domain.Total.{total, amount_at}
use insider_banking_project.Domain.Transaction.{
  Transaction, TransferRequest, TransactionResponse, transaction_to_response,
  transfer_request_validate,
}
use insider_banking_project.Repository.Numeric.{
  to_numeric, IsNearest, to_numeric-IsNearest, IsWhole, AllWhole, to_numeric-plus, to_numeric-minus,
}
use insider_banking_project.Repository.World.{Env, World, Result, ok, err, Result-cases}
use insider_banking_project.Repository.Transactions.{create_pending, mark_completed}
use insider_banking_project.Repository.Quiet.{
  Quiet, create_pending-Quiet, mark_completed-Quiet, mark_failed-Quiet, append_event-Quiet,
}
use insider_banking_project.Service.Balance.{get_current}
use insider_banking_project.Service.Transaction.Common.{
  Service, Pool, no_pool, other_pool, pgx_pool,
}
use insider_banking_project.Service.Transaction.Transfer.{
  transfer_record, transfer_details, require_pool, move_amount, publish_transfer_executed,
  transfer_finish, transfer_write, transfer_sync,
}
use insider_banking_project.Service.Transaction.Moving.{
  Moved-half, Moved, Moved-total, Moved-rows, Moved-self, move_amount-Moved,
}
use insider_banking_project.Service.Quiet.{get_current-Quiet, after_success-Quiet, after_success_ok}
use insider_banking_project.Service.Coherence.{
  IsCoherent, IsKeyed, get_current-Reports, get_current-IsCoherent,
}
use insider_banking_project.Service.Transaction.Write.{WriteEnd}

-- How a transfer ended, as far as the balances go: an error and nothing moved, or the amount
-- moved and either a success or the failure to complete the record.
pub data TransferOutcome (u : ℕ) (req : TransferRequest) (w : World)
    (r : Result TransactionResponse) (w' : World) : Type 0 where
  nothing : (x : Error) → r ≡ err x → w'.db.balances ≡ w.db.balances → TransferOutcome u req w r w'
  done :
      Moved u req.to_user_id req.amount w.db.balances w'.db.balances
      → WriteEnd r
      → TransferOutcome u req w r w'

TransferOutcome-from :
    {u : ℕ} {req : TransferRequest} {w w1 : World} {r : Result TransactionResponse} {w' : World}
    → w1.db.balances ≡ w.db.balances
    → TransferOutcome u req w1 r w'
    → TransferOutcome u req w r w'
TransferOutcome-from same (nothing x p kept) = nothing x p (kept ∙ same)
TransferOutcome-from {u} {req} {w' = w'} same (done m how) =
    done (subst (λ z. Moved u req.to_user_id req.amount z w'.db.balances) same m) how

module _ (e : Env) (s : Service) (u : ℕ) (req : TransferRequest) where
  publish-Quiet : (id : ℕ) (w : World) → Quiet w (publish_transfer_executed e u req id w).1
  unfolding publish_transfer_executed
  publish-Quiet id w = grind (arith, append_event-Quiet)

  require_pool-cases :
      (pool : Pool) (w : World)
      → ((require_pool pool w).1 ≡ w)
        × (((require_pool pool w).0 ≡ ok tt) ⊎ ((x : Error) × ((require_pool pool w).0 ≡ err x)))
  require_pool-cases no_pool w = (refl, inr (_, refl))
  require_pool-cases other_pool w = (refl, inr (_, refl))
  require_pool-cases pgx_pool w = (refl, inl refl)

  transfer_finish_end :
      (t : Transaction) (w : World)
      → WriteEnd (transfer_finish e s u req t w).0 × Quiet w (transfer_finish e s u req t w).1
  unfolding transfer_finish
  transfer_finish_end t w =
      let q1 = mark_completed-Quiet e t.id w in
      let w1 = (mark_completed e t.id w).1 in
      elim (Result-cases (mark_completed e t.id w).0) [
        | inr (x, p) ↦ (inr (x, ground arith), ground (arith, q1))
        | inl (_, p) ↦ (
          inl (transaction_to_response t, grind (arith, after_success_ok)),
          elim (Bool-cases s.has_events) [
            | inl on ↦ ground (
              arith,
              q1,
              publish-Quiet t.id w1,
              after_success-Quiet e s (u ∷ req.to_user_id ∷ []) t "transfer"
                  (transfer_details u req) (publish_transfer_executed e u req t.id w1).1,
            )
            | inr off ↦ ground (
              arith,
              q1,
              after_success-Quiet e s (u ∷ req.to_user_id ∷ []) t "transfer"
                  (transfer_details u req) w1,
            )
          ],
        )
      ]

  transfer_write-reaches :
      (t : Transaction) (w : World)
      → (create_pending e (transfer_record u req) w).0 ≡ ok t
      → let w1 = (create_pending e (transfer_record u req) w).1 in
        (require_pool s.pool w1).0 ≡ ok tt
        → (move_amount e u req t.id w1).0 ≡ ok tt
        → transfer_write e s u req w ≡ transfer_finish e s u req t (move_amount e u req t.id w1).1
  unfolding transfer_write
  transfer_write-reaches t w p q r =
      ground (arith, (require_pool-cases s.pool (create_pending e (transfer_record u req) w).1).0)

  transfer_write-TransferOutcome :
      (w : World)
      → TransferOutcome u req w (transfer_write e s u req w).0 (transfer_write e s u req w).1
  unfolding transfer_write
  transfer_write-TransferOutcome w =
      let w1 = (create_pending e (transfer_record u req) w).1 in
      let q1 = create_pending-Quiet e (transfer_record u req) w in
      elim (Result-cases (create_pending e (transfer_record u req) w).0) [
        | inr (x, p) ↦
            nothing (wrap "failed to create transaction" x) (ground arith) (ground (arith, q1))
        | inl (t, p) ↦ elim (require_pool-cases s.pool w1).1 [
          | inr (x, q) ↦
              nothing x (ground (arith, (require_pool-cases s.pool w1).0))
                (ground (arith, q1, (require_pool-cases s.pool w1).0, mark_failed-Quiet e t.id w1))
          | inl q ↦ elim (move_amount-Moved e u req t.id w1) [
            | inr ((x, r), same) ↦
                nothing x (ground (arith, (require_pool-cases s.pool w1).0))
                  (ground (arith, q1, (require_pool-cases s.pool w1).0))
            | inl (r, m) ↦
                let w2 = (move_amount e u req t.id w1).1 in
                subst (λ z. TransferOutcome u req w z.0 z.1)
                  (sym (transfer_write-reaches t w p q r))
                  (TransferOutcome-from {w1 = w1} q1.same_balances (
                    done
                      (subst (λ z. Moved u req.to_user_id req.amount w1.db.balances z)
                        (sym (transfer_finish_end t w2).1.same_balances) m)
                      (transfer_finish_end t w2).0))
          ]
        ]
      ]

  transfer_sync-reaches :
      (w : World) (c d : BalanceResponse)
      → transfer_request_validate req ≡ none
      → (get_current e s.has_cache u w).0 ≡ ok c
      → str_eq c.currency req.currency ≡ true
      → ltb_ℤ c.amount req.amount ≡ false
      → let w1 = (get_current e s.has_cache u w).1 in
        (get_current e s.has_cache req.to_user_id w1).0 ≡ ok d
        → str_eq d.currency req.currency ≡ true
        → transfer_sync e s u req w
          ≡ transfer_write e s u req (get_current e s.has_cache req.to_user_id w1).1
  unfolding transfer_sync
  transfer_sync-reaches w c d valid found same covered found' same' = ground arith

-- What a transfer has checked before it writes: the balances that `GetCurrent` reported.
pub record Checked (e : Env) (s : Service) (u : ℕ) (req : TransferRequest) (w : World)
    : Type 0 where
  pub sender : BalanceResponse
  pub receiver : BalanceResponse
  pub sender_found : (get_current e s.has_cache u w).0 ≡ ok sender
  pub sender_currency : sender.currency ≡ req.currency
  pub covered : ltb_ℤ sender.amount req.amount ≡ false
  pub receiver_found :
      (get_current e s.has_cache req.to_user_id (get_current e s.has_cache u w).1).0 ≡ ok receiver
  pub receiver_currency : receiver.currency ≡ req.currency

module _ (e : Env) (s : Service) (u : ℕ) (req : TransferRequest) (w : World) where
  -- A transfer writes only after all its checks, and its outcome is one of the two.
  pub transfer_sync-TransferOutcome :
      (((x : Error) × ((transfer_sync e s u req w).0 ≡ err x))
        × ((transfer_sync e s u req w).1.db.balances ≡ w.db.balances))
      ⊎ (Checked e s u req w
          × TransferOutcome u req w (transfer_sync e s u req w).0 (transfer_sync e s u req w).1)
  unfolding transfer_sync
  transfer_sync-TransferOutcome =
      let w1 = (get_current e s.has_cache u w).1 in
      let w2 = (get_current e s.has_cache req.to_user_id w1).1 in
      let q1 = get_current-Quiet e s.has_cache u w in
      let q2 = get_current-Quiet e s.has_cache req.to_user_id w1 in
      elim (Option-cases (transfer_request_validate req)) [
        | inr (x, p) ↦ inl ((wrap "invalid transfer request" x, ground arith), ground arith)
        | inl valid ↦ elim (Result-cases (get_current e s.has_cache u w).0) [
          | inr (x, p) ↦
              inl ((wrap "failed to get sender balance" x, ground arith), ground (arith, q1))
          | inl (c, p) ↦ elim (Bool-cases (str_eq c.currency req.currency)) [
            | inr q ↦ inl ((plain "currency mismatch", ground arith), ground (arith, q1))
            | inl q ↦ elim (Bool-cases (ltb_ℤ c.amount req.amount)) [
              | inl short ↦ inl ((plain "insufficient funds", ground arith), ground (arith, q1))
              | inr covered ↦ elim (Result-cases (get_current e s.has_cache req.to_user_id w1).0) [
                | inr (x, r) ↦ inl (
                  (wrap "failed to get receiver balance" x, ground arith),
                  ground (arith, q1, q2),
                )
                | inl (d, r) ↦ elim (Bool-cases (str_eq d.currency req.currency)) [
                  | inr k ↦ inl ((plain "currency mismatch", ground arith), ground (arith, q1, q2))
                  | inl k ↦ inr (
                    record {
                      sender = c;
                      receiver = d;
                      sender_found = p;
                      sender_currency = (eq_iff _ _).0 q;
                      covered = covered;
                      receiver_found = r;
                      receiver_currency = (eq_iff _ _).0 k;
                    },
                    subst (λ z. TransferOutcome u req w z.0 z.1)
                        (sym (transfer_sync-reaches e s u req w c d valid p q covered r k))
                        (TransferOutcome-from {w1 = w2} (q2.same_balances ∙ q1.same_balances)
                          (transfer_write-TransferOutcome e s u req w2)),
                  )
                ]
              ]
            ]
          ]
        ]
      ]

  -- On every outcome of a transfer of whole cents, where the rows are in whole cents, whatever fails
  -- on the way, the money of the bank is the same before and after.
  pub transfer_sync_conserves :
      AllWhole w.db.balances
      → IsWhole req.amount
      → total (transfer_sync e s u req w).1.db.balances ≡ total w.db.balances
  transfer_sync_conserves whole whole_amount = elim transfer_sync-TransferOutcome [
    | inl (failed, same) ↦ ap total same
    | inr (checked, nothing x p same) ↦ ap total same
    | inr (checked, done m how) ↦ Moved-total whole whole_amount m
  ]

  -- What a transfer that succeeded did: both users had rows in the request's currency, the
  -- sender's covered the amount, each changed by the amount, rounded to cents, and no third row
  -- changed.
  abbrev pub Transferred : Dict Balance → Type 0
  Transferred after =
      (a b : Balance) × (lookup u w.db.balances ≡ some a)
      × (lookup req.to_user_id w.db.balances ≡ some b)
      × (a.currency ≡ req.currency)
      × (b.currency ≡ req.currency)
      × (req.amount ≤ℤ a.amount)
      × (amount_at (lookup u after) ≡ to_numeric (a.amount -ℤ req.amount))
      × (amount_at (lookup req.to_user_id after) ≡ to_numeric (b.amount +ℤ req.amount))
      × IsNearest (a.amount -ℤ req.amount) (to_numeric (a.amount -ℤ req.amount))
      × IsNearest (b.amount +ℤ req.amount) (to_numeric (b.amount +ℤ req.amount))
      × ((k : ℕ) → k ≢ u → k ≢ req.to_user_id → lookup k after ≡ lookup k w.db.balances)

  Moved-Transferred :
      {after : Dict Balance}
      → IsKeyed w.db.balances
      → IsCoherent w
      → u ≢ req.to_user_id
      → Checked e s u req w
      → Moved u req.to_user_id req.amount w.db.balances after
      → Transferred after
  Moved-Transferred keyed coherent ne checked m =
      let w1 = (get_current e s.has_cache u w).1 in
      let q1 = get_current-Quiet e s.has_cache u w in
      let (a, a_row, a_amount, a_currency) =
        get_current-Reports e s.has_cache u w (coherent u) checked.sender_found in
      let (b, b_row, b_amount, b_currency) =
        get_current-Reports e s.has_cache req.to_user_id w1
          (get_current-IsCoherent e s.has_cache u w keyed coherent req.to_user_id)
          checked.receiver_found in
      let b_row' : lookup req.to_user_id w.db.balances ≡ some b =
        ap (lookup req.to_user_id) (sym q1.same_balances) ∙ b_row in
      let (low, high, others) = Moved-rows ne m in
      (
        a,
        b,
        a_row,
        b_row',
        sym a_currency ∙ checked.sender_currency,
        sym b_currency ∙ checked.receiver_currency,
        rw (← a_amount) (ground (arith, checked.covered)),
        low ∙ ap (λ z. to_numeric (amount_at z -ℤ req.amount)) a_row,
        high ∙ ap (λ z. to_numeric (amount_at z +ℤ req.amount)) b_row',
        to_numeric-IsNearest (a.amount -ℤ req.amount),
        to_numeric-IsNearest (b.amount +ℤ req.amount),
        others,
      )

  -- A transfer between two users that succeeds lowers the sender's row by the amount, which it
  -- covered, and raises the receiver's by it, both in the request's currency, each then rounded to
  -- the nearest whole cent, and changes no third row, whenever each row is stored under its own user and the
  -- cache agrees with the table. If the amount and the rows are in whole cents, nothing is rounded.
  pub transfer_sync_moves :
      {t : TransactionResponse}
      → IsKeyed w.db.balances
      → IsCoherent w
      → u ≢ req.to_user_id
      → (transfer_sync e s u req w).0 ≡ ok t
      → Transferred (transfer_sync e s u req w).1.db.balances
        × (AllWhole w.db.balances
            → IsWhole req.amount
            → (amount_at (lookup u (transfer_sync e s u req w).1.db.balances)
                ≡ amount_at (lookup u w.db.balances) -ℤ req.amount)
              × (amount_at (lookup req.to_user_id (transfer_sync e s u req w).1.db.balances)
                  ≡ amount_at (lookup req.to_user_id w.db.balances) +ℤ req.amount))
  transfer_sync_moves keyed coherent ne h = elim transfer_sync-TransferOutcome [
    | inl ((x, p), same) ↦ absurd (cc)
    | inr (checked, nothing x p same) ↦ absurd (cc)
    | inr (checked, done m how) ↦ (
      Moved-Transferred keyed coherent ne checked m,
      λ whole whole_amount.
          let (low, high, others) = Moved-rows ne m in
          (
            low ∙ to_numeric-minus _ req.amount (whole u) whole_amount,
            high ∙ to_numeric-plus _ req.amount (whole req.to_user_id) whole_amount,
          ),
    )
  ]

  -- A transfer that returns an error has left every balance as it was, unless the error says
  -- that the record could not be completed: then both rows have been written. It never writes one
  -- row alone.
  pub transfer_sync_error :
      {x : Error}
      → (transfer_sync e s u req w).0 ≡ err x
      → ((transfer_sync e s u req w).1.db.balances ≡ w.db.balances)
        ⊎ (((y : Error) × (x ≡ wrap "failed to mark transaction completed" y))
            × Moved u req.to_user_id req.amount w.db.balances
                (transfer_sync e s u req w).1.db.balances)
  transfer_sync_error h = elim transfer_sync-TransferOutcome [
    | inl (failed, same) ↦ inl same
    | inr (checked, nothing x p same) ↦ inl same
    | inr (checked, done m (inl (t, p))) ↦ absurd (cc)
    | inr (checked, done m (inr (y, p))) ↦ inr ((y, cc), m)
  ]

  -- A transfer of whole cents from a user to the same user changes no amount, on any outcome, where
  -- the rows are in whole cents.
  pub transfer_sync_self :
      AllWhole w.db.balances
      → IsWhole req.amount
      → u ≡ req.to_user_id
      → (k : ℕ)
      → amount_at (lookup k (transfer_sync e s u req w).1.db.balances)
        ≡ amount_at (lookup k w.db.balances)
  transfer_sync_self whole whole_amount same k = elim transfer_sync-TransferOutcome [
    | inl (failed, kept) ↦ ap (λ z. amount_at (lookup k z)) kept
    | inr (checked, nothing x p kept) ↦ ap (λ z. amount_at (lookup k z)) kept
    | inr (checked, done m how) ↦ Moved-self whole whole_amount same k m
  ]

  -- A transfer of half a cent between two users that succeeds, where the rows are in whole cents and
  -- the receiver's is not negative, makes a cent: the money of the bank grows by it.
  pub transfer_sync_makes_cent :
      {t : TransactionResponse}
      → AllWhole w.db.balances
      → pos 0 ≤ℤ amount_at (lookup req.to_user_id w.db.balances)
      → u ≢ req.to_user_id
      → req.amount ≡ pos 5
      → (transfer_sync e s u req w).0 ≡ ok t
      → total (transfer_sync e s u req w).1.db.balances ≡ total w.db.balances +ℤ pos 10
  transfer_sync_makes_cent whole solvent ne half h = elim transfer_sync-TransferOutcome [
    | inl ((x, p), same) ↦ absurd (cc)
    | inr (checked, nothing x p same) ↦ absurd (cc)
    | inr (checked, done m how) ↦ Moved-half whole solvent ne (
        subst
          (λ z. Moved u req.to_user_id z w.db.balances (transfer_sync e s u req w).1.db.balances)
          half m)
  ]
