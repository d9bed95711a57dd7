-- ===== src/Service/Transaction/Moving.antt =====
-- The database transaction of a transfer: both rows are written, or none.
use mathlib.Core.Path.{subst}
use insider_banking_project.Base.{
  Bool-cases, ◌==◌, ℕ, ◌≡◌, sym, ◌∙◌, ap, ◌≢◌, ◌⊎◌, inl, inr, some, arith,
}
use insider_banking_project.Base.Int.{ℤ, pos, negsuc, ◌+ℤ◌, ◌-ℤ◌, ◌≤ℤ◌, int_laws}
use insider_banking_project.Base.Dict.{
  Dict, lookup, insert, lookup-insert, lookup-insert_self, lookup-insert_ne,
}
use insider_banking_project.Domain.Error.{Error, wrap}
use insider_banking_project.Domain.Balance.{Balance}
use insider_banking_project.Domain.Total.{total, amount_at, total-insert}
use insider_banking_project.Domain.Transaction.{TransferRequest}
use insider_banking_project.Repository.Numeric.{
  to_numeric, IsWhole, AllWhole, IsWhole-minus, to_numeric-minus, to_numeric-plus,
}
use insider_banking_project.Repository.World.{Env, World, ok, err, Result-cases}
use insider_banking_project.Repository.Balances.{add_amount_tx}
use insider_banking_project.Repository.Frames.{add_amount_tx_ok, add_amount_tx_db}
use insider_banking_project.Repository.Quiet.{mark_failed-Quiet}
use insider_banking_project.Service.Transaction.Transfer.{begin, commit, move_amount}

-- The table after `amount` has gone from the row of `u` to the row of `v`; a row that is missing
-- counts as zero and is created. Each row is rounded to whole cents.
pub data Moved (u v : ℕ) (amount : ℤ) (before after : Dict Balance) : Type 0 where
  moved :
      (b c : Balance)
      → b.amount ≡ to_numeric (amount_at (lookup u before) +ℤ (pos 0 -ℤ amount))
      → pos 0 ≤ℤ b.amount
      → c.amount ≡ to_numeric (amount_at (lookup v (insert u b before)) +ℤ amount)
      → after ≡ insert v c (insert u b before)
      → Moved u v amount before after

minus_zero : (a b : ℤ) → a +ℤ (pos 0 -ℤ b) ≡ a -ℤ b
minus_zero a b = omega int_laws

-- Where the table and the amount are in whole cents, nothing is rounded.
Moved-exact :
    (u v : ℕ) (amount : ℤ) (before : Dict Balance) (b c : Balance)
    → AllWhole before
    → IsWhole amount
    → b.amount ≡ to_numeric (amount_at (lookup u before) +ℤ (pos 0 -ℤ amount))
    → c.amount ≡ to_numeric (amount_at (lookup v (insert u b before)) +ℤ amount)
    → (b.amount ≡ amount_at (lookup u before) -ℤ amount)
      × (c.amount ≡ amount_at (lookup v (insert u b before)) +ℤ amount)
Moved-exact u v amount before b c whole whole_amount low high =
    let less = to_numeric-minus (amount_at (lookup u before)) amount (whole u) whole_amount in
    let exact : b.amount ≡ amount_at (lookup u before) -ℤ amount =
      low ∙ ap to_numeric (minus_zero _ amount) ∙ less in
    let b_whole : IsWhole b.amount =
      subst IsWhole (sym exact) (IsWhole-minus _ amount (whole u) whole_amount) in
    let read : IsWhole (amount_at (lookup v (insert u b before))) = elim (Bool-cases (v == u)) [
      | inl same ↦ rw (lookup-insert v u b before, same) b_whole
      | inr other ↦ rw (lookup-insert v u b before, other) (whole v)
    ] in
    (exact, high ∙ to_numeric-plus _ amount read whole_amount)

-- Moving whole cents keeps the money of the bank.
pub Moved-total :
    {u v : ℕ} {amount : ℤ} {before after : Dict Balance}
    → AllWhole before
    → IsWhole amount
    → Moved u v amount before after
    → total after ≡ total before
Moved-total {u} {v} {amount} {before} whole whole_amount (moved b c low covered high p) =
    let (low', high') = Moved-exact u v amount before b c whole whole_amount low high in
    rw p
      (grind (int_laws, total-insert u b before, total-insert v c (insert u b before), low', high'))

-- Between two users each row changes by the amount, rounded, and no third row changes.
pub Moved-rows :
    {u v : ℕ} {amount : ℤ} {before after : Dict Balance}
    → u ≢ v
    → Moved u v amount before after
    → (amount_at (lookup u after) ≡ to_numeric (amount_at (lookup u before) -ℤ amount))
      × (amount_at (lookup v after) ≡ to_numeric (amount_at (lookup v before) +ℤ amount))
      × ((k : ℕ) → k ≢ u → k ≢ v → lookup k after ≡ lookup k before)
Moved-rows {u} {v} {amount} {before} ne (moved b c low covered high p) = (
  rw (p, lookup-insert_ne u v c (insert u b before) ne, lookup-insert_self u b before)
      (low ∙ ap to_numeric (minus_zero _ amount)),
  rw (p, lookup-insert_self v c (insert u b before))
      (high
        ∙ ap (λ z. to_numeric (amount_at z +ℤ amount))
            (lookup-insert_ne v u b before (λ q. ne (sym q)))),
  λ k ku kv.
      ap (lookup k) p
      ∙ lookup-insert_ne k v c (insert u b before) kv
      ∙ lookup-insert_ne k u b before ku,
)

-- From a user to the same user no amount changes, in whole cents.
pub Moved-self :
    {u v : ℕ} {amount : ℤ} {before after : Dict Balance}
    → AllWhole before
    → IsWhole amount
    → u ≡ v
    → (k : ℕ) → Moved u v amount before after
    → amount_at (lookup k after) ≡ amount_at (lookup k before)
Moved-self {u} {v} {amount} {before} whole whole_amount same k (moved b c low covered high p) =
    let (low', high') = Moved-exact u v amount before b c whole whole_amount low high in
    rw p (
      grind (
        int_laws,
        low',
        high',
        lookup-insert k v c (insert u b before),
        lookup-insert k u b before,
        lookup-insert v u b before,
      ))

-- Half a cent is nothing to a row that gives it, and a cent to one that gets it.
half_given :
    (x : ℤ)
    → IsWhole x
    → pos 0 ≤ℤ to_numeric (x +ℤ (pos 0 -ℤ pos 5))
    → to_numeric (x +ℤ (pos 0 -ℤ pos 5)) ≡ x
unfolding to_numeric ◌+ℤ◌ ◌-ℤ◌
half_given (pos n) whole low = ground arith
half_given (negsuc n) whole low = ground arith

half_got : (x : ℤ) → IsWhole x → pos 0 ≤ℤ x → to_numeric (x +ℤ pos 5) ≡ x +ℤ pos 10
unfolding to_numeric ◌+ℤ◌
half_got (pos n) whole up = ground arith
half_got (negsuc n) whole up = ground arith

-- Between two users whose rows are in whole cents, moving half a cent makes a cent.
pub Moved-half :
    {u v : ℕ} {before after : Dict Balance}
    → AllWhole before
    → pos 0 ≤ℤ amount_at (lookup v before)
    → u ≢ v
    → Moved u v (pos 5) before after
    → total after ≡ total before +ℤ pos 10
Moved-half {u} {v} {before} whole solvent ne (moved b c low covered high p) =
    let other = lookup-insert_ne v u b before (λ q. ne (sym q)) in
    let low' : b.amount ≡ amount_at (lookup u before) =
      low ∙ half_given (amount_at (lookup u before)) (whole u) (rw (← low) covered) in
    let high' : c.amount ≡ amount_at (lookup v (insert u b before)) +ℤ pos 10 =
      high ∙ rw other (half_got (amount_at (lookup v before)) (whole v) solvent) in
    rw p
      (grind (int_laws, total-insert u b before, total-insert v c (insert u b before), low', high'))

module _ (e : Env) where
  begin_ok : (w : World) → (begin e w).0 ≡ ok tt → (begin e w).1.tx ≡ some w.db.balances
  unfolding begin
  begin_ok w h = ground arith

  begin_db : (w : World) → (begin e w).1.db ≡ w.db
  unfolding begin
  begin_db w = ground arith

  commit_ok :
      (w : World) (t : Dict Balance)
      → w.tx ≡ some t
      → (commit e w).0 ≡ ok tt
      → (commit e w).1.db.balances ≡ t
  unfolding commit
  commit_ok w t p h = ground arith

  commit_err :
      (w : World) {x : Error} → (commit e w).0 ≡ err x → (commit e w).1.db.balances ≡ w.db.balances
  unfolding commit
  commit_err w h = ground arith

  -- The transfer's database transaction succeeds with both rows written, or fails with none.
  pub move_amount-Moved :
      (u : ℕ) (req : TransferRequest) (id : ℕ) (w : World)
      → (((move_amount e u req id w).0 ≡ ok tt)
          × Moved u req.to_user_id req.amount w.db.balances
              (move_amount e u req id w).1.db.balances)
        ⊎ (((x : Error) × ((move_amount e u req id w).0 ≡ err x))
            × ((move_amount e u req id w).1.db.balances ≡ w.db.balances))
  unfolding move_amount
  move_amount-Moved u req id w =
      let w1 = (begin e w).1 in
      let w2 = (add_amount_tx e u (pos 0 -ℤ req.amount) w1).1 in
      let w3 = (add_amount_tx e req.to_user_id req.amount w2).1 in
      elim (Result-cases (begin e w).0) [
        | inr (x, p) ↦ inr (
          (wrap "failed to begin transaction" x, ground arith),
          ground (arith, begin_db w, mark_failed-Quiet e id w1),
        )
        | inl (_, p) ↦ elim (Result-cases (add_amount_tx e u (pos 0 -ℤ req.amount) w1).0) [
          | inr (x, q) ↦ inr (
            (wrap "failed to debit sender" x, ground arith),
            ground (
              arith,
              begin_db w,
              add_amount_tx_db e u (pos 0 -ℤ req.amount) w1,
              mark_failed-Quiet e id w2,
            ),
          )
          | inl (_, q) ↦
              let (b, low_tx, low, low_currency, low_pos) =
                add_amount_tx_ok e u (pos 0 -ℤ req.amount) w1 w.db.balances (begin_ok w p) q in
              elim (Result-cases (add_amount_tx e req.to_user_id req.amount w2).0) [
                | inr (x, r) ↦ inr (
                  (wrap "failed to credit receiver" x, ground arith),
                  ground (
                    arith,
                    begin_db w,
                    add_amount_tx_db e u (pos 0 -ℤ req.amount) w1,
                    add_amount_tx_db e req.to_user_id req.amount w2,
                    mark_failed-Quiet e id w3,
                  ),
                )
                | inl (_, r) ↦
                    let (c, high_tx, high, high_currency, high_pos) =
                      add_amount_tx_ok e req.to_user_id req.amount w2 (insert u b w.db.balances)
                        low_tx r in
                    elim (Result-cases (commit e w3).0) [
                      | inr (x, k) ↦ inr (
                        (wrap "failed to commit transaction" x, ground arith),
                        ground (
                          arith,
                          begin_db w,
                          add_amount_tx_db e u (pos 0 -ℤ req.amount) w1,
                          add_amount_tx_db e req.to_user_id req.amount w2,
                          commit_err w3 k,
                          mark_failed-Quiet e id (commit e w3).1,
                        ),
                      )
                      | inl (_, k) ↦ inl (
                        ground arith,
                        moved b c low low_pos high (ground (arith, commit_ok w3 _ high_tx k)),
                      )
                    ]
              ]
        ]
      ]
