-- ===== src/Service/Coherence.antt =====
-- When the cache may be trusted: each cached balance is the one of the table.
use mathlib.Core.Path.{subst}
use insider_banking_project.Base.{
  sym, ap, ◌∙◌, ℕ, ◌≡◌, refl, ◌⊎◌, inl, inr, Bool, false, Bool-cases, Option, none, some,
  Option-cases, arith, ◌==◌,
}
use insider_banking_project.Base.Dict.{Dict, lookup, insert, lookup-insert}
use insider_banking_project.Domain.Error.{Error}
use insider_banking_project.Domain.Balance.{Balance, BalanceResponse, balance_to_response}
use insider_banking_project.Repository.World.{Env, World, ok, err, Result-cases}
use insider_banking_project.Repository.Balances.{get_by_user_id}
use insider_banking_project.Repository.Cache.{get_cached_balance, cache_balance}
use insider_banking_project.Repository.Frames.{get_by_user_id_row, get_by_user_id_world}
use insider_banking_project.Repository.Quiet.{get_cached_balance-Quiet}
use insider_banking_project.Service.Balance.{current_from_database, get_current}
use insider_banking_project.Service.Quiet.{current_from_database-Quiet}
use insider_banking_project.Service.Transaction.Common.{is_not_found_error}

-- A cached balance has the amount and the currency of the row.
abbrev pub Agrees : Option BalanceResponse → Option Balance → Type 0
Agrees none row = Unit {0}
Agrees (some r) none = ⊥
Agrees (some r) (some b) = (r.amount ≡ b.amount) × (r.currency ≡ b.currency)

abbrev pub IsCoherent : World → Type 0
IsCoherent w = (u : ℕ) → Agrees (lookup u w.cache.balances) (lookup u w.db.balances)

-- What `GetCurrent` reports is the row of the table.
abbrev pub Reports : World → ℕ → BalanceResponse → Type 0
Reports w u r =
    (b : Balance) × (lookup u w.db.balances ≡ some b)
    × (r.amount ≡ b.amount)
    × (r.currency ≡ b.currency)

module _ (e : Env) (has_cache : Bool) where
  current_from_database-Reports :
      (u : ℕ) (w : World) {r : BalanceResponse}
      → (current_from_database e has_cache u w).0 ≡ ok r
      → Reports w u r
  unfolding current_from_database
  current_from_database-Reports u w {r} h = elim (Result-cases (get_by_user_id e u w).0) [
    | inl (b, p) ↦ (b, get_by_user_id_row e u w p, ground arith, ground arith)
    | inr (x, p) ↦ absurd (ground arith)
  ]

  agreed :
      (o : Option BalanceResponse) (row : Option Balance) {r : BalanceResponse}
      → Agrees o row
      → o ≡ some r
      → (b : Balance) × (row ≡ some b) × (r.amount ≡ b.amount) × (r.currency ≡ b.currency)
  agreed none row a p = absurd (ground arith)
  agreed (some r) none a p = absurd a
  agreed (some r) (some b) a p = (b, refl, ground arith, ground arith)

  cached_row :
      (u : ℕ) (w : World) {r : BalanceResponse}
      → (get_cached_balance e u w).0 ≡ ok r
      → lookup u w.cache.balances ≡ some r
  unfolding get_cached_balance
  cached_row u w h = ground arith

  cached_same : (u : ℕ) (w : World) → (get_cached_balance e u w).1.db ≡ w.db
  unfolding get_cached_balance
  cached_same u w = ground arith

  -- From a coherent cache or from the table, a reported balance is the row of the table.
  pub get_current-Reports :
      (u : ℕ) (w : World) {r : BalanceResponse}
      → Agrees (lookup u w.cache.balances) (lookup u w.db.balances)
      → (get_current e has_cache u w).0 ≡ ok r
      → Reports w u r
  unfolding get_current
  get_current-Reports u w {r} coherent h = elim (Bool-cases has_cache) [
    | inr off ↦ current_from_database-Reports u w {r = r} (ground arith)
    | inl on ↦ elim (Result-cases (get_cached_balance e u w).0) [
      | inl (c, p) ↦
          agreed (lookup u w.cache.balances) (lookup u w.db.balances) {r = r} coherent
            (ground (arith, cached_row u w p))
      | inr (x, p) ↦
          rw (← cached_same u w)
            (current_from_database-Reports u (get_cached_balance e u w).1 {r = r} (ground arith))
    ]
  ]

  -- Where neither the cache nor the table knows the user, `GetCurrent` fails.
  pub get_current_missing :
      (u : ℕ) (w : World)
      → lookup u w.db.balances ≡ none
      → lookup u w.cache.balances ≡ none
      → (x : Error) × ((get_current e has_cache u w).0 ≡ err x)
  get_current_missing u w d c = elim (Result-cases (get_current e has_cache u w).0) [
    | inl (r, p) ↦
        let (b, row, same_amount, same_currency) = get_current-Reports u w (rw c tt) p in
        absurd (ground arith)
    | inr failed ↦ failed
  ]

  -- An error of `GetCurrent` is never the one that `isNotFoundError` looks for: it is wrapped.
  pub get_current_error :
      (u : ℕ) (w : World) {x : Error}
      → (get_current e has_cache u w).0 ≡ err x
      → is_not_found_error x ≡ false
  unfolding get_current current_from_database is_not_found_error
  get_current_error u w h = ground arith

-- Each row stands under its own user.
abbrev pub IsKeyed : Dict Balance → Type 0
IsKeyed d = (u : ℕ) (b : Balance) → lookup u d ≡ some b → b.user_id ≡ u

module _ (e : Env) (has_cache : Bool) where
  cached_insert :
      (v : ℕ) (b : Balance) (cached : Dict BalanceResponse) (rows : Dict Balance)
      → lookup b.user_id rows ≡ some b
      → Agrees (lookup v cached) (lookup v rows)
      → Agrees (lookup v (insert b.user_id (balance_to_response b) cached)) (lookup v rows)
  cached_insert v b cached rows row h = elim (Bool-cases (v == b.user_id)) [
    | inl same ↦
        let eq : v ≡ b.user_id = ground arith in
        rw (lookup-insert v b.user_id (balance_to_response b) cached, same, eq, row) (refl, refl)
    | inr other ↦ rw (lookup-insert v b.user_id (balance_to_response b) cached, other) h
  ]

  cache_balance-cases :
      (b : Balance) (w : World)
      → ((cache_balance e b w).1.cache.balances ≡ w.cache.balances)
        ⊎ ((cache_balance e b w).1.cache.balances
            ≡ insert b.user_id (balance_to_response b) w.cache.balances)
  unfolding cache_balance
  cache_balance-cases b w = elim (Option-cases (e.fault w.tick)) [
    | inl fine ↦ inr (ground arith)
    | inr (x, failed) ↦ inl (ground arith)
  ]

  -- The cached balances after a read of the table: as before, or with the row of the table.
  current_from_database-cases :
      (u : ℕ) (w : World)
      → let w' = (current_from_database e has_cache u w).1 in
        (w'.cache.balances ≡ w.cache.balances)
        ⊎ ((b : Balance) × (lookup u w.db.balances ≡ some b)
            × (w'.cache.balances ≡ insert b.user_id (balance_to_response b) w.cache.balances))
  unfolding current_from_database
  current_from_database-cases u w =
      let world = get_by_user_id_world e u w in
      elim (Result-cases (get_by_user_id e u w).0) [
        | inr (x, p) ↦ inl (ground (arith, world))
        | inl (b, p) ↦ elim (Bool-cases has_cache) [
          | inr off ↦ inl (ground (arith, world))
          | inl on ↦ elim (cache_balance-cases b (get_by_user_id e u w).1) [
            | inl same ↦ inl (ground (arith, world, same))
            | inr put ↦ inr (b, get_by_user_id_row e u w p, ground (arith, world, put))
          ]
        ]
      ]

  current_from_database-IsCoherent :
      (u : ℕ) (w : World)
      → IsKeyed w.db.balances
      → IsCoherent w
      → IsCoherent (current_from_database e has_cache u w).1
  current_from_database-IsCoherent u w keyed coherent v =
      rw (current_from_database-Quiet e has_cache u w).same_balances
        (elim (current_from_database-cases u w) [
          | inl same ↦ rw same (coherent v)
          | inr (b, row, put) ↦ rw put (
              cached_insert v b w.cache.balances w.db.balances
                (ap (λ k. lookup k w.db.balances) (keyed u b row) ∙ row) (coherent v))
        ])

  get_cached_balance_cache : (u : ℕ) (w : World) → (get_cached_balance e u w).1.cache ≡ w.cache
  unfolding get_cached_balance
  get_cached_balance_cache u w = ground arith

  get_cached_balance-IsCoherent :
      (u : ℕ) (w : World) → IsCoherent w → IsCoherent (get_cached_balance e u w).1
  get_cached_balance-IsCoherent u w coherent v =
      rw ((get_cached_balance-Quiet e u w).same_balances, get_cached_balance_cache u w) (coherent v)

  get_current-world :
      (u : ℕ) (w : World)
      → let w1 = (get_cached_balance e u w).1 in
        ((get_current e has_cache u w).1 ≡ w1)
        ⊎ ((get_current e has_cache u w).1 ≡ (current_from_database e has_cache u w1).1)
        ⊎ ((get_current e has_cache u w).1 ≡ (current_from_database e has_cache u w).1)
  unfolding get_current
  get_current-world u w = elim (Bool-cases has_cache) [
    | inr off ↦ inr (inr (ground arith))
    | inl on ↦ elim (Result-cases (get_cached_balance e u w).0) [
      | inl (r, p) ↦ inl (ground arith)
      | inr (x, p) ↦ inr (inl (ground arith))
    ]
  ]

  -- Asking for a balance keeps the cache in agreement with the table.
  pub get_current-IsCoherent :
      (u : ℕ) (w : World)
      → IsKeyed w.db.balances
      → IsCoherent w
      → IsCoherent (get_current e has_cache u w).1
  get_current-IsCoherent u w keyed coherent =
      let w1 = (get_cached_balance e u w).1 in
      let keyed1 : IsKeyed w1.db.balances =
        subst IsKeyed (sym (get_cached_balance-Quiet e u w).same_balances) keyed in
      elim (get_current-world u w) [
        | inl p ↦ subst IsCoherent (sym p) (get_cached_balance-IsCoherent u w coherent)
        | inr (inl p) ↦ subst IsCoherent (sym p) (
            current_from_database-IsCoherent u w1 keyed1
              (get_cached_balance-IsCoherent u w coherent))
        | inr (inr p) ↦
            subst IsCoherent (sym p) (current_from_database-IsCoherent u w keyed coherent)
      ]
