-- ===== src/Http/RateLimit.antt =====
-- internal/api/middleware/rate_limit.go over `CheckRateLimit` of internal/service/cache.go: one
-- client's counter in Redis. `Incr` starts a key that is missing or has expired at one, without an
-- expiry; `Expire` gives it one.
use insider_banking_project.Base.{
  ℕ, ◌+◌, Bool, true, false, Option, none, some, List, [], ◌∷◌, ◌==◌, leb, if◌then◌else◌,
}
use insider_banking_project.Domain.Error.{Error}
use insider_banking_project.Repository.World.{Result, ok, err}

pub record Counter : Type 0 where
  pub count : ℕ
  pub expires_at : Option ℕ

-- A request: its time, and the errors that the two commands meet.
pub record Hit : Type 0 where
  pub now : ℕ
  pub incr_error : Option Error
  pub expire_error : Option Error

abbrev pub has_expired : ℕ → Option ℕ → Bool
has_expired now none = false
has_expired now (some t) = leb t now

-- What Redis has of the key at a time.
abbrev pub live : ℕ → Option Counter → Option Counter
live now none = none
live now (some c) = if has_expired now c.expires_at then none else some c

abbrev pub incr : Option Counter → Counter
incr none = record { count = 1; expires_at = none }
incr (some c) = record c { count = c.count + 1 }

abbrev pub expire : ℕ → ℕ → Counter → Counter
expire now window c = record c { expires_at = some (now + window) }

module _ (max_requests window : ℕ) where
  -- After `Incr`
  abbrev pub counted : Hit → Counter → Result Bool × Option Counter
  counted q c =
      if c.count == 1
      then elim q.expire_error [
        | some x ↦ (err x, some c)
        | none ↦ (ok (leb c.count max_requests), some (expire q.now window c))
      ]
      else (ok (leb c.count max_requests), some c)

  -- `CheckRateLimit`
  unfoldable pub check_rate_limit : Hit → Option Counter → Result Bool × Option Counter
  check_rate_limit q c = elim q.incr_error [
    | some x ↦ (err x, live q.now c)
    | none ↦ counted q (incr (live q.now c))
  ]

  -- An error lets the request through.
  abbrev pub lets_through : Result Bool → Bool
  lets_through (ok allowed) = allowed
  lets_through (err x) = true

  -- `RateLimitMiddleware` with a cache: whether the next handler runs, or the client gets 429.
  unfoldable pub rate_limit : Hit → Option Counter → Bool × Option Counter
  unfolding check_rate_limit
  rate_limit q c = let (r, c') = check_rate_limit q c in (lets_through r, c')

  -- How many of one client's requests are let through, and what is left of the counter.
  unfoldable pub serve : List Hit → Option Counter → ℕ × Option Counter
  unfolding rate_limit
  serve [] c = (0, c)
  serve (q ∷ qs) c =
      let (passed, c') = rate_limit q c in
      let (n, c'') = serve qs c' in ((if passed then n + 1 else n), c'')
