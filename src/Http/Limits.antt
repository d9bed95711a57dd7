-- ===== src/Http/Limits.antt =====
-- How many requests the rate limit lets through.
use insider_banking_project.Base.{
  ℕ, ⊤, ◌+◌, ◌≤◌, ◌<◌, ◌≡◌, refl, none, some, List, [], ◌∷◌, length, arith, leb, if◌then◌else◌,
}
use insider_banking_project.Http.RateLimit.{Hit, check_rate_limit, rate_limit, serve}

-- Redis answers, and the request comes before a time.
abbrev pub Before : ℕ → List Hit → Type 0
Before t [] = ⊤
Before t (q ∷ qs) = (q.incr_error ≡ none) × (q.expire_error ≡ none) × (q.now < t) × Before t qs

abbrev pub Answered : List Hit → Type 0
Answered [] = ⊤
Answered (q ∷ qs) = (q.incr_error ≡ none) × Answered qs

-- The lesser of two numbers.
abbrev pub at_most : ℕ → ℕ → ℕ
at_most max n = if leb n max then n else max

module _ (max_requests window : ℕ) where
  -- Once the counter has started, each request takes one of what is left.
  serve_count :
      (qs : List Hit) (n t : ℕ)
      → Before t qs
      → 0 < n
      → (serve max_requests window qs (some (record { count = n; expires_at = some t }))).0
          + at_most max_requests n
        ≡ at_most max_requests (n + length qs)
  unfolding serve rate_limit check_rate_limit
  serve_count [] n t h k = ground arith
  serve_count (q ∷ qs) n t (a, b, c, h) k = ground (arith, serve_count qs (n + 1) t h)

  -- Of the requests that a client sends from its first one on, before the window of that one ends,
  -- and while Redis answers, the limit lets exactly the allowed number through, or all if there are
  -- no more than that.
  pub rate_limit_exact :
      (q : Hit) (qs : List Hit)
      → Before (q.now + window) (q ∷ qs)
      → (serve max_requests window (q ∷ qs) none).0 ≡ at_most max_requests (length (q ∷ qs))
  unfolding serve rate_limit check_rate_limit
  rate_limit_exact q qs (a, b, c, h) = ground (arith, serve_count qs 1 (q.now + window) h)

  -- A counter that has no expiry, and is at the limit, lets nothing through any more, however late
  -- the requests come, as long as Redis answers.
  pub rate_limit_locks_out :
      (qs : List Hit) (n : ℕ)
      → Answered qs
      → 0 < n
      → max_requests ≤ n
      → (serve max_requests window qs (some (record { count = n; expires_at = none }))).0 ≡ 0
  unfolding serve rate_limit check_rate_limit
  rate_limit_locks_out [] n h k full = refl
  rate_limit_locks_out (q ∷ qs) n (a, h) k full = ground (arith, rate_limit_locks_out qs (n + 1) h)
