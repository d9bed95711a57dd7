-- ===== src/Http/Tests.antt =====
-- Headers that are refused and let through, and clients of the rate limit.
use insider_banking_project.Base.{ℕ, ◌≡◌, ◌⊎◌, refl, String, none, some, [], ◌∷◌, length, arith}
use insider_banking_project.Domain.Error.{plain}
use insider_banking_project.Auth.Tokens.{Claims}
use insider_banking_project.Auth.Samples.{manager}
use insider_banking_project.Http.Authentication.{
  passes, unauthorized, auth_middleware, optional_auth_middleware, require_user,
}
use insider_banking_project.Http.Bearer.{Brings, auth_middleware_sound}
use insider_banking_project.Http.RateLimit.{Hit, serve, rate_limit, check_rate_limit}
use insider_banking_project.Http.Limits.{at_most, rate_limit_exact, rate_limit_locks_out}

auth_middleware_sound_example :
    ((c : Claims) × (auth_middleware manager 9 "Bearer abc" ≡ passes (some c))
      × Brings manager 9 "Bearer abc" c
      × (optional_auth_middleware manager 9 "Bearer abc" ≡ passes (some c)))
    ⊎ ((message : String) × (auth_middleware manager 9 "Bearer abc" ≡ unauthorized message)
        × (optional_auth_middleware manager 9 "Bearer abc" ≡ passes none)
        × (require_user none ≡ unauthorized "authentication required"))
auth_middleware_sound_example = auth_middleware_sound manager 9 "Bearer abc"

abbrev at_time : ℕ → Hit
at_time t = record { now = t; incr_error = none; expire_error = none }

rate_limit_exact_example :
    (serve 2 60 (at_time 5 ∷ at_time 6 ∷ at_time 64 ∷ []) none).0
    ≡ at_most 2 (length (at_time 5 ∷ at_time 6 ∷ at_time 64 ∷ []))
rate_limit_exact_example =
    rate_limit_exact 2 60 (at_time 5) (at_time 6 ∷ at_time 64 ∷ [])
      (refl, refl, omega arith, (refl, refl, omega arith, (refl, refl, omega arith, tt)))

-- The first request counts, but its `Expire` fails.
abbrev unlucky : Hit
unlucky = record { now = 5; incr_error = none; expire_error = some (plain "connection lost") }

no_expiry : (serve 1 60 (unlucky ∷ []) none).1 ≡ some (record { count = 1; expires_at = none })
unfolding serve rate_limit check_rate_limit
no_expiry = refl

rate_limit_locks_out_example :
    (serve 1 60
      (at_time 100 ∷ at_time 1000000 ∷ [])
      (some (record { count = 1; expires_at = none }))).0
    ≡ 0
rate_limit_locks_out_example =
    rate_limit_locks_out 1 60 (at_time 100 ∷ at_time 1000000 ∷ []) 1 (refl, (refl, tt))
      (omega arith) (omega arith)
