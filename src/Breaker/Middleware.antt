-- ===== src/Breaker/Middleware.antt =====
-- internal/api/middleware/circuit_breaker.go: the breaker in front of an HTTP handler.
use insider_banking_project.Base.{
  ℕ, suc, ⊤, ◌+◌, ◌≤◌, ◌==◌, length, true, ap, ◌≡◌, refl, Option, none, some, List, [], ◌∷◌, arith,
  leb, if◌then◌else◌,
}
use insider_banking_project.Domain.Error.{Error, plain}
use insider_banking_project.Breaker.{
  State, state_closed, state_open, state_half_open, Breaker, Outcome, refused, returned, call,
  can_execute, Config, new_circuit_breaker,
}
use insider_banking_project.Base.Int.{pos}
use insider_banking_project.Breaker.Calls.{fail_once}

-- What the client gets: an error page alone, the handler's response, or the handler's response
-- with the error page after it.
pub data Response : Type 0 where
  unavailable : Response
  served : ℕ → Response
  failed : ℕ → Response

-- A request: when it comes, the status that the handler writes, and when the handler is done.
pub record Request : Type 0 where
  pub entered : ℕ
  pub status : ℕ
  pub left : ℕ

-- A status from 500 is a failure of the call.
abbrev pub upstream_error : ℕ → Option Error
upstream_error status = if leb 500 status then some (plain "upstream service error") else none

abbrev pub respond : ℕ → Outcome → Response
respond status (refused s) = unavailable
respond status (returned (some e)) = failed status
respond status (returned none) = served status

abbrev pub pass : Request → Breaker → Response × Breaker
pass r b =
    let (outcome, b') = call r.entered (upstream_error r.status) r.left b in
    (respond r.status outcome, b')

abbrev pub handle_in : State → Request → Breaker → Response × Breaker
handle_in state_closed r b = pass r b
handle_in state_open r b = (unavailable, b)
handle_in state_half_open r b = pass r b

-- `CircuitBreakerMiddleware`
unfoldable pub handle : Request → Breaker → Response × Breaker
handle r b = handle_in b.state r b

-- One request after the other.
unfoldable pub handle_all : List Request → Breaker → List Response × Breaker
handle_all [] b = ([], b)
handle_all (r ∷ rs) b =
    let (response, b') = handle r b in
    let (responses, b'') = handle_all rs b' in (response ∷ responses, b'')

abbrev pub all_unavailable : List Request → List Response
all_unavailable [] = []
all_unavailable (r ∷ rs) = unavailable ∷ all_unavailable rs

-- Once the breaker is open, the middleware answers every later request with "unavailable", at
-- whatever time it comes, and the breaker stays as it is: the reset time-out never takes effect.
handle_all_open :
    (rs : List Request) (b : Breaker)
    → b.state ≡ state_open
    → handle_all rs b ≡ (all_unavailable rs, b)
unfolding handle_all handle
handle_all_open [] b h = refl
handle_all_open (r ∷ rs) b h = ground (arith, handle_all_open rs b h)

-- Every handler of these requests fails.
abbrev pub AllFail : List Request → Type 0
AllFail [] = ⊤
AllFail (r ∷ rs) = (leb 500 r.status ≡ true) × AllFail rs

abbrev pub all_failed : List Request → List Response
all_failed [] = []
all_failed (r ∷ rs) = failed r.status ∷ all_failed rs

handle_closed :
    (r : Request) (b : Breaker)
    → b.state ≡ state_closed
    → leb 500 r.status ≡ true
    → handle r b
      ≡ (failed r.status, (call r.entered (some (plain "upstream service error")) r.left b).1)
unfolding handle call can_execute
handle_closed r b p q = ground arith

handle_all_fail :
    (rs : List Request) (f k : ℕ) (b : Breaker)
    → AllFail rs
    → b.state ≡ (if f == k then state_open else state_closed)
    → b.failures ≡ pos f
    → b.failure_threshold ≡ pos k
    → f + length rs ≤ k
    → k ≤ 2147483647
    → ((handle_all rs b).0 ≡ all_failed rs)
      × ((handle_all rs b).1.state ≡ (if f + length rs == k then state_open else state_closed))
unfolding handle_all
handle_all_fail [] f k b fails p q r low small = (refl, ground arith)
handle_all_fail (x ∷ xs) f k b (fail, fails) p q r low small =
    let closed : b.state ≡ state_closed = ground arith in
    let b' : Breaker = (call x.entered (some (plain "upstream service error")) x.left b).1 in
    let (p', q', r') =
      fail_once x.entered x.left f k (plain "upstream service error") b closed q r (omega arith)
        small in
    let (said, state) = handle_all_fail xs (suc f) k b' fails p' q' r' (omega arith) small in
    let step = handle_closed x b closed fail in
    (rw step (ap (λ z. failed x.status ∷ z) said), rw step (ground (arith, state)))

-- After as many failing requests as the threshold of a new breaker, from 1 to the greatest int32,
-- each of which gets its handler's response, the middleware answers every later request with
-- "unavailable", at whatever time it comes: the reset time-out never takes effect. The requests are
-- handled one after the other.
pub failures_lock_forever :
    (c : Config) (k : ℕ) (fs rs : List Request)
    → c.failure_threshold ≡ pos k
    → 1 ≤ k
    → k ≤ 2147483647
    → length fs ≡ k
    → AllFail fs
    → ((handle_all fs (new_circuit_breaker c)).0 ≡ all_failed fs)
      × ((handle_all rs (handle_all fs (new_circuit_breaker c)).1).0 ≡ all_unavailable rs)
unfolding new_circuit_breaker
failures_lock_forever c k fs rs t positive small size fails =
    let (said, state) =
      handle_all_fail fs 0 k (new_circuit_breaker c) fails (ground arith) refl t (omega arith)
        small in
    (
      said,
      ap (λ z. z.0) (handle_all_open rs (handle_all fs (new_circuit_breaker c)).1 (ground arith)),
    )
