-- ===== src/Breaker.antt =====
-- internal/utils/circuit_breaker.go: the circuit breaker, its two steps around a call, and the
-- registry.
use insider_banking_project.Base.{
  ℕ, ◌+◌, ◌-◌, ⊤, Bool, true, false, ◌&&◌, not, String, str_eq, Option, none, some, List, [], ◌∷◌,
  ◌==◌, leb, ltb, if◌then◌else◌,
}
use insider_banking_project.Base.Int.{max_int32, max_int64, increment, ℤ, pos, negsuc, leb_ℤ}
use insider_banking_project.Domain.Error.{Error}
mod Calls
mod Middleware
mod Soundness
mod Tests

-- `CircuitBreakerState`. Only these three values are ever stored.
pub data State : Type 0 where
  state_closed state_open state_half_open : State

-- `String`
abbrev pub state_name : State → String
state_name state_closed = "closed"
state_name state_open = "open"
state_name state_half_open = "half-open"

-- The numbers are Go's int32 and int64; times and durations count nanoseconds, and a time of
-- zero says that no call has failed yet.
pub record Breaker : Type 0 where
  pub name : String
  pub failure_threshold : ℤ
  pub reset_timeout : ℕ
  pub call_timeout : ℕ
  pub state : State
  pub failures : ℤ
  pub last_fail_time : ℕ
  pub total_requests : ℤ
  pub total_failures : ℤ
  pub total_successes : ℤ
  pub consecutive_successes : ℤ

pub record Config : Type 0 where
  pub name : String
  pub failure_threshold : ℤ
  pub reset_timeout : ℕ
  pub call_timeout : ℕ

-- `NewCircuitBreaker`
unfoldable pub new_circuit_breaker : Config → Breaker
new_circuit_breaker c = record {
  name = c.name;
  failure_threshold = c.failure_threshold;
  reset_timeout = c.reset_timeout;
  call_timeout = c.call_timeout;
  state = state_closed;
  failures = pos 0;
  last_fail_time = 0;
  total_requests = pos 0;
  total_failures = pos 0;
  total_successes = pos 0;
  consecutive_successes = pos 0;
}

-- `shouldAttemptReset`
unfoldable pub should_attempt_reset : ℕ → Breaker → Bool
should_attempt_reset now b =
    if b.last_fail_time == 0 then false else leb (b.last_fail_time + b.reset_timeout) now

abbrev pub set_state : State → Breaker → Breaker
set_state s b = record b { state = s }

abbrev pub can_execute_in : State → ℕ → Breaker → Bool × Breaker
can_execute_in state_closed now b = (true, b)
can_execute_in state_open now b =
    if should_attempt_reset now b then (true, set_state state_half_open b) else (false, b)
can_execute_in state_half_open now b = (true, b)

-- `canExecute`
unfoldable pub can_execute : ℕ → Breaker → Bool × Breaker
can_execute now b = can_execute_in b.state now b

-- `recordFailure`
unfoldable pub record_failure : ℕ → Breaker → Breaker
unfolding max_int32
record_failure now b =
    let b' = record b { failures = increment max_int32 b.failures; last_fail_time = now } in
    if leb_ℤ b'.failure_threshold b'.failures then set_state state_open b' else b'

abbrev pub record_success_in : State → Breaker → Breaker
record_success_in state_closed b = b
record_success_in state_open b = b
record_success_in state_half_open b = set_state state_closed (record b { failures = pos 0 })

-- `recordSuccess`
unfoldable pub record_success : Breaker → Breaker
record_success b = record_success_in b.state b

abbrev pub count_request : Breaker → Breaker
count_request b = record b { total_requests = increment max_int64 b.total_requests }

abbrev pub count_failure : Breaker → Breaker
count_failure b = record b {
  total_failures = increment max_int64 b.total_failures;
  consecutive_successes = pos 0;
}

abbrev pub count_success : Breaker → Breaker
count_success b = record b {
  total_successes = increment max_int64 b.total_successes;
  consecutive_successes = increment max_int32 b.consecutive_successes;
}

-- The part of `Call` after the function has returned, at the time `now`: `none` is success.
unfoldable pub finish : Option Error → ℕ → Breaker → Breaker
finish none now b = count_success (record_success (count_request b))
finish (some e) now b = count_failure (record_failure now (count_request b))

-- What `Call` returns.
pub data Outcome : Type 0 where
  -- "circuit breaker is open", with the state
  refused : State → Outcome
  returned : Option Error → Outcome

-- `Call` without a second call between its two steps: entered at one time, and the function
-- returning `result` at another.
unfoldable pub call : ℕ → Option Error → ℕ → Breaker → Outcome × Breaker
call entered result left b =
    let (allowed, b') = can_execute entered b in
    if allowed then (returned result, finish result left b') else (refused b'.state, b')

-- `CircuitBreakerRegistry`: the breakers by name.
abbrev pub Registry : Type 0
Registry = List (String × Breaker)

-- `GetBreaker`
unfoldable pub get_breaker : String → Registry → Option Breaker
get_breaker name [] = none
get_breaker name ((n, b) ∷ r) = if str_eq name n then some b else get_breaker name r

abbrev pub create_in : Option Breaker → String → Config → Registry → Breaker × Registry
create_in (some b) name config r = (b, r)
create_in none name config r = (new_circuit_breaker config, (name, new_circuit_breaker config) ∷ r)

-- `GetOrCreate`
unfoldable pub get_or_create : String → Config → Registry → Breaker × Registry
get_or_create name config r = create_in (get_breaker name r) name config r
