-- ===== src/Breaker/Tests.antt =====
-- A breaker that opens after two failures and waits for ten units of time.
use insider_banking_project.Base.{◌≡◌, ◌≢◌, refl, none, some, List, [], ◌∷◌, arith}
use insider_banking_project.Base.Int.{pos}
use insider_banking_project.Domain.Error.{Error, plain}
use insider_banking_project.Breaker.{state_open, Breaker, Config, new_circuit_breaker}
use insider_banking_project.Breaker.Middleware.{
  Request, handle_all, all_failed, all_unavailable, failures_lock_forever,
}
use insider_banking_project.Breaker.Soundness.{run_calls, IsSound, run_calls-IsSound}

abbrev config : Config
config = record { name = "mail"; failure_threshold = pos 2; reset_timeout = 10; call_timeout = 5 }

abbrev failure : Error
failure = plain "upstream service error"

abbrev opened : Breaker
opened = record {
  name = "mail";
  failure_threshold = pos 2;
  reset_timeout = 10;
  call_timeout = 5;
  state = state_open;
  failures = pos 2;
  last_fail_time = 100;
  total_requests = pos 2;
  total_failures = pos 2;
  total_successes = pos 0;
  consecutive_successes = pos 0;
}

hundred_is_positive : opened.last_fail_time ≢ 0
hundred_is_positive h = absurd (omega arith)

abbrev later_requests : List Request
later_requests =
    record { entered = 105; status = 200; left = 106 }
    ∷ record { entered = 100000; status = 200; left = 100001 }
    ∷ []

abbrev failing : List Request
failing =
    record { entered = 1; status = 500; left = 2 }
    ∷ record { entered = 3; status = 503; left = 4 }
    ∷ []

failures_lock_forever_example :
    ((handle_all failing (new_circuit_breaker config)).0 ≡ all_failed failing)
    × ((handle_all later_requests (handle_all failing (new_circuit_breaker config)).1).0
        ≡ all_unavailable later_requests)
failures_lock_forever_example =
    failures_lock_forever config 2 failing later_requests refl (omega arith) (omega arith) refl
      (refl, (refl, tt))

run_calls-IsSound_example : IsSound (
    run_calls
      ((1, some failure, 2) ∷ (3, none, 4) ∷ (5, some failure, 6) ∷ [])
      (new_circuit_breaker config))
run_calls-IsSound_example =
    run_calls-IsSound config ((1, some failure, 2) ∷ (3, none, 4) ∷ (5, some failure, 6) ∷ [])
      (omega arith) (omega arith)
