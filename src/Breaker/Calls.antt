-- ===== src/Breaker/Calls.antt =====
-- What one call through the breaker does, and when the breaker opens.
use insider_banking_project.Base.{
  ℕ, suc, length, ◌==◌, ◌+◌, ◌≤◌, ◌<◌, ◌≡◌, ◌≢◌, ◌⊎◌, ◌↔◌, inl, inr, refl, true, Option, none, some,
  List, [], ◌∷◌, arith, if◌then◌else◌, String, Option-cases, eq_iff,
}
use insider_banking_project.Base.Int.{increment, max_int32, pos, leb_ℤ}
use insider_banking_project.Domain.Error.{Error}
use insider_banking_project.Breaker.{
  State, state_closed, state_open, Breaker, Config, refused, call, can_execute,
  should_attempt_reset, finish, new_circuit_breaker, record_failure, record_success, Registry,
  get_breaker, get_or_create,
}

-- A call is refused exactly when the breaker is open and its reset time-out, counted from the
-- last failure, has not passed; a refused call leaves the breaker as it is.
pub call-refused :
    (entered : ℕ) (result : Option Error) (left : ℕ) (b : Breaker)
    → (((s : State) × ((call entered result left b).0 ≡ refused s)) ↔ (
        (b.state ≡ state_open)
        × ((b.last_fail_time ≡ 0) ⊎ (entered < b.last_fail_time + b.reset_timeout))))
      × ((s : State)
          → (call entered result left b).0 ≡ refused s
          → (call entered result left b).1 ≡ b)
unfolding call can_execute should_attempt_reset
call-refused entered result left b = (
  (λ (s, h). (ground arith, ground arith), λ (h, why). (state_open, ground arith)),
  λ s h. ground arith,
)

-- The call that a breaker lets through after the reset time-out decides: its success closes the
-- breaker with no failures counted, and its failure opens it again from that time on, if the
-- threshold had been reached and the count is below the greatest int32.
pub call_after_timeout :
    (entered left f : ℕ) (e : Error) (b : Breaker)
    → b.state ≡ state_open
    → b.last_fail_time ≢ 0
    → b.last_fail_time + b.reset_timeout ≤ entered
    → b.failures ≡ pos f
    → f < 2147483647
    → leb_ℤ b.failure_threshold (pos f) ≡ true
    → ((call entered none left b).1.state ≡ state_closed)
      × ((call entered none left b).1.failures ≡ pos 0)
      × ((call entered (some e) left b).1.state ≡ state_open)
      × ((call entered (some e) left b).1.last_fail_time ≡ left)
unfolding call can_execute should_attempt_reset finish record_failure record_success increment
    max_int32
call_after_timeout entered left f e b opened failed late count small reached =
    (ground arith, ground arith, ground arith, ground arith)

-- Calls whose functions all fail, one after the other: when each was entered, its error, and when
-- its function returned.
unfoldable pub fail_all : List (ℕ × Error × ℕ) → Breaker → Breaker
fail_all [] b = b
fail_all ((entered, e, left) ∷ cs) b = fail_all cs (call entered (some e) left b).1

-- One more failure of a closed breaker.
pub fail_once :
    (entered left f k : ℕ) (e : Error) (b : Breaker)
    → b.state ≡ state_closed
    → b.failures ≡ pos f
    → b.failure_threshold ≡ pos k
    → f < k
    → k ≤ 2147483647
    → ((call entered (some e) left b).1.state ≡ (if suc f == k then state_open else state_closed))
      × ((call entered (some e) left b).1.failures ≡ pos (suc f))
      × ((call entered (some e) left b).1.failure_threshold ≡ pos k)
unfolding call can_execute finish record_failure increment max_int32
fail_once entered left f k e b p q r low small = (ground arith, ground arith, ground arith)

fail_all_from :
    (cs : List (ℕ × Error × ℕ)) (f k : ℕ) (b : Breaker)
    → b.state ≡ (if f == k then state_open else state_closed)
    → b.failures ≡ pos f
    → b.failure_threshold ≡ pos k
    → f + length cs ≤ k
    → k ≤ 2147483647
    → (fail_all cs b).state ≡ (if f + length cs == k then state_open else state_closed)
unfolding fail_all
fail_all_from [] f k b p q r low small = ground arith
fail_all_from ((entered, e, left) ∷ cs) f k b p q r low small =
    let (p', q', r') = fail_once entered left f k e b (ground arith) q r (omega arith) small in
    ground (
      arith,
      fail_all_from cs (suc f) k (call entered (some e) left b).1 p' q' r' (omega arith) small,
    )

-- A new breaker whose threshold is k, from 1 to the greatest int32, is closed while fewer than k
-- calls have failed one after the other, and open when k have.
pub fail_all_opens :
    (c : Config) (k : ℕ) (cs : List (ℕ × Error × ℕ))
    → c.failure_threshold ≡ pos k
    → 1 ≤ k
    → k ≤ 2147483647
    → length cs ≤ k
    → (fail_all cs (new_circuit_breaker c)).state
      ≡ (if length cs == k then state_open else state_closed)
unfolding new_circuit_breaker
fail_all_opens c k cs t positive small low =
    ground (
      arith,
      fail_all_from cs 0 k (new_circuit_breaker c) (ground arith) refl t (omega arith) small,
    )

-- `GetOrCreate` gives the breaker that `GetBreaker` finds afterwards, and a later call with the
-- same name and any other configuration gives it again and leaves the registry as it is.
pub get_or_create_again :
    (name : String) (c d : Config) (r : Registry)
    → (get_breaker name (get_or_create name c r).1 ≡ some (get_or_create name c r).0)
      × (get_or_create name d (get_or_create name c r).1 ≡ get_or_create name c r)
unfolding get_or_create get_breaker
get_or_create_again name c d r = elim (Option-cases (get_breaker name r)) [
  | inl new ↦ (ground (arith, eq_iff name name), ground (arith, eq_iff name name))
  | inr (b, old) ↦ (ground arith, ground arith)
]
