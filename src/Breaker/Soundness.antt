-- ===== src/Breaker/Soundness.antt =====
-- The breaker under calls that run one after the other: its state and its count of failures agree.
use insider_banking_project.Base.{
  ℕ, suc, ◌+◌, ◌≤◌, ◌<◌, ◌≡◌, ◌⊎◌, inl, inr, refl, Bool, true, false, Bool-cases, Option, none,
  some, List, [], ◌∷◌, arith, length,
}
use insider_banking_project.Base.Int.{increment, max_int32, pos, leb_ℤ, ◌≤ℤ◌}
use insider_banking_project.Domain.Error.{Error}
use insider_banking_project.Breaker.{
  call, State, state_closed, state_open, state_half_open, Breaker, Config, can_execute,
  should_attempt_reset, finish, new_circuit_breaker, record_failure, record_success,
}

-- One of the two halves of a call: before its function runs, or after.
data Step : Type 0 where
  entering : ℕ → Step
  leaving : Option Error → ℕ → Step

abbrev take_step : Step → Breaker → Breaker
take_step (entering now) b = (can_execute now b).1
take_step (leaving result now) b = finish result now b

abbrev pub is_tripped : State → Bool
is_tripped state_closed = false
is_tripped state_open = true
is_tripped state_half_open = true

-- The breaker is closed exactly while the failures it has counted are below its threshold.
abbrev pub IsSound : Breaker → Type 0
IsSound b = leb_ℤ b.failure_threshold b.failures ≡ is_tripped b.state

-- What each step keeps: the threshold, and the relation above while the count does not overflow.
pub data Kept (n : ℕ) (b : Breaker) : Type 0 where
  kept : (f : ℕ) → b.failures ≡ pos f → f ≤ n → pos 1 ≤ℤ b.failure_threshold → IsSound b → Kept n b

State-cases : (s : State) → (s ≡ state_half_open) ⊎ (s ≡ state_closed) ⊎ (s ≡ state_open)
State-cases state_half_open = inl refl
State-cases state_closed = inr (inl refl)
State-cases state_open = inr (inr refl)

entering-Kept : (now n : ℕ) (b : Breaker) → Kept n b → Kept n (can_execute now b).1
unfolding can_execute
entering-Kept now n b (kept f p low t sound) = elim (Bool-cases (should_attempt_reset now b)) [
  | inl late ↦ kept f (ground arith) low (ground arith) (ground arith)
  | inr early ↦ kept f (ground arith) low (ground arith) (ground arith)
]

leaving_ok-Kept : (now n : ℕ) (b : Breaker) → Kept n b → Kept n (finish none now b)
unfolding finish record_success
leaving_ok-Kept now n b (kept f p low t sound) = elim (State-cases b.state) [
  | inl h ↦ kept 0 (ground arith) (ground arith) (ground arith) (ground arith)
  | inr (inl h) ↦ kept f (ground arith) low (ground arith) (ground arith)
  | inr (inr h) ↦ kept f (ground arith) low (ground arith) (ground arith)
]

leaving_err-Kept :
    (e : Error) (now n : ℕ) (b : Breaker)
    → n < 2147483647
    → Kept n b
    → Kept (suc n) (finish (some e) now b)
unfolding finish record_failure increment max_int32
leaving_err-Kept e now n b small (kept f p low t sound) =
    kept (suc f) (ground arith) (ground arith) (ground arith) (ground arith)

Kept-suc : {n : ℕ} {b : Breaker} → Kept n b → Kept (suc n) b
Kept-suc (kept f p low t sound) = kept f p (omega arith) t sound

take_step-Kept :
    (s : Step) (n : ℕ) (b : Breaker) → n < 2147483647 → Kept n b → Kept (suc n) (take_step s b)
take_step-Kept (entering now) n b small h = Kept-suc (entering-Kept now n b h)
take_step-Kept (leaving none now) n b small h = Kept-suc (leaving_ok-Kept now n b h)
take_step-Kept (leaving (some e) now) n b small h = leaving_err-Kept e now n b small h

Kept-IsSound : {n : ℕ} {b : Breaker} → Kept n b → IsSound b
Kept-IsSound (kept f p low t sound) = sound

call-Kept :
    (entered left n : ℕ) (result : Option Error) (b : Breaker)
    → n < 2147483647
    → Kept n b
    → Kept (suc n) (call entered result left b).1
unfolding call
call-Kept entered left n result b small h = elim (Bool-cases (can_execute entered b).0) [
  | inr stopped ↦ rw stopped (Kept-suc (entering-Kept entered n b h))
  | inl let_in ↦ rw let_in (
      take_step-Kept (leaving result left) n (can_execute entered b).1 small
        (entering-Kept entered n b h))
]

-- Calls, one after the other: when each was entered, what its function returned, and when.
unfoldable pub run_calls : List (ℕ × Option Error × ℕ) → Breaker → Breaker
run_calls [] b = b
run_calls ((entered, result, left) ∷ cs) b = run_calls cs (call entered result left b).1

run_calls-from_IsSound :
    (cs : List (ℕ × Option Error × ℕ)) (n : ℕ) (b : Breaker)
    → n + length cs ≤ 2147483647
    → Kept n b
    → IsSound (run_calls cs b)
unfolding run_calls
run_calls-from_IsSound [] n b small h = Kept-IsSound h
run_calls-from_IsSound ((entered, result, left) ∷ cs) n b small h =
    run_calls-from_IsSound cs (suc n) (call entered result left b).1 (omega arith)
      (call-Kept entered left n result b (omega arith) h)

-- From a new breaker with a threshold of at least one, after any calls that run one after the other,
-- up to 2147483647 of them, whatever their functions return and at whatever times, the breaker is
-- closed exactly when the failures that it has counted are below its threshold.
pub run_calls-IsSound :
    (c : Config) (cs : List (ℕ × Option Error × ℕ))
    → pos 1 ≤ℤ c.failure_threshold
    → length cs ≤ 2147483647
    → IsSound (run_calls cs (new_circuit_breaker c))
unfolding new_circuit_breaker
run_calls-IsSound c cs t small =
    run_calls-from_IsSound cs 0 (new_circuit_breaker c) (omega arith)
      (kept 0 refl (omega arith) t (ground arith))
