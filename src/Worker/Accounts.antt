-- ===== src/Worker/Accounts.antt =====
-- No job is lost and none is answered twice: what the pool holds and what it has settled add up to
-- what was submitted.
use insider_banking_project.Base.{
  ℕ, zero, suc, ◌+◌, ◌≡◌, refl, Bool, some, List, [], ◌∷◌, ◌++◌, if◌then◌else◌, arith,
}
use insider_banking_project.Repository.World.{World}
use insider_banking_project.Worker.Jobs.{TransactionJob, TransactionService, UuidText}
use insider_banking_project.Worker.Pool.{
  Phase, waiting, working, answering, exited, Worker, Entry, submitted, answered, timed_out, Shared,
  Pool, new_pool, new_workers, start, submit_job, receive, leave, reply, time_out, close_quit,
  finish_stop, Turn, receives, works, replies, times_out, leaves, Action, submits, starts, takes,
  closes_quit, finishes_stop, elsewhere, worker, work, turn, at, act, Reaches, start_here, and_then,
}

-- Jobs are counted by a test `P`.
module _ (P : TransactionJob → Bool) where
  abbrev pub one : TransactionJob → ℕ
  one j = if P j then 1 else 0

  abbrev pub queued : List TransactionJob → ℕ
  queued [] = 0
  queued (j ∷ js) = one j + queued js

  abbrev pub in_phase : Phase → ℕ
  in_phase waiting = 0
  in_phase (working j) = one j
  in_phase (answering j r) = one j
  in_phase exited = 0

  abbrev pub held : List Worker → ℕ
  held [] = 0
  held (v ∷ vs) = in_phase v.phase + held vs

  abbrev pub count_submitted : List Entry → ℕ
  count_submitted [] = 0
  count_submitted (submitted j ∷ xs) = one j + count_submitted xs
  count_submitted (_ ∷ xs) = count_submitted xs

  abbrev pub count_answered : List Entry → ℕ
  count_answered [] = 0
  count_answered (answered j r ∷ xs) = one j + count_answered xs
  count_answered (_ ∷ xs) = count_answered xs

  abbrev pub count_timed_out : List Entry → ℕ
  count_timed_out [] = 0
  count_timed_out (timed_out j ∷ xs) = one j + count_timed_out xs
  count_timed_out (_ ∷ xs) = count_timed_out xs

  -- What a worker and the shared state account for.
  abbrev pub settled : Shared → ℕ
  settled s = queued s.queue + count_answered s.log + count_timed_out s.log

  abbrev pub Balanced : List Worker → Shared → Type 0
  Balanced vs s = count_submitted s.log ≡ held vs + settled s

  queued-append : (js ks : List TransactionJob) → queued (js ++ ks) ≡ queued js + queued ks
  queued-append [] ks = omega arith
  queued-append (j ∷ js) ks = omega (arith, queued-append js ks)

  held-append : (vs us : List Worker) → held (vs ++ us) ≡ held vs + held us
  held-append [] us = omega arith
  held-append (v ∷ vs) us = omega (arith, held-append vs us)

  held-new_workers : (i n : ℕ) → held (new_workers i n) ≡ 0
  held-new_workers i zero = refl
  held-new_workers i (suc n) = omega (arith, held-new_workers (i + 1) n)

module _ (uuid : UuidText) (svc : TransactionService) (P : TransactionJob → Bool) where
  -- A turn moves a job between the queue, the worker and the log, and submits none.
  turn-settled :
      (t : Turn) (v : Worker) (s : Shared)
      → (in_phase P (turn uuid svc t v s).0.phase + settled P (turn uuid svc t v s).1
          ≡ in_phase P v.phase + settled P s)
        × (count_submitted P (turn uuid svc t v s).1.log ≡ count_submitted P s.log)
  unfolding turn receive work reply time_out leave
  turn-settled receives v s = ground arith
  turn-settled works v s = ground arith
  turn-settled replies v s = ground arith
  turn-settled times_out v s = ground arith
  turn-settled leaves v s = ground arith

  at-settled :
      (i : ℕ) (t : Turn) (vs : List Worker) (s : Shared)
      → (held P (at uuid svc i t vs s).0 + settled P (at uuid svc i t vs s).1
          ≡ held P vs + settled P s)
        × (count_submitted P (at uuid svc i t vs s).1.log ≡ count_submitted P s.log)
  unfolding at
  at-settled i t [] s = (refl, refl)
  at-settled zero t (v ∷ vs) s = let (a, b) = turn-settled t v s in (omega arith, b)
  at-settled (suc i) t (v ∷ vs) s = let (a, b) = at-settled i t vs s in (omega arith, b)

  submit_job-Balanced :
      (j : TransactionJob) (vs : List Worker) (s : Shared)
      → Balanced P vs s
      → Balanced P vs (submit_job j s)
  unfolding submit_job
  submit_job-Balanced j vs s h = ground (arith, queued-append P s.queue (j ∷ []))

  act-Balanced :
      (a : Action) (p q : Pool)
      → Balanced P p.workers p.shared
      → act uuid svc a p ≡ some q
      → Balanced P q.workers q.shared
  unfolding act start close_quit finish_stop
  act-Balanced (submits j) p q h e = ground (arith, submit_job-Balanced j p.workers p.shared h)
  act-Balanced (starts n) p q h e =
      ground (arith, held-append P p.workers (new_workers 0 n), held-new_workers P 0 n)
  act-Balanced (takes k) p q h e = ground arith
  act-Balanced closes_quit p q h e = ground arith
  act-Balanced finishes_stop p q h e = ground arith
  act-Balanced (elsewhere w) p q h e = ground arith
  act-Balanced (worker i t) p q h e = let (a, b) = at-settled i t p.workers p.shared in ground arith

  Reaches-Balanced :
      {p q : Pool}
      → Balanced P p.workers p.shared
      → Reaches uuid svc p q
      → Balanced P q.workers q.shared
  Reaches-Balanced h start_here = h
  Reaches-Balanced h (and_then {q = q} {r = r} a path e) =
      act-Balanced a q r (Reaches-Balanced h path) e

  new_pool-Balanced : (n : ℕ) (w : World) → Balanced P (new_pool n w).workers (new_pool n w).shared
  unfolding new_pool
  new_pool-Balanced n w = refl

  -- Whatever turns the clients, the workers and the owner of a new pool take, and whichever jobs
  -- are counted: the accepted submissions are those in the queue, those in a worker's hands, those
  -- answered and those whose answer timed out. So no job is lost, and none is answered twice.
  pub pool_accounts :
      {p : Pool} (n : ℕ) (w : World)
      → Reaches uuid svc (new_pool n w) p
      → count_submitted P p.shared.log
        ≡ held P p.workers
          + (queued P p.shared.queue
              + count_answered P p.shared.log
              + count_timed_out P p.shared.log)
  pool_accounts n w path = Reaches-Balanced (new_pool-Balanced n w) path
