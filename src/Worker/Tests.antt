-- ===== src/Worker/Tests.antt =====
-- A pool of one worker on the small bank: one job is submitted, taken, done and answered.
use insider_banking_project.Base.{
  ℕ, zero, suc, ◌+◌, ◌≡◌, refl, Bool, true, false, String, none, some, [], ◌∷◌, arith,
}
use insider_banking_project.Base.Int.{pos}
use insider_banking_project.Base.Dict.{lookup}
use insider_banking_project.Domain.Transaction.{CreditRequest}
use insider_banking_project.Repository.World.{ok}
use insider_banking_project.Service.Tests.{calm, service, world}
use insider_banking_project.Worker.Jobs.{
  TransactionJob, TransactionService, UuidText, adapter, process_job, job_type_credit,
}
use insider_banking_project.Worker.Results.{crediting, perform, reported, process_job-performs}
use insider_banking_project.Worker.Pool.{
  Pool, Worker, Turn, receives, works, replies, submits, starts, closes_quit, finishes_stop, worker,
  new_pool, start, submit_job, at, act, close_quit, finish_stop, Reaches, start_here, and_then,
  waiting,
}
use insider_banking_project.Worker.Accounts.{
  count_submitted, held, queued, count_answered, count_timed_out, pool_accounts,
}
use insider_banking_project.Worker.Answers.{SoundPool, pool_answers}
use insider_banking_project.Worker.Shutdown.{IsRunning, pool_never_stops}
use insider_banking_project.Worker.Draining.{Serves, Drained, pool_drains}

abbrev unary : ℕ → String
unary zero = String.[]
unary (suc n) = String.◌∷◌ "u" (unary n)

abbrev units : String → ℕ
units String.[] = zero
units (String.◌∷◌ c s) = suc (units s)

abbrev text : UuidText
text = record { print = unary; parse = λ s. ok (units s) }

units-unary : (n : ℕ) → units (unary n) ≡ n
units-unary zero = refl
units-unary (suc n) = ground (arith, units-unary n)

text_parses : (n : ℕ) → text.parse (text.print n) ≡ ok n
text_parses n = ground (arith, units-unary n)

abbrev svc : TransactionService
svc = adapter text calm service

abbrev request : CreditRequest
request = record { amount = pos 250; currency = "USD" }

abbrev job : TransactionJob
job = record {
  id = 7;
  type = job_type_credit;
  user_id = 1;
  from_user_id = none;
  to_user_id = none;
  amount = pos 250;
  original_tx_id = none;
  credit_request = some request;
  debit_request = none;
  transfer_request = none;
  response_chan = 40;
}

process_job-performs_example : process_job text (adapter text calm service) job world ≡ (
  reported text calm service job (perform text calm service (crediting 1 request) world).0,
  (perform text calm service (crediting 1 request) world).1,
)
process_job-performs_example =
    process_job-performs text calm service (crediting 1 request) job world text_parses
      (refl, refl, refl)

-- The pool before and after each turn
abbrev empty_pool : Pool
empty_pool = new_pool 2 world

abbrev started : Pool
started = start 1 empty_pool

abbrev loaded : Pool
loaded = record started { shared = submit_job job started.shared }

abbrev turned : Turn → Pool → Pool
turned t p =
    let (vs, s) = at text svc 0 t p.workers p.shared in record p { workers = vs; shared = s }

abbrev answered_pool : Pool
answered_pool = turned replies (turned works (turned receives loaded))

abbrev all_jobs : TransactionJob → Bool
all_jobs j = true

history : Reaches text svc empty_pool answered_pool
unfolding act
history =
    and_then (worker 0 replies)
      (and_then (worker 0 works)
        (and_then (worker 0 receives)
          (and_then {r = loaded} (submits job) (and_then {r = started} (starts 1) start_here refl)
            refl)
          refl)
        refl)
      refl

pool_accounts_example :
    count_submitted all_jobs answered_pool.shared.log
    ≡ held all_jobs answered_pool.workers
      + (queued all_jobs answered_pool.shared.queue
          + count_answered all_jobs answered_pool.shared.log
          + count_timed_out all_jobs answered_pool.shared.log)
pool_accounts_example = pool_accounts text svc all_jobs 2 world history

pool_answers_example : SoundPool text svc answered_pool
pool_answers_example = pool_answers text svc 2 world history

abbrev stopping : Pool
stopping = finish_stop (record started { shared = record (started.shared) { quit_closed = true } })

stopping_history : Reaches text svc (start 1 (new_pool 2 world)) stopping
unfolding act close_quit start new_pool
stopping_history = and_then finishes_stop (and_then closes_quit start_here refl) refl

pool_never_stops_example : IsRunning text svc stopping
pool_never_stops_example = pool_never_stops text svc 1 2 world (omega arith) stopping_history

abbrev first_worker : Worker
first_worker = record { id = 1; stopped = false; phase = waiting }

loaded_worker : loaded.workers ≡ first_worker ∷ []
unfolding start new_pool
loaded_worker = refl

loaded_queue : loaded.shared.queue ≡ job ∷ []
unfolding start new_pool submit_job
loaded_queue = refl

loaded_responses : lookup 40 loaded.shared.responses ≡ none
unfolding start new_pool submit_job lookup
loaded_responses = refl

pool_drains_example : (q : Pool) × Serves text svc loaded q × Drained text svc loaded q
pool_drains_example =
    pool_drains text svc (job ∷ []) loaded first_worker [] loaded_worker refl loaded_queue
      (loaded_responses, tt, tt)
