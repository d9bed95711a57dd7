-- ===== src/Worker/Pool.antt =====
-- internal/worker/pool.go: the pool as a machine whose workers, clients and owner take turns. A
-- goroutine that blocks is one whose turn changes nothing. The queue is a buffered channel, each
-- job's response channel has room for one result, and `log` has what the code logs of each job.
-- The pool's lock only forbids turns.
use insider_banking_project.Base.{
  ℕ, ◌≡◌, zero, suc, ◌+◌, ◌%◌, ◌^◌, Bool, true, false, ◌&&◌, Option, none, some, List, [], ◌∷◌,
  ◌++◌, if◌then◌else◌, ltb, length,
}
use insider_banking_project.Base.Dict.{Dict, lookup, insert, erase}
use insider_banking_project.Domain.Error.{plain}
use insider_banking_project.Repository.World.{World}
use insider_banking_project.Worker.Jobs.{
  TransactionJob, TransactionJobResult, TransactionService, UuidText, process_job, to_result,
}

-- Where a worker's loop stands.
pub data Phase : Type 0 where
  -- in the select of `start`
  waiting : Phase
  working : TransactionJob → Phase
  -- in the select at the end of `processJob`
  answering : TransactionJob → TransactionJobResult → Phase
  exited : Phase

-- `stopped` says whether the worker's own channel is closed.
pub record Worker : Type 0 where
  pub id : ℕ
  pub stopped : Bool
  pub phase : Phase

pub data Entry : Type 0 where
  submitted : TransactionJob → Entry
  -- the queue was full; whether the client could be told
  refused : TransactionJob → Bool → Entry
  answered : TransactionJob → TransactionJobResult → Entry
  timed_out : TransactionJob → Entry

-- What the goroutines share.
pub record Shared : Type 0 where
  pub queue : List TransactionJob
  pub buffer_size : ℕ
  pub quit_closed : Bool
  -- the results that wait in response channels
  pub responses : Dict TransactionJobResult
  -- the bits of an int64
  pub jobs_processed : ℕ
  pub log : List Entry
  pub world : World

pub record Pool : Type 0 where
  pub workers : List Worker
  pub shared : Shared
  pub stopped : Bool

-- `NewJobQueue` and `NewPool`
unfoldable pub new_pool : ℕ → World → Pool
new_pool buffer_size w = record {
  workers = [];
  shared = record {
    queue = [];
    buffer_size = buffer_size;
    quit_closed = false;
    responses = [];
    jobs_processed = 0;
    log = [];
    world = w;
  };
  stopped = false;
}

-- The workers that `Start` makes: `n` of them, the first with id `i + 1`.
abbrev pub new_workers : ℕ → ℕ → List Worker
new_workers i zero = []
new_workers i (suc n) =
    record { id = i + 1; stopped = false; phase = waiting } ∷ new_workers (i + 1) n

-- `Start`
unfoldable pub start : ℕ → Pool → Pool
start n p = record p { workers = p.workers ++ new_workers 0 n }

abbrev pub logged : Entry → Shared → Shared
logged x s = record s { log = x ∷ s.log }

-- The select at the end of `SubmitJob`, on the error of a full queue
abbrev pub refuse_job : TransactionJob → Shared → Shared
refuse_job j s = elim (lookup j.response_chan s.responses) [
  | none ↦ logged (refused j true) (record s {
    responses =
        insert j.response_chan (to_result j none (some (plain "job queue is full"))) s.responses;
  })
  | some r ↦ logged (refused j false) s
]

-- `SubmitJob`
unfoldable pub submit_job : TransactionJob → Shared → Shared
submit_job j s =
    if ltb (length s.queue) s.buffer_size
    then logged (submitted j) (record s { queue = s.queue ++ j ∷ [] })
    else refuse_job j s

-- `<-SubmitChan` in `start`
unfoldable pub receive : Worker → Shared → Worker × Shared
receive v s = elim v.phase [
  | waiting ↦ elim s.queue [
    | [] ↦ (v, s)
    | j ∷ js ↦ (record v { phase = working j }, record s { queue = js })
  ]
  | _ ↦ (v, s)
]

-- `<-w.stopped` in `start`
unfoldable pub leave : Worker → Shared → Worker × Shared
leave v s = elim v.phase [
  | waiting ↦ (if v.stopped then record v { phase = exited } else v, s)
  | _ ↦ (v, s)
]

-- `job.ResponseChan <- result` at the end of `processJob`
unfoldable pub reply : Worker → Shared → Worker × Shared
reply v s = elim v.phase [
  | answering j r ↦ elim (lookup j.response_chan s.responses) [
    | none ↦ (
      record v { phase = waiting },
      logged (answered j r) (record s {
        responses = insert j.response_chan r s.responses;
        jobs_processed = (s.jobs_processed + 1) % 2 ^ 64;
      }),
    )
    | some q ↦ (v, s)
  ]
  | _ ↦ (v, s)
]

-- The timeout at the end of `processJob`
unfoldable pub time_out : Worker → Shared → Worker × Shared
time_out v s = elim v.phase [
  | answering j r ↦ (record v { phase = waiting }, logged (timed_out j) s)
  | _ ↦ (v, s)
]

abbrev pub has_exited : Worker → Bool
has_exited v = elim v.phase [ exited ↦ true | _ ↦ false ]

abbrev pub all_exited : List Worker → Bool
all_exited [] = true
all_exited (v ∷ vs) = has_exited v && all_exited vs

-- `close(QuitChan)` in `Stop`: it panics on a closed channel, and the program ends.
unfoldable pub close_quit : Pool → Option Pool
close_quit p =
    if p.shared.quit_closed
    then none
    else some (record p { shared = record (p.shared) { quit_closed = true } })

-- The rest of a `Stop` whose wait for the workers ends before its context does.
unfoldable pub finish_stop : Pool → Pool
finish_stop p =
    if p.shared.quit_closed && all_exited p.workers then record p { stopped = true } else p

-- `GetStats`
pub record Stats : Type 0 where
  pub active_workers : ℕ
  pub jobs_processed : ℕ
  pub queue_size : ℕ

unfoldable pub get_stats : Pool → Stats
get_stats p = record {
  active_workers = length p.workers;
  jobs_processed = p.shared.jobs_processed;
  queue_size = length p.shared.queue;
}

-- The turns that a worker can have.
pub data Turn : Type 0 where
  receives works replies times_out leaves : Turn

pub data Action : Type 0 where
  submits : TransactionJob → Action
  starts : ℕ → Action
  -- a client receives from a response channel
  takes : ℕ → Action
  closes_quit finishes_stop : Action
  -- something else of the program changes the world
  elsewhere : World → Action
  worker : ℕ → Turn → Action

module _ (uuid : UuidText) (svc : TransactionService) where
  -- `processJob` on the job that the worker has
  unfoldable pub work : Worker → Shared → Worker × Shared
  work v s = elim v.phase [
    | working j ↦
        let (r, w) = process_job uuid svc j s.world in
        (record v { phase = answering j r }, record s { world = w })
    | _ ↦ (v, s)
  ]

  unfoldable pub turn : Turn → Worker → Shared → Worker × Shared
  unfolding receive work reply time_out leave
  turn receives v s = receive v s
  turn works v s = work v s
  turn replies v s = reply v s
  turn times_out v s = time_out v s
  turn leaves v s = leave v s

  -- The worker at an index takes a turn.
  unfoldable pub at : ℕ → Turn → List Worker → Shared → List Worker × Shared
  unfolding turn
  at i t [] s = ([], s)
  at zero t (v ∷ vs) s = let (v', s') = turn t v s in (v' ∷ vs, s')
  at (suc i) t (v ∷ vs) s = let (vs', s') = at i t vs s in (v ∷ vs', s')

  unfoldable pub act : Action → Pool → Option Pool
  unfolding at start submit_job close_quit finish_stop
  act (submits j) p = some (record p { shared = submit_job j p.shared })
  act (starts n) p = some (start n p)
  act (takes k) p =
      some (record p { shared = record (p.shared) { responses = erase k p.shared.responses } })
  act closes_quit p = close_quit p
  act finishes_stop p = some (finish_stop p)
  act (elsewhere w) p = some (record p { shared = record (p.shared) { world = w } })
  act (worker i t) p =
      let (vs, s) = at i t p.workers p.shared in some (record p { workers = vs; shared = s })

  -- The pools that a history of turns can reach.
  pub data Reaches (p : Pool) : Pool → Type 0 where
    start_here : Reaches p p
    and_then : {q r : Pool} (a : Action) → Reaches p q → act a q ≡ some r → Reaches p r
