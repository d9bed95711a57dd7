-- ===== src/Worker/Draining.antt =====
-- A pool with a free worker can answer everything in its queue.
use insider_banking_project.Base.{
  ℕ, ⊤, ◌+◌, ◌%◌, ◌^◌, ◌≡◌, ◌≢◌, refl, Bool, none, some, List, [], ◌∷◌, arith,
}
use insider_banking_project.Base.Dict.{Dict, lookup, insert, lookup-insert_ne}
use insider_banking_project.Worker.Jobs.{
  TransactionJob, TransactionJobResult, TransactionService, UuidText, process_job,
}
use insider_banking_project.Worker.Pool.{
  waiting, working, answering, Worker, answered, logged, Pool, receive, reply, receives, works,
  replies, worker, work, turn, at, act, Turn,
}
use insider_banking_project.Worker.Accounts.{count_answered, queued}

-- No two of the jobs answer on one channel.
abbrev pub Elsewhere : ℕ → List TransactionJob → Type 0
Elsewhere c [] = ⊤
Elsewhere c (j ∷ js) = (j.response_chan ≢ c) × Elsewhere c js

-- The jobs' response channels are distinct and empty.
abbrev pub CanAnswer : List TransactionJob → Dict TransactionJobResult → Type 0
CanAnswer [] d = ⊤
CanAnswer (j ∷ js) d =
    (lookup j.response_chan d ≡ none) × Elsewhere j.response_chan js × CanAnswer js d

CanAnswer-insert :
    (c : ℕ) (r : TransactionJobResult) (js : List TransactionJob) (d : Dict TransactionJobResult)
    → Elsewhere c js
    → CanAnswer js d
    → CanAnswer js (insert c r d)
CanAnswer-insert c r [] d h k = tt
CanAnswer-insert c r (j ∷ js) d (h, hs) (k, l, ks) =
    (ground (arith, lookup-insert_ne j.response_chan c r d h), l, CanAnswer-insert c r js d hs ks)

module _ (uuid : UuidText) (svc : TransactionService) where
  -- The pools that turns of the first worker alone can reach.
  pub data Serves (p : Pool) : Pool → Type 0 where
    unserved : Serves p p
    and_serves :
        {q r : Pool} (t : Turn) → Serves p q → act uuid svc (worker 0 t) q ≡ some r → Serves p r

  Serves-trans : {p q r : Pool} → Serves p q → Serves q r → Serves p r
  Serves-trans a unserved = a
  Serves-trans a (and_serves t b e) = and_serves t (Serves-trans a b) e

  -- A first worker that waits takes one job, does it and answers.
  served : Pool → Worker → List Worker → TransactionJob → List TransactionJob → Pool
  served p v vs j js =
      let (r, w) = process_job uuid svc j p.shared.world in
      record p {
        workers = record v { phase = waiting } ∷ vs;
        shared = logged (answered j r) (record (p.shared) {
          queue = js;
          responses = insert j.response_chan r p.shared.responses;
          jobs_processed = (p.shared.jobs_processed + 1) % 2 ^ 64;
          world = w;
        });
      }

  Serves-served :
      (p : Pool) (v : Worker) (vs : List Worker) (j : TransactionJob) (js : List TransactionJob)
      → p.workers ≡ v ∷ vs
      → v.phase ≡ waiting
      → p.shared.queue ≡ j ∷ js
      → lookup j.response_chan p.shared.responses ≡ none
      → Serves p (served p v vs j js)
  unfolding served act at turn receive work reply
  Serves-served p v vs j js ws idle q free =
      let (r, w) = process_job uuid svc j p.shared.world in
      let p₁ : Pool = record p {
        workers = record v { phase = working j } ∷ vs;
        shared = record (p.shared) { queue = js };
      } in
      let p₂ : Pool = record p {
        workers = record v { phase = answering j r } ∷ vs;
        shared = record (p.shared) { queue = js; world = w };
      } in
      and_serves replies
        (and_serves {r = p₂} works (and_serves {r = p₁} receives unserved (ground arith)) refl)
        (ground arith)

  -- Every job of the queue has been answered, and nothing else.
  abbrev pub Drained : Pool → Pool → Type 0
  Drained p q =
      (q.shared.queue ≡ [])
      × ((P : TransactionJob → Bool)
          → count_answered P q.shared.log ≡ count_answered P p.shared.log + queued P p.shared.queue)

  -- From any pool whose first worker is free, and whose queued jobs have distinct empty response
  -- channels, turns of that worker alone lead to a pool with an empty queue, in which each of the queued
  -- jobs has been answered.
  pub pool_drains :
      (js : List TransactionJob) (p : Pool) (v : Worker) (vs : List Worker)
      → p.workers ≡ v ∷ vs
      → v.phase ≡ waiting
      → p.shared.queue ≡ js
      → CanAnswer js p.shared.responses
      → (q : Pool) × Serves p q × Drained p q
  unfolding served
  pool_drains [] p v vs ws idle e can = (p, unserved, (e, λ P. ground arith))
  pool_drains (j ∷ js) p v vs ws idle e (free, others, can) =
      let p' : Pool = served p v vs j js in
      let (q, path, (empty, count)) =
        pool_drains js p' (record v { phase = waiting }) vs refl refl refl
          (CanAnswer-insert j.response_chan _ js p.shared.responses others can) in
      (
        q,
        Serves-trans (Serves-served p v vs j js ws idle e free) path,
        (empty, λ P. ground (arith, count P)),
      )
