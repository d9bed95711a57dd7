-- ===== src/Worker/Answers.antt =====
-- What a running pool keeps true besides its accounts: the queue fits its buffer, the counter counts
-- the answers, and an answer is what processing the job gave.
use insider_banking_project.Base.{
  ℕ, ⊤, zero, suc, ◌+◌, ◌%◌, ◌^◌, ◌≤◌, ◌≡◌, refl, sym, inl, inr, false, Option-cases, Bool-cases,
  ltb, ◌&&◌, Bool, true, some, List, [], ◌∷◌, ◌++◌, length, arith,
}
use mathlib.Core.Path.{subst}
use insider_banking_project.Base.Dict.{lookup, insert}
use insider_banking_project.Repository.World.{World}
use insider_banking_project.Worker.Jobs.{
  TransactionJob, TransactionJobResult, TransactionService, UuidText, process_job,
}
use insider_banking_project.Worker.Pool.{
  logged, all_exited, Phase, waiting, working, answering, exited, Worker, Entry, submitted, refused,
  answered, timed_out, Shared, Pool, new_pool, new_workers, start, submit_job, receive, leave,
  reply, time_out, close_quit, finish_stop, Turn, receives, works, replies, times_out, leaves,
  Action, submits, starts, takes, closes_quit, finishes_stop, elsewhere, worker, work, turn, at,
  act, Reaches, start_here, and_then,
}
use insider_banking_project.Worker.Accounts.{count_answered}

module _ (uuid : UuidText) (svc : TransactionService) where
  -- The result came out of `processJob` on that job.
  abbrev pub IsProcessed : TransactionJob → TransactionJobResult → Type 0
  IsProcessed j r = (w : World) × ((process_job uuid svc j w).0 ≡ r)

  abbrev pub IsHonest : Phase → Type 0
  IsHonest waiting = ⊤
  IsHonest (working j) = ⊤
  IsHonest (answering j r) = IsProcessed j r
  IsHonest exited = ⊤

  abbrev pub AllHonest : List Worker → Type 0
  AllHonest [] = ⊤
  AllHonest (v ∷ vs) = IsHonest v.phase × AllHonest vs

  abbrev pub AllProcessed : List Entry → Type 0
  AllProcessed [] = ⊤
  AllProcessed (answered j r ∷ xs) = IsProcessed j r × AllProcessed xs
  AllProcessed (_ ∷ xs) = AllProcessed xs

  abbrev every : TransactionJob → Bool
  every j = true

  pub record IsSound (s : Shared) : Type 0 where
    pub fits : length s.queue ≤ s.buffer_size
    pub counts : s.jobs_processed ≡ count_answered every s.log % 2 ^ 64
    pub processed : AllProcessed s.log

  -- What is kept by a worker's turn, in the phase it starts from.
  abbrev Keeps : Worker × Shared → Type 0
  Keeps z = IsHonest z.0.phase × IsSound z.1

  Keeps-from : (z' z : Worker × Shared) → z' ≡ z → Keeps z → Keeps z'
  Keeps-from z' z e k = subst Keeps (sym e) k

  receive-Keeps : (v : Worker) (s : Shared) → Keeps (v, s) → Keeps (receive v s)
  unfolding receive
  receive-Keeps v s k = go v.phase refl s.queue refl
    where
      go :
          (p : Phase)
          → v.phase ≡ p
          → (js : List TransactionJob) → s.queue ≡ js
          → Keeps (receive v s)
      go waiting e [] q = Keeps-from (receive v s) (v, s) (ground arith) k
      go waiting e (j ∷ js) q =
          Keeps-from (receive v s) (record v { phase = working j }, record s { queue = js })
            (ground arith)
            (
              tt,
              record {
                fits = ground (arith, k.1.fits);
                counts = k.1.counts;
                processed = k.1.processed;
              },
            )
      go (working j) e js q = Keeps-from (receive v s) (v, s) (ground arith) k
      go (answering j r) e js q = Keeps-from (receive v s) (v, s) (ground arith) k
      go exited e js q = Keeps-from (receive v s) (v, s) (ground arith) k

  leave-Keeps : (v : Worker) (s : Shared) → Keeps (v, s) → Keeps (leave v s)
  unfolding leave
  leave-Keeps v s k = go v.phase refl v.stopped refl
    where
      go : (p : Phase) → v.phase ≡ p → (b : Bool) → v.stopped ≡ b → Keeps (leave v s)
      go waiting e true q =
          Keeps-from (leave v s) (record v { phase = exited }, s) (ground arith) (tt, k.1)
      go waiting e false q = Keeps-from (leave v s) (v, s) (ground arith) k
      go (working j) e b q = Keeps-from (leave v s) (v, s) (ground arith) k
      go (answering j r) e b q = Keeps-from (leave v s) (v, s) (ground arith) k
      go exited e b q = Keeps-from (leave v s) (v, s) (ground arith) k

  work-Keeps : (v : Worker) (s : Shared) → Keeps (v, s) → Keeps (work uuid svc v s)
  unfolding work
  work-Keeps v s k = go v.phase refl
    where
      go : (p : Phase) → v.phase ≡ p → Keeps (work uuid svc v s)
      go waiting e = Keeps-from (work uuid svc v s) (v, s) (ground arith) k
      go (working j) e =
          Keeps-from (work uuid svc v s)
            (
              record v { phase = answering j (process_job uuid svc j s.world).0 },
              record s { world = (process_job uuid svc j s.world).1 },
            )
            (ground arith)
            (
              (s.world, refl),
              record { fits = k.1.fits; counts = k.1.counts; processed = k.1.processed },
            )
      go (answering j r) e = Keeps-from (work uuid svc v s) (v, s) (ground arith) k
      go exited e = Keeps-from (work uuid svc v s) (v, s) (ground arith) k

  time_out-Keeps : (v : Worker) (s : Shared) → Keeps (v, s) → Keeps (time_out v s)
  unfolding time_out
  time_out-Keeps v s k = go v.phase refl
    where
      go : (p : Phase) → v.phase ≡ p → Keeps (time_out v s)
      go waiting e = Keeps-from (time_out v s) (v, s) (ground arith) k
      go (working j) e = Keeps-from (time_out v s) (v, s) (ground arith) k
      go (answering j r) e =
          Keeps-from (time_out v s) (record v { phase = waiting }, logged (timed_out j) s)
            (ground arith)
            (tt, record { fits = k.1.fits; counts = k.1.counts; processed = k.1.processed })
      go exited e = Keeps-from (time_out v s) (v, s) (ground arith) k

  reply-Keeps : (v : Worker) (s : Shared) → Keeps (v, s) → Keeps (reply v s)
  unfolding reply
  reply-Keeps v s k = go v.phase refl
    where
      go : (p : Phase) → v.phase ≡ p → Keeps (reply v s)
      go waiting e = Keeps-from (reply v s) (v, s) (ground arith) k
      go (working j) e = Keeps-from (reply v s) (v, s) (ground arith) k
      go (answering j r) e = elim (Option-cases (lookup j.response_chan s.responses)) [
        | inr (q, full) ↦ Keeps-from (reply v s) (v, s) (ground arith) k
        | inl free ↦
            Keeps-from (reply v s)
              (
                record v { phase = waiting },
                logged (answered j r) (record s {
                  responses = insert j.response_chan r s.responses;
                  jobs_processed = (s.jobs_processed + 1) % 2 ^ 64;
                }),
              )
              (ground arith)
              (
                tt,
                record {
                  fits = k.1.fits;
                  counts = omega (arith, k.1.counts);
                  processed = (subst IsHonest e k.0, k.1.processed);
                },
              )
      ]
      go exited e = Keeps-from (reply v s) (v, s) (ground arith) k

  turn-Keeps : (t : Turn) (v : Worker) (s : Shared) → Keeps (v, s) → Keeps (turn uuid svc t v s)
  unfolding turn
  turn-Keeps receives v s k = receive-Keeps v s k
  turn-Keeps works v s k = work-Keeps v s k
  turn-Keeps replies v s k = reply-Keeps v s k
  turn-Keeps times_out v s k = time_out-Keeps v s k
  turn-Keeps leaves v s k = leave-Keeps v s k

  at-Keeps :
      (i : ℕ) (t : Turn) (vs : List Worker) (s : Shared)
      → AllHonest vs
      → IsSound s
      → AllHonest (at uuid svc i t vs s).0 × IsSound (at uuid svc i t vs s).1
  unfolding at
  at-Keeps i t [] s h k = (h, k)
  at-Keeps zero t (v ∷ vs) s (h, hs) k = let (a, b) = turn-Keeps t v s (h, k) in ((a, hs), b)
  at-Keeps (suc i) t (v ∷ vs) s (h, hs) k = let (a, b) = at-Keeps i t vs s hs k in ((h, a), b)

  abbrev pub SoundPool : Pool → Type 0
  SoundPool p = AllHonest p.workers × IsSound p.shared

  new_workers-AllHonest :
      (vs : List Worker) (i n : ℕ) → AllHonest vs → AllHonest (vs ++ new_workers i n)
  new_workers-AllHonest [] i zero h = tt
  new_workers-AllHonest [] i (suc n) h = (tt, new_workers-AllHonest [] (i + 1) n h)
  new_workers-AllHonest (v ∷ vs) i n (h, hs) = (h, new_workers-AllHonest vs i n hs)

  length-snoc :
      (js : List TransactionJob) (j : TransactionJob) → length (js ++ j ∷ []) ≡ length js + 1
  length-snoc [] j = refl
  length-snoc (x ∷ js) j = omega (arith, length-snoc js j)

  submit_job-IsSound : (j : TransactionJob) (s : Shared) → IsSound s → IsSound (submit_job j s)
  unfolding submit_job
  submit_job-IsSound j s k = record {
    fits = ground (arith, length-snoc s.queue j, k.fits);
    counts = ground (arith, k.counts);
    processed = elim (Bool-cases (ltb (length s.queue) s.buffer_size)) [
      | inl room ↦ from (submitted j ∷ s.log) (ground arith) k.processed
      | inr full ↦ elim (Option-cases (lookup j.response_chan s.responses)) [
        | inl free ↦ from (refused j true ∷ s.log) (ground arith) k.processed
        | inr (r, taken) ↦ from (refused j false ∷ s.log) (ground arith) k.processed
      ]
    ];
  }
    where
      from :
          (xs : List Entry)
          → (submit_job j s).log ≡ xs
          → AllProcessed xs
          → AllProcessed (submit_job j s).log
      from xs e h = subst AllProcessed (sym e) h

  reached : (p q : Pool) → some p ≡ some q → SoundPool p → SoundPool q
  reached p q e h = let same : p ≡ q = ground arith in subst SoundPool same h

  act-SoundPool : (a : Action) (p q : Pool) → SoundPool p → act uuid svc a p ≡ some q → SoundPool q
  unfolding act start close_quit finish_stop
  act-SoundPool (submits j) p q (h, k) e = reached _ q e (h, submit_job-IsSound j p.shared k)
  act-SoundPool (starts n) p q (h, k) e = reached _ q e (new_workers-AllHonest p.workers 0 n h, k)
  act-SoundPool (takes c) p q (h, k) e =
      reached _ q e (h, record { fits = k.fits; counts = k.counts; processed = k.processed })
  act-SoundPool closes_quit p q (h, k) e = elim (Bool-cases p.shared.quit_closed) [
    | inl closed ↦ absurd (ground arith)
    | inr open_still ↦
        reached (record p { shared = record (p.shared) { quit_closed = true } }) q (ground arith)
          (h, record { fits = k.fits; counts = k.counts; processed = k.processed })
  ]
  act-SoundPool finishes_stop p q (h, k) e =
      elim (Bool-cases (p.shared.quit_closed && all_exited p.workers)) [
        | inl done ↦ reached (record p { stopped = true }) q (ground arith) (h, k)
        | inr later ↦ reached p q (ground arith) (h, k)
      ]
  act-SoundPool (elsewhere w) p q (h, k) e =
      reached _ q e (h, record { fits = k.fits; counts = k.counts; processed = k.processed })
  act-SoundPool (worker i t) p q (h, k) e = reached _ q e (at-Keeps i t p.workers p.shared h k)

  Reaches-SoundPool : {p q : Pool} → SoundPool p → Reaches uuid svc p q → SoundPool q
  Reaches-SoundPool h start_here = h
  Reaches-SoundPool h (and_then {q = q} {r = r} a path e) =
      act-SoundPool a q r (Reaches-SoundPool h path) e

  new_pool-SoundPool : (n : ℕ) (w : World) → SoundPool (new_pool n w)
  unfolding new_pool
  new_pool-SoundPool n w = (tt, record { fits = omega arith; counts = refl; processed = tt })

  -- Whatever turns the clients, the workers and the owner of a new pool take, the queue never holds
  -- more jobs than its buffer, the counter is the number of answered jobs as an int64 counts it,
  -- and every answer is what processing its job gave in some state of the world.
  pub pool_answers :
      {p : Pool} (n : ℕ) (w : World) → Reaches uuid svc (new_pool n w) p → SoundPool p
  pool_answers n w path = Reaches-SoundPool (new_pool-SoundPool n w) path
