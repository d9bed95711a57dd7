-- ===== src/Worker/Shutdown.antt =====
-- `Stop` closes a channel that no worker reads, and nobody closes the one they do read.
use insider_banking_project.Base.{
  ℕ, ⊤, zero, suc, ◌+◌, ◌≡◌, inl, inr, refl, true, false, Bool-cases, some, List, [], ◌∷◌, ◌++◌,
  ◌<◌, length, arith,
}
use mathlib.Core.Path.{subst}
use insider_banking_project.Repository.World.{World}
use insider_banking_project.Worker.Jobs.{TransactionService, UuidText}
use insider_banking_project.Worker.Pool.{
  Worker, Shared, Pool, has_exited, all_exited, new_pool, new_workers, start, receive, leave, reply,
  time_out, close_quit, finish_stop, Turn, receives, works, replies, times_out, leaves, Action,
  submits, starts, takes, closes_quit, finishes_stop, elsewhere, worker, work, turn, at, act,
  Reaches, start_here, and_then,
}

abbrev pub RunsOn : Worker → Type 0
RunsOn v = (v.stopped ≡ false) × (has_exited v ≡ false)

abbrev pub AllRunOn : List Worker → Type 0
AllRunOn [] = ⊤
AllRunOn (v ∷ vs) = RunsOn v × AllRunOn vs

module _ (uuid : UuidText) (svc : TransactionService) where
  turn-RunsOn : (t : Turn) (v : Worker) (s : Shared) → RunsOn v → RunsOn (turn uuid svc t v s).0
  unfolding turn receive work reply time_out leave
  turn-RunsOn receives v s (a, b) = ground arith
  turn-RunsOn works v s (a, b) = ground arith
  turn-RunsOn replies v s (a, b) = ground arith
  turn-RunsOn times_out v s (a, b) = ground arith
  turn-RunsOn leaves v s (a, b) = ground arith

  at-AllRunOn :
      (i : ℕ) (t : Turn) (vs : List Worker) (s : Shared)
      → AllRunOn vs
      → AllRunOn (at uuid svc i t vs s).0 × (length (at uuid svc i t vs s).0 ≡ length vs)
  unfolding at
  at-AllRunOn i t [] s h = (h, refl)
  at-AllRunOn zero t (v ∷ vs) s (h, hs) = ((turn-RunsOn t v s h, hs), refl)
  at-AllRunOn (suc i) t (v ∷ vs) s (h, hs) =
      let (a, b) = at-AllRunOn i t vs s hs in ((h, a), omega (arith, b))

  append-AllRunOn :
      (vs : List Worker) (i n : ℕ)
      → AllRunOn vs
      → AllRunOn (vs ++ new_workers i n) × (length (vs ++ new_workers i n) ≡ length vs + n)
  append-AllRunOn [] i zero h = (tt, refl)
  append-AllRunOn [] i (suc n) h =
      let (a, b) = append-AllRunOn [] (i + 1) n h in (((refl, refl), a), omega (arith, b))
  append-AllRunOn (v ∷ vs) i n (h, hs) =
      let (a, b) = append-AllRunOn vs i n hs in ((h, a), omega (arith, b))

  -- The pool has workers, all of them run, and it has not stopped.
  abbrev pub IsRunning : Pool → Type 0
  IsRunning p = (0 < length p.workers) × AllRunOn p.workers × (p.stopped ≡ false)

  all_exited-AllRunOn : (vs : List Worker) → 0 < length vs → AllRunOn vs → all_exited vs ≡ false
  all_exited-AllRunOn [] n h = absurd (omega arith)
  all_exited-AllRunOn (v ∷ vs) n ((a, b), hs) = ground arith

  reached : (p q : Pool) → some p ≡ some q → IsRunning p → IsRunning q
  reached p q e h = let same : p ≡ q = ground arith in subst IsRunning same h

  act-IsRunning : (a : Action) (p q : Pool) → IsRunning p → act uuid svc a p ≡ some q → IsRunning q
  unfolding act start close_quit finish_stop
  act-IsRunning (submits j) p q h e = reached _ q e h
  act-IsRunning (starts n) p q (m, h, s) e =
      let (a, b) = append-AllRunOn p.workers 0 n h in reached _ q e (omega (arith, b), a, s)
  act-IsRunning (takes c) p q h e = reached _ q e h
  act-IsRunning closes_quit p q h e = elim (Bool-cases p.shared.quit_closed) [
    | inl closed ↦ absurd (ground arith)
    | inr open_still ↦
        reached (record p { shared = record (p.shared) { quit_closed = true } }) q (ground arith) h
  ]
  act-IsRunning finishes_stop p q (m, h, s) e =
      reached p q (ground (arith, all_exited-AllRunOn p.workers m h)) (m, h, s)
  act-IsRunning (elsewhere w) p q h e = reached _ q e h
  act-IsRunning (worker i t) p q (m, h, s) e =
      let (a, b) = at-AllRunOn i t p.workers p.shared h in reached _ q e (omega (arith, b), a, s)

  Reaches-IsRunning : {p q : Pool} → IsRunning p → Reaches uuid svc p q → IsRunning q
  Reaches-IsRunning h start_here = h
  Reaches-IsRunning h (and_then {q = q} {r = r} a path e) =
      act-IsRunning a q r (Reaches-IsRunning h path) e

  start-IsRunning : (n m : ℕ) (w : World) → 0 < n → IsRunning (start n (new_pool m w))
  unfolding start new_pool
  start-IsRunning n m w h = let (a, b) = append-AllRunOn [] 0 n tt in (omega (arith, b), a, refl)

  -- A pool that starts with at least one worker never stops: whatever turns are taken, the closing
  -- of the quit channel included, no worker leaves its loop, and `Stop` never sees the workers done.
  pub pool_never_stops :
      {p : Pool} (n m : ℕ) (w : World)
      → 0 < n
      → Reaches uuid svc (start n (new_pool m w)) p
      → IsRunning p
  pool_never_stops n m w h path = Reaches-IsRunning (start-IsRunning n m w h) path
