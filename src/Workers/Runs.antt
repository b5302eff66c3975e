-- ===== src/Workers/Runs.antt =====
-- Any sequence of operations on the pool, with the leases that are out.
use madre.Base.{
  ℕ, ◌≡◌, ◌≤◌, sym, List, [], ◌∷◌, some, true, not, Text, arith, Result, ok, err, Error, Map, guard,
  >>=-eq-ok, lt_i64, ok-injective, ap,
}
use mathlib.Core.Path.{subst}
use madre.Options.{WorkerLaunchSpec}
use madre.Workers.{WorkerProcess, WaitAnswer, WaitStatus, Attempt}
use madre.Workers.Execution.{Outside, execute}
use madre.Workers.Pool.{
  Processes, WorkerPool, acquire, is_warm, reap_idle, shutdown, reset, execute_lease, erase_worker,
  make_pool, is_launch_ok,
}
use madre.Workers.Walks.{count, find_warm-IsSweep, reap-IsSweep, terminate_all-busy}
use madre.Workers.Busy.{execute-Keeps}
use madre.Workers.Leases.{
  IsPool, IsGiven, swept-IsPool, left_by-IsPool, release-IsPool, acquire-IsGiven,
}

-- The operations, each with the leases before and after. A lease is an identity here.
pub data PoolStep : WorkerPool → List ℕ → WorkerPool → List ℕ → Type 0 where
  acquires :
      (start : WorkerLaunchSpec → Text → Result WorkerProcess) (engine_id : Text)
      (answers : ℕ → WaitAnswer) (pool left : WorkerPool) (leases : List ℕ) (id : ℕ)
      → acquire start engine_id answers pool ≡ (ok id, left)
      → PoolStep pool leases left (id ∷ leases)
  refuses :
      (start : WorkerLaunchSpec → Text → Result WorkerProcess) (engine_id : Text)
      (answers : ℕ → WaitAnswer) (pool left : WorkerPool) (leases : List ℕ) (e : Error)
      → acquire start engine_id answers pool ≡ (err e, left)
      → PoolStep pool leases left leases
  executes :
      (attempt : Attempt) (outside : Outside) (pool : WorkerPool) (leases : List ℕ) (id : ℕ)
      → 1 ≤ count id leases
      → PoolStep pool leases (execute_lease attempt outside (some id) pool).1 leases
  resets :
      (now : ℕ) (answer : WaitAnswer) (pool : WorkerPool) (leases : List ℕ) (id : ℕ)
      → 1 ≤ count id leases
      → PoolStep pool leases (reset now answer (some id) pool).1 (erase_worker id leases)
  looks :
      (engine_id : Text) (answers : ℕ → WaitAnswer) (pool : WorkerPool) (leases : List ℕ)
      → PoolStep pool leases (is_warm engine_id answers pool).1 leases
  reaps :
      (now : ℕ) (answers : ℕ → WaitAnswer) (killed : ℕ → WaitStatus) (pool : WorkerPool)
      (leases : List ℕ)
      → PoolStep pool leases (reap_idle now answers killed pool) leases
  shuts :
      (killed : ℕ → WaitStatus) (pool : WorkerPool) (leases : List ℕ)
      → PoolStep pool leases (shutdown killed pool) leases

-- Every operation keeps the agreement of the pool and its leases: an attempt on a leased worker and
-- the reset of a lease, which end in any way; `acquire`, which may fail; and the walks of `is_warm`,
-- `reap_idle` and `shutdown`. No worker stands twice in the pool or in two leases, the worker of a
-- lease is busy, and a busy worker of the pool is a lease's.
pub step-IsPool :
    {pool left : WorkerPool} {leases leases' : List ℕ}
    → PoolStep pool leases left leases'
    → IsPool pool leases
    → IsPool left leases'
unfolding execute_lease reset is_warm reap_idle shutdown
step-IsPool (PoolStep.acquires start engine_id answers pool left leases id e) inv =
    (subst (IsGiven leases) e (acquire-IsGiven start engine_id answers pool leases inv)).0
step-IsPool (PoolStep.refuses start engine_id answers pool left leases x e) inv =
    subst (IsGiven leases) e (acquire-IsGiven start engine_id answers pool leases inv)
step-IsPool (PoolStep.executes attempt outside pool leases id held) inv =
    left_by-IsPool pool leases id (execute attempt outside (pool.processes id)) inv
      (execute-Keeps attempt outside (pool.processes id))
step-IsPool (PoolStep.resets now answer pool leases id held) inv =
    release-IsPool now answer pool leases id inv held
step-IsPool (PoolStep.looks engine_id answers pool leases) inv =
    swept-IsPool pool leases inv _ (find_warm-IsSweep engine_id answers pool.workers pool.processes)
step-IsPool (PoolStep.reaps now answers killed pool leases) inv =
    swept-IsPool pool leases inv _
      (reap-IsSweep pool.idle_timeout_ms now answers killed pool.workers pool.processes)
step-IsPool (PoolStep.shuts killed pool leases) inv =
    λ id. ground (arith, inv id, terminate_all-busy killed pool.workers pool.processes id)

-- Any number of operations.
pub data PoolRun (first : WorkerPool) : WorkerPool → List ℕ → Type 0 where
  starts : PoolRun first first []
  continues :
      (pool left : WorkerPool) (leases leases' : List ℕ)
      → PoolRun first pool leases
      → PoolStep pool leases left leases'
      → PoolRun first left leases'

pub run-IsPool :
    {first pool : WorkerPool} {leases : List ℕ}
    → IsPool first []
    → PoolRun first pool leases
    → IsPool pool leases
run-IsPool inv starts = inv
run-IsPool inv (continues pool left leases leases' run step) = step-IsPool step (run-IsPool inv run)

pub made-IsPool :
    (specs : Map WorkerLaunchSpec) (idle : ℕ) (processes : Processes) (pool : WorkerPool)
    → make_pool specs idle processes ≡ ok pool
    → IsPool pool []
unfolding make_pool
made-IsPool specs idle processes pool e id =
    let (passed, given, e1) = >>=-eq-ok (guard (not (lt_i64 idle 0)) _) _ e in
    let (passed', given', e2) = >>=-eq-ok (guard (is_launch_ok specs) _) _ e1 in
    let no_workers : pool.workers ≡ [] = sym (ap (λ p. p.workers) (ok-injective e2)) in
    ground (arith, no_workers)

-- From a new pool on, over any calls of `acquire`, `is_warm`, `reap_idle`, `shutdown`, attempts and
-- resets of leases, whatever the workers do: a worker that `acquire` gives is in no other lease,
-- and is marked busy.
pub acquire-IsExclusive :
    (specs : Map WorkerLaunchSpec) (idle : ℕ) (processes : Processes) (first pool left : WorkerPool)
    (leases : List ℕ) (start : WorkerLaunchSpec → Text → Result WorkerProcess) (engine_id : Text)
    (answers : ℕ → WaitAnswer) (id : ℕ)
    → make_pool specs idle processes ≡ ok first
    → PoolRun first pool leases
    → acquire start engine_id answers pool ≡ (ok id, left)
    → (count id leases ≡ 0) × ((left.processes id).busy ≡ true)
acquire-IsExclusive specs idle processes first pool left leases start engine_id answers id made run
      e =
    let (inv, free) = subst (IsGiven leases) e (
      acquire-IsGiven start engine_id answers pool leases
        (run-IsPool (made-IsPool specs idle processes first made) run)) in
    (free, (inv id).leased_busy (ground arith))
