-- ===== src/Workers/Leases.antt =====
-- Who holds which worker: the pool and its leases, over any sequence of their operations.
use madre.Base.{
  ℕ, ◌+◌, ◌≡◌, ◌≤◌, inl, inr, refl, List, [], ◌∷◌, ◌++◌, Option, none, some, true, false, not, ◌==◌,
  Text, Bytes, if◌then◌else◌, arith, Result, ok, err, Option-cases, Result-cases, any_of, by_test,
}
use madre.Options.{WorkerLaunchSpec}
use madre.Workers.{WorkerProcess, WaitAnswer, Progress, alive, ends, waits, goes_on}
use madre.Workers.Pool.{
  put, Walked, WorkerPool, find_idle, acquire, launch_worker, add_worker, walked_pool, release,
  left_by, erase_worker, mark_idle,
}
use madre.Workers.Walks.{count, IsWalk, IsSweep, find_idle-IsWalk, count-erase_worker, alive-busy}
use madre.Workers.Busy.{Keeps}

-- One worker, between two operations: it stands in the pool once at most, and in one lease at
-- most; a lease's worker is busy, and a busy worker of the pool is a lease's.
pub record IsEntry (pool : WorkerPool) (leases : List ℕ) (id : ℕ) : Type 0 where
  pub listed_once : count id pool.workers ≤ 1
  pub leased_once : count id leases ≤ 1
  pub made : pool.next ≤ id → (count id pool.workers ≡ 0) × (count id leases ≡ 0)
  pub leased_busy : 1 ≤ count id leases → (pool.processes id).busy ≡ true
  pub busy_leased :
      1 ≤ count id pool.workers → (pool.processes id).busy ≡ true → 1 ≤ count id leases

abbrev pub IsPool : WorkerPool → List ℕ → Type 0
IsPool pool leases = (id : ℕ) → IsEntry pool leases id

module _ (pool : WorkerPool) (leases : List ℕ) (inv : IsPool pool leases) where
  pub swept-IsPool :
      (walked : Walked)
      → ((id : ℕ) → IsSweep pool.workers pool.processes walked id)
      → IsPool (walked_pool pool walked) leases
  swept-IsPool walked sweep id = ground (arith, inv id, sweep id)

  -- The worker that a walk takes was in no lease.
  walk_free :
      (walked : Walked) (id : ℕ)
      → ((other : ℕ) → IsWalk pool.workers pool.processes walked other)
      → walked.taken ≡ some id
      → count id leases ≡ 0
  walk_free walked id walk e = ground (arith, inv id, walk id)

  taken-IsPool :
      (walked : Walked) (id : ℕ)
      → ((other : ℕ) → IsWalk pool.workers pool.processes walked other)
      → walked.taken ≡ some id
      → IsPool (walked_pool pool walked) (id ∷ leases)
  taken-IsPool walked id walk e other = ground (arith, inv id, walk id, inv other, walk other)

  passed-IsPool :
      (walked : Walked)
      → ((other : ℕ) → IsWalk pool.workers pool.processes walked other)
      → walked.taken ≡ none
      → IsPool (walked_pool pool walked) leases
  passed-IsPool walked walk e other = ground (arith, inv other, walk other)

count-append :
    (id x : ℕ) (ids : List ℕ)
    → count id (ids ++ (x ∷ [])) ≡ count id ids + (if x == id then 1 else 0)
count-append id x [] = ground arith
count-append id x (y ∷ ids) = omega (arith, count-append id x ids)

add_worker-IsPool :
    (pool : WorkerPool) (leases : List ℕ) (worker : WorkerProcess)
    → IsPool pool leases
    → IsPool (add_worker pool worker) (pool.next ∷ leases)
add_worker-IsPool pool leases worker inv id =
    ground (arith, inv id, count-append id pool.next pool.workers)

released-IsPool :
    (pool : WorkerPool) (leases : List ℕ) (worker : WorkerProcess) (workers : List ℕ) (id : ℕ)
    → IsPool pool leases
    → 1 ≤ count id leases
    → ((other : ℕ) → count other workers ≤ count other pool.workers)
    → worker.busy ≡ false
    → IsPool
        (record pool { workers = workers; processes = put id worker pool.processes })
        (erase_worker id leases)
released-IsPool pool leases worker workers id inv held fewer idle other =
    ground (arith, inv id, inv other, fewer other, count-erase_worker id other leases)

count_absent : (id : ℕ) (ids : List ℕ) → any_of (λ x. x == id) ids ≡ false → count id ids ≡ 0
unfolding any_of
count_absent id [] h = refl
count_absent id (x ∷ ids) h = ground (arith, count_absent id ids)

-- A lease whose worker the pool has dropped gives nothing back.
dropped-IsPool :
    (pool : WorkerPool) (leases : List ℕ) (id : ℕ)
    → IsPool pool leases
    → any_of (λ x. x == id) pool.workers ≡ false
    → IsPool pool (erase_worker id leases)
dropped-IsPool pool leases id inv absent other =
    ground
      (arith, inv other, count_absent id pool.workers absent, count-erase_worker id other leases)

stays-IsPool :
    (pool : WorkerPool) (leases : List ℕ) (worker : WorkerProcess) (id : ℕ)
    → IsPool pool leases
    → worker.busy ≡ (pool.processes id).busy
    → IsPool (record pool { processes = put id worker pool.processes }) leases
stays-IsPool pool leases worker id inv same other = ground (arith, inv other)

pub left_by-IsPool :
    (pool : WorkerPool) (leases : List ℕ) (id : ℕ) (run : Bytes × Progress WorkerProcess)
    → IsPool pool leases
    → Keeps (pool.processes id).busy run.1
    → IsPool (left_by id pool run) leases
left_by-IsPool pool leases id (taken, waits) inv h = inv
left_by-IsPool pool leases id (taken, goes_on worker) inv h = inv
left_by-IsPool pool leases id (taken, ends outcome worker) inv h =
    stays-IsPool pool leases worker id inv h

pub release-IsPool :
    (now : ℕ) (answer : WaitAnswer) (pool : WorkerPool) (leases : List ℕ) (id : ℕ)
    → IsPool pool leases
    → 1 ≤ count id leases
    → IsPool (release now answer id pool) (erase_worker id leases)
unfolding release
release-IsPool now answer pool leases id inv held =
    let IsGood : WorkerPool → Type 0 = λ left. IsPool left (erase_worker id leases) in
    let idle : (alive answer (mark_idle now (pool.processes id))).1.busy ≡ false =
      alive-busy answer (mark_idle now (pool.processes id)) in
    by_test IsGood (not (any_of (λ x. x == id) pool.workers)) _ _
      (λ dropped. dropped-IsPool pool leases id inv (ground arith))
      (λ listed.
        by_test IsGood (alive answer (mark_idle now (pool.processes id))).0 _ _
          (λ living.
            released-IsPool pool leases _ pool.workers id inv held (λ other. omega arith) idle)
          (λ dead.
            released-IsPool pool leases _ (erase_worker id pool.workers) id inv held
              (λ other. ground (arith, count-erase_worker id other pool.workers)) idle))

-- What an `acquire` comes to.
abbrev pub IsGiven : List ℕ → Result ℕ × WorkerPool → Type 0
IsGiven leases (ok id, pool) = IsPool pool (id ∷ leases) × (count id leases ≡ 0)
IsGiven leases (err e, pool) = IsPool pool leases

launch_worker-IsGiven :
    (start : WorkerLaunchSpec → Text → Result WorkerProcess) (engine_id : Text) (pool : WorkerPool)
    (leases : List ℕ) (launch : Option WorkerLaunchSpec)
    → IsPool pool leases
    → IsGiven leases (launch_worker start engine_id pool launch)
launch_worker-IsGiven start engine_id pool leases none inv = inv
launch_worker-IsGiven start engine_id pool leases (some launch) inv =
    elim (Result-cases (start launch engine_id)) [
      | inr (e, failed) ↦ rw failed inv
      | inl (worker, started) ↦
          rw started
            (add_worker-IsPool pool leases worker inv, ((inv pool.next).made (omega arith)).1)
    ]

pub acquire-IsGiven :
    (start : WorkerLaunchSpec → Text → Result WorkerProcess) (engine_id : Text)
    (answers : ℕ → WaitAnswer) (pool : WorkerPool) (leases : List ℕ)
    → IsPool pool leases
    → IsGiven leases (acquire start engine_id answers pool)
unfolding acquire
acquire-IsGiven start engine_id answers pool leases inv =
    let walked : Walked = find_idle engine_id answers pool.workers pool.processes in
    let walk : (other : ℕ) → IsWalk pool.workers pool.processes walked other =
      find_idle-IsWalk engine_id answers pool.workers pool.processes in
    elim (Option-cases walked.taken) [
      | inr (id, taken) ↦ rw taken (
        taken-IsPool pool leases inv walked id walk taken,
        walk_free pool leases inv walked id walk taken,
      )
      | inl nothing ↦ rw nothing (
          launch_worker-IsGiven start engine_id (walked_pool pool walked) leases _
            (passed-IsPool pool leases inv walked walk nothing))
    ]
