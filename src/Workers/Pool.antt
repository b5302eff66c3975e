-- ===== src/Workers/Pool.antt =====
-- kernel/src/worker_runtime.cpp: `WorkerPool` and its `Lease`. Workers are objects that the pool and
-- a lease share: they stand in a store by their identity, and both keep the identity.
use madre.Base.{
  ℕ, ◌+◌, List, [], ◌∷◌, ◌++◌, Option, none, some, Bool, true, false, not, ◌&&◌, ◌==◌, Text, Bytes,
  codes, is_empty, text_eq, Map, lookup, lt_i64, sub_u64, if◌then◌else◌, Result, ok, err, guard,
  runtime_error, invalid_argument, ◌>>◌, any_of,
}
use madre.Options.{WorkerLaunchSpec}
use madre.Workers.{WorkerProcess, WaitAnswer, WaitStatus, Attempt, Progress, alive, terminate}
use madre.Workers.Execution.{Outside, execute}

-- The objects. Those that were never made have no meaning.
abbrev pub Processes : Type 0
Processes = ℕ → WorkerProcess

abbrev pub put : ℕ → WorkerProcess → Processes → Processes
put id worker processes other = if other == id then worker else processes other

-- `workers_` with the store; identities from `next` on are free.
pub record WorkerPool : Type 0 where
  pub launch_specs : Map WorkerLaunchSpec
  pub idle_timeout_ms : ℕ
  pub workers : List ℕ
  pub processes : Processes
  pub next : ℕ

abbrev pub is_launch_ok : Map WorkerLaunchSpec → Bool
is_launch_ok [] = true
is_launch_ok ((engine_id, launch) ∷ specs) =
    not (is_empty engine_id) && (not (is_empty launch.executable) && is_launch_ok specs)

-- The constructor.
unfoldable pub make_pool : Map WorkerLaunchSpec → ℕ → Processes → Result WorkerPool
make_pool specs idle_timeout_ms processes = do
  guard (not (lt_i64 idle_timeout_ms 0))
      (invalid_argument (codes "worker idle timeout must be nonnegative"))
  guard (is_launch_ok specs) (
      invalid_argument
        (codes "worker launch configuration requires engine identity and executable"))
  ok (record {
    launch_specs = specs;
    idle_timeout_ms = idle_timeout_ms;
    workers = [];
    processes = processes;
    next = 0;
  })

-- What a walk over the workers leaves: those that stay, and the one that it ends with.
pub record Walked : Type 0 where
  pub taken : Option ℕ
  pub workers : List ℕ
  pub processes : Processes

abbrev pub keep : ℕ → Walked → Walked
keep id walked = record walked { workers = id ∷ walked.workers }

-- `worker->busy = true`
abbrev pub mark_busy : WorkerProcess → WorkerProcess
mark_busy worker = record worker { busy = true }

-- The loop of `acquire`.
unfoldable pub find_idle : Text → (ℕ → WaitAnswer) → List ℕ → Processes → Walked
find_idle engine_id waits [] processes = record {
  taken = none;
  workers = [];
  processes = processes;
}
find_idle engine_id waits (id ∷ ids) processes =
    let (living, worker) = alive (waits id) (processes id) in
    let past = keep id (find_idle engine_id waits ids processes) in
    let rest = find_idle engine_id waits ids (put id worker processes) in
    if (processes id).busy
    then past
    else if not living
    then rest
    else if text_eq worker.engine_id engine_id
    then record {
      taken = some id;
      workers = id ∷ ids;
      processes = put id (mark_busy worker) processes;
    }
    else keep id rest

abbrev pub walked_pool : WorkerPool → Walked → WorkerPool
walked_pool pool walked = record pool { workers = walked.workers; processes = walked.processes }

-- A new worker, which the constructor of `WorkerProcess` made.
abbrev pub add_worker : WorkerPool → WorkerProcess → WorkerPool
add_worker pool worker = record pool {
  workers = pool.workers ++ (pool.next ∷ []);
  processes = put pool.next (mark_busy worker) pool.processes;
  next = pool.next + 1;
}

abbrev pub added : WorkerPool → Result WorkerProcess → Result ℕ × WorkerPool
added pool (err e) = (err e, pool)
added pool (ok worker) = (ok pool.next, add_worker pool worker)

abbrev pub launch_worker :
    (WorkerLaunchSpec → Text → Result WorkerProcess)
    → Text
    → WorkerPool
    → Option WorkerLaunchSpec
    → Result ℕ × WorkerPool
launch_worker start engine_id pool none =
    (err (runtime_error (codes "no worker launch configuration for engine " ++ engine_id)), pool)
launch_worker start engine_id pool (some launch) = added pool (start launch engine_id)

abbrev pub acquired :
    (WorkerLaunchSpec → Text → Result WorkerProcess)
    → Text
    → WorkerPool
    → Option ℕ
    → Result ℕ × WorkerPool
acquired start engine_id pool (some id) = (ok id, pool)
acquired start engine_id pool none =
    launch_worker start engine_id pool (lookup engine_id pool.launch_specs)

-- The worker of the lease, or what `acquire` throws.
unfoldable pub acquire :
    (WorkerLaunchSpec → Text → Result WorkerProcess)
    → Text
    → (ℕ → WaitAnswer)
    → WorkerPool
    → Result ℕ × WorkerPool
acquire start engine_id waits pool =
    let walked = find_idle engine_id waits pool.workers pool.processes in
    acquired start engine_id (walked_pool pool walked) walked.taken

-- The loop of `is_warm`, which looks at busy workers too.
unfoldable pub find_warm : Text → (ℕ → WaitAnswer) → List ℕ → Processes → Walked
find_warm engine_id waits [] processes = record {
  taken = none;
  workers = [];
  processes = processes;
}
find_warm engine_id waits (id ∷ ids) processes =
    let (living, worker) = alive (waits id) (processes id) in
    let rest = find_warm engine_id waits ids (put id worker processes) in
    if not living
    then rest
    else if text_eq worker.engine_id engine_id
    then record { taken = some id; workers = id ∷ ids; processes = put id worker processes }
    else keep id rest

abbrev is_some : Option ℕ → Bool
is_some none = false
is_some (some id) = true

unfoldable pub is_warm : Text → (ℕ → WaitAnswer) → WorkerPool → Bool × WorkerPool
is_warm engine_id waits pool =
    let walked = find_warm engine_id waits pool.workers pool.processes in
    (is_some walked.taken, walked_pool pool walked)

-- `!worker->busy && current_ms - worker->last_used_ms >= idle_timeout_ms_`
abbrev pub is_overdue : ℕ → ℕ → WorkerProcess → Bool
is_overdue idle_timeout_ms current_ms worker =
    not worker.busy && not (lt_i64 (sub_u64 current_ms worker.last_used_ms) idle_timeout_ms)

-- The loop of `reap_idle`.
unfoldable pub reap : ℕ → ℕ → (ℕ → WaitAnswer) → (ℕ → WaitStatus) → List ℕ → Processes → Walked
reap idle_timeout_ms current_ms waits killed [] processes = record {
  taken = none;
  workers = [];
  processes = processes;
}
reap idle_timeout_ms current_ms waits killed (id ∷ ids) processes =
    let (living, worker) = alive (waits id) (processes id) in
    let rest = reap idle_timeout_ms current_ms waits killed ids (put id worker processes) in
    let reaped =
      reap idle_timeout_ms current_ms waits killed ids
        (put id (terminate (killed id) worker) processes) in
    if not living
    then rest
    else if is_overdue idle_timeout_ms current_ms worker
    then reaped
    else keep id rest

unfoldable pub reap_idle : ℕ → (ℕ → WaitAnswer) → (ℕ → WaitStatus) → WorkerPool → WorkerPool
reap_idle current_ms waits killed pool =
    walked_pool pool (reap pool.idle_timeout_ms current_ms waits killed pool.workers pool.processes)

abbrev pub terminate_all : (ℕ → WaitStatus) → List ℕ → Processes → Processes
terminate_all killed [] processes = processes
terminate_all killed (id ∷ ids) processes =
    terminate_all killed ids (put id (terminate (killed id) (processes id)) processes)

unfoldable pub shutdown : (ℕ → WaitStatus) → WorkerPool → WorkerPool
shutdown killed pool = record pool {
  workers = [];
  processes = terminate_all killed pool.workers pool.processes;
}

abbrev pub erase_worker : ℕ → List ℕ → List ℕ
erase_worker id [] = []
erase_worker id (x ∷ xs) = let rest = x ∷ erase_worker id xs in if x == id then xs else rest

-- `worker->busy = false; worker->last_used_ms = now_ms();`
abbrev pub mark_idle : ℕ → WorkerProcess → WorkerProcess
mark_idle now worker = record worker { busy = false; last_used_ms = now }

unfoldable pub release : ℕ → WaitAnswer → ℕ → WorkerPool → WorkerPool
release now answer id pool =
    let (living, worker) = alive answer (mark_idle now (pool.processes id)) in
    let idle = record pool { processes = put id worker pool.processes } in
    if not (any_of (λ x. x == id) pool.workers)
    then pool
    else if living
    then idle
    else record idle { workers = erase_worker id pool.workers }

-- `Lease`: the worker that it has, if any.
unfoldable pub reset : ℕ → WaitAnswer → Option ℕ → WorkerPool → Option ℕ × WorkerPool
reset now answer none pool = (none, pool)
reset now answer (some id) pool = (none, release now answer id pool)

abbrev pub left_by : ℕ → WorkerPool → Bytes × Progress WorkerProcess → WorkerPool
left_by id pool (taken, Progress.waits) = pool
left_by id pool (taken, Progress.goes_on worker) = pool
left_by id pool (taken, Progress.ends outcome worker) = record pool {
  processes = put id worker pool.processes;
}

-- An attempt on the worker of a lease, which must have one.
unfoldable pub execute_lease :
    Attempt → Outside → Option ℕ → WorkerPool → Result (Bytes × Progress WorkerProcess) × WorkerPool
execute_lease attempt outside none pool =
    (err (runtime_error (codes "worker lease is empty")), pool)
execute_lease attempt outside (some id) pool =
    let run = execute attempt outside (pool.processes id) in (ok run, left_by id pool run)

-- A move leaves the other lease empty; over a lease, that one is reset first. The two are different
-- objects, as an assignment of a lease to itself does nothing.
unfoldable pub move_construct : Option ℕ → Option ℕ × Option ℕ
move_construct other = (other, none)

unfoldable pub move_assign :
    ℕ → WaitAnswer → Option ℕ → Option ℕ → WorkerPool → (Option ℕ × Option ℕ) × WorkerPool
move_assign now answer lease other pool = ((other, none), (reset now answer lease pool).1)
