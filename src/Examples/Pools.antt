-- ===== src/Examples/Pools.antt =====
-- The theorems on the pool of workers, with two workers of one engine.
use madre.Base.{
  ℕ, ◌≡◌, refl, [], ◌∷◌, none, some, true, false, Text, codes, Map, ok, Result, is_empty, lookup,
  text_eq,
}
use madre.Options.{WorkerLaunchSpec}
use madre.Workers.{WorkerProcess, WaitAnswer, signal, running, alive}
use madre.Workers.Pool.{Processes, WorkerPool, make_pool, acquire, find_idle, add_worker, reap_idle}
use madre.Workers.Walks.{count}
use madre.Workers.Leases.{IsPool}
use madre.Workers.Runs.{PoolStep, PoolRun, step-IsPool, acquire-IsExclusive, made-IsPool}
use madre.Workers.Reuse.{reap_idle_lem}
use madre.Workers.Launching.{returns, fails, LaunchAnswers, EndAnswers, launch}
use madre.Workers.Descriptors.{IsLaunched, launch-IsLaunched}

abbrev engine : Text
engine = b'e' ∷ []

abbrev spec : WorkerLaunchSpec
spec = record { executable = b'x' ∷ []; arguments = [] }

abbrev specs : Map WorkerLaunchSpec
specs = (engine, spec) ∷ []

abbrev worker : WorkerProcess
worker = record {
  engine_id = engine;
  response_reader = [];
  pid = some 30;
  last_wait_status = none;
  input_fd = some 5;
  output_fd = some 6;
  busy = false;
  last_used_ms = 0;
}

abbrev nowhere : Processes
nowhere = λ id. worker

abbrev first : WorkerPool
first = record {
  launch_specs = specs;
  idle_timeout_ms = 50;
  workers = [];
  processes = nowhere;
  next = 0;
}

made : make_pool specs 50 nowhere ≡ ok first
unfolding make_pool is_empty
made = refl

abbrev start : WorkerLaunchSpec → Text → Result WorkerProcess
start spec' engine_id = ok worker

abbrev all_run : ℕ → WaitAnswer
all_run id = running

abbrev one_worker : WorkerPool
one_worker = add_worker first worker

acquired_first : acquire start engine all_run first ≡ (ok 0, one_worker)
unfolding acquire find_idle lookup text_eq
acquired_first = refl

acquired_second : acquire start engine all_run one_worker ≡ (ok 1, add_worker one_worker worker)
unfolding acquire find_idle lookup text_eq
acquired_second = refl

abbrev one_lease : PoolStep first [] one_worker (0 ∷ [])
one_lease = PoolStep.acquires start engine all_run first one_worker [] 0 acquired_first

step-IsPool_example : IsPool one_worker (0 ∷ [])
step-IsPool_example = step-IsPool one_lease (made-IsPool specs 50 nowhere first made)

acquire-IsExclusive_example :
    (count 1 (0 ∷ []) ≡ 0) × (((add_worker one_worker worker).processes 1).busy ≡ true)
acquire-IsExclusive_example =
    acquire-IsExclusive specs 50 nowhere first one_worker (add_worker one_worker worker) (0 ∷ [])
      start engine all_run 1 made
      (PoolRun.continues first one_worker [] (0 ∷ []) PoolRun.starts one_lease) acquired_second

reap_idle_lem_example :
    (count 0 (reap_idle 500 all_run (λ id. signal 9) one_worker).workers ≡ 1)
    × ((reap_idle 500 all_run (λ id. signal 9) one_worker).processes 0 ≡ one_worker.processes 0)
unfolding alive
reap_idle_lem_example =
    reap_idle_lem 500 all_run (λ id. signal 9) one_worker 0 (record { lives = refl; busy = refl })

abbrev good_end : EndAnswers
good_end = record { set_cloexec = none; duplicate = fails (codes "unused") }

-- The second pipe is made, but its second end cannot be marked.
abbrev failing : LaunchAnswers
failing = record {
  parent_to_child = record { pipe = returns (3, 4); first = good_end; second = good_end };
  child_to_parent = record {
    pipe = returns (5, 6);
    first = good_end;
    second = record good_end { set_cloexec = some (codes "EBADF") };
  };
  init = none;
  actions = [];
  spawn = λ program arguments. returns 30;
  input_nonblocking = none;
  output_nonblocking = none;
  killed = signal 9;
  now = 100;
}

launch-IsLaunched_example : IsLaunched 4 0 (launch failing spec engine [])
launch-IsLaunched_example = launch-IsLaunched failing spec engine [] 4
