-- ===== src/Kernel/Scheduler.antt =====
-- `Kernel::scheduler_loop`: one turn of the loop, which fails, starts or leaves one Work.
use madre.Base.{
  ℕ, List, [], ◌∷◌, ◌++◌, Option, none, some, Bool, true, false, ◌==◌, Text, codes, if◌then◌else◌,
  Result, ok, ◌>>=◌,
}
use madre.Store.{WorkRecord, WorkStore, AttemptState}
use madre.Store.Operations.{
  expire_queued_deadlines, next_eligible, fail_queued, begin_attempt, deadline_passed,
  deadline_expired_before_dispatch,
}
use madre.Store.Completion.{finish_retryable_failure}
use madre.Store.History.{after}
use madre.Resources.{ResourceManager, ResourceRequirement, can_ever_reserve, try_reserve, release}
use madre.Engines.{EngineDescriptorFacts, SelectedEngine, select_engine}

-- An attempt that runs, with the reservation that it holds.
pub record AttemptTask : Type 0 where
  pub work : WorkRecord
  pub attempt_number : ℕ
  pub started_at_ms : ℕ
  pub reservation : ResourceRequirement

pub record SchedulerState : Type 0 where
  pub store : WorkStore
  pub resources : ResourceManager
  pub attempt_tasks : List AttemptTask

-- What the outside contributes to a turn: the clock when it begins, when an attempt starts and when
-- a launch has failed; SQLite's message; and whether the pool gives a worker (`none`) or throws.
pub record TurnInputs : Type 0 where
  pub scheduler_now : ℕ
  pub started_at : ℕ
  pub failed_at : ℕ
  pub errmsg : Text
  pub launch_failure : Option Text

abbrev pub fail_with : WorkRecord → Text → SchedulerState → SchedulerState
fail_with work failure s = record s { store = fail_queued work.id failure s.store }

-- The reservation goes out of scope.
abbrev pub give_back : ResourceRequirement → SchedulerState → SchedulerState
give_back requirement s = record s { resources = release s.resources requirement }

abbrev pub launch_failed : WorkRecord → ℕ → Text → ℕ → SchedulerState → SchedulerState
launch_failed work n message at s = record s {
  store = after s.store (
      finish_retryable_failure work.id n AttemptState.failed
        (codes "WORKER_LAUNCH_FAILURE: " ++ message) at s.store);
}

-- With the attempt begun, unless its number is 0.
unfoldable pub launch :
    TurnInputs → WorkRecord → SelectedEngine → ℕ → SchedulerState → SchedulerState
launch inputs work selected n s =
    let requirement = selected.engine.resources in
    if n == 0 then give_back requirement s else elim inputs.launch_failure [
      | some message ↦ give_back requirement (launch_failed work n message inputs.failed_at s)
      | none ↦ record s {
        attempt_tasks =
            s.attempt_tasks
            ++ (record {
              work = work;
              attempt_number = n;
              started_at_ms = inputs.started_at;
              reservation = requirement;
            }
                ∷ []);
      }
    ]

-- With the reservation made.
unfoldable pub begin_work :
    TurnInputs → WorkRecord → SelectedEngine → SchedulerState → Result SchedulerState
begin_work inputs work selected s =
    if deadline_passed inputs.started_at work.deadline_ms
    then ok
        (give_back selected.engine.resources (fail_with work deadline_expired_before_dispatch s))
    else (do
      (n, store) ←
          begin_attempt inputs.errmsg work.id selected.engine.id selected.model_id inputs.started_at
            s.store
      ok (launch inputs work selected n (record s { store = store })))

abbrev pub insufficient_capacity : Text
insufficient_capacity =
    codes "INSUFFICIENT_CAPACITY: selected engine requirements exceed configured Kernel capacity"

-- With the answer of `try_reserve`.
abbrev pub reserved_work :
    TurnInputs
    → WorkRecord
    → SelectedEngine
    → SchedulerState
    → Bool × ResourceManager
    → Result SchedulerState
reserved_work inputs work selected s (true, resources) =
    begin_work inputs work selected (record s { resources = resources })
reserved_work inputs work selected s (false, resources) = ok (record s { resources = resources })

abbrev pub reserve_possible :
    TurnInputs → WorkRecord → SelectedEngine → SchedulerState → Bool → Result SchedulerState
reserve_possible inputs work selected s true =
    try_reserve s.resources selected.engine.resources >>= reserved_work inputs work selected s
reserve_possible inputs work selected s false = ok (fail_with work insufficient_capacity s)

unfoldable pub reserve_work :
    TurnInputs → WorkRecord → SelectedEngine → SchedulerState → Result SchedulerState
reserve_work inputs work selected s =
    can_ever_reserve s.resources selected.engine.resources
    >>= reserve_possible inputs work selected s

abbrev pub dispatch_selected :
    TurnInputs → WorkRecord → Text → Option SelectedEngine → SchedulerState → Result SchedulerState
dispatch_selected inputs work failure none s = ok (fail_with work failure s)
dispatch_selected inputs work failure (some selected) s = reserve_work inputs work selected s

unfoldable pub dispatch :
    List EngineDescriptorFacts → TurnInputs → WorkRecord → SchedulerState → Result SchedulerState
dispatch inventory inputs work s =
    if deadline_passed inputs.scheduler_now work.deadline_ms
    then ok (fail_with work deadline_expired_before_dispatch s)
    else (let selection = select_engine work inventory in
        dispatch_selected inputs work selection.failure selection.selection s)

abbrev pub dispatch_next :
    List EngineDescriptorFacts
    → TurnInputs
    → Option WorkRecord
    → SchedulerState
    → Result SchedulerState
dispatch_next inventory inputs none s = ok s
dispatch_next inventory inputs (some work) s = dispatch inventory inputs work s

-- One turn of the loop, from the sweep of the deadlines on; an error leaves the thread.
unfoldable pub turn :
    List EngineDescriptorFacts → TurnInputs → SchedulerState → Result SchedulerState
turn inventory inputs s =
    let swept = record s { store = expire_queued_deadlines inputs.scheduler_now s.store } in
    dispatch_next inventory inputs (next_eligible inputs.scheduler_now swept.store) swept
