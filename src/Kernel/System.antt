-- ===== src/Kernel/System.antt =====
-- The Kernel as a whole: turns of the scheduler, commands of clients and ends of attempts, in any
-- order. Each is one step of the model: a mutex makes each call of the store and of the manager one
-- step in the code, but a turn makes several such calls, and another thread's call that falls between
-- two of them is not modelled.
use madre.Base.{ℕ, ◌≡◌, List, ◌∷◌, ◌++◌, Bytes, Text, Map, ok, All}
use madre.Protocol.{Frame}
use madre.Resources.{release}
use madre.Resources.Accounting.{IsRequirement}
use madre.Engines.{EngineDescriptorFacts}
use madre.Kernel.{Kernel}
use madre.Kernel.Dispatch.{Surroundings, handle}
use madre.Kernel.Attempts.{WorkerOutcome, Saved, finish_outcome, fail_execution}
use madre.Kernel.Scheduler.{AttemptTask, SchedulerState, TurnInputs, turn}
use madre.Kernel.Reservations.{IsAccounted, reservations}

pub record System : Type 0 where
  pub scheduler : SchedulerState
  pub files : Map Bytes

-- What the handlers of the commands see.
abbrev pub kernel_of : Text → List EngineDescriptorFacts → System → Kernel
kernel_of data_dir inventory s = record {
  data_dir = data_dir;
  engine_inventory = inventory;
  store = s.scheduler.store;
  files = s.files;
}

abbrev pub with_kernel : System → Kernel → System
with_kernel s kernel = record {
  scheduler = record s.scheduler { store = kernel.store };
  files = kernel.files;
}

-- `execute_worker` returns with what it has saved, and its reservation goes out of scope.
abbrev pub end_task : List AttemptTask → AttemptTask → Saved → System → System
end_task others t (store, files) s = record {
  scheduler = record {
    store = store;
    resources = release s.scheduler.resources t.reservation;
    attempt_tasks = others;
  };
  files = files;
}

pub data SystemStep (data_dir : Text) (inventory : List EngineDescriptorFacts)
    : System → System → Type 0 where
  turns :
      (inputs : TurnInputs) (s : System) (scheduler : SchedulerState)
      → turn inventory inputs s.scheduler ≡ ok scheduler
      → SystemStep data_dir inventory s (record s { scheduler = scheduler })
  serves :
      (around : Surroundings) (request : Frame) (s : System)
      → SystemStep data_dir inventory s
          (with_kernel s (handle around request (kernel_of data_dir inventory s)).0)
  ends :
      (before after : List AttemptTask) (t : AttemptTask) (outcome : WorkerOutcome) (ended_at : ℕ)
      (s : System)
      → s.scheduler.attempt_tasks ≡ before ++ (t ∷ after)
      → SystemStep data_dir inventory s (
          end_task
            (before ++ after)
            t
            (finish_outcome t.work t.attempt_number outcome ended_at (s.scheduler.store, s.files))
            s)
  throws :
      (before after : List AttemptTask) (t : AttemptTask) (message : Text) (ended_at : ℕ)
      (s : System)
      → s.scheduler.attempt_tasks ≡ before ++ (t ∷ after)
      → SystemStep data_dir inventory s (
          end_task
            (before ++ after)
            t
            (fail_execution t.work.id t.attempt_number message ended_at s.scheduler.store, s.files)
            s)

-- The counters are what the running attempts hold, and every reservation is in order.
pub record IsSystem (s : System) : Type 0 where
  pub accounted : IsAccounted s.scheduler
  pub in_order : All IsRequirement (reservations s.scheduler.attempt_tasks)
