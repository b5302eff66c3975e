-- ===== src/Examples/Whole.antt =====
-- The theorems on the whole Kernel: a turn begins a second attempt, and both attempts end.
use madre.Base.{◌≡◌, refl, List, [], ◌∷◌, some, Text, codes, text_eq, find_if}
use madre.Store.{WorkRecord, WorkState}
use madre.Store.Rows.{row}
use madre.Engines.{EngineDescriptorFacts}
use madre.Resources.{used_of}
use madre.Kernel.Attempts.{WorkerOutcomeKind, WorkerOutcome, finish_outcome, fail_execution}
use madre.Kernel.Scheduler.{AttemptTask}
use madre.Kernel.System.{System, SystemStep, IsSystem, end_task}
use madre.Kernel.Ends.{AsRun}
use madre.Kernel.Interleavings.{SystemRun, run-IsSystem, run-idle, run-final}
use madre.Examples.Machine.{
  before_turn, after_turn, inputs, engine, running_task, begins_turn, requirement-IsRequirement,
  capacity-IsCapacity, lent-Holds,
}

abbrev data_dir : Text
data_dir = b'd' ∷ []

abbrev inventory : List EngineDescriptorFacts
inventory = engine ∷ []

abbrev first : System
first = record { scheduler = before_turn; files = [] }

first-IsSystem : IsSystem first
first-IsSystem = record {
  accounted = record { capacity = capacity-IsCapacity; holds = lent-Holds };
  in_order = (requirement-IsRequirement, tt);
}

abbrev second : System
second = record { scheduler = after_turn; files = [] }

abbrev second_task : AttemptTask
second_task = record running_task { started_at_ms = 151 }

abbrev timed_out : WorkerOutcome
timed_out = record {
  kind = WorkerOutcomeKind.timed_out;
  payload = [];
  technical_failure = codes "late";
}

-- The first attempt times out, the second throws.
abbrev third : System
third =
    end_task (second_task ∷ []) running_task
      (finish_outcome running_task.work 1 timed_out 200 (second.scheduler.store, second.files))
      second

abbrev fourth : System
fourth =
    end_task [] second_task
      (fail_execution second_task.work.id 1 (codes "gone") 210 third.scheduler.store, third.files)
      third

whole_run : SystemRun data_dir inventory first fourth
whole_run =
    SystemRun.continues third fourth
      (SystemRun.continues second third
        (SystemRun.continues first second SystemRun.starts
          (SystemStep.turns inputs first after_turn begins_turn))
        (SystemStep.ends [] (second_task ∷ []) running_task timed_out 200 second refl))
      (SystemStep.throws [] [] second_task (codes "gone") 210 third refl)

run-IsSystem_example : IsSystem fourth × AsRun first.scheduler.store fourth.scheduler.store
run-IsSystem_example =
    run-IsSystem data_dir inventory (requirement-IsRequirement, tt) first-IsSystem whole_run

run-idle_example :
    (fourth.scheduler.resources.cpu_used ≡ 0)
    × (fourth.scheduler.resources.ram_used ≡ 0)
    × (used_of fourth.scheduler.resources (b'g' ∷ []) ≡ 0)
run-idle_example =
    run-idle data_dir inventory first fourth (b'g' ∷ []) (requirement-IsRequirement, tt)
      first-IsSystem whole_run refl

-- The same Work, cancelled before its attempt ends.
abbrev cancelled_work : WorkRecord
cancelled_work = record running_task.work { state = WorkState.cancelled }

abbrev with_cancelled : System
with_cancelled = record {
  scheduler = record before_turn { store = record { work = cancelled_work ∷ []; attempts = [] } };
  files = [];
}

abbrev late_end : System
late_end =
    end_task [] running_task
      (finish_outcome running_task.work 1 timed_out 200
        (with_cancelled.scheduler.store, with_cancelled.files))
      with_cancelled

run-final_example :
    (w : WorkRecord) × (row running_task.work.id late_end.scheduler.store ≡ some w)
    × (w ≡ record cancelled_work { acknowledged = w.acknowledged })
unfolding find_if text_eq
run-final_example =
    run-final data_dir inventory with_cancelled late_end running_task.work.id cancelled_work
      (requirement-IsRequirement, tt)
      (record {
        accounted = record { capacity = capacity-IsCapacity; holds = lent-Holds };
        in_order = (requirement-IsRequirement, tt);
      })
      (SystemRun.continues with_cancelled late_end SystemRun.starts
        (SystemStep.ends [] [] running_task timed_out 200 with_cancelled refl))
      refl refl
