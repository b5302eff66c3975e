-- ===== src/Kernel/Interleavings.antt =====
-- What holds of the Kernel over all interleavings of its steps.
use mathlib.Core.Path.{subst}
use madre.Base.{some, ◌≡◌, ◌∙◌, refl, sym, ap, List, [], ◌∷◌, ◌++◌, true, Text}
use madre.Store.{WorkStore, WorkRecord}
use madre.Store.Rows.{row}
use madre.Store.Evolution.Runs.{run_terminal}
use madre.Store.History.{Call, step, run}
use madre.Store.Evolution.{is_terminal}
use madre.Resources.{used_of}
use madre.Resources.Accounting.{Holds}
use madre.Engines.{EngineDescriptorFacts}
use madre.Kernel.Effects.{handle-run}
use madre.Kernel.Reservations.{AllRequirements, reservations, turn-IsAccounted}
use madre.Kernel.System.{System, kernel_of, SystemStep, IsSystem}
use madre.Kernel.Turns.{TurnReaches, turn-Reaches}
use madre.Kernel.Ends.{
  AsRun, no_call, finish_outcome-run, fail_execution-run, end_task-IsSystem, in_order_after,
}

module _ (data_dir : Text) (inventory : List EngineDescriptorFacts)
    (v : AllRequirements inventory) where
  -- A turn of the scheduler, a command, or the end of an attempt by an outcome or an exception: the
  -- manager's counters stay what the running attempts hold, and what was given for an attempt that
  -- ends is free again. The engines' requirements are in order.
  pub step-IsSystem :
      {s s' : System} → SystemStep data_dir inventory s s' → IsSystem s → IsSystem s'
  step-IsSystem (SystemStep.turns inputs s scheduler e) w = record {
    accounted = turn-IsAccounted inventory inputs v s.scheduler scheduler w.accounted e;
    in_order =
        in_order_after s.scheduler scheduler
          (subst (TurnReaches s.scheduler) e (turn-Reaches inventory inputs v s.scheduler))
          w.in_order;
  }
  step-IsSystem (SystemStep.serves around request s) w = record {
    accounted = record { capacity = w.accounted.capacity; holds = w.accounted.holds };
    in_order = w.in_order;
  }
  step-IsSystem (SystemStep.ends before after t outcome ended_at s e) w =
      end_task-IsSystem before after t _ s e w
  step-IsSystem (SystemStep.throws before after t message ended_at s e) w =
      end_task-IsSystem before after t _ s e w

  step-run :
      {s s' : System}
      → SystemStep data_dir inventory s s'
      → AsRun s.scheduler.store s'.scheduler.store
  step-run (SystemStep.turns inputs s scheduler e) =
      (subst (TurnReaches s.scheduler) e (turn-Reaches inventory inputs v s.scheduler)).called
  step-run (SystemStep.serves around request s) =
      handle-run around request (kernel_of data_dir inventory s)
  step-run (SystemStep.ends before after t outcome ended_at s e) =
      finish_outcome-run t.work t.attempt_number outcome.kind outcome ended_at s.scheduler.store
        s.files refl
  step-run (SystemStep.throws before after t message ended_at s e) =
      fail_execution-run t.work.id t.attempt_number message ended_at s.scheduler.store

-- Any number of steps.
pub data SystemRun (data_dir : Text) (inventory : List EngineDescriptorFacts) (first : System)
    : System → Type 0 where
  starts : SystemRun data_dir inventory first first
  continues :
      (s s' : System)
      → SystemRun data_dir inventory first s
      → SystemStep data_dir inventory s s'
      → SystemRun data_dir inventory first s'

run-append : (cs ds : List Call) (db : WorkStore) → run db (cs ++ ds) ≡ run (run db cs) ds
unfolding run
run-append [] ds db = refl
run-append (c ∷ cs) ds db = run-append cs ds (step db c)

-- However turns, commands and ends of attempts interleave: the manager's counters are what the
-- attempts that run then hold, and the database is what a sequence of calls of the store makes of
-- the first one. The engines' requirements are in order, and at first the counters are right.
pub run-IsSystem :
    (data_dir : Text) (inventory : List EngineDescriptorFacts) {first s : System}
    → AllRequirements inventory
    → IsSystem first
    → SystemRun data_dir inventory first s
    → IsSystem s × AsRun first.scheduler.store s.scheduler.store
run-IsSystem data_dir inventory v w starts = (w, no_call _)
run-IsSystem data_dir inventory {first = first} v w (continues s s' run' moved) =
    let (here_w, (calls, e)) = run-IsSystem data_dir inventory v w run' in
    let (more, e') = step-run data_dir inventory v moved in
    (
      step-IsSystem data_dir inventory v moved here_w,
      (
        calls ++ more,
        e' ∙ ap (λ db. run db more) e ∙ sym (run-append calls more first.scheduler.store),
      ),
    )

-- After any such interleaving in which every attempt has ended, the machine is free again: nothing
-- is counted as used, of processors, memory or any GPU.
pub run-idle :
    (data_dir : Text) (inventory : List EngineDescriptorFacts) (first s : System) (gpu : Text)
    → AllRequirements inventory
    → IsSystem first
    → SystemRun data_dir inventory first s
    → s.scheduler.attempt_tasks ≡ []
    → (s.scheduler.resources.cpu_used ≡ 0)
      × (s.scheduler.resources.ram_used ≡ 0)
      × (used_of s.scheduler.resources gpu ≡ 0)
run-idle data_dir inventory first s gpu v w run' idle =
    let holds = (run-IsSystem data_dir inventory v w run').0.accounted.holds in
    let free : Holds s.scheduler.resources [] =
      subst (λ tasks. Holds s.scheduler.resources (reservations tasks)) idle holds in
    (free.cpu, free.ram, free.vram gpu)

-- Once Work has succeeded, failed or been cancelled, no such interleaving changes anything of its row
-- but the acknowledgement of its result: not a late end of one of its attempts, nor a command.
pub run-final :
    (data_dir : Text) (inventory : List EngineDescriptorFacts) (first s : System) (id : Text)
    (v : WorkRecord)
    → AllRequirements inventory
    → IsSystem first
    → SystemRun data_dir inventory first s
    → row id first.scheduler.store ≡ some v
    → is_terminal v.state ≡ true
    → (w : WorkRecord) × (row id s.scheduler.store ≡ some w)
      × (w ≡ record v { acknowledged = w.acknowledged })
run-final data_dir inventory first s id v good w run' is_row final =
    let (calls, e) = (run-IsSystem data_dir inventory good w run').1 in
    rw e (run_terminal calls first.scheduler.store id v is_row final)
