-- ===== src/Kernel/Ends.antt =====
-- The end of an attempt: the calls that it makes, and the reservation that it gives back.
use mathlib.Core.Path.{subst}
use madre.Base.{
  ℕ, ◌≡◌, ◌∙◌, inl, inr, refl, ap, List, [], ◌∷◌, ◌++◌, Bytes, Text, Map, what, All, All-append,
  codes, Result-cases, by_test,
}
use madre.Store.{WorkStore, AttemptState, WorkRecord}
use madre.Store.Completion.{cancel_requested}
use madre.Store.History.{Call, stops, breaks, succeeds, step, run}
use madre.Resources.{ResourceRequirement, release}
use madre.Resources.Accounting.{IsRequirement, Holds}
use madre.Resources.Ownership.{release-Holds}
use madre.Kernel.Files.{write_binary_atomic}
use madre.Kernel.Attempts.{
  WorkerOutcomeKind, WorkerOutcome, Saved, finish_outcome, save_success, fail_execution,
}
use madre.Kernel.Scheduler.{AttemptTask, SchedulerState}
use madre.Kernel.Reservations.{reservations}
use madre.Kernel.System.{System, end_task, IsSystem}
use madre.Kernel.Turns.{Reaches}

abbrev pub AsRun : WorkStore → WorkStore → Type 0
AsRun db db' = (calls : List Call) × (db' ≡ run db calls)

pub no_call : (db : WorkStore) → AsRun db db
unfolding run
no_call db = ([], refl)

one_call : (db : WorkStore) (c : Call) → AsRun db (step db c)
unfolding run
one_call db c = (c ∷ [], refl)

save_success-run :
    (work : WorkRecord) (n : ℕ) (payload : Bytes) (ended_at : ℕ) (db : WorkStore)
    (files : Map Bytes)
    → AsRun db (save_success work n payload ended_at (db, files)).0
unfolding save_success fail_execution step
save_success-run work n payload ended_at db files =
    by_test (λ (saved : Saved). AsRun db saved.0) (cancel_requested work.id db) _ _
      (λ cancelled. one_call db (stops work.id n ended_at))
      (λ wanted. elim (Result-cases (write_binary_atomic work.result_path payload files)) [
        | inr (e, f) ↦ rw (f) (
            one_call db (
              breaks work.id n AttemptState.failed (codes "WORKER_EXECUTION_FAILURE: " ++ what e)
                ended_at))
        | inl (files', f) ↦ rw f (one_call db (succeeds work.id n ended_at))
      ])

pub finish_outcome-run :
    (work : WorkRecord) (n : ℕ) (kind : WorkerOutcomeKind) (outcome : WorkerOutcome) (ended_at : ℕ)
    (db : WorkStore) (files : Map Bytes)
    → outcome.kind ≡ kind
    → AsRun db (finish_outcome work n outcome ended_at (db, files)).0
unfolding finish_outcome step
finish_outcome-run work n WorkerOutcomeKind.stopped outcome ended_at db files e = rw e (no_call db)
finish_outcome-run work n WorkerOutcomeKind.cancelled outcome ended_at db files e =
    rw e (one_call db (stops work.id n ended_at))
finish_outcome-run work n WorkerOutcomeKind.timed_out outcome ended_at db files e =
    rw e (one_call db (breaks work.id n AttemptState.timed_out outcome.technical_failure ended_at))
finish_outcome-run work n WorkerOutcomeKind.technical_failure outcome ended_at db files e =
    rw e (one_call db (breaks work.id n AttemptState.failed outcome.technical_failure ended_at))
finish_outcome-run work n WorkerOutcomeKind.crashed outcome ended_at db files e =
    rw e (one_call db (breaks work.id n AttemptState.failed outcome.technical_failure ended_at))
finish_outcome-run work n WorkerOutcomeKind.succeeded outcome ended_at db files e =
    rw e (save_success-run work n outcome.payload ended_at db files)

pub fail_execution-run :
    (id : Text) (n : ℕ) (message : Text) (ended_at : ℕ) (db : WorkStore)
    → AsRun db (fail_execution id n message ended_at db)
unfolding fail_execution step
fail_execution-run id n message ended_at db =
    one_call db
      (breaks id n AttemptState.failed (codes "WORKER_EXECUTION_FAILURE: " ++ message) ended_at)

reservations-middle :
    (before after : List AttemptTask) (t : AttemptTask)
    → reservations (before ++ (t ∷ after))
      ≡ reservations before ++ (t.reservation ∷ reservations after)
reservations-middle [] after t = refl
reservations-middle (x ∷ before) after t =
    ap (λ rest. x.reservation ∷ rest) (reservations-middle before after t)

reservations-append :
    (before after : List AttemptTask)
    → reservations (before ++ after) ≡ reservations before ++ reservations after
reservations-append [] after = refl
reservations-append (x ∷ before) after =
    ap (λ rest. x.reservation ∷ rest) (reservations-append before after)

All-middle :
    (before after : List ResourceRequirement) (r : ResourceRequirement)
    → All IsRequirement (before ++ (r ∷ after))
    → IsRequirement r × All IsRequirement (before ++ after)
All-middle [] after r all = all
All-middle (x ∷ before) after r all =
    let (good, others) = All-middle before after r all.1 in (good, (all.0, others))

pub end_task-IsSystem :
    (before after : List AttemptTask) (t : AttemptTask) (saved : Saved) (s : System)
    → s.scheduler.attempt_tasks ≡ before ++ (t ∷ after)
    → IsSystem s
    → IsSystem (end_task (before ++ after) t saved s)
unfolding release
end_task-IsSystem before after t saved s e w =
    let split = ap reservations e ∙ reservations-middle before after t in
    let joined = reservations-append before after in
    let (good, others) =
      All-middle (reservations before) (reservations after) t.reservation
        (subst (All IsRequirement) split w.in_order) in
    record {
      accounted = record {
        capacity = w.accounted.capacity;
        holds = rw joined (
            release-Holds s.scheduler.resources t.reservation (reservations before)
              (reservations after) w.accounted.capacity good
              (subst (Holds s.scheduler.resources) split w.accounted.holds));
      };
      in_order = rw joined others;
    }

pub in_order_after :
    (s s' : SchedulerState)
    → Reaches s s'
    → All IsRequirement (reservations s.attempt_tasks)
    → All IsRequirement (reservations s'.attempt_tasks)
in_order_after s s' r all = elim r.tasks [
  | inl same ↦ rw same all
  | inr (t, added, good) ↦
      rw (added, reservations-append s.attempt_tasks (t ∷ []))
        (All-append IsRequirement (reservations s.attempt_tasks) (t.reservation ∷ []) all
          (good, tt))
]
